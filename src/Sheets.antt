-- ===== src/Sheets.antt =====
-- src/lark/sheets/mod.rs and the A1 ranges of src/lark/sheets/rich_text.rs.
pub mod Columns
pub mod Link
pub mod Read
use lark_utils_exp.Prelude.{
  ℕ, zero, suc, ◌+◌, ◌-◌, ◌*◌, ◌/◌, ◌%◌, ◌^◌, ℤ, pos, negsuc, List, [], ◌∷◌, ◌++◌, Bool, true,
  false, ◌&&◌, ◌||◌, Option, none, some, ok, err, panic, ◌>>=◌, ◌>>◌, leb, ltb, ◌==◌, if◌then◌else◌,
  is_nil,
}
use lark_utils_exp.Text.{Text, text, replace}
use lark_utils_exp.Text.Decimal.{decimal, parse_magnitude}
use lark_utils_exp.Error.{Error, message, Fallible}

-- The `while` loop of `column_number_to_name`; `result.insert(0, ch)` puts a letter in front.
unfoldable pub column_name_from : ℕ → ℕ → Text → Text
column_name_from zero n result = result
column_name_from (suc fuel) n result =
    let rest = column_name_from fuel ((n - 1) / 26) (((n - 1) % 26 + b'A') ∷ result) in
    if n == 0 then result else rest

-- fn column_number_to_name; the number falls in each round, so that it is fuel enough
unfoldable pub column_number_to_name : ℤ → Fallible Text
unfolding column_name_from
column_number_to_name (pos zero) = panic
column_number_to_name (pos (suc n)) = ok (column_name_from (suc n) (suc n) [])
column_number_to_name (negsuc n) = panic

abbrev is_positive : ℤ → Bool
is_positive (pos n) = ltb 0 n
is_positive (negsuc n) = false

abbrev row_text : ℤ → Text
row_text (pos n) = decimal n
row_text (negsuc n) = []

-- fn build_a1_range
unfoldable pub build_a1_range : ℤ → ℤ → Fallible Text
unfolding column_number_to_name decimal
build_a1_range rows columns =
    if is_positive rows
    then (do
      end_column ← column_number_to_name columns
      ok (text "A1:" ++ (end_column ++ row_text rows)))
    else panic

abbrev pub usize_limit : ℕ
usize_limit = 2 ^ 64

unfoldable pub is_alphabetic : ℕ → Bool
is_alphabetic c = (leb b'A' c && leb c b'Z') || (leb b'a' c && leb c b'z')

-- `byte.to_ascii_uppercase()`
abbrev pub to_upper : ℕ → ℕ
to_upper c = if leb b'a' c && leb c b'z' then c - 32 else c

-- The loop of `parse_a1_start` over the letters, with its checked arithmetic.
unfoldable pub column_value_from : ℕ → Text → Fallible ℕ
column_value_from column [] = ok column
column_value_from column (c ∷ letters) =
    let next = column * 26 + (to_upper c - b'A' + 1) in
    let rest = column_value_from next letters in
    if ltb next usize_limit then rest else err (message (text "飞书返回的 A1 列号过大"))

-- The letters in front, and what is behind them.
unfoldable pub split_letters : Text → Text × Text
unfolding is_alphabetic
split_letters [] = ([], [])
split_letters (c ∷ s) =
    let (letters, rest) = split_letters s in
    if is_alphabetic c then (c ∷ letters, rest) else ([], c ∷ s)

-- `rsplit_once('!')`: what is behind the last one, if there is one.
unfoldable pub after_last : ℕ → Text → Option Text
after_last d [] = none
after_last d (c ∷ s) = elim (after_last d s) [
  | some t ↦ some t
  | none ↦ if c == d then some s else none
]

-- `split(':').next()`
unfoldable pub before_first : ℕ → Text → Text
before_first d [] = []
before_first d (c ∷ s) = let rest = before_first d s in if c == d then [] else c ∷ rest

abbrev range_start : Text → Text
range_start range =
    let cells : Text = elim (after_last b'!' range) [ none ↦ range | some t ↦ t ] in
    replace (text "$") [] (before_first b':' cells)

-- `str::parse::<usize>`: an optional plus sign, and digits
abbrev parse_usize : Text → Option ℕ
parse_usize [] = none
parse_usize (c ∷ s) = parse_magnitude (usize_limit - 1) (if c == b'+' then s else c ∷ s)

abbrev row_of : Text → Fallible ℕ
row_of s = elim (parse_usize s) [
  | none ↦ err (message (text "飞书返回了无效的 A1 行号"))
  | some zero ↦ err (message (text "飞书返回了无效的 A1 行号"))
  | some (suc n) ↦ ok (suc n)
]

-- The column and the row of a cell's name.
unfoldable pub parse_cell : Text → Fallible (ℕ × ℕ)
unfolding split_letters column_value_from
parse_cell start =
    let (letters, digits) = split_letters start in
    if is_nil letters || is_nil digits
    then err (message (text "飞书返回了无效的 A1 范围"))
    else (do row ← row_of digits; column ← column_value_from 0 letters; ok (column, row))

-- fn parse_a1_start
unfoldable pub parse_a1_start : Text → Fallible (ℕ × ℕ)
unfolding parse_cell after_last before_first replace
parse_a1_start range = parse_cell (range_start range)

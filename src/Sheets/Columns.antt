-- ===== src/Sheets/Columns.antt =====
-- Column names and column numbers (src/lark/sheets/mod.rs and rich_text.rs).
use lark_utils_exp.Prelude.{
  ℕ, zero, suc, ◌+◌, ◌-◌, ◌*◌, ◌/◌, ◌%◌, ◌<◌, ◌≤◌, ◌^◌, [], ◌∷◌, false, ok, ◌==◌, ◌≡◌, refl, arith,
  pos, ap, sym, ◌∙◌,
}
use lark_utils_exp.Text.{Text}
use lark_utils_exp.Sheets.{
  column_name_from, column_number_to_name, column_value_from, usize_limit, to_upper,
}

-- The loop puts the letter of `n % 26` in front: its value is `n + 1` again.
letter_value :
    (n : ℕ) (result : Text)
    → suc n < usize_limit
    → column_value_from ((suc n - 1) / 26) (((suc n - 1) % 26 + b'A') ∷ result)
      ≡ column_value_from (suc n) result
unfolding column_value_from
letter_value n result k =
    let e : (suc n - 1) / 26 * 26 + (to_upper ((suc n - 1) % 26 + b'A') - b'A' + 1) ≡ suc n =
      ground arith in
    rw e (ground arith)

column_value-name :
    (fuel n : ℕ) (result : Text)
    → n ≤ fuel
    → n < usize_limit
    → column_value_from 0 (column_name_from fuel n result) ≡ column_value_from n result
unfolding column_value_from column_name_from
column_value-name zero n result h k =
    let e : n ≡ 0 = omega arith in ap (λ m. column_value_from m result) (sym e)
column_value-name (suc fuel) zero result h k = refl
column_value-name (suc fuel) (suc n) result h k =
    let more : (suc n == 0) ≡ false = ground arith in
    rw more (
      column_value-name fuel ((suc n - 1) / 26) (((suc n - 1) % 26 + b'A') ∷ result) (omega arith)
        (omega arith)
      ∙ letter_value n result k)

-- Every positive number that an `i32` holds has a column name, and reading the name gives the number
-- back.
pub column_value-column_number_to_name :
    (n : ℕ)
    → 0 < n
    → n < 2 ^ 31
    → (name : Text) × (column_number_to_name (pos n) ≡ ok name) × (column_value_from 0 name ≡ ok n)
unfolding column_number_to_name column_value_from
column_value-column_number_to_name zero more h = absurd (omega arith)
column_value-column_number_to_name (suc n) more h = (
  column_name_from (suc n) (suc n) [],
  refl,
  column_value-name (suc n) (suc n) [] (omega arith) (omega arith),
)

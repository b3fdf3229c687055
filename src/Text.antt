-- ===== src/Text.antt =====
-- Rust's `str` as a list of code points, with the operations of the standard library that the
-- program uses, and `clean_text` of src/pipeline/sync.rs.
pub mod Clean
pub mod Order
pub mod Decimal
use Prim.Native.Char.{code}
use Prim.Native.String.{String}
use lark_utils_exp.Prelude.{
  ℕ, List, [], ◌∷◌, ◌++◌, Bool, true, false, ◌&&◌, ◌||◌, Option, none, some, Ordering, compare, lt,
  eq, gt, leb, ◌==◌, if◌then◌else◌, is_nil,
}

abbrev pub Text : Type 0
Text = List ℕ

-- The code points of a literal.
abbrev pub text : String → Text
text String.[] = []
text (String.◌∷◌ c s) = code c ∷ text s

-- `char::is_whitespace`: the Unicode property White_Space.
unfoldable pub is_whitespace : ℕ → Bool
is_whitespace c =
    (leb 9 c && leb c 13)
    || (c == 0x20)
    || (c == 0x85)
    || (c == 0xa0)
    || (c == 0x1680)
    || (leb 0x2000 c && leb c 0x200a)
    || (c == 0x2028)
    || (c == 0x2029)
    || (c == 0x202f)
    || (c == 0x205f)
    || (c == 0x3000)

unfoldable pub text_eq : Text → Text → Bool
text_eq [] [] = true
text_eq (c ∷ s) (d ∷ t) = (c == d) && text_eq s t
text_eq _ _ = false

-- `Ord for str`: by bytes of UTF-8, which is the order by code points.
unfoldable pub text_compare : Text → Text → Ordering
text_compare [] [] = eq
text_compare [] (d ∷ t) = lt
text_compare (c ∷ s) [] = gt
text_compare (c ∷ s) (d ∷ t) = elim (compare c d) [ lt ↦ lt | eq ↦ text_compare s t | gt ↦ gt ]

unfoldable pub trim_start : Text → Text
trim_start [] = []
trim_start (c ∷ s) = let rest = trim_start s in if is_whitespace c then rest else c ∷ s

unfoldable pub trim_end : Text → Text
trim_end [] = []
trim_end (c ∷ s) = let rest = trim_end s in if is_whitespace c && is_nil rest then [] else c ∷ rest

-- `str::trim`
unfoldable pub trim : Text → Text
unfolding trim_start trim_end
trim s = trim_end (trim_start s)

unfoldable pub contains_char : List ℕ → ℕ → Bool
contains_char [] c = false
contains_char (d ∷ ds) c = (d == c) || contains_char ds c

-- `str::replace` of each of some characters by a text.
unfoldable pub replace : List ℕ → Text → Text → Text
unfolding contains_char
replace ds by [] = []
replace ds by (c ∷ s) =
    let rest = replace ds by s in if contains_char ds c then by ++ rest else c ∷ rest

-- A word is kept if it is not empty.
abbrev pub push_word : Text → List Text → List Text
push_word [] ws = ws
push_word (c ∷ w) ws = (c ∷ w) ∷ ws

-- The characters before the first white space, and the words behind it.
unfoldable pub split_first : Text → Text × List Text
split_first [] = ([], [])
split_first (c ∷ s) =
    let (w, ws) = split_first s in if is_whitespace c then ([], push_word w ws) else (c ∷ w, ws)

-- `str::split_whitespace`
unfoldable pub split_whitespace : Text → List Text
unfolding split_first
split_whitespace s = let (w, ws) = split_first s in push_word w ws

-- `[String]::join`
unfoldable pub join : Text → List Text → Text
join sep [] = []
join sep (w ∷ []) = w
join sep (w ∷ (v ∷ ws)) = w ++ (sep ++ join sep (v ∷ ws))

-- fn clean_text
unfoldable pub clean_text : Text → Text
unfolding trim replace split_whitespace join
clean_text s = join (text " ") (split_whitespace (replace (text "\r\n") (text " ") (trim s)))

-- A text, if it is not empty.
abbrev pub non_empty : Text → Option Text
non_empty [] = none
non_empty (c ∷ s) = some (c ∷ s)

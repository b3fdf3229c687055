-- ===== src/Sync/Values/Keys.antt =====
-- `value_to_key_string` of src/pipeline/sync.rs.
use lark_utils_exp.Prelude.{
  concat, ◌⊎◌, ◌≡◌, ◌≢◌, refl, ap, sym, ◌∙◌, List, true, false, none, some, [], ◌∷◌, ◌++◌, arith,
  All, Option-cases, Bool-cases, inl, inr,
}
use mathlib.Core.List.{append-nil}
use lark_utils_exp.Text.{
  Text, text, is_whitespace, trim, trim_start, trim_end, replace, contains_char, split_whitespace,
  join, clean_text, non_empty,
}
use lark_utils_exp.Text.Clean.{HasNoSpace, IsWord, clean_text-eq-join, split_whitespace-IsWord}
use lark_utils_exp.Json.{Value, string}
use lark_utils_exp.Host.{Host}
use lark_utils_exp.Sync.Values.{separators, value_to_plain_string, value_to_key_string}

-- Free of the characters that are removed.
abbrev pub HasNoSeparator : Text → Type 0
HasNoSeparator = All (λ c. contains_char separators c ≡ false)

replace-HasNoSeparator : (s : Text) → HasNoSeparator (replace separators [] s)
unfolding replace
replace-HasNoSeparator [] = tt
replace-HasNoSeparator (c ∷ s) = ground (arith, replace-HasNoSeparator s)

non_empty-eq-some : (s : Text) {t : Text} → non_empty s ≡ some t → (s ≡ t) × (t ≢ [])
non_empty-eq-some [] e = cc
non_empty-eq-some (c ∷ s) {t} e = (cc, λ n. cc)

-- Whatever the cell, its key is not empty, and has no line break, space or ideographic space.
pub value_to_key_string_clean :
    (h : Host) (v : Value) (key : Text)
    → value_to_key_string h v ≡ some key
    → (key ≢ []) × HasNoSeparator key
unfolding value_to_key_string
value_to_key_string_clean h v key e = elim (Option-cases (value_to_plain_string h v)) [
  | inl p ↦ absurd (let q = rw (p, value_to_key_string) at e in cc)
  | inr (s, p) ↦
      let (same, ne) =
        non_empty-eq-some (replace separators [] (trim s)) (rw (p, value_to_key_string) at e) in
      (ne, rw (← same) (replace-HasNoSeparator (trim s)))
]

-- Every white space of the text is a character that is removed.
abbrev HasOnlySeparators : Text → Type 0
HasOnlySeparators = All (λ c. (is_whitespace c ≡ false) ⊎ (contains_char separators c ≡ true))

abbrev squeeze : Text → Text
squeeze = replace separators []

squeeze-trim_start : (s : Text) → HasOnlySeparators s → squeeze (trim_start s) ≡ squeeze s
unfolding replace trim_start
squeeze-trim_start [] h = refl
squeeze-trim_start (c ∷ s) (sep, h) = ground (arith, squeeze-trim_start s h)

squeeze-trim_end : (s : Text) → HasOnlySeparators s → squeeze (trim_end s) ≡ squeeze s
unfolding replace trim_end
squeeze-trim_end [] h = refl
squeeze-trim_end (c ∷ s) (sep, h) = ground (arith, squeeze-trim_end s h)

trim_start-HasOnlySeparators : (s : Text) → HasOnlySeparators s → HasOnlySeparators (trim_start s)
unfolding trim_start
trim_start-HasOnlySeparators [] h = tt
trim_start-HasOnlySeparators (c ∷ s) (sep, h) = elim (Bool-cases (is_whitespace c)) [
  | inl w ↦ rw w (trim_start-HasOnlySeparators s h)
  | inr w ↦ rw w (sep, h)
]

squeeze-trim : (s : Text) → HasOnlySeparators s → squeeze (trim s) ≡ squeeze s
squeeze-trim s h =
    unfold trim in
    (squeeze-trim_end (trim_start s) (trim_start-HasOnlySeparators s h) ∙ squeeze-trim_start s h)

squeeze-word : (w t : Text) → HasNoSpace w → squeeze (w ++ t) ≡ w ++ squeeze t
unfolding replace contains_char is_whitespace
squeeze-word [] t h = refl
squeeze-word (c ∷ w) t (e, h) = ground (arith, squeeze-word w t h)

squeeze-nil : squeeze [] ≡ []
unfolding replace
squeeze-nil = refl

squeeze-space : (t : Text) → squeeze (text " " ++ t) ≡ squeeze t
unfolding replace
squeeze-space t = refl

squeeze-join : (ws : List Text) → All IsWord ws → squeeze (join (text " ") ws) ≡ concat ws
unfolding join
squeeze-join [] h = squeeze-nil
squeeze-join (w ∷ []) (word, k) =
    ap squeeze (sym (append-nil w)) ∙ squeeze-word w [] word.1 ∙ ap (λ t. w ++ t) squeeze-nil
squeeze-join (w ∷ (v ∷ ws)) (word, k) =
    squeeze-word w (text " " ++ join (text " ") (v ∷ ws)) word.1
    ∙ ap (λ t. w ++ t) (squeeze-space (join (text " ") (v ∷ ws)) ∙ squeeze-join (v ∷ ws) k)

word-HasOnlySeparators :
    (w t : Text) → HasNoSpace w → HasOnlySeparators t → HasOnlySeparators (w ++ t)
word-HasOnlySeparators [] t h k = k
word-HasOnlySeparators (c ∷ w) t (e, h) k = (inl e, word-HasOnlySeparators w t h k)

join-HasOnlySeparators : (ws : List Text) → All IsWord ws → HasOnlySeparators (join (text " ") ws)
unfolding join contains_char
join-HasOnlySeparators [] h = tt
join-HasOnlySeparators (w ∷ []) (word, k) =
    rw (append-nil w) at (word-HasOnlySeparators w [] word.1 tt)
join-HasOnlySeparators (w ∷ (v ∷ ws)) (word, k) =
    word-HasOnlySeparators w (text " " ++ join (text " ") (v ∷ ws)) word.1
      (inr refl, join-HasOnlySeparators (v ∷ ws) k)

key_of_clean :
    (t : Text)
    → HasOnlySeparators t
    → (elim (non_empty t) [ none ↦ none | some u ↦ non_empty (squeeze (trim u)) ])
      ≡ non_empty (squeeze t)
unfolding replace
key_of_clean [] k = refl
key_of_clean (c ∷ t) k = ap non_empty (squeeze-trim (c ∷ t) k)

-- The key of a text cell is its words run together, if there are any.
pub value_to_key_string-string :
    (h : Host) (s : Text)
    → value_to_key_string h (string s) ≡ non_empty (concat (split_whitespace s))
unfolding value_to_key_string value_to_plain_string
value_to_key_string-string h s =
    let words = split_whitespace-IsWord s in
    key_of_clean (clean_text s)
      (rw (clean_text-eq-join s) (join-HasOnlySeparators (split_whitespace s) words))
    ∙ ap non_empty (ap squeeze (clean_text-eq-join s) ∙ squeeze-join (split_whitespace s) words)

-- ===== src/Text/Clean.antt =====
-- `clean_text` of src/pipeline/sync.rs by the words of a text.
use lark_utils_exp.Prelude.{
  ◌≡◌, refl, ap, ◌∙◌, List, [], ◌∷◌, ◌++◌, false, ◌&&◌, arith, ℕ, ◌≢◌, All, is_nil, if◌then◌else◌,
}
use mathlib.Core.List.{append-nil}
use lark_utils_exp.Text.{
  Text, text, is_whitespace, trim, trim_start, trim_end, replace, push_word, split_first,
  split_whitespace, join, clean_text,
}

-- A word: not empty, and free of white space.
abbrev pub HasNoSpace : Text → Type 0
HasNoSpace = All (λ c. is_whitespace c ≡ false)

abbrev pub IsWord : Text → Type 0
IsWord w = (w ≢ []) × HasNoSpace w

-- Dropping a space at the end leaves the words.
split_first-trim_step :
    (c : ℕ) (t : Text)
    → split_first (if is_whitespace c && is_nil t then [] else c ∷ t) ≡ split_first (c ∷ t)
unfolding split_first
split_first-trim_step c [] = ground arith
split_first-trim_step c (d ∷ t) = ground arith

split_first-trim_end : (s : Text) → split_first (trim_end s) ≡ split_first s
unfolding split_first trim_end
split_first-trim_end [] = refl
split_first-trim_end (c ∷ s) =
    split_first-trim_step c (trim_end s) ∙ ground (arith, split_first-trim_end s)

split_whitespace-trim_start : (s : Text) → split_whitespace (trim_start s) ≡ split_whitespace s
unfolding split_whitespace trim_start
split_whitespace-trim_start [] = refl
split_whitespace-trim_start (c ∷ s) = ground (arith, split_whitespace-trim_start s)

split_whitespace-trim : (s : Text) → split_whitespace (trim s) ≡ split_whitespace s
unfolding trim
split_whitespace-trim s =
    unfold split_whitespace in
    ap (λ p. push_word p.0 p.1) (split_first-trim_end (trim_start s))
    ∙ split_whitespace-trim_start s

split_first-replace : (s : Text) → split_first (replace (text "\r\n") (text " ") s) ≡ split_first s
unfolding split_first replace is_whitespace
split_first-replace [] = refl
split_first-replace (c ∷ s) = ground (arith, split_first-replace s)

push_word-IsWord :
    (w : Text) (ws : List Text) → HasNoSpace w → All IsWord ws → All IsWord (push_word w ws)
push_word-IsWord [] ws h k = k
push_word-IsWord (c ∷ w) ws h k = (((λ e. cc), h), k)

split_first-IsWord : (s : Text) → HasNoSpace (split_first s).0 × All IsWord (split_first s).1
unfolding split_first
split_first-IsWord [] = (tt, tt)
split_first-IsWord (c ∷ s) =
    ground (arith, split_first-IsWord s, push_word-IsWord (split_first s).0 (split_first s).1)

-- Each word is not empty and has no white space.
pub split_whitespace-IsWord : (s : Text) → All IsWord (split_whitespace s)
unfolding split_whitespace
split_whitespace-IsWord s =
    let (h, k) = split_first-IsWord s in push_word-IsWord (split_first s).0 (split_first s).1 h k

split_first-append :
    (w t : Text) → HasNoSpace w → split_first (w ++ t) ≡ (w ++ (split_first t).0, (split_first t).1)
unfolding split_first
split_first-append [] t h = refl
split_first-append (c ∷ w) t (e, h) = ground (arith, split_first-append w t h)

push_word_of_IsWord : (w : Text) (ws : List Text) → w ≢ [] → push_word (w ++ []) ws ≡ w ∷ ws
push_word_of_IsWord [] ws h = absurd (h refl)
push_word_of_IsWord (c ∷ w) ws h = ap (λ v. (c ∷ v) ∷ ws) (append-nil w)

split_whitespace-word :
    (w t : Text) (ws : List Text)
    → IsWord w
    → split_first t ≡ ([], ws)
    → split_whitespace (w ++ t) ≡ w ∷ ws
unfolding split_whitespace
split_whitespace-word w t ws (nonempty, h) e =
    rw (split_first-append w t h, e) (push_word_of_IsWord w ws nonempty)

split_first-nil : split_first [] ≡ ([], [])
unfolding split_first
split_first-nil = refl

split_first-space : (t : Text) → split_first (text " " ++ t) ≡ ([], split_whitespace t)
unfolding split_first split_whitespace is_whitespace
split_first-space t = refl

split_whitespace-replace :
    (s : Text) → split_whitespace (replace (text "\r\n") (text " ") s) ≡ split_whitespace s
unfolding split_whitespace
split_whitespace-replace s = ap (λ p. push_word p.0 p.1) (split_first-replace s)

-- Splitting the joined words gives the words back.
pub split_whitespace-join :
    (ws : List Text) → All IsWord ws → split_whitespace (join (text " ") ws) ≡ ws
unfolding join
split_whitespace-join [] h = unfold split_whitespace in refl
split_whitespace-join (w ∷ []) (word, k) =
    rw (append-nil w) at (split_whitespace-word w [] [] word split_first-nil)
split_whitespace-join (w ∷ (v ∷ ws)) (word, k) =
    let rest = text " " ++ join (text " ") (v ∷ ws) in
    let same = split_whitespace-join (v ∷ ws) k in
    split_whitespace-word w rest (v ∷ ws) word
      (split_first-space (join (text " ") (v ∷ ws)) ∙ ap (λ vs. ([], vs)) same)

-- `clean_text` is the words, joined by single spaces: the trim and the replacement of line
-- breaks change no word.
pub clean_text-eq-join : (s : Text) → clean_text s ≡ join (text " ") (split_whitespace s)
clean_text-eq-join s =
    unfold clean_text in
    ap (join (text " ")) (split_whitespace-replace (trim s) ∙ split_whitespace-trim s)

-- Cleaning a text a second time changes nothing.
pub clean_text_idempotent : (s : Text) → clean_text (clean_text s) ≡ clean_text s
clean_text_idempotent s = rw (clean_text-eq-join s) (
    clean_text-eq-join _
    ∙ ap (join (text " ")) (split_whitespace-join _ (split_whitespace-IsWord s)))

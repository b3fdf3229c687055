-- ===== src/Audit/Markdown.antt =====
-- The links of the audit card (src/pipeline/audit_notice.rs).
use lark_utils_exp.Prelude.{
  ℕ, [], ◌∷◌, ◌++◌, Bool, true, false, ◌&&◌, ◌||◌, ◌≡◌, refl, sym, ap, ◌∙◌, arith, Bool-cases, inl,
  inr, is_nil,
}
use mathlib.Core.List.{append_assoc}
use lark_utils_exp.Text.{Text, text, trim, trim_start, trim_end, is_whitespace}
use lark_utils_exp.Error.Display.{starts_with, contains_text}
use lark_utils_exp.Audit.Notice.{
  ends_with, is_markdown_link, escape_markdown_link_label, markdown_link,
}

or_true : (b : Bool) → b || true ≡ true
or_true true = refl
or_true false = refl

and_first : (b c : Bool) → b && c ≡ true → b ≡ true
and_first true c e = refl
and_first false c e = cc

is_nil-append : (s : Text) (c : ℕ) → is_nil (s ++ c ∷ []) ≡ false
is_nil-append [] c = refl
is_nil-append (d ∷ s) c = refl

and_false : (b : Bool) → b && false ≡ false
and_false true = refl
and_false false = refl

trim_end-append :
    (s : Text) (c : ℕ) → is_whitespace c ≡ false → trim_end (s ++ c ∷ []) ≡ s ++ c ∷ []
unfolding trim_end
trim_end-append [] c e = rw e refl
trim_end-append (d ∷ s) c e =
    rw (trim_end-append s c e, is_nil-append s c, and_false (is_whitespace d)) refl

trim_end_idempotent : (s : Text) → trim_end (trim_end s) ≡ trim_end s
unfolding trim_end
trim_end_idempotent [] = refl
trim_end_idempotent (c ∷ s) = elim (Bool-cases (is_whitespace c && is_nil (trim_end s))) [
  | inl e ↦ rw e refl
  | inr e ↦ rw (e, trim_end_idempotent s, e) refl
]

ends_with-append : (s : Text) (c : ℕ) → ends_with c (s ++ c ∷ []) ≡ true
unfolding ends_with
ends_with-append [] c = ground arith
ends_with-append (d ∷ []) c = ground arith
ends_with-append (d ∷ (e ∷ s)) c = ends_with-append (e ∷ s) c

starts_with-append : (p s : Text) → starts_with p (p ++ s) ≡ true
unfolding starts_with
starts_with-append [] s = refl
starts_with-append (c ∷ p) s = ground (arith, starts_with-append p s)

contains_text_start : (p t : Text) → contains_text p (p ++ t) ≡ true
unfolding contains_text
contains_text_start p t = starts (p ++ t) (starts_with-append p t)
  where
    starts : (s : Text) → starts_with p s ≡ true → contains_text p s ≡ true
    starts [] e = e
    starts (c ∷ s) e = rw e refl

contains_text-append : (p s t : Text) → contains_text p (s ++ (p ++ t)) ≡ true
unfolding contains_text
contains_text-append p [] t = contains_text_start p t
contains_text-append p (c ∷ s) t =
    rw (contains_text-append p s t) (or_true (starts_with p (c ∷ (s ++ (p ++ t)))))

-- A link that needs no trim is kept.
markdown_link_kept :
    (other value : Text)
    → trim value ≡ value
    → is_markdown_link value ≡ true
    → markdown_link other value ≡ value
unfolding markdown_link
markdown_link_kept other value e f = rw (e, f) refl

-- A text that starts with a bracket has no white space before it.
trim_of_bracket : (s : Text) → starts_with (text "[") s ≡ true → trim s ≡ trim_end s
unfolding trim trim_start starts_with is_whitespace
trim_of_bracket [] e = refl
trim_of_bracket (c ∷ s) e = let q : c ≡ 91 = ground arith in rw q refl

abbrev link_text : Text → Text → Text
link_text label value = text "[" ++ (label ++ (text "](" ++ (value ++ text ")")))

-- The link without its last bracket.
abbrev link_start : Text → Text → Text
link_start label value = text "[" ++ (label ++ (text "](" ++ value))

link_text-snoc : (label value : Text) → link_text label value ≡ link_start label value ++ b')' ∷ []
link_text-snoc label value =
    ap (λ t. b'[' ∷ t) (sym (append_assoc label (text "](" ++ value) (b')' ∷ [])))

link_text-is_markdown_link : (label value : Text) → is_markdown_link (link_text label value) ≡ true
unfolding is_markdown_link
link_text-is_markdown_link label value =
    let last : ends_with b')' (link_text label value) ≡ true =
      rw (link_text-snoc label value) (ends_with-append (link_start label value) b')') in
    rw (contains_text-append (text "](") label (value ++ text ")")) last

link_text-bracket : (label value : Text) → starts_with (text "[") (link_text label value) ≡ true
unfolding starts_with
link_text-bracket label value = refl

link_text-trim : (label value : Text) → trim (link_text label value) ≡ link_text label value
unfolding is_whitespace
link_text-trim label value =
    trim_of_bracket (link_text label value) (link_text-bracket label value)
    ∙ rw (link_text-snoc label value) (trim_end-append (link_start label value) b')' not_white)
  where
    not_white : is_whitespace b')' ≡ false
    not_white = refl

-- A link that was made once is kept: making a link of a link, with any label, changes nothing.
pub markdown_link_idempotent :
    (other label url : Text)
    → markdown_link other (markdown_link label url) ≡ markdown_link label url
unfolding markdown_link trim is_markdown_link
markdown_link_idempotent other label url = elim (Bool-cases (is_markdown_link (trim url))) [
  | inl e ↦ rw e (
      markdown_link_kept other (trim url)
        (trim_of_bracket (trim url) (bracket (trim url) e) ∙ trim_end_idempotent (trim_start url))
        e)
  | inr e ↦ rw e (
      markdown_link_kept other (link_text (escape_markdown_link_label label) (trim url))
        (link_text-trim (escape_markdown_link_label label) (trim url))
        (link_text-is_markdown_link (escape_markdown_link_label label) (trim url)))
]
  where
    bracket : (s : Text) → is_markdown_link s ≡ true → starts_with (text "[") s ≡ true
    bracket s e = and_first _ _ e

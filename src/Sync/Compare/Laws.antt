-- ===== src/Sync/Compare/Laws.antt =====
-- Semantic equality of texts and the text cells of the service (src/pipeline/sync.rs).
use lark_utils_exp.Prelude.{◌≡◌, refl, ap, ◌∙◌, true, [], ◌∷◌, ◌++◌}
use lark_utils_exp.Text.{Text, text, text_eq, clean_text}
use lark_utils_exp.Text.Clean.{clean_text_idempotent}
use lark_utils_exp.Json.{Value, string, array, object, cons, nil, field, end}
use lark_utils_exp.Json.Map.{get}
use lark_utils_exp.Json.Equality.{value_eq_refl}
use lark_utils_exp.Host.{Host}
use lark_utils_exp.Sync.Values.{value_to_plain_string}
use lark_utils_exp.Sync.Compare.{normalize_text, normalize_for_compare, semantic_equal}

-- A text field as the service returns it: `[{ "text": …, "type": "text" }]`.
abbrev pub text_cell : Text → Value
text_cell s = array (
    cons (object (field (text "text") (string s) (field (text "type") (string (text "text")) end)))
      nil)

append-nil_text : (s : Text) → s ++ [] ≡ s
append-nil_text [] = refl
append-nil_text (c ∷ s) = ap (λ t. c ∷ t) (append-nil_text s)

normalize-clean :
    (h : Host) (s : Text)
    → normalize_text h (clean_text (clean_text s ++ [])) ≡ normalize_text h (clean_text s)
normalize-clean h s =
    ap (λ t. normalize_text h (clean_text t)) (append-nil_text (clean_text s))
    ∙ ap (normalize_text h) (clean_text_idempotent s)

normalize-text_cell :
    (h : Host) (s : Text)
    → normalize_for_compare h (text_cell s) ≡ normalize_for_compare h (string s)
unfolding normalize_for_compare value_to_plain_string get text_eq
normalize-text_cell h s = normalize-clean h s

-- A text that was written is the same as the text cell that the service returns for it, and as any
-- text with the same words: such a field is not written again.
pub semantic_equal-text_cell :
    (h : Host) (s t : Text)
    → clean_text s ≡ clean_text t
    → semantic_equal h (text_cell s) (string t) ≡ true
unfolding semantic_equal
semantic_equal-text_cell h s t e =
    rw (normalize-text_cell h s)
      (unfold normalize_for_compare in rw e (value_eq_refl (normalize_text h (clean_text t))))

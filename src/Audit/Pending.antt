-- ===== src/Audit/Pending.antt =====
-- What src/pipeline/audit_notice.rs counts, and what src/pipeline/audit_result_sync.rs takes.
use lark_utils_exp.Prelude.{true, Option, none, some, ◌≡◌, refl, Option-cases, inl, inr}
use lark_utils_exp.Text.{Text}
use lark_utils_exp.Json.{Map, as_object}
use lark_utils_exp.Host.{Host}
use lark_utils_exp.Sync.Values.{value_to_plain_string}
use lark_utils_exp.Sync.Rows.{BitableRecord, find_field_value_by_name}
use lark_utils_exp.Audit.Merge.{skips}
use lark_utils_exp.Audit.Reviews.{filled, review, review_round}
use lark_utils_exp.Audit.Notice.{is_pending, is_pending_audit_record}

module _ (h : Host) (debug : Option Text → Text) where
  -- A result that waits is no filled field.
  pending-filled :
      (m : Map) (result_field : Text)
      → is_pending h (some m) result_field ≡ true
      → filled h debug m result_field ≡ none
  unfolding filled
  pending-filled m result_field e =
      elim (Option-cases (find_field_value_by_name h m result_field)) [
        | inl f ↦ rw (f, filled) refl
        | inr (v, f) ↦ elim (Option-cases (value_to_plain_string h v)) [
          | inl g ↦ rw (f, filled, g) refl
          | inr (s, g) ↦ absurd (let q = rw (f, is_pending, g) at e in cc)
        ]
      ]

  review_pending :
      (key_field result_field : Text) (m : Option Map)
      → is_pending h m result_field ≡ true
      → review h debug key_field result_field m ≡ skips
  review_pending key_field result_field none e = refl
  review_pending key_field result_field (some m) e =
      elim (Option-cases (filled h debug m key_field)) [
        | inl f ↦ rw (f, review) refl
        | inr (k, f) ↦ rw (f, review, pending-filled m result_field e) refl
      ]

  -- A record that the audit notice counts as waiting is never taken as reviewed by the sync of audit
  -- results, whatever its key field is.
  pub review_round-pending :
      (key_field result_field : Text) (r : BitableRecord)
      → is_pending_audit_record h r result_field ≡ true
      → review_round h debug key_field result_field r ≡ skips
  unfolding review_round is_pending_audit_record
  review_round-pending key_field result_field r e =
      review_pending key_field result_field (as_object r.fields) e

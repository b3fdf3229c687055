-- ===== src/Bitable/Fields.antt =====
-- The reads and checks of src/pipeline/bitable.rs as actions that write to no table.
use lark_utils_exp.Prelude.{
  ℕ, zero, suc, List, [], Option, none, some, ok, err, panic, unfinished, refl, is_nil,
}
use lark_utils_exp.Text.{Text}
use lark_utils_exp.Host.{Host}
use lark_utils_exp.Error.{Fallible}
use lark_utils_exp.Effects.{Services, Io}
use lark_utils_exp.Effects.Quiet.{
  Quiet, quiet_rules, Quiet-pure, Quiet-raise, Quiet-lift, Quiet-if, Quiet-bind, Quiet-attempt,
  Quiet-perform,
}
use lark_utils_exp.Sync.Rows.{BitableRecord}
use lark_utils_exp.Bitable.{max_retries}
use lark_utils_exp.Bitable.Actions.{
  after_attempt, attempts_from, read_existing_records_with_retry, or_no_records,
  read_optional_records_with_retry, field_page, field_names_from, read_bitable_field_names,
  check_fields, validate_bitable_write_fields,
}

module _ (services : Services) where
  after_attempt-Quiet :
      (n : ℕ) (r : Fallible (List BitableRecord)) (again : Io (List BitableRecord))
      → Quiet again
      → Quiet (after_attempt services n r again)
  unfolding after_attempt
  after_attempt-Quiet n (ok records) again q = search quiet_rules
  after_attempt-Quiet n (err e) again q =
      Quiet-if _ _ _ (Quiet-raise _) (Quiet-bind _ _ (Quiet-perform _ _ refl) (λ _. q))
  after_attempt-Quiet n panic again q = search quiet_rules
  after_attempt-Quiet n unfinished again q = search quiet_rules

  attempts_from-Quiet :
      (left n : ℕ) (app table : Text) → Quiet (attempts_from services left n app table)
  unfolding attempts_from
  attempts_from-Quiet zero n app table = Quiet-raise _
  attempts_from-Quiet (suc left) n app table =
      Quiet-bind _ _ (Quiet-attempt _ (Quiet-perform _ _ refl))
        (λ r. after_attempt-Quiet n r _ (attempts_from-Quiet left (suc n) app table))

  pub read_existing-Quiet :
      (app table : Text) → Quiet (read_existing_records_with_retry services app table)
  unfolding read_existing_records_with_retry
  read_existing-Quiet app table = attempts_from-Quiet max_retries 1 app table

  or_no_records-Quiet :
      (h : Host) (r : Fallible (List BitableRecord)) → Quiet (or_no_records services h r)
  or_no_records-Quiet h (ok records) = Quiet-lift _
  or_no_records-Quiet h (err e) = Quiet-if _ _ _ (Quiet-pure _) (Quiet-raise _)
  or_no_records-Quiet h panic = Quiet-lift _
  or_no_records-Quiet h unfinished = Quiet-lift _

  pub read_optional-Quiet :
      (h : Host) (app table : Text) → Quiet (read_optional_records_with_retry services h app table)
  unfolding read_optional_records_with_retry
  read_optional-Quiet h app table =
      Quiet-bind _ _ (Quiet-attempt _ (read_existing-Quiet app table)) (or_no_records-Quiet h)

  field_page-Quiet :
      (app table : Text) (token : Option Text) → Quiet (field_page services app table token)
  unfolding field_page
  field_page-Quiet app table token = search quiet_rules

  field_names_from-Quiet :
      (fuel : ℕ) (names : List Text) (app table : Text) (token : Option Text)
      → Quiet (field_names_from services fuel names app table token)
  unfolding field_names_from
  field_names_from-Quiet zero names app table token = Quiet-lift _
  field_names_from-Quiet (suc fuel) names app table token =
      Quiet-bind _ _ (field_page-Quiet app table token) λ page.
        Quiet-if page.has_more _ _
          (Quiet-bind _ _ (Quiet-lift _)
            (λ next. field_names_from-Quiet fuel _ app table (some next)))
          (Quiet-pure _)

  check_fields-Quiet :
      (table operation : Text) (write : List Text) (r : Fallible (List Text))
      → Quiet (check_fields services table operation write r)
  unfolding check_fields
  check_fields-Quiet table operation write (ok known) =
      Quiet-if _ _ _ (Quiet-pure _) (Quiet-raise _)
  check_fields-Quiet table operation write (err e) = Quiet-pure _
  check_fields-Quiet table operation write panic = Quiet-lift _
  check_fields-Quiet table operation write unfinished = Quiet-lift _

  pub validate-Quiet :
      (fuel : ℕ) (app table : Text) (write : List Text) (operation : Text)
      → Quiet (validate_bitable_write_fields services fuel app table write operation)
  unfolding validate_bitable_write_fields read_bitable_field_names
  validate-Quiet fuel app table write operation = Quiet-if (is_nil write) _ _ (Quiet-pure _) (
      Quiet-bind _ _ (Quiet-attempt _ (field_names_from-Quiet fuel [] app table none))
        (check_fields-Quiet table operation write))

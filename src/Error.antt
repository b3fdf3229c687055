-- ===== src/Error.antt =====
-- `anyhow::Error` as the pipelines raise it: a cause, under the contexts that callers add.
pub mod Display
use lark_utils_exp.Prelude.{ℕ, List, Option, Result, map_err}
use lark_utils_exp.Text.{Text}
use lark_utils_exp.Json.{Value}

pub data Error : Type 0 where
  -- a fixed message, or the display of an error of a library
  message : Text → Error
  -- a column, and the cell that is no header
  bad_header : ℕ → Value → Error
  -- the unique key's field
  missing_key_field : Text → Error
  -- a row number, and the unique key's field
  missing_key : ℕ → Text → Error
  -- the field, the key, and the two rows or record ids
  duplicate_row : Text → Text → ℕ → ℕ → Error
  duplicate_source : Text → Text → Text → Text → Error
  duplicate_target : Text → Text → Text → Text → Error
  -- the number of records, and the unique key's field: of the main table, of the audit table
  unmatched_key : ℕ → Text → Error
  unmatched_audit_key : ℕ → Text → Error
  -- the table, the operation, and the field names: missing, to be written, of the table
  missing_fields : Text → Text → List Text → List Text → List Text → Error
  -- an operation, and the code, the message and the request id of the reply
  refused : Text → ℕ → Text → Option Text → Error
  context : Text → Error → Error

abbrev pub Fallible : Type 0 → Type 0
Fallible A = Result Error A

-- `.context(…)`
abbrev pub with_context : {A : Type 0} → Text → Fallible A → Fallible A
with_context c r = map_err (context c) r

-- ===== src/Effects.antt =====
-- What the pipelines do to the outside: calls of the Feishu services, of the database and of the
-- clock, in order. The services are parameters whose replies may depend on all earlier calls.
pub mod Quiet
pub mod Success
use lark_utils_exp.Prelude.{
  ℕ, ℤ, List, [], ◌∷◌, Bool, true, false, Option, none, some, Result, ok, err, panic, unfinished,
  map_err,
}
use lark_utils_exp.Text.{Text}
use lark_utils_exp.Json.{Value}
use lark_utils_exp.Error.{Error, Fallible, context}
use lark_utils_exp.Sync.Rows.{SourceRow, BitableRecord}
use lark_utils_exp.Audit.Reviews.{AuditResultUpdate}
use lark_utils_exp.Sync.Plan.{CreateRecordItem, UpdateRecordItem}

-- A table is named by the application's token and the table's id.
pub data Call : Type 0 where
  search_records : Text → Text → Call
  batch_update : Text → Text → List UpdateRecordItem → Call
  batch_create : Text → Text → List CreateRecordItem → Call
  field_list : Text → Text → Option Text → Call
  list_sheets : Text → Call
  read_range : Text → Text → Call
  persist : List SourceRow → Call
  sleep : ℕ → Call
  update_audit_results : ℕ → Text → List AuditResultUpdate → Call

-- The calls made so far, the last one first.
abbrev pub Log : Type 0
Log = List Call

-- `Response<Value>` of the service: `code` 0 is success.
pub record Response : Type 0 where
  pub code : ℕ
  pub message : Text
  pub request_id : Option Text
  pub payload : Option Value

-- The SDK's sheet info, as far as it is read.
pub record SheetInfo : Type 0 where
  pub sheet_id : Text
  pub row_count : ℤ
  pub column_count : ℤ

pub record Services : Type 0 where
  -- the SDK's `search_bitable_records_all`
  pub search : Log → Text → Text → Fallible (List BitableRecord)
  -- `Transport::request` of a batch update or create, and of a field list
  pub write : Log → Call → Fallible Response
  pub list_fields : Log → Call → Fallible Response
  -- the SDK's `list_sheet_infos`, and `read_single_range` with its `data`
  pub sheet_infos : Log → Text → Fallible (List SheetInfo)
  pub range : Log → Text → Text → Fallible (Option (List (List Value)))
  -- `persist_merged_records` of the import repository
  pub store : Log → List SourceRow → Fallible (Unit {0})
  -- `update_audit_results` of the import repository: how many rows it updated
  pub update_results : Log → ℕ → Text → List AuditResultUpdate → Fallible ℕ

-- An action extends the log, and what it did before an error stays done.
abbrev pub Io : Type 0 → Type 0
Io A = Log → Fallible A × Log

abbrev pub continue : {A B : Type 0} → Fallible A → (A → Io B) → Io B
continue (ok a) f log = f a log
continue (err e) f log = (err e, log)
continue panic f log = (panic, log)
continue unfinished f log = (unfinished, log)

unfoldable pub pure : {A : Type 0} → A → Io A
pure a log = (ok a, log)

unfoldable pub raise : {A : Type 0} → Error → Io A
raise e log = (err e, log)

unfoldable pub lift : {A : Type 0} → Fallible A → Io A
lift r log = (r, log)

-- One call; its reply depends on the calls before it.
unfoldable pub perform : {A : Type 0} → Call → (Log → Fallible A) → Io A
perform c reply log = (reply log, c ∷ log)

infixl 5 ◌>>=◌ ◌>>◌
unfoldable pub ◌>>=◌ : {A B : Type 0} → Io A → (A → Io B) → Io B
unfolding pure raise lift perform
◌>>=◌ m f log = let (r, log') = m log in continue r f log'

abbrev pub ◌>>◌ : {A B : Type 0} → Io A → Io B → Io B
m >> n = m >>= λ _. n

-- `match m.await`: the error is a value of the rest.
unfoldable pub attempt : {A : Type 0} → Io A → Io (Fallible A)
attempt m log = let (r, log') = m log in (ok r, log')

-- `.context(…)` of an action
unfoldable pub in_context : {A : Type 0} → Text → Io A → Io A
in_context c m log = let (r, log') = m log in (map_err (context c) r, log')

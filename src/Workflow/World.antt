-- ===== src/Workflow/World.antt =====
-- What src/workflow.rs acts on: the database, at a time, behind calls that may fail.
use lark_utils_exp.Prelude.{ℕ, suc, ◌+◌, List, Bool, Result, ok, err, panic, unfinished, ◌≡◌, refl}
use lark_utils_exp.Text.{Text}
use lark_utils_exp.Error.{Error, Fallible}
use lark_utils_exp.WorkflowRun.Tables.{Database}
use lark_utils_exp.Workflow.ReceiveIds.{ReceiveIdType}

-- A notice that was sent: the receiver's type and id, and the fields of the card.
pub record Notice : Type 0 where
  pub receive_id_type : ReceiveIdType
  pub receive_id : Text
  pub template_id : Text
  pub ops_ids : Text
  pub project_name : Text
  pub error_type : Text
  pub error_detail : Text

-- The time, the number of calls so far, the database, and the notices sent, the last one first.
pub record World : Type 0 where
  pub now : ℕ
  pub calls : ℕ
  pub db : Database
  pub sent : List Notice

-- A call of the database succeeds, or fails without effect, or fails after it took effect.
pub data Fault : Type 0 where
  fine refused lost : Fault

-- `WorkflowBusyError`, which callers recognise, or another error.
pub data RunError : Type 0 where
  busy : RunError
  failure : Error → RunError

abbrev pub Attempted : Type 0 → Type 0
Attempted A = Result RunError A

abbrev pub from_fallible : {A : Type 0} → Fallible A → Attempted A
from_fallible (ok a) = ok a
from_fallible (err e) = err (failure e)
from_fallible panic = panic
from_fallible unfinished = unfinished

-- What lies outside: the faults of the calls and the time before each, the error of a database
-- that fails, and which polls the timer of the heartbeat comes before.
pub record Environment : Type 0 where
  pub fault : ℕ → Fault
  pub pause : ℕ → ℕ
  pub database_error : Error
  pub is_beat_due : World → Bool

-- An environment without faults.
abbrev pub IsFine : Environment → Type 0
IsFine e = (n : ℕ) → e.fault n ≡ fine

-- An action and its effect, which stays when the action fails.
abbrev pub Action : Type 0 → Type 0
Action A = World → Attempted A × World

abbrev pub proceed : {A B : Type 0} → Attempted A → (A → Action B) → Action B
proceed (ok a) f w = f a w
proceed (err e) f w = (err e, w)
proceed panic f w = (panic, w)
proceed unfinished f w = (unfinished, w)

infixl 5 ◌>>=◌ ◌>>◌
abbrev pub ◌>>=◌ : {A B : Type 0} → Action A → (A → Action B) → Action B
◌>>=◌ m f w = proceed (m w).0 f (m w).1

abbrev pub ◌>>◌ : {A B : Type 0} → Action A → Action B → Action B
m >> n = m >>= λ _. n

abbrev pub pure : {A : Type 0} → A → Action A
pure a w = (ok a, w)

abbrev pub raise : {A : Type 0} → RunError → Action A
raise e w = (err e, w)

-- `match m.await`: the error is a value of the rest.
abbrev pub attempt : {A : Type 0} → Action A → Action (Attempted A)
attempt m w = (ok (m w).0, (m w).1)

module _ (env : Environment) where
  abbrev pub time_of_call : World → ℕ
  time_of_call w = w.now + env.pause w.calls

  abbrev after_call : World → Database → World
  after_call w db = record w { now = time_of_call w; calls = suc w.calls; db = db }

  abbrev pub faulted : {A : Type 0} → Fault → World → Fallible A × Database → Attempted A × World
  faulted fine w (r, db) = (from_fallible r, after_call w db)
  faulted refused w (r, db) = (err (failure env.database_error), after_call w w.db)
  faulted lost w (r, db) = (err (failure env.database_error), after_call w db)

  -- One transaction, at the time of the call.
  unfoldable pub call : {A : Type 0} → (ℕ → Database → Fallible A × Database) → Action A
  call op w = faulted (env.fault w.calls) w (op (time_of_call w) w.db)

  abbrev pub total :
      {A : Type 0} → (ℕ → Database → A × Database) → ℕ → Database → Fallible A × Database
  total op now db = (ok (op now db).0, (op now db).1)

  abbrev pub silent : (ℕ → Database → Database) → ℕ → Database → Fallible (Unit {0}) × Database
  silent op now db = (ok tt, op now db)

  -- A call without a fault does what the transaction does.
  pub call_fine :
      {A : Type 0} (op : ℕ → Database → Fallible A × Database) (w : World)
      → IsFine env
      → call op w
        ≡ (from_fallible (op (time_of_call w) w.db).0, after_call w (op (time_of_call w) w.db).1)
  unfolding call
  call_fine op w f = rw (f w.calls) refl

-- ===== src/Effects/Quiet.antt =====
-- Actions that write nothing to a table, one rule for each way to build an action.
use lark_utils_exp.Prelude.{◌≡◌, Bool, true, false, ◌∷◌, ok, err, panic, unfinished, if◌then◌else◌}
use lark_utils_exp.Text.{Text}
use lark_utils_exp.Error.{Error, Fallible}
use lark_utils_exp.Effects.{
  Call, batch_update, batch_create, Log, Io, pure, raise, lift, perform, attempt, in_context, ◌>>=◌,
  continue,
}

abbrev pub is_write : Call → Bool
is_write (batch_update _ _ _) = true
is_write (batch_create _ _ _) = true
is_write _ = false

-- The second log extends the first by calls that write to no table.
pub data Reads (log : Log) : Log → Type 0 where
  same : Reads log log
  more : {c : Call} {log' : Log} → is_write c ≡ false → Reads log log' → Reads log (c ∷ log')

pub Reads-trans : {log mid end : Log} → Reads log mid → Reads mid end → Reads log end
Reads-trans r same = r
Reads-trans r (more w s) = more w (Reads-trans r s)

pub record Quiet {A : Type 0} (m : Io A) : Type 0 where
  pub at : (log : Log) → Reads log (m log).1

module _ {A : Type 0} where
  pub Quiet-pure : (a : A) → Quiet (pure a)
  unfolding pure
  Quiet-pure a = record { at = λ log. same }

  pub Quiet-raise : (e : Error) → Quiet (raise {A = A} e)
  unfolding raise
  Quiet-raise e = record { at = λ log. same }

  pub Quiet-lift : (r : Fallible A) → Quiet (lift r)
  unfolding lift
  Quiet-lift r = record { at = λ log. same }

  pub Quiet-perform :
      (c : Call) (reply : Log → Fallible A) → is_write c ≡ false → Quiet (perform c reply)
  unfolding perform
  Quiet-perform c reply w = record { at = λ log. more w same }

  pub Quiet-attempt : (m : Io A) → Quiet m → Quiet (attempt m)
  unfolding attempt
  Quiet-attempt m k = record { at = λ log. k.at log }

  pub Quiet-in_context : (c : Text) (m : Io A) → Quiet m → Quiet (in_context c m)
  unfolding in_context
  Quiet-in_context c m k = record { at = λ log. k.at log }

  pub Quiet-if : (b : Bool) (m n : Io A) → Quiet m → Quiet n → Quiet (if b then m else n)
  Quiet-if true m n k l = k
  Quiet-if false m n k l = l

module _ {A B : Type 0} where
  Quiet-continue :
      (r : Fallible A) (f : A → Io B)
      → ((a : A) → Quiet (f a))
      → (log : Log) → Reads log (continue r f log).1
  Quiet-continue (ok a) f k log = (k a).at log
  Quiet-continue (err e) f k log = same
  Quiet-continue panic f k log = same
  Quiet-continue unfinished f k log = same

  pub Quiet-bind : (m : Io A) (f : A → Io B) → Quiet m → ((a : A) → Quiet (f a)) → Quiet (m >>= f)
  unfolding ◌>>=◌
  Quiet-bind m f km kf = record {
    at = λ log. Reads-trans (km.at log) (Quiet-continue (m log).0 f kf (m log).1);
  }

pub ruleset quiet_rules = (
  Quiet-pure, Quiet-raise, Quiet-lift, Quiet-perform, Quiet-attempt, Quiet-in_context, Quiet-if,
  Quiet-bind,
)

-- ===== src/Effects/Success.antt =====
-- Actions that succeed, by their parts.
use lark_utils_exp.Prelude.{◌≡◌, refl, ap, ok, err, panic, unfinished, map_err, map_err-eq-ok}
use lark_utils_exp.Text.{Text}
use lark_utils_exp.Error.{Error, Fallible, context}
use lark_utils_exp.Effects.{Log, Io, pure, raise, continue, ◌>>=◌, in_context}

-- The action ends in `end` with the value `a`.
abbrev pub Ends : {A : Type 0} → Io A → Log → A → Log → Type 0
Ends m log a end = m log ≡ (ok a, end)

module _ {A B : Type 0} where
  continue-Ends :
      (r : Fallible A) (f : A → Io B) {log : Log} {b : B} {end : Log}
      → continue r f log ≡ (ok b, end)
      → (a : A) × (r ≡ ok a) × (f a log ≡ (ok b, end))
  continue-Ends (ok a) f h = (a, refl, h)
  continue-Ends (err e) f h = cc
  continue-Ends panic f h = cc
  continue-Ends unfinished f h = cc

  pub >>=-Ends :
      (m : Io A) (f : A → Io B) {log : Log} {b : B} {end : Log}
      → Ends (m >>= f) log b end
      → (a : A) × (mid : Log) × (Ends m log a mid) × (Ends (f a) mid b end)
  unfolding ◌>>=◌
  >>=-Ends m f {log} h = let (a, r, e) = continue-Ends (m log).0 f h in (a, (m log).1, cc, e)

  pub >>=-after :
      (m : Io A) (f : A → Io B) {log : Log} {a : A} {mid : Log}
      → Ends m log a mid
      → (m >>= f) log ≡ f a mid
  unfolding ◌>>=◌
  >>=-after m f e = ap (λ p. continue p.0 f p.1) e

module _ {A : Type 0} where
  pub in_context-Ends :
      (c : Text) (m : Io A) {log : Log} {a : A} {end : Log}
      → Ends (in_context c m) log a end
      → Ends m log a end
  unfolding in_context
  in_context-Ends c m {log} {a} {end} h =
      let r : map_err (context c) (m log).0 ≡ ok a = cc in
      let s = map_err-eq-ok (context c) (m log).0 r in cc

  pub raise-Ends : (e : Error) (log : Log) {a : A} {end : Log} → Ends (raise e) log a end → ⊥
  unfolding raise
  raise-Ends e log h = cc

  pub pure-Ends : (x : A) (log : Log) {a : A} {end : Log} → Ends (pure x) log a end → end ≡ log
  unfolding pure
  pure-Ends x log h = cc

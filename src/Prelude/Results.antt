-- ===== src/Prelude/Results.antt =====
-- Fallible code: a value, an error, a panic (a failed assertion, an index out of bounds), or a loop
-- that has not ended within its fuel.
use mathlib.Core.Path.{◌≡◌, refl}
use mathlib.Core.Option.{Option, none, some}
use mathlib.Core.List.{List, ◌∷◌}

pub data Result {ℓ κ} (E : Type ℓ) (A : Type κ) : Type (ℓ ⊔ κ) where
  ok : A → Result E A
  err : E → Result E A
  panic : Result E A
  unfinished : Result E A

infixl 5 ◌>>=◌
abbrev pub ◌>>=◌ {ℓ κ μ} :
    {E : Type ℓ} {A : Type κ} {B : Type μ} → Result E A → (A → Result E B) → Result E B
ok a >>= f = f a
err e >>= f = err e
panic >>= f = panic
unfinished >>= f = unfinished

infixl 5 ◌>>◌
abbrev pub ◌>>◌ {ℓ κ μ} :
    {E : Type ℓ} {A : Type κ} {B : Type μ} → Result E A → Result E B → Result E B
m >> k = m >>= λ _. k

abbrev pub map_err {ℓ κ} : {E : Type ℓ} {A : Type κ} → (E → E) → Result E A → Result E A
map_err f (ok a) = ok a
map_err f (err e) = err (f e)
map_err f panic = panic
map_err f unfinished = unfinished

abbrev pub ok_or {ℓ κ} : {E : Type ℓ} {A : Type κ} → Option A → E → Result E A
ok_or none e = err e
ok_or (some a) e = ok a

module _ {ℓ κ μ} {E : Type ℓ} {A : Type κ} {B : Type μ} where
  pub >>=-eq-ok :
      (first : Result E A) (next : A → Result E B) {out : B}
      → (first >>= next) ≡ ok out
      → (mid : A) × (first ≡ ok mid) × (next mid ≡ ok out)
  >>=-eq-ok panic next e = cc
  >>=-eq-ok unfinished next e = cc
  >>=-eq-ok (err x) next e = cc
  >>=-eq-ok (ok mid) next e = (mid, refl, e)

pub map_err-eq-ok {ℓ κ} :
    {E : Type ℓ} {A : Type κ} (f : E → E) (m : Result E A) {a : A} → map_err f m ≡ ok a → m ≡ ok a
map_err-eq-ok f (ok a) h = h
map_err-eq-ok f (err e) h = cc
map_err-eq-ok f panic h = cc
map_err-eq-ok f unfinished h = cc

pub ok_or-eq-ok {ℓ κ} :
    {E : Type ℓ} {A : Type κ} (o : Option A) (e : E) {a : A} → ok_or o e ≡ ok a → o ≡ some a
ok_or-eq-ok none e h = cc
ok_or-eq-ok (some a) e h = cc

-- A result put in front of the rest of a list.
pub cons-eq-ok {ℓ κ} :
    {E : Type ℓ} {A : Type κ} (x : A) (r : Result E (List A)) {out : List A}
    → (r >>= λ later. ok (x ∷ later)) ≡ ok out
    → (later : List A) × (r ≡ ok later) × (x ∷ later ≡ out)
cons-eq-ok x (ok later) h = (later, refl, cc)
cons-eq-ok x (err e) h = cc
cons-eq-ok x panic h = cc
cons-eq-ok x unfinished h = cc

pub cons-eq-err {ℓ κ} :
    {E : Type ℓ} {A : Type κ} (x : A) (r : Result E (List A)) {e : E}
    → (r >>= λ later. ok (x ∷ later)) ≡ err e
    → r ≡ err e
cons-eq-err x (ok later) h = cc
cons-eq-err x (err e) h = cc
cons-eq-err x panic h = cc
cons-eq-err x unfinished h = cc

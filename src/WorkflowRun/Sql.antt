-- ===== src/WorkflowRun/Sql.antt =====
-- `UPDATE … WHERE` and `EXISTS` on a table, a list of its rows.
use lark_utils_exp.Prelude.{
  ℕ, suc, List, [], ◌∷◌, Bool, true, false, ◌&&◌, any, map, All, if◌then◌else◌, ◌≡◌, refl, ap,
  Bool-cases, inl, inr,
}

module _ {A : Type 0} where
  unfoldable pub update_where : (A → Bool) → (A → A) → List A → List A
  update_where p f [] = []
  update_where p f (a ∷ rows) = (if p a then f a else a) ∷ update_where p f rows

  -- `rows_affected`
  unfoldable pub rows_affected : (A → Bool) → List A → ℕ
  rows_affected p [] = 0
  rows_affected p (a ∷ rows) = let rest = rows_affected p rows in if p a then suc rest else rest

  -- An update keeps what holds of each row.
  pub All-update_where :
      (P : A → Type 0) (p : A → Bool) (f : A → A)
      → ((a : A) → p a ≡ true → P a → P (f a))
      → (rows : List A) → All P rows
      → All P (update_where p f rows)
  unfolding update_where
  All-update_where P p f k [] h = tt
  All-update_where P p f k (a ∷ rows) (x, h) = elim (Bool-cases (p a)) [
    | inl e ↦ (rw e (k a e x), All-update_where P p f k rows h)
    | inr e ↦ (rw e x, All-update_where P p f k rows h)
  ]

  -- An update keeps a column that it does not set.
  pub map-update_where :
      {B : Type 0} (column : A → B) (p : A → Bool) (f : A → A)
      → ((a : A) → column (f a) ≡ column a)
      → (rows : List A) → map column (update_where p f rows) ≡ map column rows
  unfolding update_where
  map-update_where column p f k [] = refl
  map-update_where column p f k (a ∷ rows) = elim (Bool-cases (p a)) [
    | inl e ↦ rw (e, k a) (ap (λ l. column a ∷ l) (map-update_where column p f k rows))
    | inr e ↦ rw e (ap (λ l. column a ∷ l) (map-update_where column p f k rows))
  ]

  -- An update whose condition no row meets changes nothing.
  pub update_where-unmet :
      (p : A → Bool) (f : A → A) (rows : List A)
      → All (λ a. p a ≡ false) rows
      → update_where p f rows ≡ rows
  unfolding update_where
  update_where-unmet p f [] unmet = refl
  update_where-unmet p f (a ∷ rows) (e, unmet) =
      rw e (ap (λ l. a ∷ l) (update_where-unmet p f rows unmet))

  -- `SELECT … WHERE`
  unfoldable pub rows_where : (A → Bool) → List A → List A
  rows_where p [] = []
  rows_where p (a ∷ rows) = let rest = rows_where p rows in if p a then a ∷ rest else rest

  -- Rows that an update neither changes nor moves into the selection.
  pub rows_where-update_where :
      (q p : A → Bool) (f : A → A)
      → ((a : A) → q (f a) ≡ q a)
      → ((a : A) → q a ≡ true → p a ≡ false)
      → (rows : List A) → rows_where q (update_where p f rows) ≡ rows_where q rows
  unfolding update_where rows_where
  rows_where-update_where q p f same spared [] = refl
  rows_where-update_where q p f same spared (a ∷ rows) = elim (Bool-cases (q a)) [
    | inl e ↦ rw (spared a e, e) (ap (λ l. a ∷ l) (rows_where-update_where q p f same spared rows))
    | inr e ↦ elim (Bool-cases (p a)) [
      | inl g ↦ rw (g, same a, e) (rows_where-update_where q p f same spared rows)
      | inr g ↦ rw (g, e) (rows_where-update_where q p f same spared rows)
    ]
  ]

  -- After an update whose new rows fall out of its condition, no row meets the condition.
  pub update_where-none :
      (p : A → Bool) (f : A → A)
      → ((a : A) → p (f a) ≡ false)
      → (rows : List A) → All (λ a. p a ≡ false) (update_where p f rows)
  unfolding update_where
  update_where-none p f out [] = tt
  update_where-none p f out (a ∷ rows) = elim (Bool-cases (p a)) [
    | inl e ↦ (rw e (out a), update_where-none p f out rows)
    | inr e ↦ (rw e e, update_where-none p f out rows)
  ]

  pub any-All : (p : A → Bool) (rows : List A) → any p rows ≡ false → All (λ a. p a ≡ false) rows
  any-All p [] e = tt
  any-All p (a ∷ rows) e = elim (Bool-cases (p a)) [
    | inl f ↦ absurd (let q = rw f at e in cc)
    | inr f ↦ (f, any-All p rows (rw f at e))
  ]

  -- A condition that no row meets, and so no stronger one.
  pub any-and_false :
      (p q r : A → Bool) (rows : List A)
      → any p rows ≡ false
      → any (λ a. (p a && q a) && r a) rows ≡ false
  any-and_false p q r [] e = refl
  any-and_false p q r (a ∷ rows) e = elim (Bool-cases (p a)) [
    | inl f ↦ absurd (let g = rw f at e in cc)
    | inr f ↦ rw f (any-and_false p q r rows (rw f at e))
  ]

  -- What an update gives the rows that it changes, and the others have.
  pub All-updated :
      (P : A → Type 0) (p : A → Bool) (f : A → A)
      → ((a : A) → p a ≡ true → P (f a))
      → ((a : A) → p a ≡ false → P a)
      → (rows : List A) → All P (update_where p f rows)
  unfolding update_where
  All-updated P p f k m [] = tt
  All-updated P p f k m (a ∷ rows) = elim (Bool-cases (p a)) [
    | inl e ↦ (rw e (k a e), All-updated P p f k m rows)
    | inr e ↦ (rw e (m a e), All-updated P p f k m rows)
  ]

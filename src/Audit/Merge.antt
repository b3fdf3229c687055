-- ===== src/Audit/Merge.antt =====
-- A `BTreeMap` by text keys that refuses to replace an entry by a different one: the loop of
-- `collect_reviewed_audit_results` and of `collect_audit_extra` in src/pipeline/audit_result_sync.rs.
use lark_utils_exp.Prelude.{
  List, [], ◌∷◌, Bool, true, Option, none, some, ok, err, lt, eq, gt, if◌then◌else◌, All, All-imp,
  ◌≡◌, refl, sym, arith, subst, ◌∙◌, Bool-cases, inl, inr,
}
use lark_utils_exp.Text.{Text, text_eq, text_compare}
use lark_utils_exp.Text.Order.{
  text_eq_iff, text_eq_refl, eq_of_text_compare, text_compare_of_eq, text_compare_trans,
  text_compare_swap, text_compare_cases,
}
use lark_utils_exp.Error.{Error, Fallible}

-- What a round of the loop makes of its item: nothing, an error, or an entry.
pub data Round (E : Type 0) : Type 0 where
  skips : Round E
  fails : Error → Round E
  enters : E → Round E

module _ {E : Type 0} (key : E → Text) (same : E → E → Bool) (conflict : E → E → Error) where
  -- `BTreeMap::insert`, the entries in ascending order of their keys
  unfoldable pub insert_entry : E → List E → List E
  unfolding text_compare
  insert_entry e [] = e ∷ []
  insert_entry e (d ∷ l) = elim (text_compare (key e) (key d)) [
    | lt ↦ e ∷ (d ∷ l)
    | eq ↦ e ∷ l
    | gt ↦ d ∷ insert_entry e l
  ]

  unfoldable pub find_entry : Text → List E → Option E
  unfolding text_eq
  find_entry k [] = none
  find_entry k (d ∷ l) = if text_eq (key d) k then some d else find_entry k l

  -- Whether an entry may take the place of the one before.
  abbrev pub fits : Option E → E → Bool
  fits none e = true
  fits (some d) e = same d e

  abbrev pub refusal : Option E → E → Error
  refusal none e = conflict e e
  refusal (some d) e = conflict d e

  unfoldable pub merge_rounds : List E → List (Round E) → Fallible (List E)
  unfolding insert_entry find_entry
  merge_rounds entries [] = ok entries
  merge_rounds entries (skips ∷ rounds) = merge_rounds entries rounds
  merge_rounds entries (fails e ∷ rounds) = err e
  merge_rounds entries (enters e ∷ rounds) =
      let rest = merge_rounds (insert_entry e entries) rounds in
      let previous = find_entry (key e) entries in
      if fits previous e then rest else err (refusal previous e)

  pub find_entry-insert_entry :
      (k : Text) (e : E) (l : List E)
      → find_entry k (insert_entry e l) ≡ (if text_eq (key e) k then some e else find_entry k l)
  unfolding find_entry insert_entry
  find_entry-insert_entry k e [] = refl
  find_entry-insert_entry k e (d ∷ l) = ground (
    arith,
    find_entry-insert_entry k e l,
    eq_of_text_compare (key e) (key d),
    text_compare_of_eq (key e) (key d),
    text_eq_iff (key e) k,
    text_eq_iff (key d) k,
  )

  -- The entry's key holds an entry that is the same.
  abbrev pub Agrees : List E → E → Type 0
  Agrees out e = (d : E) × (find_entry (key e) out ≡ some d) × (same e d ≡ true)

  abbrev pub AgreesRound : List E → Round E → Type 0
  AgreesRound out skips = Unit
  AgreesRound out (fails e) = ⊥
  AgreesRound out (enters e) = Agrees out e

  module _ (same_refl : (e : E) → same e e ≡ true)
      (same_trans : (a b c : E) → same a b ≡ true → same b c ≡ true → same a c ≡ true) where
    -- A key that is entered once stays entered, with an entry that is the same.
    stays :
        (k : Text) (d : E) (rounds : List (Round E)) (entries out : List E)
        → merge_rounds entries rounds ≡ ok out
        → find_entry k entries ≡ some d
        → (c : E) × (find_entry k out ≡ some c) × (same d c ≡ true)
    unfolding merge_rounds
    stays k d [] entries out e f =
        let own : entries ≡ out = cc in (d, subst (λ l. find_entry k l ≡ some d) own f, same_refl d)
    stays k d (skips ∷ rounds) entries out e f = stays k d rounds entries out e f
    stays k d (fails x ∷ rounds) entries out e f = cc
    stays k d (enters x ∷ rounds) entries out e f =
        elim (Bool-cases (fits (find_entry (key x) entries) x)) [
          | inr g ↦ absurd (let q = rw g at e in cc)
          | inl g ↦
              let rest : merge_rounds (insert_entry x entries) rounds ≡ ok out = rw g at e in
              elim (Bool-cases (text_eq (key x) k)) [
                | inr h ↦
                    stays k d rounds (insert_entry x entries) out rest
                      (find_entry-insert_entry k x entries ∙ rw h f)
                | inl h ↦
                    let own : key x ≡ k = (text_eq_iff (key x) k).0 h in
                    let fit : same d x ≡ true = rw (own, f) at g in
                    let (c, found, alike) =
                      stays k x rounds (insert_entry x entries) out rest
                        (find_entry-insert_entry k x entries ∙ rw h refl) in
                    (c, found, same_trans d x c fit alike)
              ]
        ]

    agrees_over :
        (rounds : List (Round E)) (entries out : List E)
        → merge_rounds entries rounds ≡ ok out
        → All (AgreesRound out) rounds
    unfolding merge_rounds
    agrees_over [] entries out e = tt
    agrees_over (skips ∷ rounds) entries out e = (tt, agrees_over rounds entries out e)
    agrees_over (fails x ∷ rounds) entries out e = absurd cc
    agrees_over (enters x ∷ rounds) entries out e =
        elim (Bool-cases (fits (find_entry (key x) entries) x)) [
          | inr g ↦ absurd (let q = rw g at e in cc)
          | inl g ↦
              let rest : merge_rounds (insert_entry x entries) rounds ≡ ok out = rw g at e in
              (
                stays (key x) x rounds (insert_entry x entries) out rest
                    (find_entry-insert_entry (key x) x entries ∙ rw (text_eq_refl (key x)) refl),
                agrees_over rounds (insert_entry x entries) out rest,
              )
        ]

    -- A merge that succeeds has met no error, and holds for each entry that came in one that is the
    -- same, under its key.
    pub merge_rounds-Agrees :
        (rounds : List (Round E)) (out : List E)
        → merge_rounds [] rounds ≡ ok out
        → All (AgreesRound out) rounds
    merge_rounds-Agrees rounds out e = agrees_over rounds [] out e

  -- The keys ascend.
  abbrev pub Below : Text → List E → Type 0
  Below k l = All (λ d. text_compare k (key d) ≡ lt) l

  abbrev pub Ascending : List E → Type 0
  Ascending [] = Unit
  Ascending (d ∷ l) = Below (key d) l × Ascending l

  Below-trans : (j k : Text) (l : List E) → text_compare j k ≡ lt → Below k l → Below j l
  Below-trans j k l h b = All-imp l (λ d c. text_compare_trans j k (key d) h c) b

  insert_entry-Below :
      (k : Text) (e : E) (l : List E)
      → text_compare k (key e) ≡ lt
      → Below k l
      → Below k (insert_entry e l)
  unfolding insert_entry
  insert_entry-Below k e [] h b = (h, tt)
  insert_entry-Below k e (d ∷ l) h (c, b) = elim (text_compare_cases (key e) (key d)) [
    | inl f ↦ rw (f, insert_entry) (h, (c, b))
    | inr (inl f) ↦ rw (f, insert_entry) (h, b)
    | inr (inr f) ↦ rw (f, insert_entry) (c, insert_entry-Below k e l h b)
  ]

  insert_entry-Ascending : (e : E) (l : List E) → Ascending l → Ascending (insert_entry e l)
  unfolding insert_entry
  insert_entry-Ascending e [] a = (tt, tt)
  insert_entry-Ascending e (d ∷ l) (b, a) = elim (text_compare_cases (key e) (key d)) [
    | inl f ↦ rw (f, insert_entry) ((f, Below-trans (key e) (key d) l f b), (b, a))
    | inr (inl f) ↦
        rw (f, insert_entry)
          (subst (λ k. Below k l) (sym (eq_of_text_compare (key e) (key d) f)) b, a)
    | inr (inr f) ↦
        rw (f, insert_entry)
          (
            insert_entry-Below (key d) e l (text_compare_swap (key e) (key d) f) b,
            insert_entry-Ascending e l a,
          )
  ]

  -- The keys of a merge that succeeds ascend, so that no two are equal.
  pub merge_rounds-Ascending :
      (rounds : List (Round E)) (entries out : List E)
      → Ascending entries
      → merge_rounds entries rounds ≡ ok out
      → Ascending out
  unfolding merge_rounds
  merge_rounds-Ascending [] entries out a e = let own : entries ≡ out = cc in subst Ascending own a
  merge_rounds-Ascending (skips ∷ rounds) entries out a e =
      merge_rounds-Ascending rounds entries out a e
  merge_rounds-Ascending (fails x ∷ rounds) entries out a e = cc
  merge_rounds-Ascending (enters x ∷ rounds) entries out a e =
      elim (Bool-cases (fits (find_entry (key x) entries) x)) [
        | inr g ↦ absurd (let q = rw g at e in cc)
        | inl g ↦
            merge_rounds-Ascending rounds (insert_entry x entries) out
              (insert_entry-Ascending x entries a) (rw g at e)
      ]

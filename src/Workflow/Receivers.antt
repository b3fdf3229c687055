-- ===== src/Workflow/Receivers.antt =====
-- Whom src/workflow.rs tells of an error.
use lark_utils_exp.Prelude.{
  ℕ, List, [], ◌∷◌, Bool, true, false, not, ◌&&◌, ◌||◌, none, some, any, All, if◌then◌else◌, ◌≡◌,
  refl, Bool-cases, inl, inr, All-imp,
}
use lark_utils_exp.Text.{Text, text, text_eq, trim, non_empty, join}
use lark_utils_exp.Text.Order.{text_eq_refl}
use lark_utils_exp.Error.Display.{contains_text}

-- `XingtuProjectAccount`, as far as it is read here.
pub record XingtuProjectAccount : Type 0 where
  pub xingtu_account_id : Text
  pub project_id : ℕ
  pub project_display_name : Text
  pub receive_id_type : Text
  pub receive_id : Text
  pub ops_ids : List Text
  pub login_notice_card_template_id : Text

abbrev trimmed : List Text → List Text
trimmed [] = []
trimmed (id ∷ ids) = elim (non_empty (trim id)) [ none ↦ trimmed ids | some t ↦ t ∷ trimmed ids ]

-- XingtuProjectAccount::ops_ids_text
unfoldable pub ops_ids_text : List Text → Text
unfolding trim join
ops_ids_text ids = join (text ",") (trimmed ids)

abbrev pub same_receiver : XingtuProjectAccount → XingtuProjectAccount → Bool
same_receiver a b = text_eq a.receive_id_type b.receive_id_type && text_eq a.receive_id b.receive_id

abbrev pub names_account : Text → XingtuProjectAccount → Bool
names_account error_chain a = contains_text a.xingtu_account_id error_chain

-- The filters, with the accounts whose receivers were inserted before.
unfoldable pub select_new :
    (XingtuProjectAccount → Bool)
    → List XingtuProjectAccount
    → List XingtuProjectAccount
    → List XingtuProjectAccount
unfolding text_eq
select_new p seen [] = []
select_new p seen (a ∷ accounts) =
    let skipped = select_new p seen accounts in
    let taken = select_new p (a ∷ seen) accounts in
    if p a && not (any (same_receiver a) seen) then a ∷ taken else skipped

abbrev pub is_eligible : List XingtuProjectAccount → Text → XingtuProjectAccount → Bool
is_eligible accounts error_chain a =
    not (any (names_account error_chain) accounts) || names_account error_chain a

-- fn select_workflow_error_notice_accounts
unfoldable pub select_workflow_error_notice_accounts :
    List XingtuProjectAccount → Text → List XingtuProjectAccount
unfolding select_new
select_workflow_error_notice_accounts accounts error_chain =
    select_new (is_eligible accounts error_chain) [] accounts

-- No two of the accounts have one receiver.
abbrev pub DistinctReceivers : List XingtuProjectAccount → Type 0
DistinctReceivers [] = Unit
DistinctReceivers (a ∷ accounts) =
    All (λ b. same_receiver b a ≡ false) accounts × DistinctReceivers accounts

or_false_left : (b c : Bool) → b || c ≡ false → b ≡ false
or_false_left true c e = cc
or_false_left false c e = refl

or_false_right : (b c : Bool) → b || c ≡ false → c ≡ false
or_false_right true c e = cc
or_false_right false c e = e

or_shift : (a b c : Bool) → a || (b || c) ≡ true → (b || a) || c ≡ true
or_shift true true c e = refl
or_shift true false c e = refl
or_shift false true c e = refl
or_shift false false c e = e

and_cases : (b c : Bool) → (b && not c ≡ false) → b ≡ true → c ≡ true
and_cases true true e f = refl
and_cases true false e f = absurd cc
and_cases false c e f = absurd cc

and_first : (b c : Bool) → b && c ≡ true → b ≡ true
and_first true c e = refl
and_first false c e = e

module _ (p : XingtuProjectAccount → Bool) where
  -- Whether the account is taken.
  abbrev is_taken : List XingtuProjectAccount → XingtuProjectAccount → Bool
  is_taken seen a = p a && not (any (same_receiver a) seen)

  select_new-fresh :
      (seen accounts : List XingtuProjectAccount)
      → All (λ a. any (same_receiver a) seen ≡ false) (select_new p seen accounts)
  unfolding select_new
  select_new-fresh seen [] = tt
  select_new-fresh seen (a ∷ accounts) = elim (Bool-cases (is_taken seen a)) [
    | inr e ↦ rw e (select_new-fresh seen accounts)
    | inl e ↦ rw e (
      elim (Bool-cases (any (same_receiver a) seen)) [
        | inr f ↦ f
        | inl f ↦ absurd (taken_seen (p a) (rw f at e))
      ],
      All-imp (select_new p (a ∷ seen) accounts)
          (λ b k. or_false_right (same_receiver b a) (any (same_receiver b) seen) k)
          (select_new-fresh (a ∷ seen) accounts),
    )
  ]
    where
      taken_seen : (b : Bool) → b && false ≡ true → ⊥
      taken_seen true f = cc
      taken_seen false f = cc

  select_new-DistinctReceivers :
      (seen accounts : List XingtuProjectAccount) → DistinctReceivers (select_new p seen accounts)
  unfolding select_new
  select_new-DistinctReceivers seen [] = tt
  select_new-DistinctReceivers seen (a ∷ accounts) = elim (Bool-cases (is_taken seen a)) [
    | inr e ↦ rw e (select_new-DistinctReceivers seen accounts)
    | inl e ↦ rw e (
      All-imp (select_new p (a ∷ seen) accounts)
          (λ b k. or_false_left (same_receiver b a) (any (same_receiver b) seen) k)
          (select_new-fresh (a ∷ seen) accounts),
      select_new-DistinctReceivers (a ∷ seen) accounts,
    )
  ]

  select_new-eligible :
      (seen accounts : List XingtuProjectAccount)
      → All (λ a. p a ≡ true) (select_new p seen accounts)
  unfolding select_new
  select_new-eligible seen [] = tt
  select_new-eligible seen (a ∷ accounts) = elim (Bool-cases (is_taken seen a)) [
    | inr e ↦ rw e (select_new-eligible seen accounts)
    | inl e ↦ rw e (
      and_first (p a) (not (any (same_receiver a) seen)) e,
      select_new-eligible (a ∷ seen) accounts,
    )
  ]

  same_receiver_refl : (a : XingtuProjectAccount) → same_receiver a a ≡ true
  same_receiver_refl a = rw (text_eq_refl a.receive_id_type) (text_eq_refl a.receive_id)

  -- The receiver of an account that passes is among the selected, or was seen.
  select_new-covers :
      (seen accounts : List XingtuProjectAccount)
      → All
          (λ a.
            p a ≡ true
            → any (same_receiver a) (select_new p seen accounts) || any (same_receiver a) seen
              ≡ true)
          accounts
  unfolding select_new
  select_new-covers seen [] = tt
  select_new-covers seen (a ∷ accounts) = elim (Bool-cases (is_taken seen a)) [
    | inr e ↦ (
      λ k.
          rw (e, and_cases (p a) (any (same_receiver a) seen) e k)
            (or_true_right (any (same_receiver a) (select_new p seen accounts))),
      All-imp accounts (λ b covered k. rw e (covered k)) (select_new-covers seen accounts),
    )
    | inl e ↦ (
      λ k. rw (e, same_receiver_refl a) refl,
      All-imp accounts
          (λ b covered k. rw e (
            or_shift (any (same_receiver b) (select_new p (a ∷ seen) accounts)) (same_receiver b a)
              (any (same_receiver b) seen) (covered k)))
          (select_new-covers (a ∷ seen) accounts),
    )
  ]
    where
      or_true_right : (b : Bool) → b || true ≡ true
      or_true_right true = refl
      or_true_right false = refl

-- Of the accounts that may be told, all that the error names or else all, each selected one may be
-- told, no two of the selected have one receiver, and the receiver of each that may be told is the
-- receiver of a selected one.
pub select-receivers :
    (accounts : List XingtuProjectAccount) (error_chain : Text)
    → let selected = select_workflow_error_notice_accounts accounts error_chain in
      All (λ a. is_eligible accounts error_chain a ≡ true) selected
      × DistinctReceivers selected
      × All
          (λ a. is_eligible accounts error_chain a ≡ true → any (same_receiver a) selected ≡ true)
          accounts
unfolding select_workflow_error_notice_accounts
select-receivers accounts error_chain = (
  select_new-eligible (is_eligible accounts error_chain) [] accounts,
  select_new-DistinctReceivers (is_eligible accounts error_chain) [] accounts,
  All-imp accounts
      (λ a covered k.
        drop_false
          (any (same_receiver a) (select_new (is_eligible accounts error_chain) [] accounts))
          (covered k))
      (select_new-covers (is_eligible accounts error_chain) [] accounts),
)
  where
    drop_false : (b : Bool) → b || false ≡ true → b ≡ true
    drop_false true e = refl
    drop_false false e = e

-- ===== src/WorkflowRun/Claims.antt =====
-- The reservation of a notice by `claim_notification` of src/workflow_run.rs, over time.
use lark_utils_exp.Prelude.{
  ℕ, ◌+◌, ◌<◌, List, [], ◌∷◌, true, false, some, leb, ◌≡◌, refl, ap, sym, subst, arith, Bool-cases,
  Option-cases, Bool, All, ◌≤◌, inl, inr,
}
use lark_utils_exp.Text.{Text}
use lark_utils_exp.Text.Order.{text_eq_refl}
use lark_utils_exp.WorkflowRun.Sql.{update_where}
use lark_utils_exp.WorkflowRun.Tables.{Guard, Database, seconds}
use lark_utils_exp.WorkflowRun.Recovery.{to_i32}
use lark_utils_exp.WorkflowRun.Operations.{Operation, marks, unreserves, clears, perform_at, replay}
use lark_utils_exp.WorkflowRun.Guards.{
  is_key, Concern, claiming, marking, unreserving, clearing, Concern-cases, perform_at-find_guard,
}
use lark_utils_exp.WorkflowRun.Notices.{
  is_guard, find_guard, is_claimable, reserve, claim_notification,
}

module _ (category scope : Text) where
  -- An update of a key's guard that keeps the key.
  pub find_guard-update_where :
      (f : Guard → Guard) (guards : List Guard) (g : Guard)
      → ((h : Guard) → is_guard category scope (f h) ≡ is_guard category scope h)
      → find_guard category scope guards ≡ some g
      → find_guard category scope (update_where (is_guard category scope) f guards) ≡ some (f g)
  unfolding find_guard update_where
  find_guard-update_where f [] g same e = cc
  find_guard-update_where f (h ∷ guards) g same e = elim (Bool-cases (is_guard category scope h)) [
    | inl k ↦
        let q : some h ≡ some g = rw k at e in let eq : h ≡ g = cc in rw (k, same h, k, eq) refl
    | inr k ↦ rw (k, k) (find_guard-update_where f guards g same (rw k at e))
  ]

  -- The operation gives the reservation back: the notice is marked as sent, released or cleared.
  abbrev pub is_ending : Operation → Bool
  is_ending (marks c s) = is_key category scope c s
  is_ending (unreserves c s) = is_key category scope c s
  is_ending (clears c s) = is_key category scope c s
  is_ending o = false

  -- The operation comes before a time, and does not give the reservation back.
  abbrev pub IsWaiting : ℕ → ℕ × Operation → Type 0
  IsWaiting limit (now, o) = (now < limit) × (is_ending o ≡ false)

  abbrev pub IsReserved : ℕ → Text → Database → Type 0
  IsReserved limit hash db =
      (g : Guard) × (find_guard category scope db.guards ≡ some g)
      × (g.payload_hash ≡ hash)
      × (limit ≤ g.reserved_until)

  pub own_key : is_key category scope category scope ≡ true
  own_key = rw (text_eq_refl category, text_eq_refl scope) refl

  module _ (sha1_hex : Text → Text) where
    -- A claim of a guard that cannot be claimed is refused, and changes nothing.
    pub claim_refused :
        (now : ℕ) (payload : Text) (cooldown : ℕ) (db : Database) (g : Guard)
        → find_guard category scope db.guards ≡ some g
        → is_claimable now (sha1_hex payload) (to_i32 cooldown) g ≡ false
        → claim_notification now sha1_hex category scope payload cooldown db ≡ (false, db)
    unfolding claim_notification
    claim_refused now payload cooldown db g e f = rw (e, claim_notification, f) refl

    -- The guard after a claim that succeeded.
    pub claim_won :
        (now : ℕ) (payload : Text) (cooldown : ℕ) (db : Database)
        → (claim_notification now sha1_hex category scope payload cooldown db).0 ≡ true
        → (g : Guard) × (find_guard category scope
              (claim_notification now sha1_hex category scope payload cooldown db).1.guards
            ≡ some g)
          × (g.payload_hash ≡ sha1_hex payload)
          × (g.reserved_until ≡ now + seconds 300)
    unfolding claim_notification find_guard
    claim_won now payload cooldown db won =
        elim (Option-cases (find_guard category scope db.guards)) [
          | inl e ↦
              rw (e, claim_notification, find_guard, text_eq_refl category, text_eq_refl scope)
                (_, refl, refl, refl)
          | inr (g, e) ↦
              elim (Bool-cases (is_claimable now (sha1_hex payload) (to_i32 cooldown) g)) [
                | inr f ↦ absurd (let q = rw (e, claim_notification, f) at won in cc)
                | inl f ↦
                    rw (e, claim_notification, f)
                      (
                        reserve now (sha1_hex payload) g,
                        find_guard-update_where (reserve now (sha1_hex payload)) db.guards g
                            (λ h. refl) e,
                        refl,
                        refl,
                      )
              ]
        ]

    reserved_refuses :
        (limit later : ℕ) (hash payload : Text) (cooldown : ℕ) (db : Database)
        → IsReserved limit hash db
        → later < limit
        → claim_notification later sha1_hex category scope payload cooldown db ≡ (false, db)
    unfolding is_claimable
    reserved_refuses limit later hash payload cooldown db (g, e, same, until) soon =
        let q : leb g.reserved_until later ≡ false = ground arith in
        claim_refused later payload cooldown db g e (rw q refl)

    perform_at-IsReserved :
        (limit now : ℕ) (hash : Text) (o : Operation) (db : Database)
        → Concern category scope o
        → IsReserved limit hash db
        → now < limit
        → is_ending o ≡ false
        → IsReserved limit hash (perform_at sha1_hex now o db)
    unfolding perform_at
    perform_at-IsReserved limit now hash o db (claiming payload cooldown) r soon kept =
        subst (IsReserved limit hash)
          (sym (ap (λ p. p.1) (reserved_refuses limit now hash payload cooldown db r soon))) r
    perform_at-IsReserved limit now hash o db marking r soon kept =
        absurd (let q = rw own_key at kept in cc)
    perform_at-IsReserved limit now hash o db unreserving r soon kept =
        absurd (let q = rw own_key at kept in cc)
    perform_at-IsReserved limit now hash o db clearing r soon kept =
        absurd (let q = rw own_key at kept in cc)

    pub replay-IsReserved :
        (limit : ℕ) (hash : Text) (ops : List (ℕ × Operation)) (db : Database)
        → IsReserved limit hash db
        → All (IsWaiting limit) ops
        → IsReserved limit hash (replay sha1_hex ops db)
    unfolding replay
    replay-IsReserved limit hash [] db r waiting = r
    replay-IsReserved limit hash ((now, o) ∷ more) db r ((soon, kept), waiting) =
        replay-IsReserved limit hash more (perform_at sha1_hex now o db)
          (elim (Concern-cases category scope o) [
            | inl other ↦ rw (perform_at-find_guard category scope sha1_hex now o db other) r
            | inr own ↦ perform_at-IsReserved limit now hash o db own r soon kept
          ])
          waiting

    -- A notice is reserved for one sender: after a claim that succeeded, whatever operations come
    -- in the next five minutes, every claim of the same category and scope in that time is refused,
    -- whatever its payload and cooldown, as long as the notice was not marked as sent, released or
    -- cleared in between.
    pub claim-excludes :
        (now later : ℕ) (payload other : Text) (cooldown wait : ℕ) (ops : List (ℕ × Operation))
        (db : Database)
        → (claim_notification now sha1_hex category scope payload cooldown db).0 ≡ true
        → All (IsWaiting (now + seconds 300)) ops
        → later < now + seconds 300
        → (claim_notification later sha1_hex category scope other wait (
            replay sha1_hex ops
              (claim_notification now sha1_hex category scope payload cooldown db).1)).0
          ≡ false
    claim-excludes now later payload other cooldown wait ops db won waiting soon =
        let (g, e, hash, until) = claim_won now payload cooldown db won in
        let end = (claim_notification now sha1_hex category scope payload cooldown db).1 in
        ap (λ p. p.0)
          (reserved_refuses (now + seconds 300) later (sha1_hex payload) other wait
            (replay sha1_hex ops end)
            (replay-IsReserved (now + seconds 300) (sha1_hex payload) ops end
              (g, e, hash, omega (arith, until)) waiting)
            soon)

-- ===== src/WorkflowRun/Marks.antt =====
-- The mark of a notice by `mark_notification_sent` of src/workflow_run.rs, over time.
use lark_utils_exp.Prelude.{
  ℕ, ◌+◌, ◌<◌, List, [], ◌∷◌, true, false, some, leb, ◌≡◌, refl, ap, sym, subst, arith, Bool-cases,
  Bool, not, All, ◌≤◌, ◌||◌, inl, inr,
}
use lark_utils_exp.Text.{Text, text_eq}
use lark_utils_exp.Text.Order.{text_eq_refl, eq_of_text_eq}
use lark_utils_exp.WorkflowRun.Tables.{Guard, Database, seconds}
use lark_utils_exp.WorkflowRun.Recovery.{to_i32}
use lark_utils_exp.WorkflowRun.Operations.{Operation, claims, clears, perform_at, replay}
use lark_utils_exp.WorkflowRun.Guards.{
  is_key, Concern, claiming, marking, unreserving, clearing, Concern-cases, perform_at-find_guard,
}
use lark_utils_exp.WorkflowRun.Notices.{
  find_guard, is_claimable, reserve, claim_notification, mark_notification_sent,
  release_notification,
}
use lark_utils_exp.WorkflowRun.Claims.{
  find_guard-update_where, own_key, claim_refused, claim_won, IsWaiting, replay-IsReserved,
}

module _ (category scope : Text) where
  -- The operation keeps the mark: it does not clear the notice or claim it for another payload.
  abbrev pub is_repeating : Text → Operation → Bool
  is_repeating payload (claims c s other cooldown) =
      not (is_key category scope c s) || text_eq other payload
  is_repeating payload (clears c s) = not (is_key category scope c s)
  is_repeating payload o = true

  -- The operation comes at a time or later, and keeps the mark.
  abbrev pub IsRepeating : ℕ → Text → ℕ × Operation → Type 0
  IsRepeating from payload (now, o) = (from ≤ now) × (is_repeating payload o ≡ true)

  abbrev IsMarked : ℕ → Text → Database → Type 0
  IsMarked from hash db =
      (g : Guard) × (find_guard category scope db.guards ≡ some g)
      × (g.payload_hash ≡ hash)
      × (t : ℕ) × (g.last_sent_at ≡ some t)
      × (from ≤ t)

  module _ (sha1_hex : Text → Text) where
    claim_notification-IsMarked :
        (from now : ℕ) (payload : Text) (cooldown : ℕ) (db : Database)
        → IsMarked from (sha1_hex payload) db
        → IsMarked from
            (sha1_hex payload)
            (claim_notification now sha1_hex category scope payload cooldown db).1
    unfolding claim_notification
    claim_notification-IsMarked from now payload cooldown db (g, e, same, t, sent, le) =
        elim (Bool-cases (is_claimable now (sha1_hex payload) (to_i32 cooldown) g)) [
          | inr f ↦ rw (e, claim_notification, f) (g, e, same, t, sent, le)
          | inl f ↦
              let q : text_eq g.payload_hash (sha1_hex payload) ≡ true =
                rw same (text_eq_refl (sha1_hex payload)) in
              rw (e, claim_notification, f)
                (
                  reserve now (sha1_hex payload) g,
                  find_guard-update_where category scope (reserve now (sha1_hex payload)) db.guards
                      g (λ h. refl) e,
                  refl,
                  t,
                  rw q sent,
                  le,
                )
        ]

    perform_at-IsMarked :
        (from now : ℕ) (payload : Text) (o : Operation) (db : Database)
        → Concern category scope o
        → IsMarked from (sha1_hex payload) db
        → from ≤ now
        → is_repeating payload o ≡ true
        → IsMarked from (sha1_hex payload) (perform_at sha1_hex now o db)
    unfolding perform_at mark_notification_sent release_notification
    perform_at-IsMarked from now payload o db (claiming other cooldown) m le kept =
        let q : other ≡ payload =
          eq_of_text_eq other payload (rw (own_key category scope) at kept) in
        subst
          (λ p.
            IsMarked from (sha1_hex payload)
              (claim_notification now sha1_hex category scope p cooldown db).1)
          (sym q) (claim_notification-IsMarked from now payload cooldown db m)
    perform_at-IsMarked from now payload o db marking (g, e, same, t, sent, old) le kept =
        (_, find_guard-update_where category scope _ db.guards g (λ h. refl) e, same, now, refl, le)
    perform_at-IsMarked from now payload o db unreserving (g, e, same, t, sent, old) le kept =
        (_, find_guard-update_where category scope _ db.guards g (λ h. refl) e, same, t, sent, old)
    perform_at-IsMarked from now payload o db clearing m le kept =
        absurd (let q = rw (own_key category scope) at kept in cc)

    replay-IsMarked :
        (from : ℕ) (payload : Text) (ops : List (ℕ × Operation)) (db : Database)
        → IsMarked from (sha1_hex payload) db
        → All (IsRepeating from payload) ops
        → IsMarked from (sha1_hex payload) (replay sha1_hex ops db)
    unfolding replay
    replay-IsMarked from payload [] db m repeating = m
    replay-IsMarked from payload ((now, o) ∷ more) db m ((le, kept), repeating) =
        replay-IsMarked from payload more (perform_at sha1_hex now o db)
          (elim (Concern-cases category scope o) [
            | inl other ↦ rw (perform_at-find_guard category scope sha1_hex now o db other) m
            | inr own ↦ perform_at-IsMarked from now payload o db own m le kept
          ])
          repeating

    -- A notice is not repeated: after a claim that succeeded and its mark as sent, every claim of
    -- the same payload is refused until the cooldown has passed since the mark; a cooldown above
    -- the largest 32-bit number of seconds counts as that number. Between the claim and the mark
    -- any operations may come, in the five minutes of the claim, that do not mark, release or clear
    -- the notice; after the mark any that do not clear it or claim it for another payload.
    pub mark-cools :
        (now sent later : ℕ) (payload : Text) (cooldown wait : ℕ)
        (before after : List (ℕ × Operation)) (db : Database)
        → (claim_notification now sha1_hex category scope payload cooldown db).0 ≡ true
        → All (IsWaiting category scope (now + seconds 300)) before
        → All (IsRepeating sent payload) after
        → later < sent + seconds (to_i32 wait)
        → (claim_notification later sha1_hex category scope payload wait (
            replay sha1_hex after (
              mark_notification_sent sent category scope (
                replay sha1_hex before
                  (claim_notification now sha1_hex category scope payload cooldown db).1)))).0
          ≡ false
    unfolding is_claimable mark_notification_sent
    mark-cools now sent later payload cooldown wait before after db won waiting repeating soon =
        let (g, e, hash, until) = claim_won category scope sha1_hex now payload cooldown db won in
        let start = (claim_notification now sha1_hex category scope payload cooldown db).1 in
        let (g', e', same', until') =
          replay-IsReserved category scope sha1_hex (now + seconds 300) (sha1_hex payload) before
            start (g, e, hash, omega (arith, until)) waiting in
        let waited = replay sha1_hex before start in
        let (m, found, same, t, last, le) =
          replay-IsMarked sent payload after (mark_notification_sent sent category scope waited)
            (
              _,
              find_guard-update_where category scope
                  (λ h. record h { last_sent_at = some sent; reserved_until = sent }) waited.guards
                  g' (λ h. refl) e',
              same',
              sent,
              refl,
              omega arith,
            )
            repeating in
        let q : leb (t + seconds (to_i32 wait)) later ≡ false = ground arith in
        ap (λ p. p.0)
          (claim_refused category scope sha1_hex later payload wait _ m found
            (elim (Bool-cases (leb m.reserved_until later)) [
              | inl k ↦ rw (k, same, text_eq_refl (sha1_hex payload), last, q) refl
              | inr k ↦ rw k refl
            ]))

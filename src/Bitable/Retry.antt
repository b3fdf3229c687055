-- ===== src/Bitable/Retry.antt =====
-- The three attempts of a read in src/pipeline/bitable.rs.
use lark_utils_exp.Prelude.{
  ℕ, suc, ◌*◌, List, ◌∷◌, false, ok, err, panic, unfinished, ◌≡◌, ◌↔◌, refl, ◌==◌,
}
use lark_utils_exp.Text.{Text}
use lark_utils_exp.Error.{Error, Fallible}
use lark_utils_exp.Effects.{
  search_records, sleep, Log, Services, Io, pure, raise, lift, perform, attempt, ◌>>=◌,
}
use lark_utils_exp.Sync.Rows.{BitableRecord}
use lark_utils_exp.Bitable.{max_retries}
use lark_utils_exp.Bitable.Actions.{after_attempt, attempts_from, read_existing_records_with_retry}

abbrev pub IsErr : {A : Type 0} → Fallible A → Type 0
IsErr {A} r = (e : Error) × (r ≡ err e)

module _ (services : Services) (app table : Text) where
  -- The search fails when these calls were made before it.
  abbrev pub Fails : Log → Type 0
  Fails log = IsErr (services.search log app table)

  attempts_from-step :
      (left n : ℕ) (log : Log)
      → attempts_from services (suc left) n app table log
        ≡ after_attempt services n
            (services.search log app table)
            (attempts_from services left (suc n) app table)
            (search_records app table ∷ log)
  unfolding attempts_from attempt perform ◌>>=◌
  attempts_from-step left n log = refl

  after-last :
      (r : Fallible (List BitableRecord)) (again : Io (List BitableRecord)) (log : Log)
      → IsErr (after_attempt services max_retries r again log).0 ↔ IsErr r
  unfolding after_attempt pure raise lift
  after-last (ok records) again log = (λ (e, h). absurd cc, λ (e, h). absurd cc)
  after-last (err e) again log = (λ _. (e, refl), λ _. (_, refl))
  after-last panic again log = (λ (e, h). absurd cc, λ (e, h). absurd cc)
  after-last unfinished again log = (λ (e, h). absurd cc, λ (e, h). absurd cc)

  after-earlier :
      (n : ℕ) (r : Fallible (List BitableRecord)) (again : Io (List BitableRecord)) (log : Log)
      → n == max_retries ≡ false
      → IsErr (after_attempt services n r again log).0
        ↔ (IsErr r × IsErr (again (sleep (n * 2) ∷ log)).0)
  unfolding after_attempt pure raise lift perform ◌>>=◌
  after-earlier n (ok records) again log ne = (λ (e, h). absurd cc, λ ((e, h), _). absurd cc)
  after-earlier n (err e) again log ne = (λ h. ((e, refl), rw ne at h), λ p. rw ne (p.1))
  after-earlier n panic again log ne = (λ (e, h). absurd cc, λ ((e, h), _). absurd cc)
  after-earlier n unfinished again log ne = (λ (e, h). absurd cc, λ ((e, h), _). absurd cc)

  -- The log before the second attempt of two that follow each other.
  abbrev pub after_failure : ℕ → Log → Log
  after_failure n log = sleep (n * 2) ∷ (search_records app table ∷ log)

  -- A read of the records fails exactly when the search fails three times: at once, again after a
  -- pause of two seconds, and again after one of four.
  pub read_existing_records_with_retry-IsErr :
      (log : Log)
      → IsErr (read_existing_records_with_retry services app table log).0
        ↔ (Fails log × Fails (after_failure 1 log) × Fails (after_failure 2 (after_failure 1 log)))
  unfolding read_existing_records_with_retry
  read_existing_records_with_retry-IsErr log =
      let s = search_records app table in
      let (one, one') =
        after-earlier 1 (services.search log app table) (attempts_from services 2 2 app table)
          (s ∷ log) refl in
      let l1 = after_failure 1 log in
      let (two, two') =
        after-earlier 2 (services.search l1 app table) (attempts_from services 1 3 app table)
          (s ∷ l1) refl in
      let l2 = after_failure 2 l1 in
      let (three, three') =
        after-last (services.search l2 app table) (attempts_from services 0 4 app table) (s ∷ l2) in
      (
        (λ e.
            let (a, more) = one (rw (attempts_from-step 2 1 log) at e) in
            let (b, last) = two (rw (attempts_from-step 1 2 l1) at more) in
            (a, b, three (rw (attempts_from-step 0 3 l2) at last))),
        λ (a, b, c). rw (attempts_from-step 2 1 log) (
            one' (
              a,
              rw (attempts_from-step 1 2 l1) (two' (b, rw (attempts_from-step 0 3 l2) (three' c))),
            )),
      )

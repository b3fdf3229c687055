-- ===== src/WorkflowRun/Exclusion.antt =====
-- The lease of src/workflow_run.rs over time, whatever the processes do.
use lark_utils_exp.Prelude.{
  ℕ, ◌+◌, ◌≤◌, ◌<◌, List, [], ◌∷◌, true, false, some, All, leb, ◌≡◌, ◌≢◌, refl, arith, Bool-cases,
  inl, inr, ap,
}
use lark_utils_exp.Text.{Text}
use lark_utils_exp.WorkflowRun.Tables.{
  Lease, Database, seconds, workflow_lease_seconds, empty_database,
}
use lark_utils_exp.WorkflowRun.Runs.{try_acquire_run_lease}
use lark_utils_exp.WorkflowRun.Operations.{Operation, releases, perform_at, replay}
use lark_utils_exp.WorkflowRun.Lease.{
  LeaseMove, kept, renewed, taken, freed, expired, perform_at-LeaseMove,
}

-- Each operation comes no earlier than the one before it, the first no earlier than `from`.
abbrev pub InOrder : ℕ → List (ℕ × Operation) → Type 0
InOrder from [] = Unit
InOrder from ((now, o) ∷ more) = (from ≤ now) × InOrder now more

-- The time of the last operation.
abbrev pub last_time : ℕ → List (ℕ × Operation) → ℕ
last_time from [] = from
last_time from ((now, o) ∷ more) = last_time now more

-- The operation comes before a time, and does not release the lease of the run.
abbrev pub IsOther : ℕ → ℕ → ℕ × Operation → Type 0
IsOther id limit (now, o) = (now < limit) × (o ≢ releases id)

abbrev IsBounded : ℕ → Lease → Type 0
IsBounded now l = l.lease_until ≤ now + seconds workflow_lease_seconds

LeaseMove-IsBounded :
    {from now : ℕ} {o : Operation} {l l' : Lease}
    → LeaseMove now o l l'
    → from ≤ now
    → IsBounded from l
    → IsBounded now l'
LeaseMove-IsBounded kept le b = omega arith
LeaseMove-IsBounded (renewed e) le b = omega arith
LeaseMove-IsBounded (taken e) le b = omega arith
LeaseMove-IsBounded (freed e) le b = omega arith
LeaseMove-IsBounded (expired e) le b = omega arith

LeaseMove-holds :
    {from now id : ℕ} {o : Operation} {l l' : Lease}
    → LeaseMove now o l l'
    → from ≤ now
    → IsBounded from l
    → l.workflow_run_id ≡ some id
    → now < l.lease_until
    → o ≢ releases id
    → (l'.workflow_run_id ≡ some id) × (l.lease_until ≤ l'.lease_until)
LeaseMove-holds kept le b e lt ne = (e, omega arith)
LeaseMove-holds (renewed f) le b e lt ne = (e, omega arith)
LeaseMove-holds (taken f) le b e lt ne = absurd (omega arith)
LeaseMove-holds {id} (freed {id = other} f) le b e lt ne =
    let same : other ≡ id = cc in absurd (ne (ap releases same))
LeaseMove-holds (expired f) le b e lt ne = absurd (omega arith)

module _ (sha1_hex : Text → Text) where
  holds_over :
      (from id limit : ℕ) (ops : List (ℕ × Operation)) (db : Database)
      → InOrder from ops
      → IsBounded from db.lease
      → db.lease.workflow_run_id ≡ some id
      → limit ≤ db.lease.lease_until
      → All (IsOther id limit) ops
      → ((replay sha1_hex ops db).lease.workflow_run_id ≡ some id)
        × (limit ≤ (replay sha1_hex ops db).lease.lease_until)
  unfolding replay
  holds_over from id limit [] db order b e most others = (e, most)
  holds_over from id limit ((now, o) ∷ more) db (le, order) b e most ((before, ne), others) =
      let move = perform_at-LeaseMove sha1_hex now o db in
      let (e', grows) = LeaseMove-holds move le b e (omega arith) ne in
      holds_over now id limit more (perform_at sha1_hex now o db) order
        (LeaseMove-IsBounded move le b) e' (omega arith) others

  IsBounded-over :
      (from : ℕ) (ops : List (ℕ × Operation)) (db : Database)
      → InOrder from ops
      → IsBounded from db.lease
      → IsBounded (last_time from ops) (replay sha1_hex ops db).lease
  unfolding replay
  IsBounded-over from [] db order b = b
  IsBounded-over from ((now, o) ∷ more) db (le, order) b =
      IsBounded-over now more (perform_at sha1_hex now o db) order
        (LeaseMove-IsBounded (perform_at-LeaseMove sha1_hex now o db) le b)

  -- Mutual exclusion: from the time a run takes the lease until that lease ends, whatever
  -- operations come in between, in any order and by any process, the run keeps the lease and no
  -- run can take it, as long as its own release is not among them.
  pub lease-excludes :
      (from id other now : ℕ) (ops : List (ℕ × Operation)) (db : Database)
      → (try_acquire_run_lease from id db).0 ≡ true
      → InOrder from ops
      → All (IsOther id (from + seconds workflow_lease_seconds)) ops
      → now < from + seconds workflow_lease_seconds
      → let end = replay sha1_hex ops (try_acquire_run_lease from id db).1 in
        (end.lease.workflow_run_id ≡ some id) × ((try_acquire_run_lease now other end).0 ≡ false)
  unfolding try_acquire_run_lease
  lease-excludes from id other now ops db won order others soon =
      elim (Bool-cases (leb db.lease.lease_until from)) [
        | inr e ↦ absurd (let q = rw e at won in cc)
        | inl e ↦
            let taken_db : Database = record db {
              lease = record {
                workflow_run_id = some id;
                lease_until = from + seconds workflow_lease_seconds;
              };
            } in
            let (holder, long) =
              holds_over from id (from + seconds workflow_lease_seconds) ops taken_db order
                (omega arith) refl (omega arith) others in
            rw e (holder, ground arith)
      ]

  -- Liveness: whatever runs have done, and even if they are gone without a release, a minute after
  -- the last operation any run can take the lease.
  pub lease-recovers :
      (ops : List (ℕ × Operation)) (now id : ℕ)
      → InOrder 0 ops
      → last_time 0 ops + seconds workflow_lease_seconds ≤ now
      → (try_acquire_run_lease now id (replay sha1_hex ops empty_database)).0 ≡ true
  unfolding try_acquire_run_lease
  lease-recovers ops now id order late =
      let b = IsBounded-over 0 ops empty_database order (omega arith) in ground arith

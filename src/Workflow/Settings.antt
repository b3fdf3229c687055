-- ===== src/Workflow/Settings.antt =====
-- The settings of a workflow and the delays of its retries (src/workflow.rs).
use lark_utils_exp.Prelude.{
  ℕ, ◌-◌, ◌*◌, ◌^◌, ◌≤◌, [], ◌∷◌, Option, none, some, leb, ltb, ◌==◌, ◌&&◌, if◌then◌else◌, ◌≡◌,
  arith, ◌∙◌, Option-cases, inl, inr,
}
use native.Mathlib.Nat.{pow-le-pow_right, mul-le-mul_left}
use lark_utils_exp.Text.{Text, trim, non_empty}
use lark_utils_exp.Text.Decimal.{parse_magnitude}

abbrev pub u64_max : ℕ
u64_max = 2 ^ 64 - 1

abbrev pub u32_max : ℕ
u32_max = 2 ^ 32 - 1

abbrev pub default_project_concurrency : ℕ
default_project_concurrency = 3

abbrev pub max_project_concurrency : ℕ
max_project_concurrency = 16

abbrev pub default_project_timeout_seconds : ℕ
default_project_timeout_seconds = 60 * 60

abbrev pub min_project_timeout_seconds : ℕ
min_project_timeout_seconds = 5 * 60

abbrev pub max_project_timeout_seconds : ℕ
max_project_timeout_seconds = 6 * 60 * 60

abbrev pub default_project_max_attempts : ℕ
default_project_max_attempts = 3

abbrev pub max_project_max_attempts : ℕ
max_project_max_attempts = 5

abbrev pub default_project_retry_delay_seconds : ℕ
default_project_retry_delay_seconds = 15

abbrev pub min_project_retry_delay_seconds : ℕ
min_project_retry_delay_seconds = 1

abbrev pub max_project_retry_delay_seconds : ℕ
max_project_retry_delay_seconds = 5 * 60

-- `str::parse` of an unsigned type, given its largest value
unfoldable pub parse_unsigned : ℕ → Text → Option ℕ
unfolding parse_magnitude
parse_unsigned most [] = none
parse_unsigned most (c ∷ s) = parse_magnitude most (if c == b'+' then s else c ∷ s)

-- `Ord::clamp`
abbrev pub clamp : ℕ → ℕ → ℕ → ℕ
clamp low high n = if ltb n low then low else if ltb high n then high else n

-- `value.map(str::trim).filter(…)`: a variable that is set to more than white space
unfoldable pub present : Option Text → Option Text
unfolding trim
present none = none
present (some v) = non_empty (trim v)

-- A number read as an unsigned type, and clamped; the default where there is none.
unfoldable pub clamped : ℕ → ℕ → ℕ → ℕ → Option Text → ℕ
unfolding present parse_unsigned
clamped most low high default value = elim (present value) [
  | none ↦ default
  | some v ↦ elim (parse_unsigned most v) [ none ↦ default | some n ↦ clamp low high n ]
]

-- fn workflow_project_concurrency, given the variable; `usize` has 64 bits
unfoldable pub workflow_project_concurrency : Option Text → ℕ
unfolding present parse_unsigned
workflow_project_concurrency value = elim (present value) [
  | none ↦ default_project_concurrency
  | some v ↦ elim (parse_unsigned u64_max v) [
    | none ↦ default_project_concurrency
    | some n ↦ if leb 1 n && leb n max_project_concurrency then n else default_project_concurrency
  ]
]

-- fn parse_workflow_project_timeout_seconds
unfoldable pub parse_workflow_project_timeout_seconds : Option Text → ℕ
unfolding clamped
parse_workflow_project_timeout_seconds value =
    clamped u64_max min_project_timeout_seconds max_project_timeout_seconds
      default_project_timeout_seconds value

-- fn parse_workflow_project_max_attempts
unfoldable pub parse_workflow_project_max_attempts : Option Text → ℕ
unfolding clamped
parse_workflow_project_max_attempts value =
    clamped u32_max 1 max_project_max_attempts default_project_max_attempts value

-- fn parse_workflow_project_retry_delay_seconds
unfoldable pub parse_workflow_project_retry_delay_seconds : Option Text → ℕ
unfolding clamped
parse_workflow_project_retry_delay_seconds value =
    clamped u64_max min_project_retry_delay_seconds max_project_retry_delay_seconds
      default_project_retry_delay_seconds value

abbrev pub min : ℕ → ℕ → ℕ
min a b = if leb a b then a else b

-- fn retry_delay_for_attempt, in seconds: the product of two `u64` saturates
unfoldable pub retry_delay_for_attempt : ℕ → ℕ → ℕ
retry_delay_for_attempt base completed_attempts =
    let multiplier = 2 ^ min (completed_attempts - 1) 8 in
    min (min (base * multiplier) u64_max) max_project_retry_delay_seconds

clamp-range : (low high n : ℕ) → low ≤ high → (low ≤ clamp low high n) × (clamp low high n ≤ high)
clamp-range low high n h = ground arith

-- A clamped setting is in its range, if the default is.
clamped-range :
    (most low high default : ℕ) (value : Option Text)
    → low ≤ default
    → default ≤ high
    → (low ≤ clamped most low high default value) × (clamped most low high default value ≤ high)
unfolding clamped
clamped-range most low high default value h k = elim (Option-cases (present value)) [
  | inl e ↦ rw (e, clamped) (h, k)
  | inr (v, e) ↦ elim (Option-cases (parse_unsigned most v)) [
    | inl f ↦ rw (e, clamped, f) (h, k)
    | inr (n, f) ↦ rw (e, clamped, f) (clamp-range low high n (omega arith))
  ]
]

concurrency-range :
    (value : Option Text)
    → (1 ≤ workflow_project_concurrency value)
      × (workflow_project_concurrency value ≤ max_project_concurrency)
unfolding workflow_project_concurrency
concurrency-range value = elim (Option-cases (present value)) [
  | inl e ↦ rw (e, workflow_project_concurrency) (omega arith, omega arith)
  | inr (v, e) ↦ elim (Option-cases (parse_unsigned u64_max v)) [
    | inl f ↦ rw (e, workflow_project_concurrency, f) (omega arith, omega arith)
    | inr (n, f) ↦ rw (e, workflow_project_concurrency, f) (ground arith)
  ]
]

-- Whatever the four variables hold, unset, blank, no number, negative or too large, the concurrency
-- is from 1 to 16, the time of a project from five minutes to six hours, the attempts from 1 to 5,
-- and the delay of a retry from 1 to 300 seconds.
pub settings-range :
    (concurrency timeout attempts delay : Option Text)
    → ((1 ≤ workflow_project_concurrency concurrency)
        × (workflow_project_concurrency concurrency ≤ 16))
      × ((300 ≤ parse_workflow_project_timeout_seconds timeout)
          × (parse_workflow_project_timeout_seconds timeout ≤ 21600))
      × ((1 ≤ parse_workflow_project_max_attempts attempts)
          × (parse_workflow_project_max_attempts attempts ≤ 5))
      × ((1 ≤ parse_workflow_project_retry_delay_seconds delay)
          × (parse_workflow_project_retry_delay_seconds delay ≤ 300))
unfolding parse_workflow_project_timeout_seconds parse_workflow_project_max_attempts
    parse_workflow_project_retry_delay_seconds
settings-range concurrency timeout attempts delay = (
  concurrency-range concurrency,
  clamped-range u64_max min_project_timeout_seconds max_project_timeout_seconds
      default_project_timeout_seconds timeout (omega arith) (omega arith),
  clamped-range u32_max 1 max_project_max_attempts default_project_max_attempts attempts
      (omega arith) (omega arith),
  clamped-range u64_max min_project_retry_delay_seconds max_project_retry_delay_seconds
      default_project_retry_delay_seconds delay (omega arith) (omega arith),
)

abbrev capped : ℕ → ℕ
capped n = min (min n u64_max) max_project_retry_delay_seconds

capped_mono : (m n : ℕ) → m ≤ n → capped m ≤ capped n
capped_mono m n h = ground arith

capped_small : (n : ℕ) → n ≤ 300 → capped n ≡ n
capped_small n h = ground arith

capped-range : (n : ℕ) → 1 ≤ n → (1 ≤ capped n) × (capped n ≤ 300)
capped-range n h = ground arith

multiplied_mono : (base m n : ℕ) → m ≤ n → base * 2 ^ min (m - 1) 8 ≤ base * 2 ^ min (n - 1) 8
multiplied_mono base m n h = mul-le-mul_left base (pow-le-pow_right (omega arith) (ground arith))

pub retry_delay-le : (base completed : ℕ) → retry_delay_for_attempt base completed ≤ 300
unfolding retry_delay_for_attempt
retry_delay-le base completed = ground arith

-- The delay grows with the attempts, from the base delay after the first one, and never exceeds five
-- minutes: for every base from 1 to 300 seconds and every number of attempts.
pub retry_delay-range :
    (base completed later : ℕ)
    → 1 ≤ base
    → base ≤ 300
    → completed ≤ later
    → (retry_delay_for_attempt base 1 ≡ base)
      × (1 ≤ retry_delay_for_attempt base completed)
      × (retry_delay_for_attempt base completed ≤ retry_delay_for_attempt base later)
      × (retry_delay_for_attempt base later ≤ 300)
unfolding retry_delay_for_attempt
retry_delay-range base completed later pos small le =
    let first : 2 ^ 0 ≤ 2 ^ min (completed - 1) 8 =
      pow-le-pow_right (omega arith) {i = 0} (omega arith) in
    let one : base * 2 ^ 0 ≤ base * 2 ^ min (completed - 1) 8 = mul-le-mul_left base first in
    let grown = multiplied_mono base completed later le in
    (
      capped_small (base * 1) (omega arith) ∙ omega arith,
      (capped-range (base * 2 ^ min (completed - 1) 8) (omega arith)).0,
      capped_mono _ _ grown,
      (capped-range (base * 2 ^ min (later - 1) 8) (omega arith)).1,
    )

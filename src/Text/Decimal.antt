-- ===== src/Text/Decimal.antt =====
-- `i64::from_str` and the decimal `Display` of integers.
use lark_utils_exp.Prelude.{
  ℕ, zero, suc, ◌+◌, ◌-◌, ◌*◌, ◌/◌, ◌%◌, ◌^◌, ◌≤◌, ◌<◌, ℤ, pos, negsuc, negate, [], ◌∷◌, ◌++◌, Bool,
  ◌&&◌, Option, none, some, leb, ltb, ◌==◌, if◌then◌else◌, ◌≡◌, ◌≢◌, refl, arith, Bool-cases, inl,
  inr,
}
use lark_utils_exp.Text.{Text}

infixl 5 ◌>>=◌
abbrev ◌>>=◌ : {A B : Type 0} → Option A → (A → Option B) → Option B
none >>= k = none
some a >>= k = k a

unfoldable pub is_digit : ℕ → Bool
is_digit c = leb b'0' c && leb c b'9'

-- The digits' value, on top of what was read before.
unfoldable pub parse_digits : ℕ → Text → Option ℕ
unfolding is_digit
parse_digits n [] = some n
parse_digits n (c ∷ s) =
    let rest = parse_digits (n * 10 + (c - b'0')) s in if is_digit c then rest else none

abbrev i64_limit : ℕ
i64_limit = 2 ^ 63

-- A text with no sign left: at least one digit, and in range.
unfoldable pub parse_magnitude : ℕ → Text → Option ℕ
unfolding parse_digits
parse_magnitude most [] = none
parse_magnitude most (c ∷ s) = do n ← parse_digits 0 (c ∷ s); if leb n most then some n else none

-- `str::parse::<i64>`
unfoldable pub parse_i64 : Text → Option ℤ
unfolding parse_magnitude
parse_i64 [] = none
parse_i64 (c ∷ s) =
    if c == b'-'
    then (do n ← parse_magnitude i64_limit s; some (negate n))
    else do n ← parse_magnitude (i64_limit - 1) (if c == b'+' then s else c ∷ s); some (pos n)

decimal_from : ℕ → ℕ → Text
decimal_from zero n = []
decimal_from (suc f) n =
    let more = decimal_from f (n / 10) ++ (b'0' + n % 10) ∷ [] in
    if ltb n 10 then (b'0' + n) ∷ [] else more

-- `Display` of an unsigned integer; the fuel exceeds the number of digits.
unfoldable pub decimal : ℕ → Text
unfolding decimal_from
decimal n = decimal_from (suc n) n

unfoldable pub int_text : ℤ → Text
unfolding decimal
int_text (pos n) = decimal n
int_text (negsuc n) = b'-' ∷ decimal (suc n)

abbrev pub IsI64 : ℤ → Type 0
IsI64 (pos n) = n < i64_limit
IsI64 (negsuc n) = n < i64_limit

parse_digits-append :
    (n : ℕ) (s t : Text) → parse_digits n (s ++ t) ≡ (parse_digits n s >>= λ m. parse_digits m t)
unfolding parse_digits
parse_digits-append n [] t = refl
parse_digits-append n (c ∷ s) t = ground (arith, parse_digits-append (n * 10 + (c - b'0')) s t)

parse_digits-decimal_from : (f n : ℕ) → n < f → parse_digits 0 (decimal_from f n) ≡ some n
unfolding parse_digits decimal_from
parse_digits-decimal_from zero n h = elim h [ ]
parse_digits-decimal_from (suc f) n h = elim (Bool-cases (ltb n 10)) [
  | inl e ↦ rw e (ground arith)
  | inr e ↦
      rw (e, parse_digits-append 0 (decimal_from f (n / 10)) ((b'0' + n % 10) ∷ []))
        (rw (parse_digits-decimal_from f (n / 10) (ground arith)) (ground arith))
]

parse_magnitude_of_digits :
    (most n : ℕ) (s : Text)
    → s ≢ []
    → parse_digits 0 s ≡ some n
    → n ≤ most
    → parse_magnitude most s ≡ some n
unfolding parse_magnitude
parse_magnitude_of_digits most n [] h e k = absurd (h refl)
parse_magnitude_of_digits most n (c ∷ s) h e k = rw e (ground arith)

append-ne-nil : (s : Text) (c : ℕ) → s ++ c ∷ [] ≢ []
append-ne-nil [] c e = cc
append-ne-nil (d ∷ s) c e = cc

decimal-ne-nil : (n : ℕ) → decimal n ≢ []
unfolding decimal
decimal-ne-nil n e = ground (arith, append-ne-nil (decimal_from n (n / 10)) (b'0' + n % 10))

pub parse_magnitude-decimal : (most n : ℕ) → n ≤ most → parse_magnitude most (decimal n) ≡ some n
parse_magnitude-decimal most n h =
    parse_magnitude_of_digits most n (decimal n) (decimal-ne-nil n)
      (unfold decimal in parse_digits-decimal_from (suc n) n (omega arith)) h

-- A text of digits alone has no sign.
parse_i64_of_magnitude :
    (s : Text) (n : ℕ) → parse_magnitude (i64_limit - 1) s ≡ some n → parse_i64 s ≡ some (pos n)
unfolding parse_i64
parse_i64_of_magnitude [] n e = cc
parse_i64_of_magnitude (c ∷ s) n e = ground arith

parse_i64_of_minus :
    (s : Text) (n : ℕ)
    → parse_magnitude i64_limit s ≡ some n
    → parse_i64 (b'-' ∷ s) ≡ some (negate n)
unfolding parse_i64
parse_i64_of_minus s n e = rw e

-- Reading back a printed integer gives it back, over the whole range of `i64`.
pub parse_i64-int_text : (z : ℤ) → IsI64 z → parse_i64 (int_text z) ≡ some z
parse_i64-int_text (pos n) h =
    unfold int_text in
    parse_i64_of_magnitude (decimal n) n (parse_magnitude-decimal _ n (omega arith))
parse_i64-int_text (negsuc n) h =
    unfold int_text in
    parse_i64_of_minus (decimal (suc n)) (suc n) (parse_magnitude-decimal _ (suc n) (omega arith))

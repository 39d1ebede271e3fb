-- ===== src/Outbox/Backoff.antt =====
-- internal/outbox/backoff.go. Durations are int64 counts of nanoseconds.
use native.Mathlib.Nat.{pow-suc}
use Prim.Native.Nat.{min}
use game_rewards_service.Base.{
  ℕ, zero, suc, ◌+◌, ◌*◌, ◌-◌, ◌^◌, ◌≤◌, ◌<◌, ◌≡◌, ap, false, arith, inl, inr, Bool-cases, leb, ltb,
  ltb→lt, if◌then◌else◌, Result, ok, err,
}
use game_rewards_service.Base.Int.{
  ℤ, pos, negsuc, pos_part, leb_ℤ, ltb_ℤ, ◌-ℤ◌, ◌+ℤ◌, ◌≤ℤ◌, wrap64, max_int64,
}
use game_rewards_service.Errors.{Err, message}

pub record BackoffPolicy : Type 0 where
  pub base : ℤ
  pub max : ℤ

unfoldable pub new_backoff_policy : ℤ → ℤ → Result Err BackoffPolicy
new_backoff_policy base max =
    if leb_ℤ base (pos 0)
    then err (message "base backoff must be greater than zero")
    else if leb_ℤ max (pos 0)
    then err (message "max backoff must be greater than zero")
    else if ltb_ℤ max base
    then err (message "max backoff must be greater than or equal to base backoff")
    else ok (record { base = base; max = max })

-- The loop of `retryDelay`, by the rounds that remain.
double : BackoffPolicy → ℕ → ℤ → ℤ
double p zero delay = delay
double p (suc remaining) delay =
    let rest = double p remaining (wrap64 (delay +ℤ delay)) in
    if ltb_ℤ (wrap64 (p.max -ℤ delay)) delay then p.max else rest

unfoldable pub retry_delay : BackoffPolicy → ℤ → ℤ
unfolding double
retry_delay p failed_attempts =
    if leb_ℤ failed_attempts (pos 1) then p.base else double p (pos_part failed_attempts - 1) p.base

policy_pos :
    (b m : ℕ) {p : BackoffPolicy}
    → new_backoff_policy (pos b) (pos m) ≡ ok p
    → (0 < b) × (b ≤ m) × (p ≡ record { base = pos b; max = pos m })
unfolding new_backoff_policy
policy_pos b m h = (ground arith, ground arith, ground arith)

double_step :
    (m d : ℕ) → d ≤ m → m ≤ max_int64 → (ltb_ℤ (wrap64 (pos m -ℤ pos d)) (pos d) ≡ ltb (m - d) d)
double_step m d h k = ground arith

double_wraps : (m d : ℕ) → d ≤ m - d → d ≤ m → m ≤ max_int64 → wrap64 (pos d +ℤ pos d) ≡ pos (d + d)
double_wraps m d h j k = ground arith

pow_two_pos : (n : ℕ) → 0 < 2 ^ n
pow_two_pos zero = omega arith
pow_two_pos (suc n) = rw (pow-suc 2 n) (omega (arith, pow_two_pos n))

doubled : (d n : ℕ) → d * 2 ^ suc n ≡ (d + d) * 2 ^ n
doubled d n = rw (pow-suc 2 n) (omega arith)

doubled-ge : (d n : ℕ) → d + d ≤ d * 2 ^ suc n
doubled-ge d n = rw (doubled d n) (grind (arith, pow_two_pos n))

-- The loop with `n` rounds left computes the capped doubling, and no step of it overflows.
double-min :
    (b : ℤ) (m n d : ℕ)
    → 0 < d
    → d ≤ m
    → m ≤ max_int64
    → double (record { base = b; max = pos m }) n (pos d) ≡ pos (min (d * 2 ^ n) m)
unfolding double
double-min b m zero d z h k = ap pos (omega arith)
double-min b m (suc n) d z h k = elim (Bool-cases (ltb (m - d) d)) [
  | inl over ↦
      rw (double_step m d h k, over) (ap pos (omega (arith, doubled-ge d n, ltb→lt (m - d) d over)))
  | inr under ↦
      rw (double_step m d h k, under, double_wraps m d (ground arith) h k, doubled d n)
        (double-min b m n (d + d) (omega arith) (ground arith) k)
]

pub retry_delay-min :
    (b m n : ℕ)
    → 0 < b
    → b ≤ m
    → m ≤ max_int64
    → retry_delay (record { base = pos b; max = pos m }) (pos (suc n)) ≡ pos (min (b * 2 ^ n) m)
unfolding retry_delay
retry_delay-min b m zero z h k = ap pos (omega arith)
retry_delay-min b m (suc n) z h k =
    let many : leb (suc (suc n) + 0) 1 ≡ false = ground arith in
    let rounds : suc (suc n) - 1 ≡ suc n = omega arith in
    rw (retry_delay, many, rounds) (double-min (pos b) m (suc n) b z h k)

-- A policy that the constructor accepts, within int64, delays the attempt after n + 1 failures by
-- the base doubled n times, capped at the maximum.
pub retry_delay-capped :
    (base max : ℤ) {p : BackoffPolicy} (n : ℕ)
    → new_backoff_policy base max ≡ ok p
    → max ≤ℤ pos max_int64
    → retry_delay p (pos (suc n)) ≡ pos (min (pos_part base * 2 ^ n) (pos_part max))
unfolding new_backoff_policy
retry_delay-capped (pos b) (pos m) n h k =
    let (z, o, e) = policy_pos b m h in rw e (retry_delay-min b m n z o (omega arith))
retry_delay-capped (pos b) (negsuc m) n h k = absurd (ground arith)
retry_delay-capped (negsuc b) max n h k = absurd (ground arith)

-- The delay of an accepted policy is positive.
pub retry_delay_pos :
    (base max : ℤ) {p : BackoffPolicy} (n : ℕ)
    → new_backoff_policy base max ≡ ok p
    → max ≤ℤ pos max_int64
    → leb_ℤ (retry_delay p (pos (suc n))) (pos 0) ≡ false
unfolding new_backoff_policy
retry_delay_pos (pos b) (pos m) n h k =
    let (z, o, e) = policy_pos b m h in
    rw (retry_delay-capped (pos b) (pos m) n h k) (ground (arith, positive b m n z o))
  where
    positive : (b m n : ℕ) → 0 < b → b ≤ m → 0 < min (b * 2 ^ n) m
    positive b m n z o = grind (arith, pow_two_pos n)
retry_delay_pos (pos b) (negsuc m) n h k = absurd (ground arith)
retry_delay_pos (negsuc b) max n h k = absurd (ground arith)

-- ===== src/RateLimit/Bucket.antt =====
-- One bucket: what a request takes, and what time gives.
use Prim.Native.Nat.{min}
use native.Mathlib.Nat.{mul-le-mul_right}
use shortr.Base.{ℕ, ◌+◌, ◌-◌, ◌*◌, ◌≤◌, ◌≡◌, ap, Bool, Option, none, some, if◌then◌else◌, arith}
use shortr.RateLimit.{Rate, BucketState, full, credit_at, spend}

-- What a bucket can pay with at a time; a key with no bucket has a full one.
abbrev pub avail : Rate → ℕ → Option BucketState → ℕ
avail rate t none = full rate
avail rate t (some b) = min (credit_at rate t b) (full rate)

abbrev pub cost : Rate → Bool → ℕ
cost rate granted = if granted then rate.interval else 0

-- Time: an interval is its two parts.
pub mul_split : (t0 t t1 n : ℕ) → t0 ≤ t → t ≤ t1 → (t1 - t0) * n ≡ (t - t0) * n + (t1 - t) * n
mul_split t0 t t1 n h k =
    let e : t1 - t0 ≡ (t - t0) + (t1 - t) = omega arith in omega (arith, ap (λ (x : ℕ). x * n) e)

credit_at-le :
    (rate : Rate) (t0 t : ℕ) (b : BucketState)
    → t0 ≤ t
    → credit_at rate t b ≤ credit_at rate t0 b + (t - t0) * rate.n
credit_at-le rate t0 t b h =
    let r = b.last_refill in
    let e : t - r ≤ (t0 - r) + (t - t0) = omega arith in omega (arith, mul-le-mul_right rate.n e)

pub avail-le :
    (rate : Rate) (t0 t : ℕ) (o : Option BucketState)
    → t0 ≤ t
    → avail rate t o ≤ avail rate t0 o + (t - t0) * rate.n
avail-le rate t0 t none h = omega arith
avail-le rate t0 t (some b) h = omega (arith, credit_at-le rate t0 t b h)

-- A request pays for itself, and what it leaves is what the bucket then holds.
pub cost-spend :
    (rate : Rate) (now : ℕ) (b : BucketState)
    → cost rate (spend rate now b).0 + avail rate now (some (spend rate now b).1)
      ≡ avail rate now (some b)
unfolding spend
cost-spend rate now b =
    let zero_time : now - now ≡ 0 = omega arith in
    let no_gain : (now - now) * rate.n ≡ 0 = omega (arith, ap (λ (x : ℕ). x * rate.n) zero_time) in
    ground (arith, no_gain)

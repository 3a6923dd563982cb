-- ===== src/RateLimit/Quota.antt =====
-- The limit over a stretch of time.

use shortr.Base.{
  ℕ, ◌+◌, ◌-◌, ◌*◌, ◌≤◌, ◌<◌, ◌≡◌, ◌≢◌, refl, ◌∙◌, Bool, true, false, ◌&&◌, List, [], ◌∷◌, Option,
  none, some, length, leb, ◌==◌, if◌then◌else◌, Bool-cases, Option-cases, inl, inr, arith,
}
use shortr.Base.Bytes.{Bytes, bytes_eq, bytes_eq_iff, bytes_eq_refl}
use shortr.Base.Map.{lookup, insert, lookup-insert, length-insert-le}
use shortr.RateLimit.{Rate, BucketState, Limiter, spend, fresh, allow}
use shortr.RateLimit.Bucket.{avail, cost, mul_split, avail-le, cost-spend}

-- Requests, each with its time and its key; and how many of those for a key are let through.
unfoldable pub granted : Bytes → List (ℕ × Bytes) → Limiter → ℕ
granted key [] l = 0
granted key ((t, k) ∷ calls) l =
    (if bytes_eq k key && (allow t k l).0 then 1 else 0) + granted key calls (allow t k l).1

-- The times do not go back, and lie between two times.
abbrev pub Within : ℕ → ℕ → List (ℕ × Bytes) → Type 0
Within t0 t1 [] = t0 ≤ t1
Within t0 t1 ((t, k) ∷ calls) = (t0 ≤ t) × Within t t1 calls

-- The bucket that a request meets.
abbrev bucket_of : Rate → ℕ → Option BucketState → BucketState
bucket_of rate now none = fresh rate now
bucket_of rate now (some b) = b

-- Allow with the limiter on and room in the map.
allow_lem :
    (now : ℕ) (k : Bytes) (l : Limiter)
    → l.rate.n ≢ 0
    → length l.buckets < l.max_keys
    → allow now k l ≡ (
      (spend l.rate now (bucket_of l.rate now (lookup k l.buckets))).0,
      record l {
        buckets =
            insert k (spend l.rate now (bucket_of l.rate now (lookup k l.buckets))).1 l.buckets;
      },
    )
unfolding allow
allow_lem now k l on room =
    let off : (l.rate.n == 0) ≡ false = ground arith in
    let roomy : leb l.max_keys (length l.buckets) ≡ false = ground arith in
    elim (Option-cases (lookup k l.buckets)) [
      | inl new ↦ rw (off, new, roomy)
      | inr (b, old) ↦ rw (off, old)
    ]

avail-bucket_of :
    (rate : Rate) (now : ℕ) (o : Option BucketState)
    → avail rate now (some (bucket_of rate now o)) ≡ avail rate now o
avail-bucket_of rate now none = omega arith
avail-bucket_of rate now (some b) = refl

-- What a request costs the key comes from what was available to it.
allow_self :
    (now : ℕ) (k : Bytes) (l : Limiter)
    → l.rate.n ≢ 0
    → length l.buckets < l.max_keys
    → cost l.rate (allow now k l).0 + avail l.rate now (lookup k (allow now k l).1.buckets)
      ≡ avail l.rate now (lookup k l.buckets)
allow_self now k l on room =
    let b = bucket_of l.rate now (lookup k l.buckets) in
    rw (allow_lem now k l on room, lookup-insert, bytes_eq_refl)
      (cost-spend l.rate now b ∙ avail-bucket_of l.rate now (lookup k l.buckets))

Within-le : (t t1 : ℕ) (calls : List (ℕ × Bytes)) → Within t t1 calls → t ≤ t1
Within-le t t1 [] h = h
Within-le t t1 ((u, k) ∷ calls) (h, within) = omega (arith, Within-le u t1 calls within)

-- The step of the sum, for a request that the key makes.
paid_step :
    (interval : ℕ) (g : Bool) (n left before at_t0 gained rest total : ℕ)
    → n * interval ≤ left + rest
    → cost (record { n = 0; interval = interval }) g + left ≡ before
    → before ≤ at_t0 + gained
    → total ≡ gained + rest
    → ((if g then 1 else 0) + n) * interval ≤ at_t0 + total
paid_step interval true n left before at_t0 gained rest total ih paid more split = omega arith
paid_step interval false n left before at_t0 gained rest total ih paid more split = omega arith

-- With room for the keys of all requests, and times that do not go back, a key is let through at most
-- as often as its rate permits: a full bucket, and N more for each interval of the time that passes.
pub granted-le :
    (t0 t1 : ℕ) (key : Bytes) (calls : List (ℕ × Bytes)) (l : Limiter)
    → l.rate.n ≢ 0
    → length l.buckets + length calls ≤ l.max_keys
    → Within t0 t1 calls
    → granted key calls l * l.rate.interval
      ≤ avail l.rate t0 (lookup key l.buckets) + (t1 - t0) * l.rate.n
unfolding granted
granted-le t0 t1 key [] l on room within = omega arith
granted-le t0 t1 key ((t, k) ∷ calls) l on room (later, within) =
    let r = l.rate in
    let o = lookup k l.buckets in
    let out = spend r t (bucket_of r t o) in
    let l' : Limiter = record l { buckets = insert k out.1 l.buckets } in
    let here : length l.buckets < l.max_keys = omega arith in
    let after : length l'.buckets + length calls ≤ l.max_keys =
      omega (arith, length-insert-le k out.1 l.buckets) in
    let ih = granted-le t t1 key calls l' on after within in
    let split = mul_split t0 t t1 r.n later (Within-le t t1 calls within) in
    rw (allow_lem t k l on here) (elim (Bool-cases (bytes_eq k key)) [
      | inr other ↦
          let same : lookup key l'.buckets ≡ lookup key l.buckets = rw lookup-insert (rw other) in
          let more = avail-le r t0 t (lookup key l.buckets) later in
          rw other (omega (arith, split, more, rw same at ih))
      | inl this ↦
          let e : k ≡ key = (bytes_eq_iff k key).0 this in
          let held : lookup key l'.buckets ≡ some out.1 = rw lookup-insert (rw this) in
          let paid = cost-spend r t (bucket_of r t o) ∙ avail-bucket_of r t o in
          let more : avail r t o ≤ avail r t0 (lookup key l.buckets) + (t - t0) * r.n =
            rw (← e) (avail-le r t0 t o later) in
          let ih' = rw held at ih in
          rw this (paid_step r.interval out.0 _ _ _ _ _ _ _ ih' paid more split)
    ])

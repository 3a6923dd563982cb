-- ===== src/RateLimit/Reset.antt =====
-- What a key may do after its Reset.
use Prim.Native.Nat.{min}
use native.Mathlib.Nat.{mul-le-mul_right}
use shortr.Base.{
  ℕ, zero, suc, ◌+◌, ◌-◌, ◌*◌, ◌≤◌, ◌≡◌, ◌≢◌, refl, ap, ◌∙◌, true, false, ◌||◌, List, [], ◌∷◌, none,
  some, ltb, ◌==◌, arith,
}
use shortr.Base.Bytes.{Bytes, bytes_eq, bytes_eq_refl}
use shortr.Base.Map.{lookup, insert, lookup-insert, lookup-delete}
use shortr.RateLimit.{
  Rate, BucketState, Limiter, spend, fresh, allow, store_bucket, make_room, evict_oldest, peek,
  reset,
}
use shortr.RateLimit.Quota.{granted}

-- A bucket that holds whole tokens, at the time of its last request.
abbrev holding : Rate → ℕ → ℕ → BucketState
holding rate now tokens = record {
  credit = tokens * rate.interval;
  last_refill = now;
  last_access = now;
}

-- Requests for one key at one time.
abbrev pub repeated : ℕ → ℕ → Bytes → List (ℕ × Bytes)
repeated zero now key = []
repeated (suc m) now key = (now, key) ∷ repeated m now key

spend_empty :
    (rate : Rate) (now : ℕ)
    → rate.interval ≢ 0
    → spend rate now (holding rate now 0) ≡ (false, holding rate now 0)
unfolding spend
spend_empty rate now on =
    let zero_time : now - now ≡ 0 = omega arith in
    let no_gain : (now - now) * rate.n ≡ 0 = omega (arith, ap (λ (x : ℕ). x * rate.n) zero_time) in
    let c : min (0 * rate.interval + (now - now) * rate.n) (rate.n * rate.interval) ≡ 0 =
      omega (arith, no_gain) in
    let poor : ltb 0 rate.interval ≡ true = ground arith in
    let none_left : 0 * rate.interval ≡ 0 = omega arith in rw (c, poor, none_left) refl

spend_token :
    (rate : Rate) (now left : ℕ)
    → suc left ≤ rate.n
    → spend rate now (holding rate now (suc left)) ≡ (true, holding rate now left)
unfolding spend
spend_token rate now left enough =
    let zero_time : now - now ≡ 0 = omega arith in
    let no_gain : (now - now) * rate.n ≡ 0 = omega (arith, ap (λ (x : ℕ). x * rate.n) zero_time) in
    let fits : suc left * rate.interval ≤ rate.n * rate.interval =
      mul-le-mul_right rate.interval enough in
    let c : min (suc left * rate.interval + (now - now) * rate.n) (rate.n * rate.interval)
        ≡ suc left * rate.interval =
      omega (arith, no_gain, fits) in
    let more : suc left * rate.interval ≡ left * rate.interval + rate.interval = omega arith in
    let rich : ltb (suc left * rate.interval) rate.interval ≡ false = ground (arith, more) in
    let rest : suc left * rate.interval - rate.interval ≡ left * rate.interval =
      omega (arith, more) in
    rw (c, rich, rest) refl

rate-make_room : (now : ℕ) (l : Limiter) → (make_room now l).rate ≡ l.rate
unfolding evict_oldest
rate-make_room now l = ground arith

allow_held :
    (now : ℕ) (key : Bytes) (l : Limiter) (b : BucketState)
    → (l.rate.n == 0) ≡ false
    → lookup key l.buckets ≡ some b
    → allow now key l ≡ store_bucket key (spend l.rate now b) l
unfolding allow
allow_held now key l b on held = rw (on, held, allow) refl

-- With `left` whole tokens at the time of the requests, that many are let through.
granted-holding :
    (r : Rate) (now m left : ℕ) (key : Bytes) (l : Limiter)
    → r.n ≢ 0
    → r.interval ≢ 0
    → l.rate ≡ r
    → left ≤ r.n
    → lookup key l.buckets ≡ some (holding r now left)
    → granted key (repeated m now key) l ≡ min m left
unfolding granted
granted-holding r now zero left key l some_n some_i same fits held = omega arith
granted-holding r now (suc m) zero key l some_n some_i same fits held =
    let on : (l.rate.n == 0) ≡ false = rw same (ground arith) in
    let step : allow now key l
        ≡ (false, record l { buckets = insert key (holding r now 0) l.buckets }) =
      allow_held now key l (holding r now 0) on held
      ∙ ap (λ p. store_bucket key p l)
          (ap (λ (x : Rate). spend x now (holding r now 0)) same ∙ spend_empty r now some_i) in
    rw (step, bytes_eq_refl)
      (omega (
        arith,
        granted-holding r now m zero key
            (record l { buckets = insert key (holding r now 0) l.buckets }) some_n some_i same fits
            (rw (lookup-insert, bytes_eq_refl)),
      ))
granted-holding r now (suc m) (suc left) key l some_n some_i same fits held =
    let on : (l.rate.n == 0) ≡ false = rw same (ground arith) in
    let step : allow now key l
        ≡ (true, record l { buckets = insert key (holding r now left) l.buckets }) =
      allow_held now key l (holding r now (suc left)) on held
      ∙ ap (λ p. store_bucket key p l)
          (ap (λ (x : Rate). spend x now (holding r now (suc left))) same
            ∙ spend_token r now left fits) in
    rw (step, bytes_eq_refl)
      (omega (
        arith,
        granted-holding r now m left key
            (record l { buckets = insert key (holding r now left) l.buckets }) some_n some_i same
            (omega arith) (rw (lookup-insert, bytes_eq_refl)),
      ))

-- The first request after a Reset, and those that follow it at the same time.
granted-fresh :
    (now m : ℕ) (key : Bytes) (l : Limiter)
    → l.rate.n ≢ 0
    → l.rate.interval ≢ 0
    → lookup key l.buckets ≡ none
    → granted key (repeated m now key) l ≡ min m l.rate.n
unfolding granted allow
granted-fresh now zero key l some_n some_i gone = omega arith
granted-fresh now (suc m) key l some_n some_i gone = cases l.rate.n refl
  where
    cases : (n : ℕ) → l.rate.n ≡ n → granted key (repeated (suc m) now key) l ≡ min (suc m) l.rate.n
    cases zero e = absurd (some_n e)
    cases (suc n) e =
        let on : (l.rate.n == 0) ≡ false = ground arith in
        let b = holding l.rate now n in
        let room = make_room now l in
        let l' : Limiter = record room { buckets = insert key b room.buckets } in
        let new : allow now key l ≡ store_bucket key (spend l.rate now (fresh l.rate now)) room =
          rw (on, gone, allow) refl in
        let step : allow now key l ≡ (true, l') =
          new
          ∙ ap (λ p. store_bucket key p room)
              (ap (λ (x : ℕ). spend l.rate now (holding l.rate now x)) e
                ∙ spend_token l.rate now n (omega (arith, e))) in
        let rest : granted key (repeated m now key) l' ≡ min m n =
          granted-holding l.rate now m n key l' some_n some_i (rate-make_room now l)
            (omega (arith, e)) (rw (lookup-insert, bytes_eq_refl)) in
        rw (step, bytes_eq_refl) (omega (arith, rest, e))

-- With a rate that lets requests through, of any number of requests for a key that come at one time
-- after its Reset as many are let through as the rate's count, or all if they are fewer; and Peek
-- answers for every other key as before the Reset.
pub granted-reset :
    (now m : ℕ) (key k : Bytes) (l : Limiter)
    → l.rate.n ≢ 0
    → l.rate.interval ≢ 0
    → (granted key (repeated m now key) (reset key l) ≡ min m l.rate.n)
      × (peek now k (reset key l) ≡ (bytes_eq key k || peek now k l))
unfolding peek reset
granted-reset now m key k l some_n some_i = (
  granted-fresh now m key (reset key l) some_n some_i (rw (lookup-delete, bytes_eq_refl)),
  ground (arith, lookup-delete key k l.buckets),
)

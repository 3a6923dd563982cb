-- ===== src/RateLimit.antt =====
-- internal/ratelimit/bucket.go: token buckets. The source counts tokens in floating point; the model
-- counts them exactly, in units of a token divided by the interval in nanoseconds: `credit` is
-- `tokens * Interval`, and a nanosecond brings `N` units. `now` does not go back, as Go's monotonic
-- clock does not. The map's iteration order is the order of the association list. Peek multiplies and
-- divides in another order than Allow, so that its refill may be rounded to another value: what it
-- computes for an elapsed time is a function that the limiter carries.
pub mod Bucket
pub mod Quota
pub mod Reset
pub mod Tests
use Prim.Native.Nat.{min}
use shortr.Base.{
  ℕ, zero, suc, ◌+◌, ◌-◌, ◌*◌, ◌/◌, Bool, true, false, List, [], ◌∷◌, Option, none, some, length,
  take, ltb, leb, ◌==◌, if◌then◌else◌,
}
use shortr.Base.Bytes.{Bytes}
use shortr.Base.Map.{lookup, insert, delete}

pub record Rate : Type 0 where
  pub n : ℕ
  pub interval : ℕ

pub record BucketState : Type 0 where
  pub credit : ℕ
  pub last_refill : ℕ
  pub last_access : ℕ

pub record Limiter : Type 0 where
  pub rate : Rate
  pub buckets : List (Bytes × BucketState)
  pub max_keys : ℕ
  pub peek_refill : ℕ → ℕ

unfoldable pub new : Rate → (ℕ → ℕ) → Limiter
new rate peek_refill = record {
  rate = rate;
  buckets = [];
  max_keys = 500000;
  peek_refill = peek_refill;
}

-- The credit of a full bucket, and that of a bucket at a time, not capped.
abbrev pub full : Rate → ℕ
full rate = rate.n * rate.interval

abbrev pub credit_at : Rate → ℕ → BucketState → ℕ
credit_at rate now b = b.credit + (now - b.last_refill) * rate.n

-- The part of `Allow` on the key's bucket.
unfoldable pub spend : Rate → ℕ → BucketState → Bool × BucketState
spend rate now b =
    let c = min (credit_at rate now b) (full rate) in
    if ltb c rate.interval
    then (false, record { credit = c; last_refill = now; last_access = now })
    else (true, record { credit = c - rate.interval; last_refill = now; last_access = now })

abbrev pub is_full : Rate → ℕ → BucketState → Bool
is_full rate now b = leb (full rate) (credit_at rate now b)

-- The loop of `evictOldestLocked`: the keys of full buckets, and the sample of the others, of the
-- first buckets up to `left`.
unfoldable pub scan : Rate → ℕ → ℕ → List (Bytes × BucketState) → List Bytes × List (Bytes × ℕ)
scan rate now zero bs = ([], [])
scan rate now (suc left) [] = ([], [])
scan rate now (suc left) ((k, b) ∷ bs) =
    let (removed, sample) = scan rate now left bs in
    if is_full rate now b then (k ∷ removed, sample) else (removed, (k, b.last_access) ∷ sample)

-- `sort.Slice` by the time of the last access.
unfoldable pub insert_by_time : Bytes × ℕ → List (Bytes × ℕ) → List (Bytes × ℕ)
insert_by_time (k, t) [] = (k, t) ∷ []
insert_by_time (k, t) ((j, u) ∷ l) =
    let later = insert_by_time (k, t) l in if leb t u then (k, t) ∷ (j, u) ∷ l else (j, u) ∷ later

unfoldable pub sort_by_time : List (Bytes × ℕ) → List (Bytes × ℕ)
unfolding insert_by_time
sort_by_time [] = []
sort_by_time (e ∷ l) = insert_by_time e (sort_by_time l)

unfoldable pub delete_all : List Bytes → List (Bytes × BucketState) → List (Bytes × BucketState)
delete_all [] bs = bs
delete_all (k ∷ ks) bs = delete_all ks (delete k bs)

abbrev pub keys_of : List (Bytes × ℕ) → List Bytes
keys_of [] = []
keys_of ((k, t) ∷ l) = k ∷ keys_of l

unfoldable pub evict_oldest : ℕ → Limiter → Limiter
evict_oldest now l =
    let (removed, sample) = scan l.rate now 1000 l.buckets in
    let victims = take (length sample / 10 + 1) (keys_of (sort_by_time sample)) in
    record l {
      buckets =
          if ltb 0 (length removed)
          then delete_all removed l.buckets
          else delete_all victims l.buckets;
    }

-- A new bucket for the key, after an eviction if the map is full.
abbrev pub fresh : Rate → ℕ → BucketState
fresh rate now = record { credit = full rate; last_refill = now; last_access = now }

abbrev pub make_room : ℕ → Limiter → Limiter
make_room now l = if leb l.max_keys (length l.buckets) then evict_oldest now l else l

abbrev pub store_bucket : Bytes → Bool × BucketState → Limiter → Bool × Limiter
store_bucket key (granted, b) l = (granted, record l { buckets = insert key b l.buckets })

unfoldable pub allow : ℕ → Bytes → Limiter → Bool × Limiter
allow now key l = if l.rate.n == 0 then (true, l) else elim (lookup key l.buckets) [
  | some b ↦ store_bucket key (spend l.rate now b) l
  | none ↦ store_bucket key (spend l.rate now (fresh l.rate now)) (make_room now l)
]

unfoldable pub peek : ℕ → Bytes → Limiter → Bool
peek now key l = if l.rate.n == 0 then true else elim (lookup key l.buckets) [
  | none ↦ true
  | some b ↦ leb l.rate.interval (b.credit + l.peek_refill (now - b.last_refill))
]

unfoldable pub reset : Bytes → Limiter → Limiter
reset key l = record l { buckets = delete key l.buckets }

-- The buckets that `GC` keeps: those used after the cutoff.
unfoldable pub used_after : ℕ → List (Bytes × BucketState) → List (Bytes × BucketState)
used_after cutoff [] = []
used_after cutoff ((k, b) ∷ bs) =
    let rest = used_after cutoff bs in if leb b.last_access cutoff then rest else (k, b) ∷ rest

unfoldable pub gc : ℕ → ℕ → Limiter → Limiter
gc now idle l = record l { buckets = used_after (now - idle) l.buckets }

unfoldable pub len : Limiter → ℕ
len l = length l.buckets

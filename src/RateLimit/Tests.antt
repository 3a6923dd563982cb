-- ===== src/RateLimit/Tests.antt =====
-- Tests of the token buckets: two requests each second, with three requests at once.
use shortr.Base.{ℕ, ◌+◌, ◌-◌, ◌*◌, ◌≤◌, ◌≡◌, refl, ◌||◌, List, [], ◌∷◌, arith}
use shortr.Base.Bytes.{Bytes, codes, bytes_eq}
use shortr.Base.Map.{lookup, insert}
use shortr.RateLimit.{Limiter, allow, peek, reset, spend}
use shortr.RateLimit.Bucket.{avail}
use shortr.RateLimit.Quota.{granted, granted-le}
use shortr.RateLimit.Reset.{repeated, granted-reset}

abbrev two_each_second : Limiter
two_each_second = record {
  rate = record { n = 2; interval = 1_000_000_000 };
  buckets = [];
  max_keys = 10;
  peek_refill = λ t. t * 2;
}

abbrev burst : List (ℕ × Bytes)
burst =
    (5, codes "a")
    ∷ (6, codes "b")
    ∷ (7, codes "a")
    ∷ (8, codes "a")
    ∷ (500_000_009, codes "a")
    ∷ []

granted-le_example :
    granted (codes "a") burst two_each_second * 1_000_000_000
    ≤ avail two_each_second.rate 5 (lookup (codes "a") two_each_second.buckets)
      + (500_000_009 - 5) * 2
granted-le_example =
    granted-le 5 500_000_009 (codes "a") burst two_each_second (omega arith) (omega arith)
      (omega arith, (omega arith, (omega arith, (omega arith, (omega arith, omega arith)))))

third_is_refused : granted (codes "a") burst two_each_second ≡ 3
unfolding granted bytes_eq allow lookup spend insert
third_is_refused = refl

abbrev spent : Limiter
spent = (allow 6 (codes "a") (allow 5 (codes "a") two_each_second).1).1

granted-reset_example :
    (granted (codes "a") (repeated 5 7 (codes "a")) (reset (codes "a") spent) ≡ 2)
    × (peek 7 (codes "b") (reset (codes "a") spent)
        ≡ (bytes_eq (codes "a") (codes "b") || peek 7 (codes "b") spent))
unfolding allow lookup insert bytes_eq
granted-reset_example = granted-reset 7 5 (codes "a") (codes "b") spent (omega arith) (omega arith)

-- ===== src/Link/Cache/Bounds.antt =====
-- The size of the cache, and what a `Get` sees after a `Put` or an `Invalidate`.
use shortr.Base.{
  All, ℕ, zero, suc, ◌+◌, ◌*◌, ◌≤◌, ◌<◌, ◌≡◌, refl, ◌∙◌, false, List, [], ◌∷◌, none, some, length,
  Bool-cases, inl, inr, arith,
}
use shortr.Base.Bytes.{Bytes, bytes_eq, bytes_eq_refl, to_lower, member}
use shortr.Link.Cache.{
  Shard, Cache, Entry, shard_get, shard_put, evict, shard_invalidate, new_cache, per_shard,
  lower_key, shard_index, get, put_entry, put, put_missing, invalidate, default_ttl, len, len_below,
}
use shortr.Link.Cache.History.{
  Call, get_call, put_call, put_missing_call, invalidate_call, step, run, get_result, peek,
  AllValid, get-AllValid, peek-get-kept, put_entry-AllValid, invalidate-AllValid, peek-invalidate,
  peek-put_entry_self, run-AllValid,
}

pub per_shard-ge : (total : ℕ) → 16 ≤ per_shard total
unfolding per_shard
per_shard-ge total = ground arith

module _ {ℓ} {L : Type ℓ} where
  cap-shard_get : (sh : Shard L) (k : Bytes) (now : ℕ) → (shard_get sh k now).0.cap ≡ sh.cap
  unfolding shard_get
  cap-shard_get sh k now = ground arith

  cap-evict : (sh : Shard L) → (evict sh).cap ≡ sh.cap
  unfolding evict
  cap-evict sh = ground arith

  cap-shard_put : (sh : Shard L) (k : Bytes) (e : Entry L) → (shard_put sh k e).cap ≡ sh.cap
  unfolding shard_put
  cap-shard_put sh k e = elim (Bool-cases (member k sh.items)) [
    | inl here ↦ rw here
    | inr new ↦ rw (new, cap-evict)
  ]

  cap-shard_invalidate : (sh : Shard L) (k : Bytes) → (shard_invalidate sh k).cap ≡ sh.cap
  unfolding shard_invalidate
  cap-shard_invalidate sh k = ground arith

  cap-put_entry :
      (c : Cache L) (code : Bytes) (e : Entry L) (i : ℕ)
      → ((put_entry c code e).shards i).cap ≡ (c.shards i).cap
  unfolding put_entry
  cap-put_entry c code e i =
      ground (arith, cap-shard_put (c.shards (shard_index (lower_key code))) (lower_key code) e)

  cap-step : (c : Cache L) (call : Call L) (i : ℕ) → ((step c call).shards i).cap ≡ (c.shards i).cap
  unfolding step get put put_missing invalidate
  cap-step c (get_call code now) i =
      ground (arith, cap-shard_get (c.shards (shard_index (lower_key code))) (lower_key code) now)
  cap-step c (put_call code l now) i = cap-put_entry c code _ i
  cap-step c (put_missing_call code now) i = cap-put_entry c code _ i
  cap-step c (invalidate_call code) i =
      ground
        (arith, cap-shard_invalidate (c.shards (shard_index (lower_key code))) (lower_key code))

  cap-run :
      (calls : List (Call L)) (c : Cache L) (i : ℕ)
      → ((run c calls).shards i).cap ≡ (c.shards i).cap
  unfolding run
  cap-run [] c i = refl
  cap-run (call ∷ calls) c i = cap-run calls (step c call) i ∙ cap-step c call i

  cap-new_cache :
      (total : ℕ) (calls : List (Call L)) (i : ℕ)
      → ((run (new_cache total) calls).shards i).cap ≡ per_shard total
  unfolding new_cache
  cap-new_cache total calls i = cap-run calls _ i

  len_below-le :
      (c : Cache L) (p n : ℕ) → ((i : ℕ) → length (c.shards i).order ≤ p) → len_below c n ≤ n * p
  unfolding len_below
  len_below-le c p zero h = omega arith
  len_below-le c p (suc n) h = omega (arith, h n, len_below-le c p n h)

  -- The cache never holds more entries than its shards have room for, and each shard never more
  -- than its share of the total capacity, which is at least 16.
  pub len-run-le :
      (total : ℕ) (calls : List (Call L))
      → (len (run (new_cache total) calls) ≤ 64 * per_shard total)
        × (16 ≤ per_shard total)
        × ((i : ℕ) → length ((run (new_cache total) calls).shards i).order ≤ per_shard total)
  unfolding len
  len-run-le total calls =
      let room : (i : ℕ) → length ((run (new_cache total) calls).shards i).order ≤ per_shard total =
        λ i. omega (arith, (run-AllValid total calls i).bounded, cap-new_cache total calls i) in
      (
        len_below-le (run (new_cache total) calls) (per_shard total) 64 room,
        per_shard-ge total,
        room,
      )

  -- A call that leaves the entry of a code that expires at a time: a `Get` of any code up to that time,
  -- or an `Invalidate` of another code.
  abbrev pub Spares : Bytes → ℕ → Call L → Type 0
  Spares k expires (get_call code now) = now ≤ expires
  Spares k expires (invalidate_call code) = bytes_eq (to_lower code) k ≡ false
  Spares k expires _ = ⊥

  peek-run :
      (k : Bytes) (e : Entry L) (between : List (Call L)) (c : Cache L)
      → AllValid c
      → peek c k ≡ some e
      → All (Spares k e.expires) between
      → (peek (run c between) k ≡ some e) × AllValid (run c between)
  unfolding run step
  peek-run k e [] c v h spared = (h, v)
  peek-run k e (get_call code now ∷ calls) c v h (fresh, spared) =
      peek-run k e calls (get c code now).0 (get-AllValid c code v now)
        (peek-get-kept c code v now k e h fresh) spared
  peek-run k e (put_call code l now ∷ calls) c v h (bad, spared) = absurd bad
  peek-run k e (put_missing_call code now ∷ calls) c v h (bad, spared) = absurd bad
  peek-run k e (invalidate_call code ∷ calls) c v h (other, spared) =
      peek-run k e calls (invalidate c code) (invalidate-AllValid c code v)
        (rw (peek-invalidate c code v k, other) h) spared

  -- After any calls on a new cache, a `Put` of a code, and any sequence of `Get` calls of any codes and
  -- `Invalidate` calls of other codes, a `Get` of the code returns the link, whatever the case of the
  -- letters in either, if it and the `Get` calls before it come within five minutes of the `Put`.
  -- Sequences with another `Put` or `PutMissing` after the first are not covered.
  pub get-run-put :
      (total : ℕ) (calls between : List (Call L)) (code code' : Bytes) (l : L) (now now' : ℕ)
      → All (Spares (to_lower code) (now + default_ttl)) between
      → to_lower code' ≡ to_lower code
      → now' ≤ now + default_ttl
      → (get (run (put (run (new_cache total) calls) code l now) between) code' now').1
        ≡ some (record { link = some l; missing = false; expires = now + default_ttl })
  unfolding put
  get-run-put total calls between code code' l now now' spared same fresh =
      let c = run (new_cache total) calls in
      let v = run-AllValid total calls in
      let pos : (i : ℕ) → 0 < (c.shards i).cap =
        λ i. omega (arith, cap-new_cache total calls i, per_shard-ge total) in
      let e : Entry L = record { link = some l; missing = false; expires = now + default_ttl } in
      let (held, v') =
        peek-run (to_lower code) e between (put_entry c code e) (put_entry-AllValid c code v e)
          (peek-put_entry_self c code e v pos) spared in
      rw (get_result (run (put_entry c code e) between) code' v' now', same, held) (ground arith)

  -- The call right after the `Put`.
  pub get-put :
      (total : ℕ) (calls : List (Call L)) (code code' : Bytes) (l : L) (now now' : ℕ)
      → to_lower code' ≡ to_lower code
      → now' ≤ now + default_ttl
      → (get (put (run (new_cache total) calls) code l now) code' now').1
        ≡ some (record { link = some l; missing = false; expires = now + default_ttl })
  unfolding run
  get-put total calls code code' l now now' same fresh =
      get-run-put total calls [] code code' l now now' tt same fresh

  -- After any calls on a new cache, a `Get` right after an `Invalidate` of the code misses,
  -- whatever the case of the letters in either.
  pub get-invalidate :
      (total : ℕ) (calls : List (Call L)) (code code' : Bytes) (now : ℕ)
      → to_lower code' ≡ to_lower code
      → (get (invalidate (run (new_cache total) calls) code) code' now).1 ≡ none
  get-invalidate total calls code code' now same =
      let c = run (new_cache total) calls in
      let v = run-AllValid total calls in
      let hidden = peek-invalidate c code v (to_lower code') in
      rw (get_result (invalidate c code) code' (invalidate-AllValid c code v) now)
        (ground (arith, hidden, bytes_eq_refl (to_lower code)))

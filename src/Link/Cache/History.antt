-- ===== src/Link/Cache/History.antt =====
-- The cache against an ideal map from the lower-cased codes to the entries last stored.
use shortr.Base.{
  ℕ, ◌+◌, ◌≤◌, ◌<◌, ◌≡◌, refl, sym, ◌∙◌, ap, true, false, List, [], ◌∷◌, Option, none, some, ◌==◌,
  if◌then◌else◌, Bool-cases, inl, inr, arith,
}
use shortr.Base.Bytes.{Bytes, bytes_eq, bytes_eq_iff, to_lower}
use shortr.Link.Cache.{
  Shard, Cache, Entry, find, new_cache, lower_key, shard_index, set_shard, get, put_entry, put,
  put_missing, invalidate, default_ttl, negative_ttl,
}
use shortr.Link.Cache.Nodes.{lower_key-to_lower}
use shortr.Link.Cache.Shards.{
  IsValid, live, shard_get-IsValid, shard_get_result, find-shard_get, shard_invalidate-IsValid,
  find-shard_invalidate, shard_put-IsValid, find-shard_put, find-shard_put_self,
}

pub data Call {ℓ} (L : Type ℓ) : Type ℓ where
  get_call : Bytes → ℕ → Call L
  put_call : Bytes → L → ℕ → Call L
  put_missing_call : Bytes → ℕ → Call L
  invalidate_call : Bytes → Call L

-- The ideal map forgets nothing but what is invalidated.
abbrev pub Ideal {ℓ} : Type ℓ → Type ℓ
Ideal L = Bytes → Option (Entry L)

module _ {ℓ} {L : Type ℓ} where
  -- Every shard keeps its invariant.
  abbrev pub AllValid : Cache L → Type ℓ
  AllValid c = (i : ℕ) → IsValid (c.shards i)

  -- What the shard of a lower-cased code holds for it.
  abbrev pub peek : Cache L → Bytes → Option (Entry L)
  peek c k = find k (c.shards (shard_index k)).order

  unfoldable pub step : Cache L → Call L → Cache L
  step c (get_call code now) = (get c code now).0
  step c (put_call code l now) = put c code l now
  step c (put_missing_call code now) = put_missing c code now
  step c (invalidate_call code) = invalidate c code

  unfoldable pub run : Cache L → List (Call L) → Cache L
  run c [] = c
  run c (call ∷ calls) = run (step c call) calls

  unfoldable pub note : Ideal L → Call L → Ideal L
  note m (get_call code now) k = m k
  note m (put_call code l now) k =
      if bytes_eq (to_lower code) k
      then some (record { link = some l; missing = false; expires = now + default_ttl })
      else m k
  note m (put_missing_call code now) k =
      if bytes_eq (to_lower code) k
      then some (record { link = none; missing = true; expires = now + negative_ttl })
      else m k
  note m (invalidate_call code) k = if bytes_eq (to_lower code) k then none else m k

  unfoldable pub note_all : Ideal L → List (Call L) → Ideal L
  note_all m [] = m
  note_all m (call ∷ calls) = note_all (note m call) calls

  set_shard-AllValid :
      (c : Cache L) (i : ℕ) (sh : Shard L) → AllValid c → IsValid sh → AllValid (set_shard c i sh)
  set_shard-AllValid c i sh v w j = elim (Bool-cases (i == j)) [
    | inl e ↦ rw e w
    | inr e ↦ rw e (v j)
  ]

  module _ (c : Cache L) (code : Bytes) (v : AllValid c) where
    pub get-AllValid : (now : ℕ) → AllValid (get c code now).0
    unfolding get
    get-AllValid now =
        set_shard-AllValid c _ _ v
          (shard_get-IsValid _ (lower_key code) (v (shard_index (lower_key code))) now)

    pub put_entry-AllValid : (e : Entry L) → AllValid (put_entry c code e)
    unfolding put_entry
    put_entry-AllValid e =
        set_shard-AllValid c _ _ v
          (shard_put-IsValid _ (lower_key code) e (v (shard_index (lower_key code))))

    pub invalidate-AllValid : AllValid (invalidate c code)
    unfolding invalidate
    invalidate-AllValid =
        set_shard-AllValid c _ _ v
          (shard_invalidate-IsValid _ (lower_key code) (v (shard_index (lower_key code))))

    pub get_result : (now : ℕ) → (get c code now).1 ≡ live now (peek c (to_lower code))
    unfolding get
    get_result now =
        rw (← lower_key-to_lower code)
          (shard_get_result _ (lower_key code) (v (shard_index (lower_key code))) now)

    pub peek-get :
        (now : ℕ) (k : Bytes) (e : Entry L) → peek (get c code now).0 k ≡ some e → peek c k ≡ some e
    unfolding get
    peek-get now k e h =
        let q = lower_key code in
        let i = shard_index q in
        ground (arith, bytes_eq_iff q k, find-shard_get (c.shards i) q (v i) now k)

    -- A `Get` keeps every entry that has not expired.
    pub peek-get-kept :
        (now : ℕ) (k : Bytes) (e : Entry L)
        → peek c k ≡ some e
        → now ≤ e.expires
        → peek (get c code now).0 k ≡ some e
    unfolding get
    peek-get-kept now k e h fresh =
        let q = lower_key code in
        let i = shard_index q in
        ground (arith, h, fresh, bytes_eq_iff q k, find-shard_get (c.shards i) q (v i) now k)

    pub peek-put_entry :
        (k : Bytes) (e e' : Entry L)
        → peek (put_entry c code e) k ≡ some e'
        → (if bytes_eq (to_lower code) k then some e else peek c k) ≡ some e'
    unfolding put_entry
    peek-put_entry k e e' h =
        let q = lower_key code in
        let i = shard_index q in
        ground (
          arith,
          lower_key-to_lower code,
          bytes_eq_iff q k,
          find-shard_put (c.shards i) q e (v i) k e',
        )

    pub peek-invalidate :
        (k : Bytes)
        → peek (invalidate c code) k ≡ (if bytes_eq (to_lower code) k then none else peek c k)
    unfolding invalidate
    peek-invalidate k =
        let q = lower_key code in
        let i = shard_index q in
        ground (
          arith,
          lower_key-to_lower code,
          bytes_eq_iff q k,
          find-shard_invalidate (c.shards i) q (v i) k,
        )

  -- What the cache holds, the ideal map holds.
  pub record Tracks (c : Cache L) (m : Ideal L) : Type ℓ where
    pub valid : AllValid c
    pub held : (k : Bytes) (e : Entry L) → peek c k ≡ some e → m k ≡ some e

  step-Tracks :
      (c : Cache L) (m : Ideal L) (call : Call L) → Tracks c m → Tracks (step c call) (note m call)
  unfolding step note put put_missing
  step-Tracks c m (get_call code now) t = record {
    valid = get-AllValid c code t.valid now;
    held = λ k e h. t.held k e (peek-get c code t.valid now k e h);
  }
  step-Tracks c m (put_call code l now) t = record {
    valid = put_entry-AllValid c code t.valid _;
    held = λ k e h. ground (arith, t.held k e, peek-put_entry c code t.valid k _ e h);
  }
  step-Tracks c m (put_missing_call code now) t = record {
    valid = put_entry-AllValid c code t.valid _;
    held = λ k e h. ground (arith, t.held k e, peek-put_entry c code t.valid k _ e h);
  }
  step-Tracks c m (invalidate_call code) t = record {
    valid = invalidate-AllValid c code t.valid;
    held = λ k e h. ground (arith, t.held k e, peek-invalidate c code t.valid k);
  }

  run-Tracks :
      (calls : List (Call L)) (c : Cache L) (m : Ideal L)
      → Tracks c m
      → Tracks (run c calls) (note_all m calls)
  unfolding run note_all
  run-Tracks [] c m t = t
  run-Tracks (call ∷ calls) c m t =
      run-Tracks calls (step c call) (note m call) (step-Tracks c m call t)

  pub new_cache-Tracks : (total : ℕ) → Tracks (new_cache total) (λ k. none)
  unfolding new_cache find
  new_cache-Tracks total = record {
    valid = λ i. record { keys = λ k. refl; distinct = tt; bounded = omega arith };
    held = λ k e h. h;
  }

  pub run-AllValid : (total : ℕ) (calls : List (Call L)) → AllValid (run (new_cache total) calls)
  run-AllValid total calls =
      (run-Tracks calls (new_cache total) (λ k. none) (new_cache-Tracks total)).valid

  pub peek-put_entry_self :
      (c : Cache L) (code : Bytes) (e : Entry L)
      → AllValid c
      → ((i : ℕ) → 0 < (c.shards i).cap)
      → peek (put_entry c code e) (to_lower code) ≡ some e
  unfolding put_entry
  peek-put_entry_self c code e v pos =
      let q = lower_key code in
      let i = shard_index q in
      rw (← lower_key-to_lower code)
        (ground (arith, find-shard_put_self (c.shards i) q e (v i) (pos i)))

  -- After any calls on a new cache, what `Get` returns for a code is the entry that the last `Put`
  -- or `PutMissing` for the code stored, in whatever case it was written, with no `Invalidate`
  -- since, and the entry has not expired. Evictions can only make `Get` miss.
  pub get-run_sound :
      (total : ℕ) (calls : List (Call L)) (code : Bytes) (now : ℕ) (e : Entry L)
      → (get (run (new_cache total) calls) code now).1 ≡ some e
      → (note_all (λ k. none) calls (to_lower code) ≡ some e) × (now ≤ e.expires)
  get-run_sound total calls code now e h =
      let c = run (new_cache total) calls in
      let t = run-Tracks calls (new_cache total) (λ k. none) (new_cache-Tracks total) in
      let k = to_lower code in
      live_sound (peek c k) (t.held k) (sym (get_result c code t.valid now) ∙ h)
    where
      live_sound :
          (o : Option (Entry L))
          → ((x : Entry L) → o ≡ some x → note_all (λ k. none) calls (to_lower code) ≡ some x)
          → live now o ≡ some e
          → (note_all (λ k. none) calls (to_lower code) ≡ some e) × (now ≤ e.expires)
      live_sound none f g = absurd (ground arith)
      live_sound (some x) f g =
          let same : x ≡ e = ground arith in (f e (ap some same), ground arith)

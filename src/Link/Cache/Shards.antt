-- ===== src/Link/Cache/Shards.antt =====
-- One shard: its invariant, and what each operation leaves to be found.
use shortr.Base.{
  ℕ, suc, ◌≤◌, ◌<◌, ◌≡◌, false, List, [], ◌∷◌, Option, none, some, is_some, length, ltb,
  if◌then◌else◌, Bool-cases, Option-cases, inl, inr, arith,
}
use shortr.Base.Bytes.{Bytes, bytes_eq, bytes_eq_iff, bytes_eq_refl, member}
use shortr.Link.Cache.{
  Shard, Node, Entry, find, remove, remove_back, drop_key, push_front, evict, shard_get, shard_put,
  shard_invalidate,
}
use shortr.Link.Cache.Nodes.{
  IsDistinct, member-delete_key, find-remove, remove-IsDistinct, length-remove-le,
  length-remove_found, length-remove_back, back_of_pos, find-remove_back, remove_back-IsDistinct,
}

module _ {ℓ} {L : Type ℓ} where
  -- The map and the list hold the same codes, each once, and no more than the capacity.
  pub record IsValid (sh : Shard L) : Type ℓ where
    pub keys : (k : Bytes) → member k sh.items ≡ is_some (find k sh.order)
    pub distinct : IsDistinct sh.order
    pub bounded : length sh.order ≤ sh.cap

  -- A live entry, or nothing.
  abbrev pub live : ℕ → Option (Entry L) → Option (Entry L)
  live now none = none
  live now (some e) = if ltb e.expires now then none else some e

  module _ (sh : Shard L) (c : Bytes) (v : IsValid sh) where
    drop_key-IsValid : IsValid (drop_key sh c)
    drop_key-IsValid = record {
      keys = λ k.
          ground
            (arith, v.keys k, member-delete_key c k sh.items, find-remove c k sh.order v.distinct);
      distinct = remove-IsDistinct c sh.order v.distinct;
      bounded = omega (arith, length-remove-le c sh.order);
    }

    move_front-IsValid :
        (old e : Entry L)
        → find c sh.order ≡ some old
        → IsValid (record sh { order = push_front c e (remove c sh.order) })
    unfolding find
    move_front-IsValid old e h = record {
      keys = λ k. ground (arith, v.keys k, bytes_eq_iff c k, find-remove c k sh.order v.distinct);
      distinct = (
        ground (arith, bytes_eq_refl c, find-remove c c sh.order v.distinct),
        remove-IsDistinct c sh.order v.distinct,
      );
      bounded = omega (arith, length-remove_found c sh.order old h);
    }

    pub shard_get-IsValid : (now : ℕ) → IsValid (shard_get sh c now).0
    unfolding shard_get
    shard_get-IsValid now = elim (Bool-cases (member c sh.items)) [
      | inr out ↦ rw out v
      | inl here ↦ elim (Option-cases (find c sh.order)) [
        | inl lost ↦ rw (here, lost) v
        | inr (e, found) ↦ elim (Bool-cases (ltb e.expires now)) [
          | inl dead ↦ rw (here, found, dead) drop_key-IsValid
          | inr alive ↦ rw (here, found, alive) (move_front-IsValid e e found)
        ]
      ]
    ]

    -- `Get` returns the entry of the code, unless it has expired.
    pub shard_get_result : (now : ℕ) → (shard_get sh c now).1 ≡ live now (find c sh.order)
    unfolding shard_get
    shard_get_result now = ground (arith, v.keys c)

    -- Nothing else changes, and an expired entry is dropped.
    pub find-shard_get :
        (now : ℕ) (k : Bytes)
        → find k (shard_get sh c now).0.order
          ≡ (if bytes_eq c k then live now (find c sh.order) else find k sh.order)
    unfolding shard_get find
    find-shard_get now k =
        ground (arith, v.keys c, bytes_eq_iff c k, find-remove c k sh.order v.distinct)

    pub shard_invalidate-IsValid : IsValid (shard_invalidate sh c)
    unfolding shard_invalidate
    shard_invalidate-IsValid = elim (Bool-cases (member c sh.items)) [
      | inl here ↦ rw here drop_key-IsValid
      | inr out ↦ rw out v
    ]

    pub find-shard_invalidate :
        (k : Bytes)
        → find k (shard_invalidate sh c).order ≡ (if bytes_eq c k then none else find k sh.order)
    unfolding shard_invalidate
    find-shard_invalidate k =
        ground (arith, v.keys c, bytes_eq_iff c k, find-remove c k sh.order v.distinct)

  -- A shard that is over its capacity by the node that was pushed.
  record IsPushed (sh : Shard L) : Type ℓ where
    keys : (k : Bytes) → member k sh.items ≡ is_some (find k sh.order)
    distinct : IsDistinct sh.order
    bounded : length sh.order ≤ suc sh.cap

  evict-IsValid : (sh : Shard L) → IsPushed sh → IsValid (evict sh)
  unfolding evict
  evict-IsValid sh v = elim (Bool-cases (ltb sh.cap (length sh.order))) [
    | inr fits ↦ rw fits (record { keys = v.keys; distinct = v.distinct; bounded = ground arith })
    | inl over ↦
        let (b, last) = back_of_pos sh.order (ground arith) in
        rw (over, last)
          (record {
            keys = λ k. ground (
              arith,
              v.keys k,
              member-delete_key b.code k sh.items,
              find-remove_back k sh.order b v.distinct last,
            );
            distinct = remove_back-IsDistinct sh.order v.distinct;
            bounded = omega (arith, length-remove_back sh.order);
          })
  ]

  -- What is found after an eviction was there before.
  find-evict :
      (sh : Shard L) (k : Bytes) (e : Entry L)
      → IsPushed sh
      → find k (evict sh).order ≡ some e
      → find k sh.order ≡ some e
  unfolding evict
  find-evict sh k e v h = elim (Bool-cases (ltb sh.cap (length sh.order))) [
    | inr fits ↦ ground arith
    | inl over ↦
        let (b, last) = back_of_pos sh.order (ground arith) in
        ground (arith, find-remove_back k sh.order b v.distinct last)
  ]

  -- The pushed node stays, if the capacity is positive.
  find-evict_front :
      (c : Bytes) (n : Entry L) (items : List Bytes) (l : List (Node L)) (cap : ℕ)
      → 0 < cap
      → find c (evict (record { items = items; order = push_front c n l; cap = cap })).order
        ≡ some n
  unfolding evict find remove_back
  find-evict_front c n items [] cap pos = ground (arith, bytes_eq_refl c)
  find-evict_front c n items (m ∷ l) cap pos =
      ground (arith, bytes_eq_refl c, back_of_pos (m ∷ l) (omega arith))

  module _ (sh : Shard L) (c : Bytes) (e : Entry L) (v : IsValid sh) where
    push-IsPushed :
        member c sh.items ≡ false
        → IsPushed (record sh { items = c ∷ sh.items; order = push_front c e sh.order })
    unfolding find
    push-IsPushed new = record {
      keys = λ k. ground (arith, v.keys k);
      distinct = (ground (arith, v.keys c), v.distinct);
      bounded = omega (arith, v.bounded);
    }

    pub shard_put-IsValid : IsValid (shard_put sh c e)
    unfolding shard_put
    shard_put-IsValid = elim (Bool-cases (member c sh.items)) [
      | inr new ↦ rw new (evict-IsValid _ (push-IsPushed new))
      | inl here ↦ elim (Option-cases (find c sh.order)) [
        | inl lost ↦ absurd (ground (arith, v.keys c))
        | inr (old, found) ↦ rw here (move_front-IsValid sh c v old e found)
      ]
    ]

    -- A `put` makes room by forgetting, and never returns anything but what was put.
    pub find-shard_put :
        (k : Bytes) (e' : Entry L)
        → find k (shard_put sh c e).order ≡ some e'
        → (if bytes_eq c k then some e else find k sh.order) ≡ some e'
    unfolding shard_put find
    find-shard_put k e' h = elim (Bool-cases (member c sh.items)) [
      | inr new ↦ ground (arith, find-evict _ k e' (push-IsPushed new))
      | inl here ↦ ground (arith, bytes_eq_iff c k, find-remove c k sh.order v.distinct)
    ]

    -- The entry that was put is there.
    pub find-shard_put_self : 0 < sh.cap → find c (shard_put sh c e).order ≡ some e
    unfolding shard_put find
    find-shard_put_self pos = elim (Bool-cases (member c sh.items)) [
      | inr new ↦ rw new (find-evict_front c e (c ∷ sh.items) sh.order sh.cap pos)
      | inl here ↦ ground (arith, bytes_eq_refl c)
    ]

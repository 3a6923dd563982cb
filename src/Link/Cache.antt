-- ===== src/Link/Cache.antt =====
-- internal/link/cache.go: a sharded LRU cache with a time to live for each entry. Times are
-- nanoseconds. `L` is the type of the links. A shard keeps the source's two structures: `items` is
-- the key set of its map, `order` its list of nodes, the most recent first. A key's element is the
-- node with that code.
pub mod Nodes
pub mod Shards
pub mod History
pub mod Bounds
use Prim.Native.Nat.{bit_xor}
use shortr.Base.{
  ℕ, zero, suc, ◌+◌, ◌*◌, ◌/◌, ◌%◌, ◌^◌, Bool, true, false, List, [], ◌∷◌, map, Option, none, some,
  length, any, ltb, leb, ◌==◌, if◌then◌else◌,
}
use shortr.Base.Bytes.{Bytes, bytes_eq, member, is_upper, lower_byte}

abbrev pub shard_count : ℕ
shard_count = 64

abbrev pub default_ttl : ℕ
default_ttl = 300_000_000_000

abbrev pub negative_ttl : ℕ
negative_ttl = 60_000_000_000

pub record Entry {ℓ} (L : Type ℓ) : Type ℓ where
  pub link : Option L
  pub missing : Bool
  pub expires : ℕ

pub record Node {ℓ} (L : Type ℓ) : Type ℓ where
  pub code : Bytes
  pub entry : Entry L

pub record Shard {ℓ} (L : Type ℓ) : Type ℓ where
  pub items : List Bytes
  pub order : List (Node L)
  pub cap : ℕ

pub record Cache {ℓ} (L : Type ℓ) : Type ℓ where
  pub shards : ℕ → Shard L
  pub capacity : ℕ

-- A total capacity below 1 stands for the source's `<= 0`.
unfoldable pub per_shard : ℕ → ℕ
per_shard total =
    let n = (if total == 0 then 50000 else total) / shard_count in if ltb n 16 then 16 else n

unfoldable pub new_cache {ℓ} : {L : Type ℓ} → ℕ → Cache L
new_cache total = record {
  shards = λ i. record { items = []; order = []; cap = per_shard total };
  capacity = per_shard total;
}

-- The loop of FNV-1a over 32-bit words.
unfoldable pub fnv : ℕ → Bytes → ℕ
fnv h [] = h
fnv h (c ∷ s) = fnv (bit_xor h c * 16777619 % 2 ^ 32) s

unfoldable pub shard_index : Bytes → ℕ
shard_index code = fnv 2166136261 code % shard_count

-- `toLower`: a string with no capital is returned as it is.
unfoldable pub lower_key : Bytes → Bytes
lower_key s = if any is_upper s then map lower_byte s else s

-- `delete(sh.items, code)`
unfoldable pub delete_key : Bytes → List Bytes → List Bytes
delete_key k [] = []
delete_key k (j ∷ js) = let rest = delete_key k js in if bytes_eq j k then rest else j ∷ rest

module _ {ℓ} {L : Type ℓ} where
  -- The entry of the element that the map holds for the code.
  unfoldable pub find : Bytes → List (Node L) → Option (Entry L)
  find k [] = none
  find k (n ∷ l) = if bytes_eq n.code k then some n.entry else find k l

  -- `order.Remove(el)`
  unfoldable pub remove : Bytes → List (Node L) → List (Node L)
  remove k [] = []
  remove k (n ∷ l) = let rest = remove k l in if bytes_eq n.code k then l else n ∷ rest

  -- `order.Back()`
  unfoldable pub back : List (Node L) → Option (Node L)
  back [] = none
  back (n ∷ []) = some n
  back (n ∷ m ∷ l) = back (m ∷ l)

  unfoldable pub remove_back : List (Node L) → List (Node L)
  remove_back [] = []
  remove_back (n ∷ []) = []
  remove_back (n ∷ m ∷ l) = n ∷ remove_back (m ∷ l)

  -- `PushFront`, and `MoveToFront` after a removal.
  abbrev pub push_front : Bytes → Entry L → List (Node L) → List (Node L)
  push_front k e l = record { code = k; entry = e } ∷ l

  abbrev pub drop_key : Shard L → Bytes → Shard L
  drop_key sh k = record sh { items = delete_key k sh.items; order = remove k sh.order }

  -- The part of `Get` on the shard of the key.
  unfoldable pub shard_get : Shard L → Bytes → ℕ → Shard L × Option (Entry L)
  shard_get sh k now =
      if member k sh.items
      then elim (find k sh.order) [
        | none ↦ (sh, none)
        | some e ↦
            if ltb e.expires now
            then (drop_key sh k, none)
            else (record sh { order = push_front k e (remove k sh.order) }, some e)
      ]
      else (sh, none)

  -- The end of `put`: the shard after the push, over its capacity or not.
  unfoldable pub evict : Shard L → Shard L
  evict sh =
      if ltb sh.cap (length sh.order)
      then elim (back sh.order) [
        | none ↦ sh
        | some n ↦ record sh { items = delete_key n.code sh.items; order = remove_back sh.order }
      ]
      else sh

  unfoldable pub shard_put : Shard L → Bytes → Entry L → Shard L
  shard_put sh k e =
      if member k sh.items
      then record sh { order = push_front k e (remove k sh.order) }
      else evict (record sh { items = k ∷ sh.items; order = push_front k e sh.order })

  unfoldable pub shard_invalidate : Shard L → Bytes → Shard L
  shard_invalidate sh k = if member k sh.items then drop_key sh k else sh

  -- A write to the array of shards.
  abbrev pub set_shard : Cache L → ℕ → Shard L → Cache L
  set_shard c i sh = record c { shards = λ j. if i == j then sh else c.shards j }

  unfoldable pub get : Cache L → Bytes → ℕ → Cache L × Option (Entry L)
  get c code now =
      let k = lower_key code in
      let i = shard_index k in let r = shard_get (c.shards i) k now in (set_shard c i r.0, r.1)

  unfoldable pub put_entry : Cache L → Bytes → Entry L → Cache L
  put_entry c code e =
      let k = lower_key code in let i = shard_index k in set_shard c i (shard_put (c.shards i) k e)

  unfoldable pub put : Cache L → Bytes → L → ℕ → Cache L
  put c code l now =
      put_entry c code (record { link = some l; missing = false; expires = now + default_ttl })

  unfoldable pub put_missing : Cache L → Bytes → ℕ → Cache L
  put_missing c code now =
      put_entry c code (record { link = none; missing = true; expires = now + negative_ttl })

  unfoldable pub invalidate : Cache L → Bytes → Cache L
  invalidate c code =
      let k = lower_key code in
      let i = shard_index k in set_shard c i (shard_invalidate (c.shards i) k)

  -- The sum over the first `n` shards.
  unfoldable pub len_below : Cache L → ℕ → ℕ
  len_below c zero = 0
  len_below c (suc n) = len_below c n + length (c.shards n).order

  unfoldable pub len : Cache L → ℕ
  len c = len_below c shard_count

-- ===== src/Click/Batch/Counts.antt =====
-- The click counts after a batch.
use mathlib.Core.List.{append-nil}
use shortr.Base.{
  ℕ, ◌+◌, ◌≡◌, refl, sym, Bool, true, false, ◌&&◌, List, [], ◌∷◌, ◌++◌, map, none, some,
  if◌then◌else◌, Bool-cases, inl, inr, arith,
}
use shortr.Base.Bytes.{Bytes, bytes_eq, bytes_eq_iff}
use shortr.Base.Map
use shortr.Store.{Link, update_where, select, has_id, count}
use shortr.Click.{Click}
use shortr.Click.Batch.{
  Db, value, counted, tally, last_times, clicked, bump_links, round_click, insert_clicks_batch,
}

-- The sum of a key's entries.
sum_of : Bytes → List (Bytes × ℕ) → ℕ
sum_of k [] = 0
sum_of k ((j, n) ∷ m) = (if bytes_eq j k then n else 0) + sum_of k m

sum_of-insert :
    (k j : Bytes) (m : List (Bytes × ℕ))
    → sum_of k (Map.insert j (value j m + 1) m) ≡ (if bytes_eq j k then 1 else 0) + sum_of k m
unfolding sum_of Map.insert Map.lookup
sum_of-insert k j [] = ground arith
sum_of-insert k j ((i, n) ∷ m) =
    ground (arith, sum_of-insert k j m, bytes_eq_iff i j, bytes_eq_iff j k, bytes_eq_iff i k)

-- The clicks that count for a link.
abbrev pub clicks_of : Bool → Bytes → List Click → ℕ
clicks_of bots id cs = count (λ c. bytes_eq c.link_id id && counted bots c) cs

sum_of-tally :
    (bots : Bool) (id : Bytes) (counts : List (Bytes × ℕ)) (cs : List Click)
    → sum_of id (tally bots counts cs) ≡ sum_of id counts + clicks_of bots id cs
unfolding tally
sum_of-tally bots id counts [] = omega arith
sum_of-tally bots id counts (c ∷ cs) = elim (Bool-cases (counted bots c)) [
  | inl counts_it ↦
      let ih = sum_of-tally bots id (Map.insert c.link_id (value c.link_id counts + 1) counts) cs in
      let step = sum_of-insert id c.link_id counts in rw counts_it (ground (arith, ih, step))
  | inr skips_it ↦ let ih = sum_of-tally bots id counts cs in rw skips_it (ground (arith, ih))
]

-- The stored count of a link, 0 if it has no row.
abbrev pub stored_count : Bytes → List Link → ℕ
stored_count id rows = elim (select (has_id id) rows) [ none ↦ 0 | some l ↦ l.click_count ]

abbrev pub has_row : Bytes → List Link → Bool
has_row id rows = elim (select (has_id id) rows) [ none ↦ false | some l ↦ true ]

row-update :
    (id k : Bytes) (n at : ℕ) (rows : List Link)
    → (stored_count id (update_where k (clicked n at) rows)
        ≡ stored_count id rows + (if bytes_eq k id && has_row id rows then n else 0))
      × (has_row id (update_where k (clicked n at) rows) ≡ has_row id rows)
unfolding update_where select
row-update id k n at [] = (ground arith, refl)
row-update id k n at (r ∷ rows) =
    let (ih, same) = row-update id k n at rows in
    (
      ground (arith, ih, bytes_eq_iff r.id id, bytes_eq_iff r.id k, bytes_eq_iff k id),
      ground (arith, same, bytes_eq_iff r.id id, bytes_eq_iff r.id k, bytes_eq_iff k id),
    )

stored_count-bump_links :
    (id : Bytes) (times counts : List (Bytes × ℕ)) (rows : List Link)
    → stored_count id (bump_links times counts rows)
      ≡ stored_count id rows + (if has_row id rows then sum_of id counts else 0)
unfolding bump_links sum_of
stored_count-bump_links id times [] rows = ground arith
stored_count-bump_links id times ((k, n) ∷ counts) rows =
    let (here, same) = row-update id k n (value k times) rows in
    let ih =
      stored_count-bump_links id times counts (update_where k (clicked n (value k times)) rows) in
    ground (arith, ih, here, same)

batch_count :
    (id : Bytes) (bots : Bool) (cs : List Click) (rows : List Link)
    → stored_count id (bump_links (last_times [] cs) (tally bots [] cs) rows)
      ≡ stored_count id rows + (if has_row id rows then clicks_of bots id cs else 0)
unfolding sum_of
batch_count id bots cs rows = ground (
  arith,
  stored_count-bump_links id (last_times [] cs) (tally bots [] cs) rows,
  sum_of-tally bots id [] cs,
)

-- What a batch does to the tables: nothing, or all of it.
abbrev pub Inserted : List Click → Bool → Db → Bool × Db → Type 0
Inserted cs bots db (false, db') = (db'.clicks ≡ db.clicks) × (db'.store.links ≡ db.store.links)
Inserted cs bots db (true, db') =
    (db'.clicks ≡ db.clicks ++ map round_click cs)
    × ((id : Bytes)
        → stored_count id db'.store.links
          ≡ stored_count id db.store.links
            + (if has_row id db.store.links then clicks_of bots id cs else 0))

-- A batch that fails leaves the clicks and the links as they were. One that succeeds appends its
-- clicks in their order, and raises the stored count of each link by the number of its clicks in the
-- batch, those of bots left out unless bots count.
pub insert_clicks_batch-Inserted :
    (cs : List Click) (bots : Bool) (db : Db) → Inserted cs bots db (insert_clicks_batch cs bots db)
unfolding insert_clicks_batch
insert_clicks_batch-Inserted [] bots db = (sym (append-nil db.clicks), λ id. ground arith)
insert_clicks_batch-Inserted (c ∷ cs) bots db =
    elim (Bool-cases (db.store.faults db.store.queries)) [
      | inl fault ↦ rw (fault, insert_clicks_batch) (refl, refl)
      | inr fine ↦
          rw (fine, insert_clicks_batch) (refl, λ id. batch_count id bots (c ∷ cs) db.store.links)
    ]

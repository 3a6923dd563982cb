-- ===== src/Click/Batch.antt =====
-- internal/store/clicks.go: InsertClicksBatch, one transaction. Its loop over the map of counts takes
-- the order in which the links came first; the updates of different links commute.
pub mod Counts
use shortr.Base.{
  ℕ, ◌+◌, Bool, true, false, not, ◌||◌, List, [], ◌∷◌, ◌++◌, map, Option, none, some, ltb,
  if◌then◌else◌,
}
use shortr.Base.Bytes.{Bytes}
use shortr.Base.Map
use shortr.Store.{Link, Store, to_millis, update_where}
use shortr.Click.{Click}

pub record Db : Type 0 where
  pub store : Store
  pub clicks : List Click

-- `counts[k]` and `lastTS[k]`, with the zero value of a missing key.
abbrev pub value : Bytes → List (Bytes × ℕ) → ℕ
value k m = elim (Map.lookup k m) [ none ↦ 0 | some n ↦ n ]

-- Whether a click counts.
abbrev pub counted : Bool → Click → Bool
counted count_bots c = count_bots || not c.is_bot

unfoldable pub tally : Bool → List (Bytes × ℕ) → List Click → List (Bytes × ℕ)
tally bots counts [] = counts
tally bots counts (c ∷ cs) =
    tally bots
      (if counted bots c then Map.insert c.link_id (value c.link_id counts + 1) counts else counts)
      cs

unfoldable pub last_times : List (Bytes × ℕ) → List Click → List (Bytes × ℕ)
last_times m [] = m
last_times m (c ∷ cs) =
    last_times (if ltb (value c.link_id m) c.ts then Map.insert c.link_id c.ts m else m) cs

-- The columns that one update sets.
abbrev pub clicked : ℕ → ℕ → Link → Link
clicked n at r = record r { click_count = r.click_count + n; last_click_at = some (to_millis at) }

unfoldable pub bump_links : List (Bytes × ℕ) → List (Bytes × ℕ) → List Link → List Link
bump_links times [] rows = rows
bump_links times ((k, n) ∷ counts) rows =
    bump_links times counts (update_where k (clicked n (value k times)) rows)

abbrev pub round_click : Click → Click
round_click c = record c { ts = to_millis c.ts }

-- The result says whether the error is nil.
unfoldable pub insert_clicks_batch : List Click → Bool → Db → Bool × Db
insert_clicks_batch [] bots db = (true, db)
insert_clicks_batch (c ∷ cs) bots db =
    let st = record db.store { queries = db.store.queries + 1 } in
    if db.store.faults db.store.queries then (false, record db { store = st }) else (
      true,
      record db {
        store = record st {
          links = bump_links (last_times [] (c ∷ cs)) (tally bots [] (c ∷ cs)) st.links;
        };
        clicks = db.clicks ++ map round_click (c ∷ cs);
      },
    )

-- ===== src/Link/Service.antt =====
-- internal/link/service.go: the state of the link service, the resolution of a code, the click
-- counters, and the operations that change a link's place in the table. `now` is the clock's value
-- throughout one call, in nanoseconds.
pub mod Coherent
pub mod Clicks
pub mod Race
use shortr.Base.{
  ℕ, ◌+◌, ◌-◌, Bool, true, false, List, [], ◌∷◌, Option, none, some, ltb, if◌then◌else◌,
}
use shortr.Base.Bytes.{Bytes}
use shortr.Base.Map
use shortr.Store
use shortr.Store.{Link, Store, Res, ok, err, not_found}
use shortr.Link.Cache
use shortr.Link.Cache.{Cache, Entry}

pub record HitCounter : Type 0 where
  pub n : ℕ
  pub last : ℕ

-- The policy that an administrator edits; a limit of 0 means no limit.
pub record Policy : Type 0 where
  pub blocked_domains : List Bytes
  pub default_redirect_status : ℕ
  pub max_links_per_user : ℕ

pub record Service : Type 0 where
  pub store : Store
  pub cache : Cache Link
  pub hits : List (Bytes × HitCounter)
  pub policy : Policy
  pub cache_hits : ℕ
  pub cache_misses : ℕ

unfoldable pub set_policy : Policy → Service → Service
set_policy p s = record s {
  policy =
      if ltb 0 p.default_redirect_status then p else record p { default_redirect_status = 302 };
}

-- `LoadOrStore` of a counter that is seeded with the stored click count.
abbrev pub counter_of : Link → List (Bytes × HitCounter) → HitCounter
counter_of l hits = elim (Map.lookup l.id hits) [
  | none ↦ record { n = l.click_count; last = 0 }
  | some c ↦ c
]

unfoldable pub consume_click : ℕ → Link → Service → Bool × Service
consume_click now l s = elim l.max_clicks [
  | none ↦ (true, s)
  | some limit ↦
      let ctr = counter_of l s.hits in
      if ltb limit (ctr.n + 1)
      then (false, record s { hits = Map.insert l.id (record { n = ctr.n; last = now }) s.hits })
      else (true, record s { hits = Map.insert l.id (record { n = ctr.n + 1; last = now }) s.hits })
]

-- The counters that `Range` keeps.
unfoldable pub prune : ℕ → List (Bytes × HitCounter) → List (Bytes × HitCounter)
prune cutoff [] = []
prune cutoff ((k, c) ∷ hits) =
    let rest = prune cutoff hits in if ltb c.last cutoff then rest else (k, c) ∷ rest

unfoldable pub prune_hits : ℕ → ℕ → Service → Service
prune_hits now idle s = record s { hits = prune (now - idle) s.hits }

-- The function that concurrent misses of one code share, after its query: other requests may run
-- between the query and this. The link that is returned is a pointer.
unfoldable pub fill : ℕ → Bytes → Res Link → Service → Res (Option Link) × Service
fill now code (ok l) s = (ok (some l), record s { cache = Cache.put s.cache l.code l now })
fill now code (err not_found) s =
    (err not_found, record s { cache = Cache.put_missing s.cache code now })
fill now code (err e) s = (err e, s)

unfoldable pub load : ℕ → Bytes → Service → Res (Option Link) × Service
unfolding fill
load now code s =
    let (res, st) = Store.get_link_by_code code s.store in
    fill now code res (record s { store = st })

unfoldable pub resolve_for_redirect : ℕ → Bytes → Service → Res (Option Link) × Service
resolve_for_redirect now code s =
    let (c, r) = Cache.get s.cache code now in
    let s' = record s { cache = c } in
    elim r [
      | some e ↦
          let s'' = record s' { cache_hits = s.cache_hits + 1 } in
          if e.missing then (err not_found, s'') else (ok e.link, s'')
      | none ↦ load now code (record s' { cache_misses = s.cache_misses + 1 })
    ]

abbrev forget_hits : Bytes → Service → Service
forget_hits id s = record s { hits = Map.delete id s.hits }

unfoldable pub invalidate_cache : Bytes → Service → Service
invalidate_cache code s = record s { cache = Cache.invalidate s.cache code }

-- What follows a write: nothing, if it failed.
abbrev pub after_write :
    Service → Res (Unit {0}) × Store → (Service → Service) → Res (Unit {0}) × Service
after_write s (ok u, st) f = (ok u, f (record s { store = st }))
after_write s (err e, st) f = (err e, record s { store = st })

unfoldable pub delete : ℕ → Bytes → Bytes → Service → Res (Unit {0}) × Service
unfolding invalidate_cache
delete now id code s =
    after_write s (Store.soft_delete_link id now s.store)
      (λ s'. invalidate_cache code (forget_hits id s'))

unfoldable pub purge : Bytes → Bytes → Service → Res (Unit {0}) × Service
unfolding invalidate_cache
purge id code s =
    after_write s (Store.purge_link id s.store) (λ s'. invalidate_cache code (forget_hits id s'))

unfoldable pub restore : ℕ → Bytes → Bytes → Service → Res (Unit {0}) × Service
unfolding invalidate_cache
restore now id code s =
    after_write s (Store.restore_link id now s.store) (λ s'. invalidate_cache code s')

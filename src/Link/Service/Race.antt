-- ===== src/Link/Service/Race.antt =====
-- The query of a cache miss and the entry that it leaves are two steps, between which other requests
-- run.
use shortr.Base.{
  ℕ, ◌+◌, ◌≤◌, ◌≡◌, refl, sym, ◌∙◌, ap, true, List, [], ◌∷◌, ◌++◌, Option, none, some, inl, inr,
  subst, Bool-cases, arith,
}
use shortr.Base.Bytes.{Bytes, bytes_eq_refl, to_lower}
use shortr.Store.{
  Link, Store, ok, select, has_id, has_key, constraints, update_where, soft_delete_link, to_millis,
  get_link_by_code,
}
use shortr.Store.Rows.{row_of}
use shortr.Store.Lookup.{found, get_link_by_code_result, select-has_key}
use shortr.Link.Cache
use shortr.Link.Cache.{Cache, new_cache, default_ttl}
use shortr.Link.Cache.History.{Call, invalidate_call, run, step}
use shortr.Link.Cache.Bounds.{get-put}
use shortr.Link.Service.{Service, fill, resolve_for_redirect, delete, invalidate_cache}

run-append :
    (c : Cache Link) (calls : List (Call Link)) (call : Call Link)
    → run c (calls ++ call ∷ []) ≡ step (run c calls) call
unfolding run step
run-append c [] call = refl
run-append c (x ∷ calls) call = run-append (step c x) calls call

-- The columns that a deletion writes.
abbrev pub mark_deleted : ℕ → Link → Link
mark_deleted at r = record r { deleted_at = some (to_millis at); updated_at = to_millis at }

select-update_where :
    (k : Bytes) (at : ℕ) (rows : List Link) (l : Link)
    → row_of k rows ≡ some l
    → row_of k (update_where l.id (mark_deleted at) rows) ≡ some (mark_deleted at l)
unfolding select update_where
select-update_where k at [] l h = absurd (ground (arith, h))
select-update_where k at (r ∷ rows) l h = elim (Bool-cases (has_key k r)) [
  | inl this ↦
      let e : r ≡ l = ground (arith, this, h) in
      subst
        (λ (x : Link).
          row_of k (update_where x.id (mark_deleted at) (r ∷ rows)) ≡ some (mark_deleted at x))
        e (rw (bytes_eq_refl, this) refl)
  | inr other ↦
      let rest = select-update_where k at rows l (ground (arith, other, h)) in
      elim (Bool-cases (has_id l.id r)) [
        | inl same ↦ rw (same, other) rest
        | inr differs ↦ rw (differs, other) rest
      ]
]

-- What a successful deletion does.
delete-done :
    (at : ℕ) (id code : Bytes) (s : Service)
    → (delete at id code s).0 ≡ ok tt
    → ((delete at id code s).1.store.links ≡ update_where id (mark_deleted at) s.store.links)
      × ((delete at id code s).1.cache ≡ Cache.invalidate s.cache code)
unfolding delete soft_delete_link invalidate_cache
delete-done at id code s h = (ground (arith, h), ground (arith, h))

found-ok : (o : Option Link) (l : Link) → ok l ≡ found o → o ≡ some l
found-ok none l h = absurd (ground (arith, h))
found-ok (some x) l h = ground (arith, h)

found-row :
    (code : Bytes) (st : Store) (l : Link)
    → constraints st.links ≡ true
    → (get_link_by_code code st).0 ≡ ok l
    → row_of (to_lower code) st.links ≡ some l
found-row code st l u h =
    let (answer, rows) = get_link_by_code_result code st u in
    elim answer [
      | inl (down, e) ↦ absurd (ground (arith, e, h))
      | inr e ↦ found-ok (row_of (to_lower code) st.links) l (sym h ∙ e)
    ]

-- The state after the query of a lookup that missed.
abbrev pub queried : Bytes → Service → Service
queried code s = record s { store = (get_link_by_code code s.store).1 }

-- The query returned a link, the link is deleted, and the query's entry is made.
abbrev pub overtaken : ℕ → ℕ → Bytes → Link → Service → Service
overtaken now at code l s = (fill now code (ok l) (delete at l.id l.code (queried code s)).1).1

-- A lookup that misses runs its query, then stores the query's link. Let the table meet its
-- constraints, and let the link that the query returns be deleted by Delete between the two, without a
-- failure. The next resolution, at any time within five minutes of the clock's value for the entry and
-- for any spelling of the code, is answered with the link as the query returned it, while the row of
-- the code is marked as deleted.
pub resolve_for_redirect-fill :
    (total : ℕ) (calls : List (Call Link)) (s : Service) (now at now' : ℕ) (code code' : Bytes)
    (l : Link)
    → s.cache ≡ run (new_cache total) calls
    → constraints s.store.links ≡ true
    → (get_link_by_code code s.store).0 ≡ ok l
    → (delete at l.id l.code (queried code s)).0 ≡ ok tt
    → to_lower code' ≡ to_lower code
    → now' ≤ now + default_ttl
    → ((resolve_for_redirect now' code' (overtaken now at code l s)).0 ≡ ok (some l))
      × (row_of (to_lower code') (overtaken now at code l s).store.links ≡ some (mark_deleted at l))
unfolding resolve_for_redirect fill step
resolve_for_redirect-fill total calls s now at now' code code' l reached unique read deleted same
      fresh =
    let (rows, cache) = delete-done at l.id l.code (queried code s) deleted in
    let (_, kept) = get_link_by_code_result code s.store unique in
    let row = found-row code s.store l unique read in
    let key : to_lower l.code ≡ to_lower code =
      select-has_key (to_lower code) s.store.links l row in
    let s2 = (delete at l.id l.code (queried code s)).1 in
    let cache2 : s2.cache ≡ run (new_cache total) (calls ++ invalidate_call l.code ∷ []) =
      cache
      ∙ ap (λ c. Cache.invalidate c l.code) reached
      ∙ sym (run-append (new_cache total) calls (invalidate_call l.code)) in
    let hit =
      get-put total (calls ++ invalidate_call l.code ∷ []) l.code code' l now now' (same ∙ sym key)
        fresh in
    (
      rw (cache2, hit, resolve_for_redirect) refl,
      rw (rows, kept, same) (select-update_where (to_lower code) at s.store.links l row),
    )

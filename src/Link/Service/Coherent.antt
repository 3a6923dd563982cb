-- ===== src/Link/Service/Coherent.antt =====
-- The redirect cache against the table: what is cached for a code is what the table holds, but for
-- the click counters.
use mathlib.Core.Option
use shortr.Base.{
  ℕ, ◌+◌, ◌≡◌, refl, sym, ◌∙◌, ap, ◌⊎◌, inl, inr, Bool, true, false, not, List, Option, none, some,
  is_some, Bool-cases, Option-cases, if◌then◌else◌, arith,
}
use shortr.Base.Bytes.{Bytes, bytes_eq, bytes_eq_iff, to_lower}
use shortr.Store.{
  Link, Store, Res, ok, err, not_found, db_error, constraints, update_where, soft_delete_link,
  restore_link,
}
use shortr.Store.Rows.{row_of, IdHasKey, row_of-update_where_ne, row_of-delete_where_ne}
use shortr.Store.Lookup.{
  get_link_by_code_result, select-has_key, Wrote, failed, wrote, attempt-commit, purge_link-Wrote,
}
use shortr.Link.Cache
use shortr.Link.Cache.{Cache, Entry, put, put_missing, default_ttl, negative_ttl}
use shortr.Link.Cache.History.{
  AllValid, peek, get_result, get-AllValid, put_entry-AllValid, invalidate-AllValid, peek-get,
  peek-put_entry, peek-invalidate,
}
use shortr.Link.Cache.Shards.{live}
use shortr.Link.Service.{Service, load, resolve_for_redirect, delete, purge, restore, after_write}

-- A link without what a click writes.
abbrev pub strip : Link → Link
strip l = record l { click_count = 0; last_click_at = none }

abbrev pub view : Option Link → Option Link
view = Option.map strip

-- A cached entry is that of the row: a link, or the mark of an unknown code.
pub record Matches (e : Entry Link) (row : Option Link) : Type 0 where
  pub mark : e.missing ≡ not (is_some row)
  pub same : view e.link ≡ view row

pub record Coherent (s : Service) : Type 0 where
  pub rows : constraints s.store.links ≡ true
  pub valid : AllValid s.cache
  pub held :
      (k : Bytes) (e : Entry Link) → peek s.cache k ≡ some e → Matches e (row_of k s.store.links)

-- The answer for a code whose row is given.
abbrev pub Answers : Res (Option Link) → Option Link → Type 0
Answers (ok (some l)) (some r) = strip l ≡ strip r
Answers (err not_found) none = Unit
Answers _ _ = ⊥

-- Only the rows and the cache matter.
pub same-Coherent :
    (s s' : Service)
    → s'.store.links ≡ s.store.links
    → s'.cache ≡ s.cache
    → Coherent s
    → Coherent s'
same-Coherent s s' rows cache co = record {
  rows = rw rows co.rows;
  valid = rw cache co.valid;
  held = rw (rows, cache) co.held;
}

put_entry-Coherent :
    (s : Service) (st : Store) (code : Bytes) (e : Entry Link)
    → st.links ≡ s.store.links
    → Matches e (row_of (to_lower code) s.store.links)
    → Coherent s
    → Coherent (record s { store = st; cache = Cache.put_entry s.cache code e })
put_entry-Coherent s st code e rows m co = record {
  rows = rw rows co.rows;
  valid = put_entry-AllValid s.cache code co.valid e;
  held = λ k e' h. rw rows (pick k e' (peek-put_entry s.cache code co.valid k e e' h));
}
  where
    pick :
        (k : Bytes) (e' : Entry Link)
        → (if bytes_eq (to_lower code) k then some e else peek s.cache k) ≡ some e'
        → Matches e' (row_of k s.store.links)
    pick k e' h = elim (Bool-cases (bytes_eq (to_lower code) k)) [
      | inl same ↦
          let key : to_lower code ≡ k = (bytes_eq_iff _ _).0 same in
          let entry : e ≡ e' = ground arith in rw (← key, ← entry) m
      | inr other ↦ co.held k e' (ground arith)
    ]

-- What a resolution promises of its answer and of the state that it leaves.
abbrev pub Resolved : Bytes → Service → Res (Option Link) × Service → Type 0
Resolved code s r =
    Coherent r.1
    × (r.1.store.links ≡ s.store.links)
    × ((r.0 ≡ err db_error) ⊎ Answers r.0 (row_of (to_lower code) s.store.links))

module _ (now : ℕ) (code : Bytes) (s : Service) (co : Coherent s) where
  load-Resolved : Resolved code s (load now code s)
  unfolding load put put_missing
  load-Resolved =
      let (answer, rows) = get_link_by_code_result code s.store co.rows in
      let k = to_lower code in
      elim answer [
        | inl (_, fault) ↦ rw (fault, load) (same-Coherent s _ rows refl co, rows, inl refl)
        | inr e ↦ elim (Option-cases (row_of k s.store.links)) [
          | inl missing ↦
              rw (e, missing, load)
                (
                  put_entry-Coherent s _ code _ rows
                      (rw missing (record { mark = refl; same = refl })) co,
                  rows,
                  inr tt,
                )
          | inr (l, here) ↦
              let key = select-has_key k s.store.links l here in
              rw (e, here, load)
                (
                  put_entry-Coherent s _ l.code _ rows
                      (rw (key, here) (record { mark = refl; same = refl })) co,
                  rows,
                  inr refl,
                )
        ]
      ]

answer_of :
    (missing : Bool) (link row : Option Link)
    → missing ≡ not (is_some row)
    → view link ≡ view row
    → Answers (if missing then err not_found else ok link) row
answer_of true link none m v = tt
answer_of true link (some r) m v = absurd (ground arith)
answer_of false link none m v = absurd (ground arith)
answer_of false none (some r) m v = absurd (ground arith)
answer_of false (some l) (some r) m v = cc

-- A write to the table, the code invalidated afterwards.
pub invalidate-Coherent :
    (s s' : Service) (code : Bytes)
    → constraints s'.store.links ≡ true
    → ((k : Bytes)
        → bytes_eq (to_lower code) k ≡ false
        → row_of k s'.store.links ≡ row_of k s.store.links)
    → s'.cache ≡ Cache.invalidate s.cache code
    → Coherent s
    → Coherent s'
invalidate-Coherent s s' code rows other cache co = record {
  rows = rows;
  valid = rw cache (invalidate-AllValid s.cache code co.valid);
  held = λ k e h. pick k e ((ap (λ c. peek c k) (sym cache) ∙ h));
}
  where
    pick :
        (k : Bytes) (e : Entry Link)
        → peek (Cache.invalidate s.cache code) k ≡ some e
        → Matches e (row_of k s'.store.links)
    pick k e h =
        let gone = peek-invalidate s.cache code co.valid k in
        elim (Bool-cases (bytes_eq (to_lower code) k)) [
          | inl same ↦ absurd (ground arith)
          | inr differs ↦ rw (other k differs) (co.held k e (ground arith))
        ]

-- If the cache is coherent with the table, ResolveForRedirect either reports a failed statement or
-- answers as the table does: not_found exactly if no row has the code up to the case of its letters,
-- else that row's link, in all its fields but the click counters. It leaves the table as it is and
-- the cache coherent.
pub resolve_for_redirect-Resolved :
    (now : ℕ) (code : Bytes) (s : Service)
    → Coherent s
    → Resolved code s (resolve_for_redirect now code s)
unfolding resolve_for_redirect
resolve_for_redirect-Resolved now code s co = elim (Option-cases (Cache.get s.cache code now).1) [
  | inl miss ↦
      rw (miss, resolve_for_redirect)
        (load-Resolved now code _ (touched s.cache_hits (s.cache_misses + 1)))
  | inr (e, hit) ↦
      let m = co.held (to_lower code) e (
        live_held (peek s.cache (to_lower code)) e
          (sym (get_result s.cache code co.valid now) ∙ hit)) in
      elim (Bool-cases e.missing) [
        | inl marked ↦
            rw (hit, marked, resolve_for_redirect)
              (
                touched (s.cache_hits + 1) s.cache_misses,
                refl,
                inr (answer_of true e.link _ (sym marked ∙ m.mark) m.same),
              )
        | inr held ↦
            rw (hit, held, resolve_for_redirect)
              (
                touched (s.cache_hits + 1) s.cache_misses,
                refl,
                inr (answer_of false e.link _ (sym held ∙ m.mark) m.same),
              )
      ]
]
  where
    touched :
        (h m : ℕ)
        → Coherent
            (record s { cache = (Cache.get s.cache code now).0; cache_hits = h; cache_misses = m })
    touched h m = record {
      rows = co.rows;
      valid = get-AllValid s.cache code co.valid now;
      held = λ k e g. co.held k e (peek-get s.cache code co.valid now k e g);
    }

    live_held : (o : Option (Entry Link)) (e : Entry Link) → live now o ≡ some e → o ≡ some e
    live_held o e h = ground arith

module _ (s : Service) (id code : Bytes) (owned : IdHasKey id (to_lower code) s.store.links)
    (co : Coherent s) where
  -- A write that changes only rows with the id, none of their codes.
  written :
      (r : Res (Unit {0}) × Store) (f : Service → Service) (rows : List Link)
      → Wrote s.store.links rows tt r
      → ((k : Bytes) → bytes_eq (to_lower code) k ≡ false → row_of k rows ≡ row_of k s.store.links)
      → ((st : Store) → (f (record s { store = st })).cache ≡ Cache.invalidate s.cache code)
      → ((st : Store) → (f (record s { store = st })).store ≡ st)
      → Coherent (after_write s r f).1
  written (ok u, st) f rows (failed e res same) other cache store = absurd (ground arith)
  written (ok u, st) f rows (wrote res new good) other cache store =
      invalidate-Coherent s _ code (rw (store st, new) good) (λ k h. rw (store st, new) (other k h))
        (cache st) co
  written (err e, st) f rows (failed e' res same) other cache store = same-Coherent s _ same refl co
  written (err e, st) f rows (wrote res new good) other cache store = absurd (ground arith)

  keeps_code :
      (f : Link → Link)
      → ((r : Link) → (f r).code ≡ r.code)
      → (k : Bytes) → bytes_eq (to_lower code) k ≡ false
      → row_of k (update_where id f s.store.links) ≡ row_of k s.store.links
  keeps_code f same k other =
      row_of-update_where_ne k id (to_lower code) f s.store.links owned other (λ r i h.
        rw (same r) (
          ground (
            arith,
            bytes_eq_iff (to_lower r.code) (to_lower code),
            bytes_eq_iff (to_lower r.code) k,
            bytes_eq_iff (to_lower code) k,
          )))

  -- If every row with an id has a code, up to the case of its letters, and the cache is coherent with
  -- the table, it is so after Delete, Purge and Restore of that id and code, also if the write fails:
  -- what is cached for a code is what the table holds for it, but for the click counters.
  pub delete-purge-restore-Coherent :
      (now : ℕ)
      → Coherent (delete now id code s).1
        × Coherent (purge id code s).1
        × Coherent (restore now id code s).1
  unfolding delete purge restore soft_delete_link restore_link
  delete-purge-restore-Coherent now = (
    written _ _ _ (attempt-commit s.store _ tt) (keeps_code _ (λ r. refl)) (λ st. refl)
        (λ st. refl),
    written _ _ _ (purge_link-Wrote id s.store co.rows)
        (λ k h. row_of-delete_where_ne k id (to_lower code) s.store.links owned h) (λ st. refl)
        (λ st. refl),
    written _ _ _ (attempt-commit s.store _ tt) (keeps_code _ (λ r. refl)) (λ st. refl)
        (λ st. refl),
  )

-- ===== src/Server/Links/Requests.antt =====
-- What the handlers of one link do to the rows of the table.
use shortr.Base.{
  ℕ, ◌≡◌, refl, sym, subst, ap, List, ◌⊎◌, inl, inr, ltb, ◌-◌, Bool-cases, Option-cases, arith,
}
use shortr.Base.Bytes.{Bytes}
use shortr.Store.{
  Link, User, Store, Res, StoreError, ok, err, merge, update_where, delete_where, soft_delete_link,
  restore_link, purge_link,
}
use shortr.Store.Accounts.{add_audit}
use shortr.Store.Lookup.{Wrote, failed, wrote, attempt-commit}
use shortr.Link.Service.{Service, delete, purge, restore, invalidate_cache, after_write}
use shortr.Link.Update.Rows.{Written}
use shortr.Server.Console.{Caller}
use shortr.Server.Links.{
  get_owned_link, link_audit, handle_get_link, handle_delete_link, handle_restore_link,
}
use shortr.Server.Links.Foreign.{
  Untouched, same-Untouched, Untouched-trans, update_where-Untouched, delete_where-Untouched,
  IsOwned, got_none, got, get_owned_link-Got,
}

link_audit-links :
    (now : ℕ) (caller : Caller) (actor action target : Bytes) (s : Service)
    → (link_audit now caller actor action target s).store.links ≡ s.store.links
unfolding link_audit add_audit
link_audit-links now caller actor action target s = ground arith

pub Res-cases :
    {A : Type 0} → (r : Res A) → ((e : StoreError) × (r ≡ err e)) ⊎ ((x : A) × (r ≡ ok x))
Res-cases (err e) = inl (e, refl)
Res-cases (ok x) = inr (x, refl)

pub audited :
    (u : User) (before : List Link) (now : ℕ) (caller : Caller) (actor action target : Bytes)
    (s : Service)
    → Untouched u before s.store.links
    → Untouched u before (link_audit now caller actor action target s).store.links
audited u before now caller actor action target s h =
    subst (Untouched u before) (sym (link_audit-links now caller actor action target s)) h

-- The rows are as they were, or the row with an id is changed and keeps its id,
-- or it is removed.
pub data Changes (id : Bytes) (before after : List Link) : Type 0 where
  unchanged : after ≡ before → Changes id before after
  changed :
      (f : Link → Link)
      → ((r : Link) → (f r).id ≡ r.id)
      → after ≡ update_where id f before
      → Changes id before after
  removed : after ≡ delete_where id before → Changes id before after

pub Changes-Untouched :
    (u : User) (l : Link) (before after : List Link)
    → IsOwned u before l
    → Changes l.id before after
    → Untouched u before after
Changes-Untouched u l before after own (unchanged e) = same-Untouched u before after e
Changes-Untouched u l before after own (changed f keeps e) =
    Untouched-trans u before (update_where l.id f before) after
      (update_where-Untouched u l f before keeps own.found own.mine)
      (same-Untouched u (update_where l.id f before) after e)
Changes-Untouched u l before after own (removed e) =
    Untouched-trans u before (delete_where l.id before) after
      (delete_where-Untouched u l before own.found own.mine)
      (same-Untouched u (delete_where l.id before) after e)

pub Written-Changes :
    (id : Bytes) (before after : List Link) → Written id before after → Changes id before after
Written-Changes id before after (inl e) = unchanged e
Written-Changes id before after (inr (now, (l, e))) = changed (merge now l) (λ r. refl) e

Wrote-Changes :
    (id : Bytes) (f : Link → Link) (before : List Link) (r : Res (Unit {0}) × Store)
    → ((l : Link) → (f l).id ≡ l.id)
    → Wrote before (update_where id f before) tt r
    → Changes id before r.1.links
Wrote-Changes id f before r keeps (failed x e same) = unchanged same
Wrote-Changes id f before r keeps (wrote e new good) = changed f keeps new

after_write-Changes :
    (id : Bytes) (before : List Link) (r : Res (Unit {0}) × Store) (s : Service)
    (g : Service → Service)
    → Changes id before r.1.links
    → ((st : Store) → (g (record s { store = st })).store ≡ st)
    → Changes id before (after_write s r g).1.store.links
after_write-Changes id before (ok x, st) s g c keeps =
    subst (λ a. Changes id before a) (sym (ap (λ st. st.links) (keeps st))) c
after_write-Changes id before (err e, st) s g c keeps = c

pub delete-Changes :
    (now : ℕ) (id code : Bytes) (s : Service)
    → Changes id s.store.links (delete now id code s).1.store.links
unfolding delete soft_delete_link invalidate_cache
delete-Changes now id code s =
    after_write-Changes id s.store.links (soft_delete_link id now s.store) s _
      (Wrote-Changes id _ s.store.links (soft_delete_link id now s.store) (λ r. refl)
        (attempt-commit s.store _ tt))
      (λ st. refl)

pub restore-Changes :
    (now : ℕ) (id code : Bytes) (s : Service)
    → Changes id s.store.links (restore now id code s).1.store.links
unfolding restore restore_link invalidate_cache
restore-Changes now id code s =
    after_write-Changes id s.store.links (restore_link id now s.store) s _
      (Wrote-Changes id _ s.store.links (restore_link id now s.store) (λ r. refl)
        (attempt-commit s.store _ tt))
      (λ st. refl)

purge_link-Changes : (id : Bytes) (st : Store) → Changes id st.links (purge_link id st).1.links
unfolding purge_link
purge_link-Changes id st = elim (Bool-cases (st.faults st.queries)) [
  | inl fault ↦ rw (fault, purge_link) (unchanged refl)
  | inr fine ↦ rw (fine, purge_link) (removed refl)
]

pub purge-Changes :
    (id code : Bytes) (s : Service) → Changes id s.store.links (purge id code s).1.store.links
unfolding purge invalidate_cache
purge-Changes id code s =
    after_write-Changes id s.store.links (purge_link id s.store) s _ (purge_link-Changes id s.store)
      (λ st. refl)

pub handle_get_link-Untouched :
    (u : User) (id : Bytes) (s : Service)
    → Untouched u s.store.links (handle_get_link u id s).1.store.links
unfolding handle_get_link
handle_get_link-Untouched u id s = elim (get_owned_link-Got u id s) [
  | got_none e refused rows ↦ rw (refused, handle_get_link) (same-Untouched u s.store.links _ rows)
  | got l given rows own ↦ rw (given, handle_get_link) (same-Untouched u s.store.links _ rows)
]

-- A handler that writes the row of a link that its user owns.
pub after_own-Untouched :
    (u : User) (l : Link) (s s' : Service) (after : List Link)
    → s'.store.links ≡ s.store.links
    → IsOwned u s.store.links l
    → Changes l.id s'.store.links after
    → Untouched u s.store.links after
after_own-Untouched u l s s' after rows own c =
    Changes-Untouched u l s.store.links after own (subst (λ b. Changes l.id b after) rows c)

pub handle_delete_link-Untouched :
    (now : ℕ) (caller : Caller) (u : User) (id : Bytes) (s : Service)
    → Untouched u s.store.links (handle_delete_link now caller u id s).1.store.links
unfolding handle_delete_link
handle_delete_link-Untouched now caller u id s = elim (get_owned_link-Got u id s) [
  | got_none e refused rows ↦
      rw (refused, handle_delete_link) (same-Untouched u s.store.links _ rows)
  | got l given rows own ↦
      let s' = (get_owned_link u id s).1 in
      let c : Untouched u s.store.links (delete now l.id l.code s').1.store.links =
        after_own-Untouched u l s s' _ rows own (delete-Changes now l.id l.code s') in
      elim (Res-cases (delete now l.id l.code s').0) [
        | inl (e, bad) ↦ rw (given, bad, handle_delete_link) c
        | inr (x, good) ↦
            rw (given, good, handle_delete_link) (audited u s.store.links _ _ _ _ _ _ c)
      ]
]

pub handle_restore_link-Untouched :
    (now : ℕ) (caller : Caller) (u : User) (id : Bytes) (s : Service)
    → Untouched u s.store.links (handle_restore_link now caller u id s).1.store.links
unfolding handle_restore_link
handle_restore_link-Untouched now caller u id s = elim (get_owned_link-Got u id s) [
  | got_none e refused rows ↦
      rw (refused, handle_restore_link) (same-Untouched u s.store.links _ rows)
  | got l given rows own ↦
      let s' = (get_owned_link u id s).1 in
      let same : Untouched u s.store.links s'.store.links = same-Untouched u s.store.links _ rows in
      let c : Untouched u s.store.links (restore now l.id l.code s').1.store.links =
        after_own-Untouched u l s s' _ rows own (restore-Changes now l.id l.code s') in
      elim (Option-cases l.deleted_at) [
        | inl live ↦ rw (given, live, handle_restore_link) same
        | inr (at, gone) ↦ elim (Bool-cases (ltb 2592000000000000 (now - at))) [
          | inl late ↦ rw (given, gone, late, handle_restore_link) same
          | inr early ↦ elim (Res-cases (restore now l.id l.code s').0) [
            | inl (e, bad) ↦ rw (given, gone, early, bad, handle_restore_link) c
            | inr (x, good) ↦
                rw (given, gone, early, good, handle_restore_link)
                  (audited u s.store.links _ _ _ _ _ _ c)
          ]
        ]
      ]
]

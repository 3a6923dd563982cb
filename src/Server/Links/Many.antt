-- ===== src/Server/Links/Many.antt =====
-- What the requests for many links do to the rows of the table.
use shortr.Base.{
  ℕ, suc, ◌≡◌, refl, List, [], ◌∷◌, ◌++◌, Option, none, some, inl, inr, Bool-cases, Option-cases,
  ltb, length,
}
use shortr.Base.Bytes.{Bytes, codes, bytes_eq}
use shortr.Store.{Link, User, Res, ok, err}
use shortr.Validate.{Net, trim_space}
use shortr.Link.Create.{
  Config, CreateInput, CreateResult, created, invalid, code_taken, code_exhausted, limit_reached,
  hash_failed, random_failed, random_unfinished, store_failed, create,
}
use shortr.Link.Create.Rows.{Grown, create-Grown}
use shortr.Link.Service.{Service, delete, purge, restore}
use shortr.Link.Update.{
  UpdateInput, UpdateResult, updated, update_invalid, update_code_taken, update_hash_failed,
  update_failed, update,
}
use shortr.Link.Update.Rows.{update-Written}
use shortr.Server.Console.{Caller}
use shortr.Server.Links.{get_owned_link}
use shortr.Server.Links.Foreign.{
  Untouched, same-Untouched, Untouched-trans, append-Untouched, got_none, got, get_owned_link-Got,
}
use shortr.Server.Links.Requests.{
  audited, Changes, unchanged, Written-Changes, after_own-Untouched, delete-Changes,
  restore-Changes, purge-Changes,
}
use shortr.Server.Links.Bulk.{
  BulkItem, BulkAction, soft_delete, undelete, purge_deleted, add_tag, unknown, set_status,
  bulk_action, action_of, Draws, written, saved, to_input, bulk_op, bulk_manage, bulk_create,
  bulk_item, bulk_run, handle_bulk_links,
}

written-Changes :
    (id : Bytes) (before : List Link) (r : Res (Unit {0}) × Service)
    → Changes id before r.1.store.links
    → Changes id before (written r).1.store.links
written-Changes id before (ok x, s) c = c
written-Changes id before (err e, s) c = c

saved-Changes :
    (id : Bytes) (before : List Link) (r : UpdateResult × Service)
    → Changes id before r.1.store.links
    → Changes id before (saved r).1.store.links
saved-Changes id before (updated l, s) c = c
saved-Changes id before (update_invalid es, s) c = c
saved-Changes id before (update_code_taken, s) c = c
saved-Changes id before (update_hash_failed, s) c = c
saved-Changes id before (update_failed e, s) c = c

Grown-Untouched :
    (u : User) (before after : List Link) → Grown before after → Untouched u before after
Grown-Untouched u before after (inl e) = same-Untouched u before after e
Grown-Untouched u before after (inr (l, e)) =
    Untouched-trans u before (before ++ l ∷ []) after (append-Untouched u before (l ∷ []))
      (same-Untouched u (before ++ l ∷ []) after e)

module _ (net : Net) (hash : Bytes → Option Bytes) (cfg : Config)
    (parse_time : Bytes → Option ℕ) where
  saved-update-Changes :
      (now : ℕ) (l : Link) (given : UpdateInput) (s : Service)
      → Changes l.id s.store.links (saved (update net hash cfg now l given s)).1.store.links
  saved-update-Changes now l given s =
      saved-Changes l.id s.store.links (update net hash cfg now l given s)
        (Written-Changes l.id s.store.links _ (update-Written net hash cfg now l given s))

  bulk_op-Changes :
      (now : ℕ) (a : BulkAction) (tag : Bytes) (l : Link) (s : Service)
      → Changes l.id s.store.links (bulk_op net hash cfg parse_time now a tag l s).1.store.links
  unfolding bulk_op
  bulk_op-Changes now soft_delete tag l s =
      written-Changes l.id s.store.links (delete now l.id l.code s)
        (delete-Changes now l.id l.code s)
  bulk_op-Changes now undelete tag l s =
      written-Changes l.id s.store.links (restore now l.id l.code s)
        (restore-Changes now l.id l.code s)
  bulk_op-Changes now purge_deleted tag l s = elim (Option-cases l.deleted_at) [
    | inl live ↦ rw (live, bulk_op) (unchanged refl)
    | inr (at, gone) ↦
        rw (gone, bulk_op)
          (written-Changes l.id s.store.links (purge l.id l.code s) (purge-Changes l.id l.code s))
  ]
  bulk_op-Changes now (set_status st) tag l s = saved-update-Changes now l _ s
  bulk_op-Changes now add_tag tag l s = elim (Bool-cases (bytes_eq (trim_space tag) [])) [
    | inl empty ↦ rw (empty, bulk_op) (unchanged refl)
    | inr given ↦ rw (given, bulk_op) (saved-update-Changes now l _ s)
  ]
  bulk_op-Changes now unknown tag l s = unchanged refl

  bulk_manage-Untouched :
      (now : ℕ) (caller : Caller) (u : User) (item : BulkItem) (s : Service)
      → Untouched u s.store.links
          (bulk_manage net hash cfg parse_time now caller u item s).1.store.links
  unfolding bulk_manage
  bulk_manage-Untouched now caller u item s = elim (get_owned_link-Got u item.id s) [
    | got_none e refused rows ↦ rw (refused, bulk_manage) (same-Untouched u s.store.links _ rows)
    | got l given rows own ↦
        let s' = (get_owned_link u item.id s).1 in
        let a = bulk_action (action_of item) in
        let c : Untouched u s.store.links
            (bulk_op net hash cfg parse_time now a item.tag l s').1.store.links =
          after_own-Untouched u l s s' _ rows own (bulk_op-Changes now a item.tag l s') in
        elim (Bool-cases (bulk_op net hash cfg parse_time now a item.tag l s').0) [
          | inl good ↦ rw (given, good, bulk_manage) (audited u s.store.links _ _ _ _ _ _ c)
          | inr bad ↦ rw (given, bad, bulk_manage) c
        ]
  ]

  bulk_create-Untouched :
      (now : ℕ) (caller : Caller) (u : User) (d : Draws) (item : BulkItem) (s : Service)
      → Untouched u s.store.links
          (bulk_create net hash cfg parse_time now caller u d item s).1.store.links
  unfolding bulk_create
  bulk_create-Untouched now caller u d item s =
      elim (Option-cases (to_input parse_time item.input)) [
        | inl bad ↦ rw (bad, bulk_create) (same-Untouched u s.store.links _ refl)
        | inr (given, parsed) ↦ cases given parsed (make given).0 refl
      ]
    where
      make : CreateInput → CreateResult × Service
      make given = create net hash cfg now d.ulid d.read d.fuel (some u.id) caller.ip given s

      grown : (given : CreateInput) → Untouched u s.store.links (make given).1.store.links
      grown given =
          Grown-Untouched u s.store.links _
            (create-Grown net hash cfg now d.ulid d.read d.fuel (some u.id) caller.ip given s)

      cases :
          (given : CreateInput)
          → to_input parse_time item.input ≡ some given
          → (r : CreateResult) → (make given).0 ≡ r
          → Untouched u s.store.links
              (bulk_create net hash cfg parse_time now caller u d item s).1.store.links
      cases given p (created l) q =
          rw (p, q, bulk_create) (audited u s.store.links _ _ _ _ _ _ (grown given))
      cases given p (invalid es) q = rw (p, q, bulk_create) (grown given)
      cases given p code_taken q = rw (p, q, bulk_create) (grown given)
      cases given p code_exhausted q = rw (p, q, bulk_create) (grown given)
      cases given p limit_reached q = rw (p, q, bulk_create) (grown given)
      cases given p hash_failed q = rw (p, q, bulk_create) (grown given)
      cases given p random_failed q = rw (p, q, bulk_create) (grown given)
      cases given p random_unfinished q = rw (p, q, bulk_create) (grown given)
      cases given p (store_failed e) q = rw (p, q, bulk_create) (grown given)

  bulk_item-Untouched :
      (now : ℕ) (caller : Caller) (u : User) (d : Draws) (item : BulkItem) (s : Service)
      → Untouched u s.store.links
          (bulk_item net hash cfg parse_time now caller u d item s).1.store.links
  unfolding bulk_item
  bulk_item-Untouched now caller u d item s =
      elim (Bool-cases (bytes_eq (action_of item) (codes "create"))) [
        | inl made ↦ rw (made, bulk_item) (bulk_create-Untouched now caller u d item s)
        | inr managed ↦ rw (managed, bulk_item) (bulk_manage-Untouched now caller u item s)
      ]

  bulk_run-Untouched :
      (now : ℕ) (caller : Caller) (u : User) (draws : ℕ → Draws) (i : ℕ) (items : List BulkItem)
      (s : Service)
      → Untouched u s.store.links
          (bulk_run net hash cfg parse_time now caller u draws i items s).1.store.links
  unfolding bulk_run
  bulk_run-Untouched now caller u draws i [] s = same-Untouched u s.store.links _ refl
  bulk_run-Untouched now caller u draws i (item ∷ items) s =
      Untouched-trans u s.store.links
        (bulk_item net hash cfg parse_time now caller u (draws i) item s).1.store.links _
        (bulk_item-Untouched now caller u (draws i) item s)
        (bulk_run-Untouched now caller u draws (suc i) items
          (bulk_item net hash cfg parse_time now caller u (draws i) item s).1)

  pub handle_bulk_links-Untouched :
      (now : ℕ) (caller : Caller) (u : User) (draws : ℕ → Draws) (body : Option (List BulkItem))
      (s : Service)
      → Untouched u s.store.links
          (handle_bulk_links net hash cfg parse_time now caller u draws body s).1.store.links
  unfolding handle_bulk_links
  handle_bulk_links-Untouched now caller u draws none s = same-Untouched u s.store.links _ refl
  handle_bulk_links-Untouched now caller u draws (some items) s =
      elim (Bool-cases (ltb 100 (length items))) [
        | inl many ↦ rw (many, handle_bulk_links) (same-Untouched u s.store.links _ refl)
        | inr few ↦ rw (few, handle_bulk_links) (bulk_run-Untouched now caller u draws 0 items s)
      ]

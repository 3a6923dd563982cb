-- ===== src/Server/Links/Runs.antt =====
-- Sequences of the requests of one user for single links and for many.
use shortr.Base.{
  ℕ, ◌≡◌, refl, sym, subst, false, not, ◌&&◌, List, [], ◌∷◌, Option, some, inl, inr, Bool-cases,
  Option-cases,
}
use shortr.Base.Bytes.{Bytes, bytes_eq}
use shortr.Store.{Link, User, select, has_id}
use shortr.Validate.{Net}
use shortr.Link.Create.{Config}
use shortr.Link.Service.{Service}
use shortr.Link.Update.{
  UpdateInput, UpdateResult, updated, update_invalid, update_code_taken, update_hash_failed,
  update_failed, update,
}
use shortr.Link.Update.Rows.{update-Written}
use shortr.Server.Console.{Caller}
use shortr.Server.Links.{
  PatchLinkReq, may_edit, get_owned_link, handle_get_link, handle_delete_link, handle_restore_link,
  to_update, weak_etag, patch_link, handle_patch_link,
}
use shortr.Server.Links.Bulk.{Draws, BulkItem, handle_bulk_links}
use shortr.Server.Links.Many.{handle_bulk_links-Untouched}
use shortr.Server.Links.Foreign.{
  Untouched, same-Untouched, Untouched-trans, IsOwned, got_none, got, get_owned_link-Got,
}
use shortr.Server.Links.Requests.{
  audited, Written-Changes, after_own-Untouched, handle_get_link-Untouched,
  handle_delete_link-Untouched, handle_restore_link-Untouched,
}

pub data LinkRequest : Type 0 where
  get_one : Bytes → LinkRequest
  patch_one : ℕ → Caller → Bytes → Bytes → Option PatchLinkReq → LinkRequest
  delete_one restore_one : ℕ → Caller → Bytes → LinkRequest
  bulk : ℕ → Caller → (ℕ → Draws) → Option (List BulkItem) → LinkRequest

module _ (net : Net) (hash : Bytes → Option Bytes) (cfg : Config) (format_int : ℕ → Bytes)
    (parse_time : Bytes → Option ℕ) where
  patch_link-Untouched :
      (now : ℕ) (caller : Caller) (u : User) (l : Link) (given : UpdateInput) (before : List Link)
      (s : Service)
      → s.store.links ≡ before
      → IsOwned u before l
      → Untouched u before
          (patch_link net hash cfg format_int parse_time now caller u l given s).1.store.links
  unfolding patch_link
  patch_link-Untouched now caller u l given before s rows own =
      cases (update net hash cfg now l given s).0 refl
    where
      written : Untouched u before (update net hash cfg now l given s).1.store.links
      written =
          subst (λ b. Untouched u b (update net hash cfg now l given s).1.store.links) rows
            (after_own-Untouched u l s s _ refl (subst (λ b. IsOwned u b l) (sym rows) own)
              (Written-Changes l.id s.store.links _ (update-Written net hash cfg now l given s)))

      cases :
          (r : UpdateResult)
          → (update net hash cfg now l given s).0 ≡ r
          → Untouched u before
              (patch_link net hash cfg format_int parse_time now caller u l given s).1.store.links
      cases (updated l') q = rw (q, patch_link) (audited u before _ _ _ _ _ _ written)
      cases (update_invalid es) q = rw (q, patch_link) written
      cases update_code_taken q = rw (q, patch_link) written
      cases update_hash_failed q = rw (q, patch_link) written
      cases (update_failed e) q = rw (q, patch_link) written

  handle_patch_link-Untouched :
      (now : ℕ) (caller : Caller) (u : User) (id if_match : Bytes) (body : Option PatchLinkReq)
      (s : Service)
      → Untouched u s.store.links
          (handle_patch_link net hash cfg format_int parse_time now caller u id if_match body
            s).1.store.links
  unfolding handle_patch_link
  handle_patch_link-Untouched now caller u id if_match body s = elim (get_owned_link-Got u id s) [
    | got_none e refused rows ↦
        rw (refused, handle_patch_link) (same-Untouched u s.store.links _ rows)
    | got l given rows own ↦
        let s' = (get_owned_link u id s).1 in
        let same : Untouched u s.store.links s'.store.links =
          same-Untouched u s.store.links _ rows in
        let stale =
          not (bytes_eq if_match [])
          && not (bytes_eq if_match (weak_etag net hash cfg format_int parse_time l.updated_at)) in
        elim (Bool-cases stale) [
          | inl yes_stale ↦ rw (given, yes_stale, handle_patch_link) same
          | inr fresh ↦ elim (Option-cases body) [
            | inl unread ↦ rw (given, fresh, unread, handle_patch_link) same
            | inr (req, read) ↦ elim (Option-cases (to_update parse_time req)) [
              | inl bad ↦ rw (given, fresh, read, bad, handle_patch_link) same
              | inr (fields, parsed) ↦
                  rw (given, fresh, read, parsed, handle_patch_link)
                    (patch_link-Untouched now caller u l fields s.store.links s' rows own)
            ]
          ]
        ]
  ]

  unfoldable pub serve : User → LinkRequest → Service → Service
  serve u (get_one id) s = (handle_get_link u id s).1
  serve u (patch_one now caller id if_match body) s =
      (handle_patch_link net hash cfg format_int parse_time now caller u id if_match body s).1
  serve u (delete_one now caller id) s = (handle_delete_link now caller u id s).1
  serve u (restore_one now caller id) s = (handle_restore_link now caller u id s).1
  serve u (bulk now caller draws body) s =
      (handle_bulk_links net hash cfg parse_time now caller u draws body s).1

  unfoldable pub serve_all : User → List LinkRequest → Service → Service
  serve_all u [] s = s
  serve_all u (r ∷ rs) s = serve_all u rs (serve u r s)

  serve-Untouched :
      (u : User) (r : LinkRequest) (s : Service)
      → Untouched u s.store.links (serve u r s).store.links
  unfolding serve
  serve-Untouched u (get_one id) s = handle_get_link-Untouched u id s
  serve-Untouched u (patch_one now caller id if_match body) s =
      handle_patch_link-Untouched now caller u id if_match body s
  serve-Untouched u (delete_one now caller id) s = handle_delete_link-Untouched now caller u id s
  serve-Untouched u (restore_one now caller id) s = handle_restore_link-Untouched now caller u id s
  serve-Untouched u (bulk now caller draws body) s =
      handle_bulk_links-Untouched net hash cfg parse_time now caller u draws body s

  serve_all-Untouched :
      (u : User) (rs : List LinkRequest) (s : Service)
      → Untouched u s.store.links (serve_all u rs s).store.links
  unfolding serve_all
  serve_all-Untouched u [] s = same-Untouched u s.store.links s.store.links refl
  serve_all-Untouched u (r ∷ rs) s =
      Untouched-trans u s.store.links (serve u r s).store.links _ (serve-Untouched u r s)
        (serve_all-Untouched u rs (serve u r s))

  -- After any sequence of requests in which one user shows, edits, deletes and restores single links
  -- and sends bulk requests of any actions, a link that was found under an id and that the user may
  -- not edit (the user is neither an administrator nor its owner) is still found under that id with
  -- every field as it was, whichever statements fail.
  pub select-serve_all :
      (u : User) (rs : List LinkRequest) (s : Service) (id : Bytes) (r : Link)
      → select (has_id id) s.store.links ≡ some r
      → may_edit u r ≡ false
      → select (has_id id) (serve_all u rs s).store.links ≡ some r
  select-serve_all u rs s id r here foreign = serve_all-Untouched u rs s id r here foreign

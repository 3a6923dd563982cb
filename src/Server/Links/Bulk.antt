-- ===== src/Server/Links/Bulk.antt =====
-- internal/server/api_links.go: requests for many links. An error's text and the short address of a
-- new link are left out of the results; `draws` are the random values of each item's creation.

use shortr.Base.{
  ℕ, suc, Bool, true, false, List, [], ◌∷◌, ◌++◌, Option, none, some, length, ltb, if◌then◌else◌,
}
use shortr.Base.Bytes.{Bytes, codes, bytes_eq, member}
use shortr.Store.{Link, User, Res, ok, err}
use shortr.Validate.{Net, trim_space}
use shortr.Link.Create.{
  Config, CreateInput, created, invalid, code_taken, code_exhausted, limit_reached, hash_failed,
  random_failed, random_unfinished, store_failed, create,
}
use shortr.Link.Service.{Service, delete, purge, restore}
use shortr.Link.Update.{
  UpdateInput, UpdateResult, updated, update_invalid, update_code_taken, update_hash_failed,
  update_failed, update,
}
use shortr.Server.Console.{Caller}
use shortr.Server.Links.{Utm, owned, not_owned, get_owned_link, link_audit}

pub record CreateLinkReq : Type 0 where
  pub target_url : Bytes
  pub code : Bytes
  pub length : ℕ
  pub title : Bytes
  pub description : Bytes
  pub redirect_status : ℕ
  pub password : Bytes
  pub expires_at : Option Bytes
  pub max_clicks : Option ℕ
  pub tags : List Bytes
  pub pass_query : Option Bool
  pub utm : Option Utm

-- The fields of a creation, `none` if the expiry cannot be parsed.
unfoldable pub to_input : (Bytes → Option ℕ) → CreateLinkReq → Option CreateInput
to_input parse_time req =
    let with_expiry : Option ℕ → CreateInput = λ t. record {
      target_url = req.target_url;
      code = req.code;
      length = req.length;
      title = req.title;
      description = req.description;
      redirect_status = req.redirect_status;
      password = req.password;
      expires_at = t;
      max_clicks = req.max_clicks;
      tags = req.tags;
      pass_query = req.pass_query;
      utm_source = elim req.utm [ none ↦ [] | some m ↦ m.source ];
      utm_medium = elim req.utm [ none ↦ [] | some m ↦ m.medium ];
      utm_campaign = elim req.utm [ none ↦ [] | some m ↦ m.campaign ];
      utm_term = elim req.utm [ none ↦ [] | some m ↦ m.term ];
      utm_content = elim req.utm [ none ↦ [] | some m ↦ m.content ];
    } in
    elim req.expires_at [
      | none ↦ some (with_expiry none)
      | some text ↦
          if bytes_eq text []
          then some (with_expiry none)
          else elim (parse_time text) [ none ↦ none | some t ↦ some (with_expiry (some t)) ]
    ]

pub record BulkItem : Type 0 where
  pub action : Bytes
  pub op : Bytes
  pub id : Bytes
  pub tag : Bytes
  pub input : CreateLinkReq

pub data BulkResult : Type 0 where
  bulk_done bulk_failed : Bytes → BulkResult
  bulk_created : Bytes → Bytes → BulkResult

pub data BulkReply : Type 0 where
  bulk_items : List BulkResult → BulkReply
  bulk_refused : BulkReply

-- The actions on a link that exists; `set_status` carries the new status.
pub data BulkAction : Type 0 where
  soft_delete undelete purge_deleted add_tag unknown : BulkAction
  set_status : Bytes → BulkAction

unfoldable pub bulk_action : Bytes → BulkAction
bulk_action a =
    if bytes_eq a (codes "delete")
    then soft_delete
    else if bytes_eq a (codes "restore")
    then undelete
    else if bytes_eq a (codes "purge")
    then purge_deleted
    else if bytes_eq a (codes "disable")
    then set_status (codes "disabled")
    else if bytes_eq a (codes "enable")
    then set_status (codes "active")
    else if bytes_eq a (codes "tag")
    then add_tag
    else unknown

abbrev pub action_of : BulkItem → Bytes
action_of item = if bytes_eq item.action [] then item.op else item.action

-- The random values of one creation.
pub record Draws : Type 0 where
  pub ulid : Bytes
  pub read : ℕ → ℕ → Option (List ℕ)
  pub fuel : ℕ

abbrev unchanged_fields : UpdateInput
unchanged_fields = record {
  target_url = none;
  code = none;
  title = none;
  description = none;
  redirect_status = none;
  password = none;
  expires_at = none;
  max_clicks = none;
  status = none;
  tags = none;
  pass_query = none;
  utm_source = none;
  utm_medium = none;
  utm_campaign = none;
  utm_term = none;
  utm_content = none;
}

abbrev pub written : Res (Unit {0}) × Service → Bool × Service
written (ok x, s) = (true, s)
written (err e, s) = (false, s)

abbrev pub saved : UpdateResult × Service → Bool × Service
saved (updated l, s) = (true, s)
saved (update_invalid es, s) = (false, s)
saved (update_code_taken, s) = (false, s)
saved (update_hash_failed, s) = (false, s)
saved (update_failed e, s) = (false, s)

module _ (net : Net) (hash : Bytes → Option Bytes) (cfg : Config)
    (parse_time : Bytes → Option ℕ) where
  -- Whether the action on the link succeeded.
  unfoldable pub bulk_op : ℕ → BulkAction → Bytes → Link → Service → Bool × Service
  bulk_op now soft_delete tag l s = written (delete now l.id l.code s)
  bulk_op now undelete tag l s = written (restore now l.id l.code s)
  bulk_op now purge_deleted tag l s = elim l.deleted_at [
    | none ↦ (false, s)
    | some at ↦ written (purge l.id l.code s)
  ]
  bulk_op now (set_status st) tag l s =
      saved (update net hash cfg now l (record unchanged_fields { status = some st }) s)
  bulk_op now add_tag tag l s =
      let t = trim_space tag in
      if bytes_eq t []
      then (false, s)
      else let tags = if member t l.tags then l.tags else l.tags ++ t ∷ [] in
        saved (update net hash cfg now l (record unchanged_fields { tags = some tags }) s)
  bulk_op now unknown tag l s = (false, s)

  unfoldable pub bulk_manage : ℕ → Caller → User → BulkItem → Service → BulkResult × Service
  bulk_manage now caller u item s =
      let (o, s') = get_owned_link u item.id s in
      elim o [
        | not_owned e ↦ (bulk_failed item.id, s')
        | owned l ↦
            let (good, s'') = bulk_op now (bulk_action (action_of item)) item.tag l s' in
            if good
            then (
              bulk_done item.id,
              link_audit now caller u.id (codes "link." ++ action_of item) l.id s'',
            )
            else (bulk_failed item.id, s'')
      ]

  unfoldable pub bulk_create : ℕ → Caller → User → Draws → BulkItem → Service → BulkResult × Service
  bulk_create now caller u d item s = elim (to_input parse_time item.input) [
    | none ↦ (bulk_failed [], s)
    | some given ↦
        let (r, s') = create net hash cfg now d.ulid d.read d.fuel (some u.id) caller.ip given s in
        elim r [
          | created l ↦
              (bulk_created l.id l.code, link_audit now caller u.id (codes "link.create") l.id s')
          | invalid es ↦ (bulk_failed [], s')
          | code_taken ↦ (bulk_failed [], s')
          | code_exhausted ↦ (bulk_failed [], s')
          | limit_reached ↦ (bulk_failed [], s')
          | hash_failed ↦ (bulk_failed [], s')
          | random_failed ↦ (bulk_failed [], s')
          | random_unfinished ↦ (bulk_failed [], s')
          | store_failed e ↦ (bulk_failed [], s')
        ]
  ]

  unfoldable pub bulk_item : ℕ → Caller → User → Draws → BulkItem → Service → BulkResult × Service
  bulk_item now caller u d item s =
      if bytes_eq (action_of item) (codes "create")
      then bulk_create now caller u d item s
      else bulk_manage now caller u item s

  -- The loop, from item number `i`.
  unfoldable pub bulk_run :
      ℕ → Caller → User → (ℕ → Draws) → ℕ → List BulkItem → Service → List BulkResult × Service
  bulk_run now caller u draws i [] s = ([], s)
  bulk_run now caller u draws i (item ∷ items) s =
      let (r, s') = bulk_item now caller u (draws i) item s in
      let (rs, s'') = bulk_run now caller u draws (suc i) items s' in (r ∷ rs, s'')

  -- The body is `none` if it cannot be decoded.
  unfoldable pub handle_bulk_links :
      ℕ → Caller → User → (ℕ → Draws) → Option (List BulkItem) → Service → BulkReply × Service
  handle_bulk_links now caller u draws none s = (bulk_refused, s)
  handle_bulk_links now caller u draws (some items) s =
      if ltb 100 (length items)
      then (bulk_refused, s)
      else let (rs, s') = bulk_run now caller u draws 0 items s in (bulk_items rs, s')

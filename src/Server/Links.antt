-- ===== src/Server/Links.antt =====
-- internal/server/api_links.go: the handlers that read and write one link. The parser of RFC 3339 times
-- and the decimal notation are arguments.
pub mod Foreign
pub mod Bulk
pub mod Requests
pub mod Many
pub mod Runs
pub mod Tests
use shortr.Base.{
  ℕ, ◌+◌, ◌-◌, Bool, true, false, not, ◌&&◌, ◌||◌, List, [], ◌∷◌, ◌++◌, Option, none, some, is_some,
  ltb, if◌then◌else◌,
}
use shortr.Base.Bytes.{Bytes, codes, bytes_eq}
use shortr.Store.{Link, User, Store, StoreError, Res, ok, err, is_admin, get_link_by_id}
use shortr.Store.Types.{AuditEntry}
use shortr.Store.Accounts.{add_audit}
use shortr.Validate.{Net}
use shortr.Link.Create.{Config}
use shortr.Link.Input.{FieldError, expires_at}
use shortr.Link.Service.{Service, delete, restore}
use shortr.Link.Update.{
  UpdateInput, UpdateResult, updated, update_invalid, update_code_taken, update_hash_failed,
  update_failed, update,
}
use shortr.Server.Console.{
  Caller, ApiError, bad_request, not_found_error, forbidden, internal, of_store,
}

pub record Utm : Type 0 where
  pub source : Bytes
  pub medium : Bytes
  pub campaign : Bytes
  pub term : Bytes
  pub content : Bytes

-- The two fields that are pointers to pointers are options of options.
pub record PatchLinkReq : Type 0 where
  pub code : Option Bytes
  pub target_url : Option Bytes
  pub title : Option Bytes
  pub description : Option Bytes
  pub redirect_status : Option ℕ
  pub password : Option Bytes
  pub expires_at : Option (Option Bytes)
  pub max_clicks : Option (Option ℕ)
  pub status : Option Bytes
  pub tags : Option (List Bytes)
  pub pass_query : Option Bool
  pub utm : Option Utm

pub data LinkReply : Type 0 where
  shown : Link → LinkReply
  done : LinkReply
  denied : ApiError → LinkReply
  precondition_failed code_taken : LinkReply
  invalid_fields : List FieldError → LinkReply

-- Whether a user may read and write a link.
abbrev pub may_edit : User → Link → Bool
may_edit u l = is_admin u || elim l.user_id [ none ↦ false | some id ↦ bytes_eq id u.id ]

pub data Owned : Type 0 where
  owned : Link → Owned
  not_owned : ApiError → Owned

unfoldable pub get_owned_link : User → Bytes → Service → Owned × Service
get_owned_link u id s =
    let (r, st) = get_link_by_id id s.store in
    let s' = record s { store = st } in
    elim r [
      | err e ↦ (not_owned not_found_error, s')
      | ok l ↦ if not (may_edit u l) then (not_owned forbidden, s') else (owned l, s')
    ]

unfoldable pub link_audit : ℕ → Caller → Bytes → Bytes → Bytes → Service → Service
link_audit now caller actor action target s =
    let entry : AuditEntry = record {
      ts = now;
      actor_user_id = actor;
      actor_ip = caller.ip;
      action = action;
      target_type = codes "link";
      target_id = target;
    } in
    record s { store = (add_audit entry s.store).1 }

unfoldable pub handle_get_link : User → Bytes → Service → LinkReply × Service
handle_get_link u id s =
    let (o, s') = get_owned_link u id s in
    elim o [ not_owned e ↦ (denied e, s') | owned l ↦ (shown l, s') ]

-- The fields of an update, `none` if the expiry cannot be parsed.
unfoldable pub to_update : (Bytes → Option ℕ) → PatchLinkReq → Option UpdateInput
to_update parse_time req =
    let with_expiry : Option (Option ℕ) → UpdateInput = λ t. record {
      code = req.code;
      target_url = req.target_url;
      title = req.title;
      description = req.description;
      redirect_status = req.redirect_status;
      password = req.password;
      expires_at = t;
      max_clicks = req.max_clicks;
      status = req.status;
      tags = req.tags;
      pass_query = req.pass_query;
      utm_source = elim req.utm [ none ↦ none | some m ↦ some m.source ];
      utm_medium = elim req.utm [ none ↦ none | some m ↦ some m.medium ];
      utm_campaign = elim req.utm [ none ↦ none | some m ↦ some m.campaign ];
      utm_term = elim req.utm [ none ↦ none | some m ↦ some m.term ];
      utm_content = elim req.utm [ none ↦ none | some m ↦ some m.content ];
    } in
    elim req.expires_at [
      | none ↦ some (with_expiry none)
      | some none ↦ some (with_expiry (some none))
      | some (some text) ↦
          if bytes_eq text []
          then some (with_expiry (some none))
          else elim (parse_time text) [ none ↦ none | some t ↦ some (with_expiry (some (some t))) ]
    ]

-- The answer to an update that failed: `respondLinkErr`.
unfoldable pub respond_link_err : UpdateResult → LinkReply
respond_link_err (updated l) = shown l
respond_link_err (update_invalid es) = invalid_fields es
respond_link_err update_code_taken = code_taken
respond_link_err update_hash_failed = denied internal
respond_link_err (update_failed e) = denied (of_store e)

unfoldable pub handle_delete_link : ℕ → Caller → User → Bytes → Service → LinkReply × Service
handle_delete_link now caller u id s =
    let (o, s') = get_owned_link u id s in
    elim o [
      | not_owned e ↦ (denied e, s')
      | owned l ↦
          let (r, s'') = delete now l.id l.code s' in
          elim r [
            | err e ↦ (denied (of_store e), s'')
            | ok x ↦ (LinkReply.done, link_audit now caller u.id (codes "link.delete") l.id s'')
          ]
    ]

unfoldable pub handle_restore_link : ℕ → Caller → User → Bytes → Service → LinkReply × Service
handle_restore_link now caller u id s =
    let (o, s') = get_owned_link u id s in
    elim o [
      | not_owned e ↦ (denied e, s')
      | owned l ↦ elim l.deleted_at [
        | none ↦ (denied bad_request, s')
        | some at ↦
            if ltb 2592000000000000 (now - at)
            then (denied bad_request, s')
            else let (r, s'') = restore now l.id l.code s' in
              elim r [
                | err e ↦ (denied (of_store e), s'')
                | ok x ↦
                    (LinkReply.done, link_audit now caller u.id (codes "link.restore") l.id s'')
              ]
      ]
    ]

module _ (net : Net) (hash : Bytes → Option Bytes) (cfg : Config) (format_int : ℕ → Bytes)
    (parse_time : Bytes → Option ℕ) where
  abbrev pub weak_etag : ℕ → Bytes
  weak_etag t = codes "W/" ++ b'"' ∷ (format_int t ++ b'"' ∷ [])

  unfoldable pub patch_link : ℕ → Caller → User → Link → UpdateInput → Service → LinkReply × Service
  unfolding respond_link_err
  patch_link now caller u l given s =
      let (r, s') = update net hash cfg now l given s in
      elim r [
        | updated l' ↦ (shown l', link_audit now caller u.id (codes "link.update") l.id s')
        | update_invalid es ↦ (respond_link_err (update_invalid es), s')
        | update_code_taken ↦ (respond_link_err update_code_taken, s')
        | update_hash_failed ↦ (respond_link_err update_hash_failed, s')
        | update_failed e ↦ (respond_link_err (update_failed e), s')
      ]

  -- `if_match` is empty if the header is absent.
  unfoldable pub handle_patch_link :
      ℕ → Caller → User → Bytes → Bytes → Option PatchLinkReq → Service → LinkReply × Service
  handle_patch_link now caller u id if_match body s =
      let (o, s') = get_owned_link u id s in
      elim o [
        | not_owned e ↦ (denied e, s')
        | owned l ↦
            if not (bytes_eq if_match []) && not (bytes_eq if_match (weak_etag l.updated_at))
            then (precondition_failed, s')
            else elim body [
              | none ↦ (denied bad_request, s')
              | some req ↦ elim (to_update parse_time req) [
                | none ↦ (invalid_fields (FieldError.expires_at ∷ []), s')
                | some given ↦ patch_link now caller u l given s'
              ]
            ]
      ]

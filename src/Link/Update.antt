-- ===== src/Link/Update.antt =====
-- internal/link/service.go: Update. `auth.HashPassword` is an argument. The link is the caller's copy
-- of its row, which the source changes in place.
pub mod Laws
pub mod Rows
use mathlib.Core.Option
use shortr.Base.{
  ℕ, Bool, true, false, not, ◌&&◌, ◌||◌, List, [], ◌∷◌, ◌++◌, Option, none, some, length as size,
  ltb, leb, if◌then◌else◌,
}
use shortr.Base.Bytes.{Bytes, codes, bytes_eq}
use shortr.Base.Map
use shortr.Store
use shortr.Store.{Link, Store, Res, ok, err, not_found, conflict, db_error, StoreError}
use shortr.Validate.{
  Net, Checked, accepted, refused, target_url as check_target, trim_space, str_len,
}
use shortr.Link.Code.{is_reserved, valid_alias_chars, alias_error}
use shortr.Link.Input
use shortr.Link.Input.{
  FieldError, add_if, is_redirect_status, validate_utm, validate_tags, normalize_tags,
}
use shortr.Link.Create.{Config}
use shortr.Link.Service.{Service, invalidate_cache}

pub record UpdateInput : Type 0 where
  pub target_url : Option Bytes
  pub code : Option Bytes
  pub title : Option Bytes
  pub description : Option Bytes
  pub redirect_status : Option ℕ
  pub password : Option Bytes
  pub expires_at : Option (Option ℕ)
  pub max_clicks : Option (Option ℕ)
  pub status : Option Bytes
  pub tags : Option (List Bytes)
  pub pass_query : Option Bool
  pub utm_source : Option Bytes
  pub utm_medium : Option Bytes
  pub utm_campaign : Option Bytes
  pub utm_term : Option Bytes
  pub utm_content : Option Bytes

pub data UpdateResult : Type 0 where
  updated : Link → UpdateResult
  update_invalid : List FieldError → UpdateResult
  update_code_taken update_hash_failed : UpdateResult
  update_failed : StoreError → UpdateResult

-- The errors so far, and the link so far.
abbrev pub Draft : Type 0
Draft = List FieldError × Link

-- One field: its new value, if there is one, is refused or set.
unfoldable pub edit {ℓ} :
    {A : Type ℓ} → Option A → (A → List FieldError) → (A → Link → Link) → Draft → Draft
edit none check set d = d
edit (some v) check set (errs, l) = elim (check v) [
  | [] ↦ (errs, set v l)
  | e ∷ es ↦ (errs ++ e ∷ es, l)
]

abbrev pub deref : Option Bytes → Bytes
deref p = Option.get_or p []

-- The new code: its check queries the table if it is well formed and differs.
unfoldable pub edit_code : Option Bytes → Link → Store → Res Draft × Store
edit_code none l st = (ok ([], l), st)
edit_code (some c) l st =
    if bytes_eq c l.code
    then (ok ([], l), st)
    else elim (alias_error is_reserved valid_alias_chars c) [
      | some e ↦ (ok (Input.alias e ∷ [], l), st)
      | none ↦
          let (res, st') = Store.code_exists c st in
          elim res [
            | err e ↦ (err e, st')
            | ok true ↦ (ok (Input.alias_taken ∷ [], l), st')
            | ok false ↦ (ok ([], record l { code = c }), st')
          ]
    ]

abbrev pub check_result : Checked → List FieldError
check_result (accepted s) = []
check_result (refused e) = Input.target_url e ∷ []

abbrev pub result_or : Bytes → Checked → Bytes
result_or old (accepted s) = s
result_or old (refused e) = old

-- The write, for a link without errors.
unfoldable pub save : ℕ → Bytes → Link → Service → UpdateResult × Service
unfolding invalidate_cache
save now old_code l s =
    let (res, st) = Store.update_link now l s.store in
    let s' = record s { store = st } in
    elim res [
      | err conflict ↦ (update_code_taken, s')
      | err not_found ↦ (update_failed not_found, s')
      | err db_error ↦ (update_failed db_error, s')
      | ok u ↦
          let s'' = invalidate_cache old_code (record s' { hits = Map.delete l.id s'.hits }) in
          (updated l, if bytes_eq l.code old_code then s'' else invalidate_cache l.code s'')
    ]

unfoldable pub finish_update : ℕ → Bytes → Draft → Service → UpdateResult × Service
finish_update now old_code ([], l) s = save now old_code l s
finish_update now old_code (e ∷ es, l) s = (update_invalid (e ∷ es), s)

module _ (net : Net) (hash_password : Bytes → Option Bytes) (cfg : Config) where
  abbrev pub checked_target : List Bytes → Bytes → Checked
  checked_target blocked raw =
      check_target net raw cfg.max_url_length cfg.allow_private_targets blocked cfg.base_host

  -- A target that is the same text is not checked again.
  unfoldable pub edit_target : List Bytes → Option Bytes → Draft → Draft
  unfolding edit
  edit_target blocked given d =
      edit given
        (λ t. if bytes_eq t d.1.target_url then [] else check_result (checked_target blocked t))
        (λ t l.
          if bytes_eq t d.1.target_url
          then l
          else record l { target_url = result_or l.target_url (checked_target blocked t) })
        d

  -- The fields before the password.
  unfoldable pub edit_texts : List Bytes → UpdateInput → Draft → Draft
  unfolding edit edit_target
  edit_texts blocked given d =
      edit given.redirect_status (λ n. add_if (not (is_redirect_status n)) Input.redirect_status)
        (λ n l. record l { redirect_status = n })
        (edit given.description (λ s. add_if (ltb 1000 (size s)) Input.description)
          (λ s l. record l { description = s })
          (edit given.title (λ s. add_if (ltb 200 (size s)) Input.title)
            (λ s l. record l { title = trim_space s }) (edit_target blocked given.target_url d)))

  -- The password; `none` is a hash that failed.
  unfoldable pub edit_password : Option Bytes → Draft → Option Draft
  edit_password none d = some d
  edit_password (some pw) (errs, l) =
      if bytes_eq pw []
      then some (errs, record l { password_hash = none })
      else if not (str_len pw 1 128)
      then some (errs ++ Input.password ∷ [], l)
      else elim (hash_password pw) [
        | none ↦ none
        | some h ↦ some (errs, record l { password_hash = some h })
      ]

  unfoldable pub edit_utm : UpdateInput → Draft → Draft
  unfolding edit
  edit_utm given (errs, l) =
      let bad = validate_utm (
        deref given.utm_source
        ∷ deref given.utm_medium
        ∷ deref given.utm_campaign
        ∷ deref given.utm_term
        ∷ deref given.utm_content
        ∷ []) in
      (
        errs ++ bad,
        record l {
          utm_source = Option.get_or given.utm_source l.utm_source;
          utm_medium = Option.get_or given.utm_medium l.utm_medium;
          utm_campaign = Option.get_or given.utm_campaign l.utm_campaign;
          utm_term = Option.get_or given.utm_term l.utm_term;
          utm_content = Option.get_or given.utm_content l.utm_content;
        },
      )

  -- The fields after the password.
  unfoldable pub edit_rest : ℕ → UpdateInput → Draft → Draft
  unfolding edit edit_utm
  edit_rest now given d = edit_utm given (
      edit given.pass_query (λ b. []) (λ b l. record l { pass_query = b })
        (edit given.tags (λ ts. validate_tags (normalize_tags ts))
          (λ ts l. record l { tags = normalize_tags ts })
          (edit given.status
            (λ s.
              add_if (not (bytes_eq s (codes "active")) && not (bytes_eq s (codes "disabled")))
                Input.status)
            (λ s l. record l { status = s })
            (edit given.max_clicks
              (λ m. add_if (elim m [ none ↦ false | some n ↦ ltb n 1 ]) Input.max_clicks)
              (λ m l. record l { max_clicks = m })
              (edit given.expires_at
                (λ t. add_if (elim t [ none ↦ false | some at ↦ leb at now ]) Input.expires_at)
                (λ t l. record l { expires_at = t }) d)))))

  -- From the draft on that has the checked code.
  unfoldable pub update_draft : ℕ → Bytes → UpdateInput → Draft → Service → UpdateResult × Service
  update_draft now old_code given d s =
      elim (edit_password given.password (edit_texts s.policy.blocked_domains given d)) [
        | none ↦ (update_hash_failed, s)
        | some d' ↦ finish_update now old_code (edit_rest now given d') s
      ]

  unfoldable pub update : ℕ → Link → UpdateInput → Service → UpdateResult × Service
  update now l given s =
      let (res, st) = edit_code given.code l s.store in
      let s' = record s { store = st } in
      elim res [ err e ↦ (update_failed e, s') | ok d ↦ update_draft now l.code given d s' ]

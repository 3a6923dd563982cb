-- ===== src/Link/Create.antt =====
-- internal/link/service.go: Create. `auth.HashPassword` and `rand.Read` are arguments, and so is the
-- id that `ulid.New` returns.
pub mod Laws
pub mod Outcome
pub mod Rows
use mathlib.Core.Option
use shortr.Base.{
  ℕ, zero, suc, ◌+◌, Bool, true, false, not, ◌&&◌, ◌||◌, List, [], ◌∷◌, ◌++◌, Option, none, some,
  is_some, length as size, ltb, leb, ◌==◌, if◌then◌else◌,
}
use shortr.Base.Bytes.{Bytes, codes, bytes_eq}
use shortr.Store
use shortr.Store.{Link, Store, Res, ok, err, not_found, conflict, db_error, StoreError, User}
use shortr.Validate.{
  Net, Checked, accepted, refused, target_url as check_target, trim_space, str_len,
}
use shortr.Link.Code.{
  AliasError, Generated, code, rand_failed, out_of_fuel, generate_code, is_reserved,
  valid_alias_chars, alias_error,
}
use shortr.Link.Input
use shortr.Link.Input.{
  FieldError, add_if, is_redirect_status, validate_utm, validate_tags, normalize_tags,
}
use shortr.Link.Service.{Service, Policy, invalidate_cache}

pub record Config : Type 0 where
  pub base_host : Bytes
  pub code_length : ℕ
  pub alphabet : Bytes
  pub max_url_length : ℕ
  pub allow_private_targets : Bool

pub record CreateInput : Type 0 where
  pub target_url : Bytes
  pub code : Bytes
  pub length : ℕ
  pub title : Bytes
  pub description : Bytes
  pub redirect_status : ℕ
  pub password : Bytes
  pub expires_at : Option ℕ
  pub max_clicks : Option ℕ
  pub tags : List Bytes
  pub pass_query : Option Bool
  pub utm_source : Bytes
  pub utm_medium : Bytes
  pub utm_campaign : Bytes
  pub utm_term : Bytes
  pub utm_content : Bytes

pub data CreateResult : Type 0 where
  created : Link → CreateResult
  invalid : List FieldError → CreateResult
  code_taken code_exhausted limit_reached hash_failed random_failed random_unfinished : CreateResult
  store_failed : StoreError → CreateResult

abbrev minute : ℕ
minute = 60_000_000_000

abbrev pub target_error : Checked → List FieldError
target_error (accepted s) = []
target_error (refused e) = Input.target_url e ∷ []

abbrev pub target_of : Checked → Bytes
target_of (accepted s) = s
target_of (refused e) = []

-- The status asked for, or the policy's.
abbrev pub status_of : Policy → CreateInput → ℕ
status_of pol given =
    if given.redirect_status == 0 then pol.default_redirect_status else given.redirect_status

-- The field errors of an input, but for its alias, in the order in which they are added.
unfoldable pub input_errors : ℕ → Policy → Checked → CreateInput → List FieldError
input_errors now pol target given =
    target_error target
    ++ (add_if (not (is_redirect_status (status_of pol given))) Input.redirect_status
        ++ (add_if (not (given.length == 0) && (ltb given.length 4 || ltb 16 given.length))
              Input.length
            ++ (validate_utm (
                  given.utm_source ∷ given.utm_medium ∷ given.utm_campaign ∷ given.utm_term
                  ∷ given.utm_content ∷ [])
                ++ (add_if (ltb 200 (size given.title)) Input.title
                    ++ (add_if (ltb 1000 (size given.description)) Input.description
                        ++ (add_if
                              (elim given.expires_at [
                                | none ↦ false
                                | some t ↦ leb t (now + minute)
                              ])
                              Input.expires_at
                            ++ (add_if (elim given.max_clicks [ none ↦ false | some n ↦ ltb n 1 ])
                                  Input.max_clicks
                                ++ (validate_tags (normalize_tags given.tags)
                                    ++ add_if
                                        (not (bytes_eq given.password [])
                                          && not (str_len given.password 1 128))
                                        Input.password))))))))

-- The check of a custom alias, which queries the table if the alias is well formed.
unfoldable pub alias_errors : Bytes → Store → Res (List FieldError) × Store
alias_errors alias st =
    if bytes_eq alias []
    then (ok [], st)
    else elim (alias_error is_reserved valid_alias_chars alias) [
      | some e ↦ (ok (Input.alias e ∷ []), st)
      | none ↦
          let (res, st') = Store.code_exists alias st in
          elim res [
            | err e ↦ (err e, st')
            | ok exists ↦ (ok (add_if exists Input.alias_taken), st')
          ]
    ]

-- The user's own limit, or the policy's; 0 is no limit.
unfoldable pub link_limit_for : Bytes → ℕ → Store → Res ℕ × Store
link_limit_for user global st =
    let (res, st') = Store.get_user_by_id user st in
    elim res [
      | ok u ↦ (ok (Option.get_or u.max_links global), st')
      | err e ↦ elim e [
        | not_found ↦ (ok global, st')
        | conflict ↦ (err conflict, st')
        | db_error ↦ (err db_error, st')
      ]
    ]

-- Whether the user is at the limit.
unfoldable pub at_limit : Option Bytes → ℕ → Store → Res Bool × Store
at_limit none global st = (ok false, st)
at_limit (some user) global st =
    let (limited, st') = link_limit_for user global st in
    elim limited [
      | err e ↦ (err e, st')
      | ok limit ↦
          if limit == 0
          then (ok false, st')
          else let (counted, st'') = Store.count_links_for_user user st' in
            elim counted [ err e ↦ (err e, st'') | ok n ↦ (ok (leb limit n), st'') ]
    ]

abbrev pub new_link : Option Bytes → Bytes → Policy → Bytes → CreateInput → Option Bytes → Link
new_link actor ip pol target given hash = record {
  id = [];
  code = [];
  target_url = target;
  title = trim_space given.title;
  description = given.description;
  user_id = actor;
  redirect_status = status_of pol given;
  password_hash = hash;
  expires_at = given.expires_at;
  max_clicks = given.max_clicks;
  click_count = 0;
  last_click_at = none;
  status = [];
  deleted_at = none;
  utm_source = given.utm_source;
  utm_medium = given.utm_medium;
  utm_campaign = given.utm_campaign;
  utm_term = given.utm_term;
  utm_content = given.utm_content;
  pass_query = Option.get_or given.pass_query true;
  tags = normalize_tags given.tags;
  created_at = 0;
  updated_at = 0;
  created_by_ip = ip;
}

-- The insertion of a link that has its code.
unfoldable pub store_link : ℕ → Bytes → Link → Service → Res Link × Service
unfolding invalidate_cache
store_link now ulid l s =
    let (res, st) = Store.create_link now ulid l s.store in
    let s' = record s { store = st } in
    elim res [ err e ↦ (err e, s') | ok l' ↦ (ok l', invalidate_cache l'.code s') ]

-- The hash of the password, if there is one; `some none` is no password.
abbrev pub hashed : (Bytes → Option Bytes) → Bytes → Option (Option Bytes)
hashed hash_password password =
    if bytes_eq password [] then some none else Option.map some (hash_password password)

module _ (net : Net) (hash_password : Bytes → Option Bytes) (cfg : Config) where
  module _ (now : ℕ) (ulid : Bytes) (read : ℕ → ℕ → Option (List ℕ)) (fuel : ℕ) where
    -- The attempts that are left, from number `i`; `read i` is the randomness of the attempt.
    unfoldable pub try_codes : ℕ → ℕ → ℕ → Link → Service → CreateResult × Service
    try_codes zero i len l s = (code_exhausted, s)
    try_codes (suc left) i len l s =
        elim (generate_code (read i) fuel cfg.alphabet (if i == 4 then len + 1 else len)) [
          | rand_failed ↦ (random_failed, s)
          | out_of_fuel ↦ (random_unfinished, s)
          | code gc ↦ elim (is_reserved gc) [
            | true ↦ try_codes left (suc i) len l s
            | false ↦ elim (store_link now ulid (record l { code = gc }) s).0 [
              | ok l' ↦ (created l', (store_link now ulid (record l { code = gc }) s).1)
              | err conflict ↦
                  try_codes left (suc i) len l (store_link now ulid (record l { code = gc }) s).1
              | err not_found ↦
                  (store_failed not_found, (store_link now ulid (record l { code = gc }) s).1)
              | err db_error ↦
                  (store_failed db_error, (store_link now ulid (record l { code = gc }) s).1)
            ]
          ]
        ]

    -- From the link on, with the alias if there is one.
    unfoldable pub insert_link : Bytes → ℕ → Link → Service → CreateResult × Service
    insert_link alias len l s =
        if bytes_eq alias []
        then try_codes 5 0 (if len == 0 then cfg.code_length else len) l s
        else let (res, s') = store_link now ulid (record l { code = alias }) s in
          elim res [
            | ok l' ↦ (created l', s')
            | err conflict ↦ (code_taken, s')
            | err not_found ↦ (store_failed not_found, s')
            | err db_error ↦ (store_failed db_error, s')
          ]

    -- The part after the validation.
    unfoldable pub create_valid :
        Option Bytes → Bytes → CreateInput → Bytes → Service → CreateResult × Service
    create_valid actor ip given target s =
        let (full, st) = at_limit actor s.policy.max_links_per_user s.store in
        let s' = record s { store = st } in
        elim full [
          | err e ↦ (store_failed e, s')
          | ok true ↦ (limit_reached, s')
          | ok false ↦ elim (hashed hash_password given.password) [
            | none ↦ (hash_failed, s')
            | some hash ↦
                insert_link (trim_space given.code) given.length
                  (new_link actor ip s.policy target given hash) s'
          ]
        ]

    unfoldable pub create : Option Bytes → Bytes → CreateInput → Service → CreateResult × Service
    create actor ip given s =
        let target =
          check_target net given.target_url cfg.max_url_length cfg.allow_private_targets
            s.policy.blocked_domains cfg.base_host in
        let errs = input_errors now s.policy target given in
        let (checked, st) = alias_errors (trim_space given.code) s.store in
        let s' = record s { store = st } in
        elim checked [
          | err e ↦ (store_failed e, s')
          | ok more ↦ elim (errs ++ more) [
            | [] ↦ create_valid actor ip given (target_of target) s'
            | e ∷ es ↦ (invalid (e ∷ es), s')
          ]
        ]

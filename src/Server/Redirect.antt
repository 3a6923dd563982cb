-- ===== src/Server/Redirect.antt =====
-- internal/server/redirect.go: the handler of short codes. Go's URL and form parsers, the hash of
-- cookies and the check of a password are arguments. Headers that no branch depends on, the body of a
-- page, and the log are left out. `now` is the clock's value throughout one request.
pub mod Guards
pub mod Password
use shortr.Base.{
  ℕ, zero, suc, ◌+◌, ◌≡◌, Bool, true, false, not, ◌&&◌, ◌||◌, List, [], ◌∷◌, ◌++◌, Option, none,
  some, is_some, length, ltb, leb, if◌then◌else◌,
}
use shortr.Base.Bytes.{Bytes, codes, bytes_eq, has_suffix, trim_prefix, trim_suffix}
use shortr.Base.Map
use shortr.Store.{Link, Res, ok, err, not_found, has_password}
use shortr.Link.Code.{valid_code_path_segment}
use shortr.Link.Service.{Service, resolve_for_redirect, consume_click}
use shortr.RateLimit.{Limiter, allow}
use shortr.Click.{Event}
use shortr.Click.Agent.{UserAgent, parse_ua}
use shortr.Click.Writer.{Writer, enqueue}
use shortr.Auth.SignedCookie.{Codec, seal_value, open_value}

pub data Method : Type 0 where
  get head post options other_method : Method

-- `form_password` is `none` if the form cannot be parsed; a missing cookie is `none`.
pub record Request : Type 0 where
  pub path : Bytes
  pub method : Method
  pub cookie : Bytes → Option Bytes
  pub user_agent : Bytes
  pub referrer : Bytes
  pub accept_language : Bytes
  pub raw_query : Bytes
  pub client_ip : Option Bytes
  pub form_password : Option Bytes

-- Query parameters: the values of each key.
abbrev pub Values : Type 0
Values = List (Bytes × List Bytes)

-- What the handler takes from other code. `split_url` is `url.Parse`, with the raw query apart;
-- `query` is lenient and `parse_query` is not; `digest` is the SHA-256 sum in hexadecimal.
pub record Web : Type 1 where
  pub Rest : Type 0
  pub split_url : Bytes → Option (Rest × Bytes)
  pub join_url : Rest → Bytes → Bytes
  pub query : Bytes → Values
  pub parse_query : Bytes → Option Values
  pub encode : Values → Bytes
  pub digest : Bytes → Bytes
  pub verify_password : Bytes → Bytes → Option Bool
  pub agent : Bytes → UserAgent
  pub ip_string : Bytes → Bytes
  pub codec : Codec
  pub secret : Bytes

-- `redirects` are the labels that the metrics count, the last first.
pub record Site : Type 0 where
  pub links : Service
  pub password_limit : Limiter
  pub clicks : Writer
  pub redirects : List Bytes

pub data Answer : Type 0 where
  moved : Bytes → Answer
  page : ℕ → Bytes → Answer
  no_content method_not_allowed db_unavailable crashed : Answer
  redirected : ℕ → Bytes → Answer
  unlocked : Bytes → Bytes → Bytes → Answer

abbrev pub count_redirect : Bytes → Site → Site
count_redirect label site = record site { redirects = label ∷ site.redirects }

-- `q.Get(key)`
abbrev pub first_value : Bytes → Values → Bytes
first_value key q = elim (Map.lookup key q) [
  | none ↦ []
  | some vs ↦ elim vs [ [] ↦ [] | v ∷ _ ↦ v ]
]

-- `q.Add(key, v)` for each of the values.
unfoldable pub add_all : Bytes → List Bytes → Values → Values
add_all key [] q = q
add_all key (v ∷ vs) q =
    add_all key vs
      (Map.insert key (elim (Map.lookup key q) [ none ↦ v ∷ [] | some old ↦ old ++ v ∷ [] ]) q)

unfoldable pub merge_query : Values → Values → Values
unfolding add_all
merge_query [] q = q
merge_query ((key, vs) ∷ extra) q = merge_query extra (add_all key vs q)

unfoldable pub add_if_absent : Bytes → Bytes → Values → Values
add_if_absent key v q =
    if not (bytes_eq v []) && bytes_eq (first_value key q) [] then Map.insert key (v ∷ []) q else q

-- Why a link is not served: the status and the name of the page, and the label of the metrics.
unfoldable pub unavailable : ℕ → Link → Option (ℕ × Bytes × Bytes)
unavailable now l =
    if is_some l.deleted_at
    then some (410, codes "gone", codes "gone")
    else if bytes_eq l.status (codes "disabled")
    then some (404, codes "disabled", codes "disabled")
    else if elim l.expires_at [ none ↦ false | some t ↦ ltb t now ]
    then some (410, codes "gone", codes "gone")
    else if elim l.max_clicks [ none ↦ false | some m ↦ leb m l.click_count ]
    then some (410, codes "gone", codes "gone")
    else none

abbrev pub is_get : Method → Bool
is_get get = true
is_get _ = false

module _ (web : Web) where
  open web use {
    split_url, join_url, query, parse_query, encode, digest, verify_password, agent, ip_string,
    codec, secret,
  }

  -- The parameters of the request join those of the target, unless both are too long together.
  unfoldable pub with_request_query : Link → Bytes → Bytes → Values → Values
  with_request_query l raw_query raw_target q =
      if l.pass_query && not (bytes_eq raw_query [])
      then elim (parse_query raw_query) [
        | none ↦ q
        | some extra ↦
            if leb (length raw_target + length raw_query) 2048 then merge_query extra q else q
      ]
      else q

  abbrev pub has_utm : Link → Bool
  has_utm l =
      not (bytes_eq l.utm_source [])
      || not (bytes_eq l.utm_medium [])
      || not (bytes_eq l.utm_campaign [])
      || not (bytes_eq l.utm_term [])
      || not (bytes_eq l.utm_content [])

  unfoldable pub build_target_url : Link → Bytes → Bytes
  build_target_url l raw_query =
      if not l.pass_query && not (has_utm l) then l.target_url else elim (split_url l.target_url) [
        | none ↦ l.target_url
        | some (rest, raw_target) ↦
            let q = with_request_query l raw_query raw_target (query raw_target) in
            join_url rest (
              encode (
                add_if_absent (codes "utm_content") l.utm_content (
                  add_if_absent (codes "utm_term") l.utm_term (
                    add_if_absent (codes "utm_campaign") l.utm_campaign (
                      add_if_absent (codes "utm_medium") l.utm_medium
                        (add_if_absent (codes "utm_source") l.utm_source q))))))
      ]

  -- A request without a query has no parameters.
  unfoldable pub click_event : ℕ → Request → Link → Event
  click_event now req l =
      let q = query req.raw_query in
      record {
        link_id = l.id;
        ts = now;
        raw_ip = req.client_ip;
        user_agent = req.user_agent;
        referrer = req.referrer;
        accept_language = req.accept_language;
        query_string = req.raw_query;
        utm_source = first_value (codes "utm_source") q;
        utm_medium = first_value (codes "utm_medium") q;
        utm_campaign = first_value (codes "utm_campaign") q;
        utm_term = first_value (codes "utm_term") q;
        utm_content = first_value (codes "utm_content") q;
      }

  unfoldable pub link_cookie_payload : Link → Bytes
  link_cookie_payload l = l.id ++ b'|' ∷ elim l.password_hash [ none ↦ [] | some h ↦ digest h ]

  abbrev pub cookie_name : Link → Bytes
  cookie_name l = codes "lp_" ++ l.code

  unfoldable pub has_valid_password_cookie : ℕ → Request → Link → Bool
  has_valid_password_cookie now req l = elim (req.cookie (cookie_name l)) [
    | none ↦ false
    | some v ↦ if bytes_eq v [] then false else elim (open_value codec secret v now) [
      | none ↦ false
      | some payload ↦ bytes_eq payload (link_cookie_payload l)
    ]
  ]

  -- The answer that sends the visitor on.
  unfoldable pub send : ℕ → Request → Link → Site → Answer × Site
  send now req l site =
      let target = build_target_url l req.raw_query in
      let site' = count_redirect (codes "ok") site in
      if is_get req.method
      then (
        redirected l.redirect_status target,
        record site' { clicks = (enqueue (click_event now req l) site'.clicks).1 },
      )
      else (redirected l.redirect_status target, site')

  -- ConsumeClick, for what is no bot and has a limit.
  unfoldable pub reserve_click : ℕ → Request → Link → Service → Bool × Service
  reserve_click now req l s =
      if is_get req.method && is_some l.max_clicks && not (parse_ua agent req.user_agent).is_bot
      then consume_click now l s
      else (true, s)

  -- A link that is found.
  unfoldable pub visit : ℕ → Request → Link → Site → Answer × Site
  visit now req l site = elim (unavailable now l) [
    | some (status, name, label) ↦ (page status name, count_redirect label site)
    | none ↦
        if has_password l && not (has_valid_password_cookie now req l)
        then (page 200 (codes "password"), site)
        else let (granted, links) = reserve_click now req l site.links in
          let site' = record site { links = links } in
          if granted
          then send now req l site'
          else (page 410 (codes "gone"), count_redirect (codes "gone") site')
  ]

  unfoldable pub handle_lookup : ℕ → Bytes → Request → Site → Answer × Site
  handle_lookup now code req site =
      let (res, links) = resolve_for_redirect now code site.links in
      let site' = record site { links = links } in
      elim res [
        | ok (some l) ↦ visit now req l site'
        | ok none ↦ (crashed, site')
        | err not_found ↦ (page 404 (codes "not_found"), count_redirect (codes "notfound") site')
        | err _ ↦ (db_unavailable, site')
      ]

  abbrev pub ip_text : Option Bytes → Bytes
  ip_text ip = elim ip [ none ↦ [] | some a ↦ ip_string a ]

  -- The check of a password that was sent for a link.
  unfoldable pub check_password : ℕ → Bytes → Request → Link → Answer
  check_password now code req l = elim req.form_password [
    | none ↦ page 400 (codes "password")
    | some pw ↦ elim l.password_hash [
      | none ↦ crashed
      | some hash ↦ elim (verify_password pw hash) [
        | some true ↦
            unlocked (b'/' ∷ code) (cookie_name l)
              (seal_value codec secret (link_cookie_payload l) 3600000000000 now)
        | some false ↦ page 200 (codes "password")
        | none ↦ page 200 (codes "password")
      ]
    ]
  ]

  unfoldable pub handle_password_submit : ℕ → Bytes → Request → Site → Answer × Site
  handle_password_submit now code req site =
      let key = codes "pwlink:" ++ (code ++ b':' ∷ ip_text req.client_ip) in
      let (allowed, limit) = allow now key site.password_limit in
      let site' = record site { password_limit = limit } in
      if not allowed
      then (page 429 (codes "password"), site')
      else let (res, links) = resolve_for_redirect now code site'.links in
        let site'' = record site' { links = links } in
        elim res [
          | err _ ↦ (page 404 (codes "not_found"), site'')
          | ok none ↦ (crashed, site'')
          | ok (some l) ↦
              if is_some l.deleted_at || bytes_eq l.status (codes "disabled")
              then (page 404 (codes "not_found"), site'')
              else if not (has_password l)
              then (method_not_allowed, site'')
              else (check_password now code req l, site'')
        ]

  unfoldable pub handle_redirect : ℕ → Request → Site → Answer × Site
  handle_redirect now req site =
      let code = trim_prefix (codes "/") req.path in
      if has_suffix (codes "/") code
      then (moved (b'/' ∷ trim_suffix (codes "/") code), site)
      else if not (valid_code_path_segment code)
      then (page 404 (codes "not_found"), count_redirect (codes "notfound") site)
      else elim req.method [
        | get ↦ handle_lookup now code req site
        | head ↦ handle_lookup now code req site
        | post ↦ handle_password_submit now code req site
        | options ↦ (no_content, site)
        | other_method ↦ (method_not_allowed, site)
      ]

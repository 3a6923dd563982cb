-- ===== src/Server/Tests.antt =====
-- Tests of the public listener's filter.
use shortr.Base.{◌*◌, none, ◌++◌, some, ◌≡◌, refl, true, false, []}
use shortr.Base.Bytes.{
  Bytes, bytes_eq, codes, to_lower, has_suffix, has_prefix, trim_prefix, trim_suffix,
}
use shortr.Link.Code.{is_reserved, valid_alias_chars, alias_error, valid_code_path_segment}
use shortr.Auth.Tests.{small_codec}
use shortr.Link.Tests.{service, service-Coherent}
use shortr.Click.Tests.{desktop, small, shaky}
use shortr.Click.Writer.{new_writer}
use shortr.RateLimit.{new}
use shortr.Server.Redirect.{Web, Site, Request, Method, get, handle_redirect, moved, redirected}
use shortr.Server.Redirect.Guards.{Guarded}
use shortr.Server.Redirect.Password.{handle_redirect-Guarded}
use shortr.Server.Plane.{PlaneConfig, public_allowed}
use shortr.Server.Plane.Aliases.{public_allowed-alias}

abbrev closed_api : PlaneConfig
closed_api = record {
  public_api = false;
  public_admin_api = false;
  ui_enabled = true;
  root_redirect = [];
  admin_url = [];
  base_url = codes "https://sho.rt";
  cookie_secure = true;
}

-- The alias of the model context protocol's endpoint is hidden.
public_allowed-alias_example :
    (public_allowed closed_api (codes "/mcp") ≡ false)
    × (valid_code_path_segment (codes "mcp") ≡ true)
unfolding alias_error is_reserved valid_alias_chars bytes_eq to_lower
public_allowed-alias_example = public_allowed-alias closed_api (codes "mcp") refl

-- A web whose URLs have no queries.
abbrev web : Web
web = record {
  Rest = Bytes;
  split_url = λ s. some (s, []);
  join_url = λ s q. s ++ q;
  query = λ s. [];
  parse_query = λ s. some [];
  encode = λ q. [];
  digest = λ s. s;
  verify_password = λ pw hash. some (bytes_eq pw hash);
  agent = λ s. desktop;
  ip_string = λ ip. ip;
  codec = small_codec;
  secret = codes "key";
}

abbrev site : Site
site = record {
  links = service;
  password_limit = new (record { n = 5; interval = 60_000_000_000 }) (λ t. t * 5);
  clicks = new_writer small shaky (λ n. false);
  redirects = [];
}

abbrev request : Bytes → Method → Request
request path method = record {
  path = path;
  method = method;
  cookie = λ name. none;
  user_agent = codes "Mozilla";
  referrer = [];
  accept_language = [];
  raw_query = [];
  client_ip = none;
  form_password = none;
}

handle_redirect-Guarded_example :
    Guarded web 7
      (request (codes "/docs") get)
      site
      (handle_redirect web 7 (request (codes "/docs") get) site)
handle_redirect-Guarded_example =
    handle_redirect-Guarded web 7 (request (codes "/docs") get) site service-Coherent

docs_redirects :
    (handle_redirect web 7 (request (codes "/docs") get) site).0
    ≡ redirected 302 (codes "https://example.com/")
unfolding handle_redirect has_suffix has_prefix trim_prefix valid_code_path_segment
    shortr.Server.Redirect.handle_lookup shortr.Link.Service.resolve_for_redirect
    shortr.Link.Service.load shortr.Link.Service.fill shortr.Link.Cache.get
    shortr.Link.Cache.shard_get shortr.Link.Cache.new_cache shortr.Store.get_link_by_code
    shortr.Store.select bytes_eq to_lower shortr.Server.Redirect.visit
    shortr.Server.Redirect.unavailable shortr.Server.Redirect.reserve_click
    shortr.Base.Bytes.contains shortr.Base.Map.lookup shortr.Base.Map.insert
    shortr.Click.Agent.parse_ua shortr.Click.Writer.enqueue shortr.Link.Service.consume_click
    shortr.Server.Redirect.send shortr.Server.Redirect.build_target_url
    shortr.Server.Redirect.click_event shortr.Server.Redirect.add_if_absent
    shortr.Server.Redirect.with_request_query shortr.Server.Redirect.merge_query
    shortr.Server.Redirect.add_all shortr.Validate.trim_left shortr.Validate.trim_space
docs_redirects = refl

-- A browser reads the location that this request gets as another host.
slash_is_trimmed :
    (handle_redirect web 7 (request (codes "//evil.com/") get) site).0 ≡ moved (codes "//evil.com")
unfolding handle_redirect has_suffix has_prefix trim_prefix trim_suffix
slash_is_trimmed = refl

-- ===== src/Server/Plane.antt =====
-- internal/server/plane.go: the listener that a request arrived on, and what the public one serves.
-- `strings.EqualFold` is modelled on ASCII text.
pub mod Aliases
use shortr.Base.{
  ℕ, Bool, true, false, not, ◌&&◌, ◌||◌, List, [], ◌∷◌, ◌++◌, Option, none, some, any,
  if◌then◌else◌,
}
use shortr.Base.Bytes.{Bytes, codes, bytes_eq, has_prefix, trim_prefix, to_lower}

pub data Plane : Type 0 where
  plane_all plane_public plane_admin : Plane

pub record PlaneConfig : Type 0 where
  pub public_api : Bool
  pub public_admin_api : Bool
  pub ui_enabled : Bool
  pub root_redirect : Bytes
  pub admin_url : Bytes
  pub base_url : Bytes
  pub cookie_secure : Bool

abbrev pub admin_only_api : List Bytes
admin_only_api =
    codes "/api/v1/users"
    ∷ codes "/api/v1/settings"
    ∷ codes "/api/v1/audit"
    ∷ codes "/api/v1/admin/"
    ∷ []

unfoldable pub public_allowed : PlaneConfig → Bytes → Bool
public_allowed cfg path =
    if bytes_eq path (codes "/healthz")
      || bytes_eq path (codes "/readyz")
      || bytes_eq path (codes "/robots.txt")
    then true
    else if bytes_eq path (codes "/metrics") || bytes_eq path (codes "/version")
    then false
    else if bytes_eq path (codes "/app")
        || has_prefix (codes "/app/") path
        || has_prefix (codes "/auth/") path
    then false
    else if bytes_eq path (codes "/mcp") || has_prefix (codes "/api/") path
    then (if not cfg.public_api
        then false
        else if not cfg.public_admin_api
        then not (any (λ p. has_prefix p path) admin_only_api)
        else true)
    else true

-- What the gate in front of the public listener answers itself: the API's error, or the page that an
-- unknown short code gives.
pub data GateAnswer : Type 0 where
  api_not_found page_not_found pass_on : GateAnswer

unfoldable pub public_gate : PlaneConfig → Bytes → GateAnswer
unfolding public_allowed
public_gate cfg path =
    if not (public_allowed cfg path)
    then (if has_prefix (codes "/api/") path || bytes_eq path (codes "/mcp")
        then api_not_found
        else page_not_found)
    else pass_on

pub data RootAnswer : Type 0 where
  found_at : Bytes → RootAnswer
  root_not_found : RootAnswer

abbrev pub is_public : Plane → Bool
is_public plane_public = true
is_public _ = false

abbrev pub is_admin_plane : Plane → Bool
is_admin_plane plane_admin = true
is_admin_plane _ = false

unfoldable pub handle_root : PlaneConfig → Plane → RootAnswer
handle_root cfg p =
    if cfg.ui_enabled && not (is_public p)
    then found_at (codes "/app")
    else if not (bytes_eq cfg.root_redirect [])
    then found_at cfg.root_redirect
    else root_not_found

-- `tls` says that the request came over TLS.
unfoldable pub cookie_secure : PlaneConfig → Plane → Bool → Bool
cookie_secure cfg p tls =
    if is_admin_plane p
    then (if not (bytes_eq cfg.admin_url [])
        then has_prefix (codes "https://") cfg.admin_url
        else tls)
    else cfg.cookie_secure

abbrev pub equal_fold : Bytes → Bytes → Bool
equal_fold a b = bytes_eq (to_lower a) (to_lower b)

unfoldable pub same_origin : PlaneConfig → Plane → Bytes → Bytes → Bool
same_origin cfg p host origin =
    if is_admin_plane p
    then (if not (bytes_eq cfg.admin_url [])
        then equal_fold origin cfg.admin_url
        else equal_fold (trim_prefix (codes "http://") (trim_prefix (codes "https://") origin))
            host)
    else equal_fold origin cfg.base_url

unfoldable pub oidc_redirect_url : PlaneConfig → Plane → Bytes
oidc_redirect_url cfg p =
    if is_admin_plane p && not (bytes_eq cfg.admin_url [])
    then cfg.admin_url ++ codes "/auth/oidc/callback"
    else cfg.base_url ++ codes "/auth/oidc/callback"

unfoldable pub needs_identity : Bytes → Bool
needs_identity path =
    has_prefix (codes "/api/") path
    || has_prefix (codes "/auth/") path
    || bytes_eq path (codes "/mcp")

-- ===== src/Store/Types.antt =====
-- internal/store/types.go and mfa.go: the rows of accounts. `none` is a pointer that is nil or a time
-- that is unset. The scopes and the recovery codes are lists, which the columns hold as JSON.
use shortr.Base.{ℕ, Bool, List, Option, is_some, false}
use shortr.Base.Bytes.{Bytes}

pub record Session : Type 0 where
  pub id : Bytes
  pub user_id : Bytes
  pub csrf_token : Bytes
  pub ip : Bytes
  pub user_agent : Bytes
  pub created_at : ℕ
  pub expires_at : ℕ
  pub last_seen_at : ℕ
  pub auth_method : Bytes

pub record ApiKey : Type 0 where
  pub id : Bytes
  pub user_id : Bytes
  pub name : Bytes
  pub prefix : Bytes
  pub key_hash : Bytes
  pub scopes : List Bytes
  pub last_used_at : Option ℕ
  pub expires_at : Option ℕ
  pub revoked_at : Option ℕ
  pub created_at : ℕ

pub record OidcIdentity : Type 0 where
  pub id : Bytes
  pub user_id : Bytes
  pub issuer : Bytes
  pub subject : Bytes
  pub email : Bytes
  pub name : Bytes
  pub created_at : ℕ
  pub last_login_at : Option ℕ

-- `enabled_at` is `none` until the enrollment is confirmed.
pub record UserMfa : Type 0 where
  pub user_id : Bytes
  pub sealed_secret : Bytes
  pub enabled_at : Option ℕ
  pub last_step : ℕ
  pub recovery_codes : List Bytes

-- `Enabled`, also of a pointer that is nil.
unfoldable pub enabled : Option UserMfa → Bool
enabled m = elim m [ Option.none ↦ false | Option.some r ↦ is_some r.enabled_at ]

-- The identifier and the JSON details of an entry are left out.
pub record AuditEntry : Type 0 where
  pub ts : ℕ
  pub actor_user_id : Bytes
  pub actor_ip : Bytes
  pub action : Bytes
  pub target_type : Bytes
  pub target_id : Bytes

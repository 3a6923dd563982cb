-- ===== src/Server/Console/Samples.antt =====
-- A small site for the tests of the handlers of accounts: one user, with a confirmed second factor.
use shortr.Base.{◌*◌, true, false, [], ◌∷◌, none, some}
use shortr.Base.Bytes.{codes, bytes_eq}
use shortr.Store.{User, Store}
use shortr.Store.Types.{UserMfa}
use shortr.RateLimit.{new}
use shortr.Auth.Totp.Tests.{small_crypto}
use shortr.Auth.Tests.{small_codec}
use shortr.Link.Tests.{table}
use shortr.Server.Console.{Env, Caller, Fresh, Console}

abbrev pub small_env : Env
small_env = record {
  crypto = small_crypto;
  codec = small_codec;
  secret_key = codes "key";
  session_ttl = 1_000_000_000;
  mfa_required = false;
  registration = codes "open";
  verify_password = λ pw hash. some (bytes_eq pw hash, false);
  hash_password = some;
  parse_address = some;
}

abbrev pub small_user : User
small_user = record {
  id = codes "u1";
  email = codes "a@b.c";
  email_verified = true;
  name = [];
  password_hash = some (codes "secret");
  role = codes "user";
  status = codes "active";
  max_links = none;
  role_locked = false;
  must_change_password = false;
  last_login_at = none;
  password_changed_at = none;
  created_at = 0;
  updated_at = 0;
}

abbrev pub small_mfa : UserMfa
small_mfa = record {
  user_id = codes "u1";
  sealed_secret = codes "123456789012abc";
  enabled_at = some 0;
  last_step = 1;
  recovery_codes = codes "shortr-recovery:r" ∷ [];
}

abbrev pub accounts : Store
accounts = record table { users = small_user ∷ []; user_mfa = (codes "u1", small_mfa) ∷ [] }

abbrev pub caller : Caller
caller = record {
  path = codes "/auth/login";
  ip = codes "10.0.0.1";
  ip_key = codes "10.0.0.1";
  user_agent = [];
  session = none;
  api_key = none;
}

abbrev pub draws : Fresh
draws = record {
  token = some (codes "tok");
  csrf_token = codes "csrf";
  ulid = codes "01";
  nonce = some (codes "123456789012");
  secret = some (codes "abc");
  recovery = [];
}

abbrev pub console : Console
console = record {
  store = accounts;
  rl_auth = new (record { n = 5; interval = 60_000_000_000 }) (λ t. t * 5);
  sudo_until = [];
}

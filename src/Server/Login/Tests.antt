-- ===== src/Server/Login/Tests.antt =====
-- Tests of the sign-in with a password.
use shortr.Base.{◌==◌, ◌++◌, false, ◌≡◌, refl, [], some}
use shortr.Base.Bytes.{codes, bytes_eq}
use shortr.Store.{Store}
use shortr.Store.Accounts.{prepare_session}
use shortr.Auth.SignedCookie.{seal_value}
use shortr.Server.Console.{mfa_token, session_for}
use shortr.Server.Console.Samples.{
  small_env, small_mfa, small_user, accounts, caller, draws, console,
}
use shortr.Base.Map.{lookup}
use shortr.Store.Types.{enabled}
use shortr.Server.Mfa.{stamped, mfa_token_prefix}
use shortr.Server.Login.{LoginReq, SetupReq, handle_login, handle_setup, finish_login}
use shortr.Server.Login.Credentials.{Allowed, handle_login-Allowed}
use shortr.Server.Login.Setup.{SetUp, handle_setup-SetUp}
use shortr.Server.Login.FailOpen.{session_of, finish_login-fault}

abbrev request : LoginReq
request = record { email = codes " A@b.c"; password = codes "secret" }

handle_login-Allowed_example :
    Allowed small_env 5 caller draws request console
      (handle_login small_env 5 caller draws (some request) console).0
handle_login-Allowed_example =
    handle_login-Allowed small_env 5 caller draws request console (some request) refl

abbrev down : Store
down = record accounts { faults = λ n. n == 0 }

finish_login-fault_example :
    (session_of (finish_login small_env 5 caller draws small_user down).0
      ≡ some (
        codes "tok",
        prepare_session 5 (
            session_for small_env 5 caller draws
              (codes "tok")
              (stamped 5 small_user)
              (codes "password")),
      ))
    × ((finish_login small_env 5 caller draws small_user (record down { faults = λ n. false })).0
        ≡ mfa_token (
            seal_value small_env.codec small_env.secret_key
              (mfa_token_prefix ++ codes "u1")
              300000000000
              5))
unfolding bytes_eq lookup enabled
finish_login-fault_example =
    finish_login-fault small_env 5 caller draws small_user (codes "tok") small_mfa down refl refl
      refl refl refl refl refl

abbrev setup_request : SetupReq
setup_request = record {
  email = codes "root@b.c";
  password = codes "long enough";
  name = [];
  site_name = [];
}

abbrev nobody : Store
nobody = record accounts { users = []; user_mfa = [] }

handle_setup-SetUp_example :
    SetUp small_env 5 caller draws nobody
      (handle_setup small_env 5 caller draws (some setup_request) nobody).1
handle_setup-SetUp_example = handle_setup-SetUp small_env 5 caller draws (some setup_request) nobody

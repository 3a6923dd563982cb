-- ===== src/Server/Mfa/Tests.antt =====
-- Tests of the second factor: the code of step 2, taken a minute after 1970.
use shortr.Base.Map.{lookup, insert}
use shortr.Server.Console.{user_mfa}
use shortr.Store.Accounts.{
  get_user_mfa, advance_mfa_step, consume_recovery_code, same_codes, swap_codes, take_out,
}
use shortr.Validate.{trim_space, trim_left}
use shortr.Auth.Totp.{
  open_secret, verify_totp, match_step, totp_code, decimal, dynamic_truncate, big_endian, totp_step,
  hash_recovery_code, mfa_key, trim_padding,
}
use shortr.Base.Table.{remove_rows, filter}
use shortr.Store.Types.{enabled}
use shortr.Base.{ℕ, ◌+◌, ◌≡◌, refl, List, [], ◌∷◌, some}
use shortr.Base.Bytes.{Bytes, codes, bytes_eq, to_lower}
use shortr.Server.Mfa.{
  MfaLoginReq, check_second_factor, handle_login_mfa, check_totp, check_recovery,
}
use shortr.Server.Mfa.Rows.{Attempt, Above, step_of, codes_of, occurrences}
use shortr.Server.Mfa.Judged.{Judged, check_second_factor-Judged}
use shortr.Server.Mfa.Replay.{accepted_steps, accepted_steps-Above, uses_of, uses_of-occurrences}
use shortr.Server.Mfa.Second.{SignsIn, handle_login_mfa-SignsIn}
use shortr.Server.Console.Samples.{small_env, accounts, caller, draws, console}

abbrev minute : ℕ
minute = 61_000_000_000

abbrev code_two : Bytes
code_two = codes " 000 002"

abbrev attempts : List Attempt
attempts =
    record { user = codes "u1"; code = code_two; recovery = []; at = minute }
    ∷ record { user = codes "u1"; code = code_two; recovery = []; at = minute }
    ∷ record { user = codes "u1"; code = []; recovery = codes "R"; at = minute }
    ∷ record { user = codes "u1"; code = []; recovery = codes "r"; at = minute }
    ∷ []

check_second_factor-Judged_example :
    Judged small_env minute
      (codes "u1")
      code_two
      []
      accounts
      (check_second_factor small_env minute (codes "u1") code_two [] accounts)
check_second_factor-Judged_example =
    check_second_factor-Judged small_env minute (codes "u1") code_two [] accounts

accepted_steps-Above_example :
    Above (step_of (codes "u1") accounts) (accepted_steps small_env (codes "u1") attempts accounts)
accepted_steps-Above_example = accepted_steps-Above small_env (codes "u1") attempts accounts

uses_of-occurrences_example :
    (uses_of small_env (codes "u1") (codes "shortr-recovery:r") attempts accounts).0
      + occurrences
          (codes "shortr-recovery:r")
          (uses_of small_env (codes "u1") (codes "shortr-recovery:r") attempts accounts).1
    ≡ 1
unfolding codes_of occurrences lookup bytes_eq
uses_of-occurrences_example =
    uses_of-occurrences small_env (codes "u1") (codes "shortr-recovery:r") attempts accounts

abbrev request : MfaLoginReq
request = record { mfa_token = codes "x"; code = code_two; recovery_code = [] }

handle_login_mfa-SignsIn_example :
    SignsIn small_env minute caller draws request console
      (handle_login_mfa small_env minute caller draws (some request) console).0
handle_login_mfa-SignsIn_example =
    handle_login_mfa-SignsIn small_env minute caller draws request console (some request) refl

steps_accepted : accepted_steps small_env (codes "u1") attempts accounts ≡ 2 ∷ []
unfolding accepted_steps check_second_factor user_mfa get_user_mfa lookup bytes_eq trim_space
    check_totp open_secret verify_totp remove_rows match_step totp_code decimal dynamic_truncate
    big_endian totp_step hash_recovery_code mfa_key trim_padding to_lower insert filter step_of
    check_recovery advance_mfa_step consume_recovery_code same_codes swap_codes take_out trim_left
    enabled
steps_accepted = refl

-- ===== src/Server/Users/Tests.antt =====
-- Tests of the requests of administrators: the only one tries to step down, then to delete itself.
use shortr.Base.{refl, false, List, [], ◌∷◌, none, some, arith}
use shortr.Base.Bytes.{codes, bytes_eq}
use shortr.Base.Table.{first}
use shortr.Store.{User, Store}
use shortr.Store.Users.{user_constraints}
use shortr.Server.Console.Samples.{small_user, accounts, caller}
use shortr.Server.Users.{PatchUserReq}
use shortr.Server.Users.Edits.{HasAdmin}
use shortr.Server.Users.LastAdmin.{AdminAction, patch, remove, act, act-HasAdmin}

abbrev root : User
root = record small_user { id = codes "u0"; email = codes "r@b.c"; role = codes "admin" }

abbrev step_down : PatchUserReq
step_down = record {
  name = none;
  role = some (codes "user");
  status = none;
  max_links = none;
  limit_negative = false;
}

abbrev two_users : Store
two_users = record accounts { users = root ∷ small_user ∷ [] }

abbrev actions : List AdminAction
actions = patch 5 caller root (codes "u0") (some step_down) ∷ remove 6 caller root (codes "u0") ∷ []

act-HasAdmin_example : HasAdmin (act actions two_users)
unfolding user_constraints first bytes_eq
act-HasAdmin_example = act-HasAdmin actions two_users (refl, omega arith)

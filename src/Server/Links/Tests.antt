-- ===== src/Server/Links/Tests.antt =====
-- Tests of the requests for links: a user edits and deletes its own link and tries the same on a link
-- of nobody, the last time by a bulk request that also makes a link.
use shortr.Base.{◌≡◌, refl, List, [], ◌∷◌, none, some}
use shortr.Base.Bytes.{Bytes, codes, bytes_eq}
use shortr.Store.{Link, select, has_id}
use shortr.Validate.Tests.{small_net}
use shortr.Link.Service.{Service}
use shortr.Link.Tests.{one_link, table, service, cfg}
use shortr.Server.Console.Samples.{small_user, caller}
use shortr.Server.Links.{PatchLinkReq}
use shortr.Server.Links.Bulk.{CreateLinkReq, BulkItem, Draws}
use shortr.Server.Links.Runs.{
  LinkRequest, get_one, patch_one, delete_one, restore_one, bulk, serve_all, select-serve_all,
}

abbrev own_link : Link
own_link = record one_link { id = codes "02"; code = codes "mine"; user_id = some (codes "u1") }

abbrev two_links : Service
two_links = record service { store = record table { links = one_link ∷ own_link ∷ [] } }

abbrev new_title : PatchLinkReq
new_title = record {
  code = none;
  target_url = none;
  title = some (codes "Guide");
  description = none;
  redirect_status = none;
  password = none;
  expires_at = none;
  max_clicks = none;
  status = none;
  tags = none;
  pass_query = none;
  utm = none;
}

abbrev new_link : CreateLinkReq
new_link = record {
  target_url = codes "https://example.com/";
  code = codes "fresh";
  length = 0;
  title = [];
  description = [];
  redirect_status = 0;
  password = [];
  expires_at = none;
  max_clicks = none;
  tags = [];
  pass_query = none;
  utm = none;
}

abbrev item : Bytes → Bytes → BulkItem
item action id = record { action = action; op = []; id = id; tag = codes "x"; input = new_link }

abbrev draws : Draws
draws = record { ulid = codes "03"; read = λ i j. none; fuel = 0 }

abbrev bulk_items : List BulkItem
bulk_items =
    item (codes "create") []
    ∷ item (codes "tag") (codes "01")
    ∷ item (codes "purge") (codes "02")
    ∷ []

abbrev requests : List LinkRequest
requests =
    patch_one 7 caller (codes "01") [] (some new_title)
    ∷ patch_one 7 caller (codes "02") [] (some new_title)
    ∷ delete_one 8 caller (codes "01")
    ∷ delete_one 8 caller (codes "02")
    ∷ restore_one 9 caller (codes "01")
    ∷ get_one (codes "01")
    ∷ bulk 10 caller (λ i. draws) (some bulk_items)
    ∷ []

select-serve_all_example :
    select
      (has_id (codes "01"))
      (serve_all small_net
        (λ pw. some pw)
        cfg
        (λ n. [])
        (λ t. none)
        small_user
        requests
        two_links).store.links
    ≡ some one_link
unfolding select bytes_eq
select-serve_all_example =
    select-serve_all small_net (λ pw. some pw) cfg (λ n. []) (λ t. none) small_user requests
      two_links (codes "01") one_link refl refl

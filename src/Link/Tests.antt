-- ===== src/Link/Tests.antt =====
-- Tests of the link modules on a table of one link.
use shortr.Base.Map.{lookup}
use shortr.Base.{
  ◌||◌, ◌+◌, ℕ, ◌*◌, ◌≤◌, ◌≡◌, refl, ◌⊎◌, inl, true, false, List, [], ◌∷◌, none, some, All, length,
  arith,
}
use shortr.Base.Bytes.{Bytes, codes, to_lower, bytes_eq}
use shortr.Store.{
  Link, soft_delete_link, update_where, Store, ok, err, db_error, select, constraints,
  get_link_by_code,
}
use shortr.Store.Rows.{row_of, IdHasKey}
use shortr.Store.Lookup.{found, get_link_by_code_result}
use shortr.Link.Code.{alphabet_base58, code, generate_code, code_length}
use shortr.Link.Code.Generate.{generate_code_total, has_char}
use shortr.Link.Code.Fair.{hits, pick_uniform}
use shortr.Link.Cache.{
  find, shard_get, shard_put, evict, lower_key, shard_index, put_entry, put_missing,
  shard_invalidate, fnv, remove, delete_key, back, new_cache, get, put, invalidate, per_shard, len,
}
use shortr.Link.Cache.History.{
  step, Call, get_call, put_call, put_missing_call, invalidate_call, run, note_all, get-run_sound,
  run-AllValid,
}
use shortr.Link.Cache.Bounds.{len-run-le, get-run-put, get-invalidate}
use shortr.Link.Service.{Service, resolve_for_redirect, delete, purge, restore}
use shortr.Link.Service.Coherent.{
  Coherent, Resolved, resolve_for_redirect-Resolved, delete-purge-restore-Coherent,
}
use shortr.Link.Service.Clicks.{granted, calls_for, granted-eq-min}
use shortr.Validate.Tests.{small_net}
use shortr.Link.Create.{Config, CreateInput, create}
use shortr.Link.Create.Outcome.{Kept, create-Kept}
use shortr.Link.Update.{UpdateInput, update}
use shortr.Link.Update.Laws.{update-Coherent}
use shortr.Link.Service.Race.{overtaken, mark_deleted, resolve_for_redirect-fill}

abbrev pub one_link : Link
one_link = record {
  id = codes "01";
  code = codes "Docs";
  target_url = codes "https://example.com/";
  title = [];
  description = [];
  user_id = none;
  redirect_status = 302;
  password_hash = none;
  expires_at = none;
  max_clicks = some 2;
  click_count = 1;
  last_click_at = none;
  status = codes "active";
  deleted_at = none;
  utm_source = [];
  utm_medium = [];
  utm_campaign = [];
  utm_term = [];
  utm_content = [];
  pass_query = true;
  tags = [];
  created_at = 0;
  updated_at = 0;
  created_by_ip = [];
}

abbrev pub table : Store
table = record {
  links = one_link ∷ [];
  users = [];
  sessions = [];
  api_keys = [];
  oidc_identities = [];
  user_mfa = [];
  settings = [];
  audit_log = [];
  queries = 0;
  faults = λ n. false;
}

abbrev pub service : Service
service = record {
  store = table;
  cache = new_cache 4096;
  hits = [];
  policy = record { blocked_domains = []; default_redirect_status = 302; max_links_per_user = 0 };
  cache_hits = 0;
  cache_misses = 0;
}

-- With an empty cache there is nothing to be wrong.
pub service-Coherent : Coherent service
unfolding constraints select run new_cache find
service-Coherent = record { rows = refl; valid = run-AllValid 4096 []; held = λ k e h. cc }

resolve_for_redirect-Resolved_example :
    Resolved (codes "docs") service (resolve_for_redirect 7 (codes "docs") service)
resolve_for_redirect-Resolved_example =
    resolve_for_redirect-Resolved 7 (codes "docs") service service-Coherent

owned : IdHasKey (codes "01") (codes "docs") (one_link ∷ [])
unfolding bytes_eq to_lower
owned = (λ h. refl, tt)

delete-purge-restore-Coherent_example :
    Coherent (delete 7 (codes "01") (codes "Docs") service).1
    × Coherent (purge (codes "01") (codes "Docs") service).1
    × Coherent (restore 7 (codes "01") (codes "Docs") service).1
unfolding to_lower
delete-purge-restore-Coherent_example =
    delete-purge-restore-Coherent service (codes "01") (codes "Docs") owned service-Coherent 7

abbrev clicks : List (Link × ℕ)
clicks = (one_link, 3) ∷ (one_link, 4) ∷ (one_link, 5) ∷ []

granted-eq-min_example : granted (codes "01") clicks service ≡ 1
unfolding calls_for bytes_eq lookup
granted-eq-min_example =
    granted-eq-min one_link 2 clicks service refl ((λ h. refl), ((λ h. refl), ((λ h. refl), tt)))

resolve_for_redirect-fill_example :
    ((resolve_for_redirect 300_000_000_001
        (codes "DOCS")
        (overtaken 1 1 (codes "docs") one_link service)).0
      ≡ ok (some one_link))
    × (row_of (to_lower (codes "DOCS")) (overtaken 1 1 (codes "docs") one_link service).store.links
        ≡ some (mark_deleted 1 one_link))
unfolding run new_cache to_lower constraints select get_link_by_code bytes_eq delete
    soft_delete_link update_where
resolve_for_redirect-fill_example =
    resolve_for_redirect-fill 4096 [] service 1 1 300_000_000_001 (codes "docs") (codes "DOCS")
      one_link refl refl refl refl refl (omega arith)

get_link_by_code_result_example :
    (((table.faults table.queries || table.faults (table.queries + 1)) ≡ true)
        × ((get_link_by_code (codes "docs") table).0 ≡ err db_error)
      ⊎ ((get_link_by_code (codes "docs") table).0 ≡ found (row_of (codes "docs") table.links)))
    × ((get_link_by_code (codes "docs") table).1.links ≡ table.links)
unfolding constraints select to_lower
get_link_by_code_result_example = get_link_by_code_result (codes "docs") table refl

abbrev calls : List (Call ℕ)
calls =
    put_call (codes "Docs") 1 0
    ∷ get_call (codes "docs") 5
    ∷ put_missing_call (codes "b") 6
    ∷ invalidate_call (codes "B")
    ∷ put_call (codes "b") 2 7
    ∷ []

get-run_sound_example :
    (note_all (λ k. none) calls (codes "docs")
      ≡ some (record { link = some 1; missing = false; expires = 300_000_000_000 }))
    × (9 ≤ 300_000_000_000)
unfolding run step get put_entry put put_missing invalidate shard_get shard_put shard_invalidate
    evict lower_key shard_index new_cache find fnv per_shard remove delete_key back bytes_eq
    to_lower
get-run_sound_example =
    get-run_sound 2 calls (codes "DOCS") 9
      (record { link = some 1; missing = false; expires = 300_000_000_000 }) refl

len-run-le_example :
    (len (run (new_cache 2) calls) ≤ 64 * per_shard 2)
    × (16 ≤ per_shard 2)
    × ((i : ℕ) → length ((run (new_cache 2) calls).shards i).order ≤ per_shard 2)
len-run-le_example = len-run-le 2 calls

abbrev visits : List (Call ℕ)
visits =
    get_call (codes "docs") 12 ∷ invalidate_call (codes "other") ∷ get_call (codes "blog") 20 ∷ []

get-run-put_example :
    (get (run (put (run (new_cache 2) calls) (codes "Docs") 4 10) visits) (codes "dOCS") 30).1
    ≡ some (record { link = some 4; missing = false; expires = 300_000_000_010 })
unfolding to_lower bytes_eq
get-run-put_example =
    get-run-put 2 calls visits (codes "Docs") (codes "dOCS") 4 10 30
      (omega arith, (refl, (omega arith, tt))) refl (omega arith)

get-invalidate_example :
    (get (invalidate (run (new_cache 2) calls) (codes "Docs")) (codes "dOCS") 11).1 ≡ none
unfolding to_lower
get-invalidate_example = get-invalidate 2 calls (codes "Docs") (codes "dOCS") 11 refl

generate_code_total_example :
    (s : Bytes) × (generate_code (λ i. some (7 ∷ 255 ∷ [])) 4 alphabet_base58 3 ≡ code s)
    × (length s ≡ code_length 3)
    × All (λ c. has_char alphabet_base58 c ≡ true) s
generate_code_total_example =
    generate_code_total (λ i. some (7 ∷ 255 ∷ [])) 4 alphabet_base58 3
      (λ i. (7 ∷ 255 ∷ [], refl, refl)) (omega arith) (omega arith)

pick_uniform_example : hits alphabet_base58 b'z' 256 ≡ 4
pick_uniform_example = pick_uniform alphabet_base58 b'z' (inl refl) refl

abbrev given : CreateInput
given = record {
  target_url = codes "https://example.com/new";
  code = [];
  length = 0;
  title = codes "new";
  description = [];
  redirect_status = 0;
  password = [];
  expires_at = none;
  max_clicks = none;
  tags = codes "News" ∷ [];
  pass_query = none;
  utm_source = [];
  utm_medium = [];
  utm_campaign = [];
  utm_term = [];
  utm_content = [];
}

abbrev pub cfg : Config
cfg = record {
  base_host = codes "sho.rt";
  code_length = 6;
  alphabet = alphabet_base58;
  max_url_length = 2048;
  allow_private_targets = false;
}

create-Kept_example :
    Kept small_net
      (λ pw. some pw)
      cfg
      7
      (codes "02")
      (λ i j. some (i ∷ 9 ∷ 20 ∷ []))
      9
      none
      []
      given
      service
      (create small_net
        (λ pw. some pw)
        cfg
        7
        (codes "02")
        (λ i j. some (i ∷ 9 ∷ 20 ∷ []))
        9
        none
        []
        given
        service)
create-Kept_example =
    create-Kept small_net (λ pw. some pw) cfg 7 (codes "02") (λ i j. some (i ∷ 9 ∷ 20 ∷ [])) 9 none
      [] given service service-Coherent

abbrev edit_of_code : UpdateInput
edit_of_code = record {
  target_url = none;
  code = some (codes "Guide");
  title = none;
  description = none;
  redirect_status = none;
  password = none;
  expires_at = none;
  max_clicks = none;
  status = none;
  tags = none;
  pass_query = none;
  utm_source = none;
  utm_medium = none;
  utm_campaign = none;
  utm_term = none;
  utm_content = none;
}

update-Coherent_example :
    Coherent (update small_net (λ pw. some pw) cfg 7 one_link edit_of_code service).1
unfolding to_lower
update-Coherent_example =
    update-Coherent small_net (λ pw. some pw) cfg 7 one_link edit_of_code service owned
      service-Coherent

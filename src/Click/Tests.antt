-- ===== src/Click/Tests.antt =====
-- Tests of the click pipeline, with small sources and a database whose second statement fails.
use shortr.Base.Map.{insert, lookup}
use shortr.Validate.{trim_space, trim_left}
use shortr.Base.{
  if◌then◌else◌, ◌+◌, ◌≤◌, ◌<◌, ◌≡◌, refl, inl, true, false, List, [], ◌∷◌, ◌++◌, Option, none,
  some, length, ◌==◌,
}
use shortr.Base.Bytes.{Bytes, codes, bytes_eq, contains, to_lower, has_prefix}
use shortr.Store.{select, update_where}
use shortr.Link.Tests.{table}
use shortr.Click.{Event, Click}
use shortr.Click.Agent.{UserAgent, parse_ua, first_lang_tag}
use shortr.Click.Address.{IpLib, apply_ip_mode, apply_ip_mode-SameNetwork}
use shortr.Click.Enrich.{Sources, enrich, safe_enrich}
use shortr.Click.Enrich.Bounds.{safe_enrich_bounds}
use shortr.Click.Batch.{Db, insert_clicks_batch, bump_links, tally, last_times}
use shortr.Click.Batch.Counts.{Inserted, insert_clicks_batch-Inserted, stored_count}
use shortr.Click.Writer.{
  WriterConfig, Writer, set_defaults, new_writer, Action, enqueue_event, receive_event, tick,
  cancel, run, step, enqueue, receive, receive_from, add_event, flush_batch, flush, flush_attempts,
  cancelled, drain,
}
use shortr.Click.Writer.Ledger.{held, gone}
use shortr.Click.Writer.Runs.{offered, run-accounts}

abbrev four_bytes : Bytes → Option Bytes
four_bytes ip = if length ip == 4 then some ip else none

abbrev small_ip_lib : IpLib
small_ip_lib = record {
  to4 = four_bytes;
  to16 = λ ip. some ip;
  ip_string = λ ip. ip;
  ipv4 = λ a b c d. a ∷ b ∷ c ∷ d ∷ [];
  hmac = λ k s. k ++ s;
  hex = λ s. s;
}

apply_ip_mode-SameNetwork_example :
    apply_ip_mode small_ip_lib (codes "anonymize") (some (10 ∷ 2 ∷ 3 ∷ 4 ∷ [])) [] []
    ≡ apply_ip_mode small_ip_lib (codes "anonymize") (some (10 ∷ 2 ∷ 3 ∷ 99 ∷ [])) [] []
unfolding bytes_eq
apply_ip_mode-SameNetwork_example =
    apply_ip_mode-SameNetwork small_ip_lib (codes "anonymize") (10 ∷ 2 ∷ 3 ∷ 4 ∷ [])
      (10 ∷ 2 ∷ 3 ∷ 99 ∷ []) [] [] refl refl
      (inl (10 ∷ 2 ∷ 3 ∷ 4 ∷ [], 10 ∷ 2 ∷ 3 ∷ 99 ∷ [], refl, refl, refl))

abbrev pub desktop : UserAgent
desktop = record {
  name = codes "Firefox";
  version = codes "128";
  os = codes "Linux";
  os_version = [];
  bot = false;
  mobile = false;
  tablet = false;
  desktop = true;
}

abbrev sources : Sources
sources = record {
  ip_lib = small_ip_lib;
  geo = λ ip. record { country = []; region = []; city = [] };
  ip_loc = λ ip. record { country = codes "NL"; region = []; city = [] };
  agent = λ s. desktop;
  hostname = λ s. none;
  panics = λ ev. false;
  ip_mode = codes "none";
  secret = [];
  day = [];
}

abbrev event : Event
event = record {
  link_id = codes "01";
  ts = 7_000_000;
  raw_ip = none;
  user_agent = codes "Mozilla";
  referrer = [];
  accept_language = codes "en-US,en;q=0.9";
  query_string = [];
  utm_source = [];
  utm_medium = [];
  utm_campaign = [];
  utm_term = [];
  utm_content = [];
}

curl_is_a_bot : (parse_ua (λ s. desktop) (codes "curl/8")).device ≡ codes "bot"
unfolding parse_ua bytes_eq trim_space contains to_lower has_prefix
curl_is_a_bot = refl

first_language : first_lang_tag (codes " en-US,en;q=0.9") ≡ codes "en-US"
unfolding first_lang_tag bytes_eq trim_space
first_language = refl

abbrev click : Click
click = enrich sources event

safe_enrich_bounds_example :
    (length click.referrer ≤ 512)
    × (length click.user_agent ≤ 512)
    × (length click.qs ≤ 256)
    × (length click.lang ≤ 35)
    × (click.link_id ≡ codes "01")
    × (click.ts ≡ 7_000_000)
unfolding safe_enrich enrich
safe_enrich_bounds_example = safe_enrich_bounds sources event click refl

abbrev pub shaky : Db
shaky = record { store = record table { faults = λ n. n == 1 }; clicks = [] }

insert_clicks_batch-Inserted_example :
    Inserted (click ∷ click ∷ []) true shaky (insert_clicks_batch (click ∷ click ∷ []) true shaky)
insert_clicks_batch-Inserted_example = insert_clicks_batch-Inserted (click ∷ click ∷ []) true shaky

abbrev pub small : WriterConfig
small = record { batch_size = 2; queue_size = 3; has_spool_dir = true; count_bots = true }

abbrev actions : List (Action sources)
actions =
    enqueue_event event
    ∷ enqueue_event event
    ∷ enqueue_event event
    ∷ enqueue_event event
    ∷ receive_event
    ∷ tick
    ∷ receive_event
    ∷ cancel
    ∷ []

abbrev final : Writer
final = run sources actions (new_writer small shaky (λ n. false))

run-accounts_example :
    (held final + gone final ≡ offered sources actions (new_writer small shaky (λ n. false)))
    × (length final.db.clicks ≡ 0 + final.written)
    × (length final.queue ≤ (set_defaults small).queue_size)
    × (length final.batch < (set_defaults small).batch_size)
run-accounts_example = run-accounts sources small shaky (λ n. false) actions final refl

three_clicks_are_counted : stored_count (codes "01") final.db.store.links ≡ 4
unfolding run new_writer select step enqueue receive receive_from add_event safe_enrich flush_batch
    flush flush_attempts insert_clicks_batch cancelled drain bump_links tally insert lookup bytes_eq
    enrich contains has_prefix to_lower parse_ua last_times set_defaults update_where trim_left
    trim_space
three_clicks_are_counted = refl

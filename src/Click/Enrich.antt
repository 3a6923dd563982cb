-- ===== src/Click/Enrich.antt =====
-- internal/click/writer.go: from an event to a row. The two databases of places and the parser of URLs
-- are arguments; `panics` says for which events enriching panics.
pub mod Bounds
use shortr.Base.{Bool, Option, none, some, length, take, leb, if◌then◌else◌, ℕ, []}
use shortr.Base.Bytes.{Bytes, bytes_eq}
use shortr.Click.{Event, Click}
use shortr.Click.Agent.{UserAgent, parse_ua, first_lang_tag}
use shortr.Click.Address.{IpLib, apply_ip_mode, ip_version}

pub record Place : Type 0 where
  pub country : Bytes
  pub region : Bytes
  pub city : Bytes

-- What enriching asks of other code: `hostname` parses a URL and returns its host name.
pub record Sources : Type 0 where
  pub ip_lib : IpLib
  pub geo : Option Bytes → Place
  pub ip_loc : Option Bytes → Place
  pub agent : Bytes → UserAgent
  pub hostname : Bytes → Option Bytes
  pub panics : Event → Bool
  pub ip_mode : Bytes
  pub secret : Bytes
  pub day : Bytes

unfoldable pub truncate : Bytes → ℕ → Bytes
truncate s n = if leb (length s) n then s else take n s

module _ (src : Sources) where
  unfoldable pub ref_host : Bytes → Bytes
  ref_host referrer =
      if bytes_eq referrer [] then [] else elim (src.hostname referrer) [ none ↦ [] | some h ↦ h ]

  -- The second database is asked if the first has no country.
  unfoldable pub place_of : Event → Place
  place_of ev =
      let p = src.geo ev.raw_ip in if bytes_eq p.country [] then src.ip_loc ev.raw_ip else p

  unfoldable pub enrich : Event → Click
  unfolding truncate ref_host place_of
  enrich ev =
      let p = place_of ev in
      let ua = parse_ua src.agent ev.user_agent in
      record {
        link_id = ev.link_id;
        ts = ev.ts;
        ip = apply_ip_mode src.ip_lib src.ip_mode ev.raw_ip src.secret src.day;
        ip_version = ip_version src.ip_lib ev.raw_ip;
        country = p.country;
        region = p.region;
        city = p.city;
        referrer = truncate ev.referrer 512;
        referrer_host = ref_host ev.referrer;
        user_agent = truncate ev.user_agent 512;
        device = ua.device;
        os = ua.os;
        os_version = ua.os_version;
        browser = ua.browser;
        browser_version = ua.browser_version;
        is_bot = ua.is_bot;
        lang = first_lang_tag ev.accept_language;
        utm_source = ev.utm_source;
        utm_medium = ev.utm_medium;
        utm_campaign = ev.utm_campaign;
        utm_term = ev.utm_term;
        utm_content = ev.utm_content;
        qs = truncate ev.query_string 256;
      }

  unfoldable pub safe_enrich : Event → Option Click
  safe_enrich ev = if src.panics ev then none else some (enrich ev)

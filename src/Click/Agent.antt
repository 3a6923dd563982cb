-- ===== src/Click/Agent.antt =====
-- internal/click/ua.go: the device of a user agent, and the first language. The parser of user agents
-- is a library's; the model takes its result as a function.
use shortr.Base.{ℕ, Bool, true, ◌||◌, List, [], ◌∷◌, length, take, any, ltb, ◌==◌, if◌then◌else◌}
use shortr.Base.Bytes.{Bytes, codes, bytes_eq, contains, to_lower}
use shortr.Validate.{trim_space}

-- What the library's parser returns.
pub record UserAgent : Type 0 where
  pub name : Bytes
  pub version : Bytes
  pub os : Bytes
  pub os_version : Bytes
  pub bot : Bool
  pub mobile : Bool
  pub tablet : Bool
  pub desktop : Bool

pub record Parsed : Type 0 where
  pub device : Bytes
  pub os : Bytes
  pub os_version : Bytes
  pub browser : Bytes
  pub browser_version : Bytes
  pub is_bot : Bool

abbrev pub extra_bot_substrings : List Bytes
extra_bot_substrings =
    codes "whatsapp"
    ∷ codes "telegrambot"
    ∷ codes "discordbot"
    ∷ codes "slackbot"
    ∷ codes "twitterbot"
    ∷ codes "facebookexternalhit"
    ∷ codes "linkedinbot"
    ∷ codes "skypeuripreview"
    ∷ codes "embedly"
    ∷ codes "quora link preview"
    ∷ codes "outbrain"
    ∷ codes "pinterest"
    ∷ codes "vkshare"
    ∷ codes "w3c_validator"
    ∷ codes "redditbot"
    ∷ codes "applebot"
    ∷ codes "bingpreview"
    ∷ codes "yandex"
    ∷ codes "curl/"
    ∷ codes "wget/"
    ∷ codes "python-requests"
    ∷ codes "go-http-client"
    ∷ codes "headlesschrome"
    ∷ codes "bot"
    ∷ codes "spider"
    ∷ codes "crawl"
    ∷ []

abbrev pub device_of : Bool → UserAgent → Bytes
device_of bot ua =
    if bot
    then codes "bot"
    else if ua.mobile
    then codes "mobile"
    else if ua.tablet
    then codes "tablet"
    else if ua.desktop
    then codes "desktop"
    else codes "other"

unfoldable pub parse_ua : (Bytes → UserAgent) → Bytes → Parsed
parse_ua parse raw =
    if bytes_eq (trim_space raw) []
    then record {
      device = codes "other";
      os = [];
      os_version = [];
      browser = [];
      browser_version = [];
      is_bot = true;
    }
    else let ua = parse raw in
      let bot = ua.bot || any (λ s. contains s (to_lower raw)) extra_bot_substrings in
      record {
        device = device_of bot ua;
        os = ua.os;
        os_version = ua.os_version;
        browser = ua.name;
        browser_version = ua.version;
        is_bot = bot;
      }

-- The text before the first occurrence of a byte.
unfoldable pub before : ℕ → Bytes → Bytes
before d [] = []
before d (c ∷ s) = let rest = before d s in if c == d then [] else c ∷ rest

unfoldable pub first_lang_tag : Bytes → Bytes
unfolding before
first_lang_tag accept_language =
    let s = trim_space accept_language in
    if bytes_eq s []
    then []
    else let t = trim_space (before b';' (before b',' s)) in
      if ltb 35 (length t) then take 35 t else t

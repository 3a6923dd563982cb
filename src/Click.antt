-- ===== src/Click.antt =====
-- internal/click: what a redirect records. The event that the handler builds (event.go), and the row
-- that the writer makes of it (internal/store/types.go).
pub mod Agent
pub mod Address
pub mod Enrich
pub mod Batch
pub mod Writer
pub mod Tests
use shortr.Base.{ℕ, Bool, Option}
use shortr.Base.Bytes.{Bytes}

-- `raw_ip` is `none` for the nil address.
pub record Event : Type 0 where
  pub link_id : Bytes
  pub ts : ℕ
  pub raw_ip : Option Bytes
  pub user_agent : Bytes
  pub referrer : Bytes
  pub accept_language : Bytes
  pub query_string : Bytes
  pub utm_source : Bytes
  pub utm_medium : Bytes
  pub utm_campaign : Bytes
  pub utm_term : Bytes
  pub utm_content : Bytes

-- The id is the database's.
pub record Click : Type 0 where
  pub link_id : Bytes
  pub ts : ℕ
  pub ip : Bytes
  pub ip_version : ℕ
  pub country : Bytes
  pub region : Bytes
  pub city : Bytes
  pub referrer : Bytes
  pub referrer_host : Bytes
  pub user_agent : Bytes
  pub device : Bytes
  pub os : Bytes
  pub os_version : Bytes
  pub browser : Bytes
  pub browser_version : Bytes
  pub is_bot : Bool
  pub lang : Bytes
  pub utm_source : Bytes
  pub utm_medium : Bytes
  pub utm_campaign : Bytes
  pub utm_term : Bytes
  pub utm_content : Bytes
  pub qs : Bytes

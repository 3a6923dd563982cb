-- ===== src/Validate.antt =====
-- internal/validate/validate.go. `net/url`, `net.ParseIP` and the methods of `net.IP` are Go's; the
-- model takes them as a record of functions. `strings.TrimSpace` and `strings.ToLower` are modelled
-- on ASCII text. A string's runes are counted as Go decodes UTF-8.
pub mod Target
pub mod Next
pub mod Email
pub mod Tests
use mathlib.Core.List.{reverse}
use shortr.Base.{
  ℕ, zero, suc, ◌+◌, ◌-◌, ◌/◌, Bool, true, false, not, ◌&&◌, ◌||◌, List, [], ◌∷◌, ◌++◌, Option,
  none, some, is_some, length, get_or, any, all, ltb, leb, ◌==◌, if◌then◌else◌,
}
use shortr.Base.Bytes.{Bytes, codes, bytes_eq, has_prefix, has_suffix, contains, to_lower}

abbrev pub is_space : ℕ → Bool
is_space c = (c == 32) || (leb 9 c && leb c 13)

unfoldable pub trim_left : (ℕ → Bool) → Bytes → Bytes
trim_left p [] = []
trim_left p (c ∷ s) = let rest = trim_left p s in if p c then rest else c ∷ s

-- `strings.TrimSpace`
unfoldable pub trim_space : Bytes → Bytes
unfolding trim_left
trim_space s = reverse (trim_left is_space (reverse (trim_left is_space s)))

-- `strings.ContainsAny(s, chars)`
abbrev pub contains_any : Bytes → Bytes → Bool
contains_any chars s = any (λ c. any (λ d. c == d) chars) s

pub record Url : Type 0 where
  pub scheme : Bytes
  pub host : Bytes
  pub has_user : Bool

-- What the code takes from Go's `net` and `net/url`: an address is given by its bytes.
pub record Net : Type 1 where
  pub Rest : Type 0
  pub parse : Bytes → Option (Url × Rest)
  pub hostname : Url → Bytes
  pub to_string : Url → Rest → Bytes
  pub parse_ip : Bytes → Option Bytes
  -- The methods IsLoopback, IsPrivate, IsLinkLocalUnicast, IsLinkLocalMulticast, IsMulticast and
  -- IsUnspecified, one of them holding.
  pub is_special : Bytes → Bool
  -- `ip.To4()`
  pub to4 : Bytes → Option Bytes

pub data TargetError : Type 0 where
  required too_long whitespace not_valid bad_scheme no_host credentials self_target blocked_domain
        private_target :
      TargetError

pub data Checked : Type 0 where
  accepted : Bytes → Checked
  refused : TargetError → Checked

-- The test of one blocked domain; an empty one is skipped.
unfoldable pub is_blocked : Bytes → Bytes → Bool
is_blocked host domain =
    let b = to_lower (trim_space domain) in
    if bytes_eq b [] then false else bytes_eq host b || has_suffix (b'.' ∷ b) host

-- `strings.Trim(h, "[]")`
unfoldable pub trim_brackets : Bytes → Bytes
unfolding trim_left
trim_brackets h =
    let p = λ (c : ℕ). (c == 91) || (c == 93) in reverse (trim_left p (reverse (trim_left p h)))

module _ (net : Net) where
  open net use {Rest, parse, hostname, to_string, parse_ip, is_special, to4}

  -- `b & 0xC0 == 64` is a byte from 64 to 127, and `b & 0xFE == 0xFC` one of 252 and 253.
  unfoldable pub is_private_ip : Bytes → Bool
  is_private_ip ip = if is_special ip then true else elim (to4 ip) [
    | some ip4 ↦ (get_or ip4 0 0 == 100) && (get_or ip4 1 0 / 64 == 1)
    | none ↦ get_or ip 0 0 / 2 == 126
  ]

  unfoldable pub is_private_host : Bytes → Bool
  is_private_host host =
      let h = to_lower host in
      if bytes_eq h (codes "localhost")
        || has_suffix (codes ".localhost") h
        || has_suffix (codes ".local") h
        || has_suffix (codes ".internal") h
      then true
      else elim (parse_ip (trim_brackets h)) [ none ↦ false | some ip ↦ is_private_ip ip ]

  -- The checks on the parsed URL.
  unfoldable pub check_url : Url → Rest → Bool → List Bytes → Bytes → Checked
  check_url u rest allow_private blocked self_host =
      let scheme = to_lower u.scheme in
      let host = to_lower (hostname u) in
      if not (bytes_eq scheme (codes "http")) && not (bytes_eq scheme (codes "https"))
      then refused bad_scheme
      else if bytes_eq u.host []
      then refused no_host
      else if u.has_user
      then refused credentials
      else if not (bytes_eq self_host []) && bytes_eq host (to_lower self_host)
      then refused self_target
      else if any (is_blocked host) blocked
      then refused blocked_domain
      else if not allow_private && is_private_host host
      then refused private_target
      else accepted (to_string (record u { scheme = scheme; host = to_lower u.host }) rest)

  unfoldable pub target_url : Bytes → ℕ → Bool → List Bytes → Bytes → Checked
  target_url raw max_len allow_private blocked self_host =
      let trimmed = trim_space raw in
      if bytes_eq trimmed []
      then refused required
      else if ltb max_len (length trimmed)
      then refused too_long
      else if contains_any (32 ∷ 9 ∷ 13 ∷ 10 ∷ []) trimmed
      then refused whitespace
      else elim (parse trimmed) [
        | none ↦ refused not_valid
        | some (u, rest) ↦ check_url u rest allow_private blocked self_host
      ]

-- The bytes that one step of Go's UTF-8 decoder takes from a non-empty text; an invalid one takes 1.
abbrev pub is_between : ℕ → ℕ → ℕ → Bool
is_between lo hi c = leb lo c && leb c hi

unfoldable pub rune_width : Bytes → ℕ
rune_width s =
    let b0 = get_or s 0 0 in
    let b1 = get_or s 1 0 in
    let tail2 = is_between 128 191 (get_or s 2 0) in
    let tail3 = tail2 && is_between 128 191 (get_or s 3 0) in
    if is_between 194 223 b0 && is_between 128 191 b1
    then 2
    else if tail2
        && ((b0 == 224) && is_between 160 191 b1
            || (is_between 225 236 b0 || is_between 238 239 b0) && is_between 128 191 b1
            || (b0 == 237) && is_between 128 159 b1)
    then 3
    else if tail3
        && ((b0 == 240) && is_between 144 191 b1
            || is_between 241 243 b0 && is_between 128 191 b1
            || (b0 == 244) && is_between 128 143 b1)
    then 4
    else 1

-- `len([]rune(s))`, after `skip` bytes of the rune that was read last.
unfoldable pub rune_count_from : ℕ → Bytes → ℕ
rune_count_from skip [] = 0
rune_count_from (suc skip) (c ∷ s) = rune_count_from skip s
rune_count_from zero (c ∷ s) = suc (rune_count_from (rune_width (c ∷ s) - 1) s)

unfoldable pub str_len : Bytes → ℕ → ℕ → Bool
unfolding rune_count_from rune_width
str_len s min max = let n = rune_count_from 0 s in leb min n && leb n max

unfoldable pub next_path : Bytes → Bytes
next_path next =
    if bytes_eq next [] || ltb 512 (length next)
    then codes "/app"
    else if not (has_prefix (codes "/app") next)
    then codes "/app"
    else if has_prefix (codes "//") next || contains (92 ∷ []) next
    then codes "/app"
    else if contains_any (13 ∷ 10 ∷ []) next
    then codes "/app"
    else next

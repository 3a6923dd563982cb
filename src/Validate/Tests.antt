-- ===== src/Validate/Tests.antt =====
-- Tests of the target validation and of NextPath, with a small `Net`.
use shortr.Base.{◌⊎◌, ◌≡◌, refl, false, [], ◌∷◌, ◌++◌, Option, none, some, ◌==◌, if◌then◌else◌}
use shortr.Base.Bytes.{
  Bytes, codes, bytes_eq, has_prefix, drop_prefix, contains, to_lower, has_suffix,
}
use shortr.Validate.{
  Net, Url, refused, private_target, blocked_domain, target_url, next_path, trim_space, is_blocked,
  is_private_host, check_url,
}
use shortr.Validate.Next.{StaysOnSite, next_path-StaysOnSite}
use shortr.Validate.Target.{IsAdmitted, target_url_sound}

-- The text up to the first slash, and the rest.
unfoldable pub split_slash : Bytes → Bytes × Bytes
split_slash [] = ([], [])
split_slash (c ∷ s) = let (a, b) = split_slash s in if c == b'/' then ([], c ∷ s) else (c ∷ a, b)

-- A `Net` that reads URLs of the form https://host/path, and no addresses.
unfoldable pub parse_https : Bytes → Option (Url × Bytes)
unfolding split_slash
parse_https s =
    if has_prefix (codes "https://") s
    then (let (host, path) = split_slash (drop_prefix (codes "https://") s) in
        some (
          record { scheme = codes "https"; host = host; has_user = contains (b'@' ∷ []) host },
          path,
        ))
    else none

abbrev pub small_net : Net
small_net = record {
  Rest = Bytes;
  parse = parse_https;
  hostname = λ u. u.host;
  to_string = λ u path. u.scheme ++ (codes "://" ++ (u.host ++ path));
  parse_ip = λ s. none;
  is_special = λ ip. false;
  to4 = λ ip. none;
}

abbrev raw : Bytes
raw = codes " https://Example.COM/a "

target_url_sound_example :
    (u : Url) × (rest : Bytes) × IsAdmitted small_net raw 2048 false
      (codes "evil.com" ∷ [])
      (codes "sho.rt")
      u
      rest
      (codes "https://example.com/a")
unfolding target_url check_url parse_https trim_space is_blocked is_private_host bytes_eq has_prefix
    to_lower contains has_suffix
target_url_sound_example =
    target_url_sound small_net raw 2048 false (codes "evil.com" ∷ []) (codes "sho.rt")
      (codes "https://example.com/a") refl

subdomain_is_blocked :
    target_url small_net (codes "https://a.evil.com/") 2048 false (codes "evil.com" ∷ []) []
    ≡ refused blocked_domain
unfolding target_url check_url parse_https trim_space is_blocked bytes_eq has_prefix to_lower
    contains has_suffix
subdomain_is_blocked = refl

local_is_private :
    target_url small_net (codes "https://printer.local/") 2048 false [] [] ≡ refused private_target
unfolding target_url check_url parse_https trim_space is_private_host bytes_eq has_prefix to_lower
    contains has_suffix
local_is_private = refl

protocol_relative : next_path (codes "//evil.com") ≡ codes "/app"
unfolding next_path bytes_eq has_prefix
protocol_relative = refl

under_app : next_path (codes "/app/links") ≡ codes "/app/links"
unfolding next_path bytes_eq has_prefix contains
under_app = refl

next_path-StaysOnSite_example :
    StaysOnSite (next_path (codes "//evil.com"))
    × ((next_path (codes "//evil.com") ≡ codes "//evil.com")
        ⊎ (next_path (codes "//evil.com") ≡ codes "/app"))
    × (next_path (next_path (codes "//evil.com")) ≡ next_path (codes "//evil.com"))
next_path-StaysOnSite_example = next_path-StaysOnSite (codes "//evil.com")

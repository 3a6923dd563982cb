-- ===== src/Validate/Target.antt =====
-- TargetURL: what an accepted link target is.
use shortr.Base.{
  ℕ, ◌≤◌, ◌≡◌, ◌⊎◌, inl, inr, Bool, false, not, ◌&&◌, List, [], some, length, any, Option-cases,
  arith,
}
use shortr.Base.Bytes.{Bytes, codes, bytes_eq, bytes_eq_iff, to_lower}
use shortr.Validate.{
  Net, Url, accepted, trim_space, is_blocked, is_private_host, check_url, target_url,
}

module _ (net : Net) (raw : Bytes) (max_len : ℕ) (allow_private : Bool) (blocked : List Bytes)
    (self_host : Bytes) where
  open net use {Rest, parse, hostname, to_string}

  -- The URL `u` is an admissible target, and `s` is its normal form.
  pub record IsAdmitted (u : Url) (rest : Rest) (s : Bytes) : Type 0 where
    pub parsed : parse (trim_space raw) ≡ some (u, rest)
    pub bounded : length (trim_space raw) ≤ max_len
    pub web : (to_lower u.scheme ≡ codes "http") ⊎ (to_lower u.scheme ≡ codes "https")
    pub no_credentials : u.has_user ≡ false
    pub has_host : bytes_eq u.host [] ≡ false
    pub elsewhere :
        (not (bytes_eq self_host []) && bytes_eq (to_lower (hostname u)) (to_lower self_host))
        ≡ false
    pub not_blocked : any (is_blocked (to_lower (hostname u))) blocked ≡ false
    pub reachable : (not allow_private && is_private_host net (to_lower (hostname u))) ≡ false
    pub normal :
        s ≡ to_string (record u { scheme = to_lower u.scheme; host = to_lower u.host }) rest

  check_url_sound :
      (u : Url) (rest : Rest) (s : Bytes)
      → parse (trim_space raw) ≡ some (u, rest)
      → length (trim_space raw) ≤ max_len
      → check_url net u rest allow_private blocked self_host ≡ accepted s
      → IsAdmitted u rest s
  unfolding check_url
  check_url_sound u rest s p b h = record {
    parsed = p;
    bounded = b;
    web = ground (
      arith,
      bytes_eq_iff (to_lower u.scheme) (codes "http"),
      bytes_eq_iff (to_lower u.scheme) (codes "https"),
    );
    no_credentials = ground arith;
    has_host = ground arith;
    elsewhere = ground arith;
    not_blocked = ground arith;
    reachable = ground arith;
    normal = ground arith;
  }

  -- An accepted link target is a URL of at most the permitted length that Go parses, with the scheme
  -- http or https, a host and no credentials, whose host is not this shortener's, no blocked domain or
  -- a subdomain of one, and not private unless private targets are allowed. What is stored is the URL
  -- with its scheme and host in lower case.
  pub target_url_sound :
      (s : Bytes)
      → target_url net raw max_len allow_private blocked self_host ≡ accepted s
      → (u : Url) × (rest : Rest) × IsAdmitted u rest s
  unfolding target_url
  target_url_sound s h = elim (Option-cases (parse (trim_space raw))) [
    | inl bad ↦ absurd (ground arith)
    | inr ((u, rest), p) ↦ (u, rest, check_url_sound u rest s p (ground arith) (ground arith))
  ]

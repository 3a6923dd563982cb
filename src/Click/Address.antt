-- ===== src/Click/Address.antt =====
-- internal/click/ipmode.go: what is kept of a visitor's address. `net.IP` is Go's; an address is given
-- by its bytes. `day` is the date of the clock in UTC.
use shortr.Base.{
  ◌<◌, sym, ◌∙◌, get_or-take, ℕ, zero, suc, ◌≡◌, refl, ap, ◌⊎◌, inl, inr, false, [], ◌∷◌, ◌++◌,
  Option, none, some, is_some, take, get_or, if◌then◌else◌, arith,
}
use shortr.Base.Bytes.{Bytes, codes, bytes_eq}

pub record IpLib : Type 0 where
  pub to4 : Bytes → Option Bytes
  pub to16 : Bytes → Option Bytes
  pub ip_string : Bytes → Bytes
  pub ipv4 : ℕ → ℕ → ℕ → ℕ → Bytes
  pub hmac : Bytes → Bytes → Bytes
  pub hex : Bytes → Bytes

abbrev pub zeros : ℕ → Bytes
zeros zero = []
zeros (suc n) = 0 ∷ zeros n

module _ (ipl : IpLib) where
  -- The mode `anonymize`, which is that of any unknown name too.
  unfoldable pub anonymize : Bytes → Bytes
  anonymize ip = elim (ipl.to4 ip) [
    | some v4 ↦ ipl.ip_string (ipl.ipv4 (get_or v4 0 0) (get_or v4 1 0) (get_or v4 2 0) 0)
    | none ↦ elim (ipl.to16 ip) [ none ↦ [] | some v6 ↦ ipl.ip_string (take 6 v6 ++ zeros 10) ]
  ]

  unfoldable pub apply_ip_mode : Bytes → Option Bytes → Bytes → Bytes → Bytes
  unfolding anonymize
  apply_ip_mode mode none secret day = []
  apply_ip_mode mode (some ip) secret day =
      if bytes_eq mode (codes "full")
      then ipl.ip_string ip
      else if bytes_eq mode (codes "none")
      then []
      else if bytes_eq mode (codes "hash")
      then take 32 (ipl.hex (ipl.hmac secret (day ++ ip)))
      else anonymize ip

  -- `ip.To4()` of the nil address is nil.
  unfoldable pub ip_version : Option Bytes → ℕ
  ip_version none = 6
  ip_version (some ip) = if is_some (ipl.to4 ip) then 4 else 6

  -- Two addresses of one network: equal in the first 24 bits of version 4, or the first 48 of
  -- version 6.
  abbrev pub SameNetwork : Bytes → Bytes → Type 0
  SameNetwork ip ip' =
      ((a : Bytes) × (b : Bytes) × (ipl.to4 ip ≡ some a)
        × (ipl.to4 ip' ≡ some b)
        × (take 3 a ≡ take 3 b))
      ⊎ ((a : Bytes) × (b : Bytes) × (ipl.to4 ip ≡ none)
          × (ipl.to4 ip' ≡ none)
          × (ipl.to16 ip ≡ some a)
          × (ipl.to16 ip' ≡ some b)
          × (take 6 a ≡ take 6 b))

  anonymize-SameNetwork : (ip ip' : Bytes) → SameNetwork ip ip' → anonymize ip ≡ anonymize ip'
  unfolding anonymize
  anonymize-SameNetwork ip ip' (inl (a, b, v, v', same)) =
      rw
        (
          v,
          v',
          anonymize,
          byte_of 0 a b same (omega arith),
          byte_of 1 a b same (omega arith),
          byte_of 2 a b same (omega arith),
        )
        refl
    where
      byte_of : (i : ℕ) (a b : Bytes) → take 3 a ≡ take 3 b → i < 3 → get_or a i 0 ≡ get_or b i 0
      byte_of i a b h lt =
          sym (get_or-take 3 i a 0 lt) ∙ ap (λ s. get_or s i 0) h ∙ get_or-take 3 i b 0 lt
  anonymize-SameNetwork ip ip' (inr (a, b, v, v', w, w', same)) =
      rw (v, v', anonymize) (rw (w, w', same) refl)

  -- Unless the mode is "full" or "hash", what is stored of a visitor's address is the same for all
  -- addresses of its network: the /24 of version 4, the /48 of version 6.
  pub apply_ip_mode-SameNetwork :
      (mode ip ip' secret day : Bytes)
      → bytes_eq mode (codes "full") ≡ false
      → bytes_eq mode (codes "hash") ≡ false
      → SameNetwork ip ip'
      → apply_ip_mode mode (some ip) secret day ≡ apply_ip_mode mode (some ip') secret day
  unfolding apply_ip_mode
  apply_ip_mode-SameNetwork mode ip ip' secret day full hash net =
      rw (full, hash, anonymize-SameNetwork ip ip' net) refl

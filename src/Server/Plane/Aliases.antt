-- ===== src/Server/Plane/Aliases.antt =====
-- The aliases that the validation accepts, on the public listener.
use shortr.Base.{ℕ, ◌≡◌, refl, Bool, true, false, not, ◌||◌, [], ◌∷◌, none, all, arith}
use shortr.Base.Bytes.{Bytes, codes, bytes_eq, bytes_eq_iff, has_prefix, to_lower}
use shortr.Link.Code.{
  alias_char, is_reserved, valid_alias_chars, alias_error, valid_code_path_segment,
}
use shortr.Link.Code.Chars.{valid_code_path_segment_of_valid_alias}
use shortr.Server.Plane.{PlaneConfig, public_allowed}

all_of_prefix :
    (f : ℕ → Bool) (p s : Bytes) → all f s ≡ true → all f p ≡ false → has_prefix p s ≡ false
unfolding has_prefix
all_of_prefix f [] s h bad = absurd (ground arith)
all_of_prefix f (x ∷ p) [] h bad = refl
all_of_prefix f (x ∷ p) (y ∷ s) h bad = ground (arith, all_of_prefix f p s)

ne_reserved : (c w : Bytes) → is_reserved c ≡ false → is_reserved w ≡ true → bytes_eq c w ≡ false
ne_reserved c w free word = ground (arith, bytes_eq_iff c w)

alias_parts :
    (c : Bytes)
    → alias_error is_reserved valid_alias_chars c ≡ none
    → (is_reserved c ≡ false) × (valid_alias_chars c ≡ true)
unfolding alias_error
alias_parts c h = (ground arith, ground arith)

chars_of_valid : (c : Bytes) → valid_alias_chars c ≡ true → all alias_char c ≡ true
unfolding valid_alias_chars
chars_of_valid c h = ground arith

-- A short code whose alias the validation accepts is let through by the redirect handler's first
-- filter, and the public listener serves it, with one exception: the alias "mcp" is hidden unless the
-- public API is switched on.
pub public_allowed-alias :
    (cfg : PlaneConfig) (c : Bytes)
    → alias_error is_reserved valid_alias_chars c ≡ none
    → (public_allowed cfg (b'/' ∷ c) ≡ (not (bytes_eq c (codes "mcp")) || cfg.public_api))
      × (valid_code_path_segment c ≡ true)
unfolding public_allowed bytes_eq has_prefix is_reserved to_lower
public_allowed-alias cfg c h =
    let (free, valid) = alias_parts c h in
    let chars = chars_of_valid c valid in
    let word = λ (w : Bytes) (r : is_reserved w ≡ true). ne_reserved c w free r in
    let long = λ (p : Bytes) (r : all alias_char p ≡ false). all_of_prefix alias_char p c chars r in
    (
      ground (
        arith,
        word (codes "healthz") refl,
        word (codes "readyz") refl,
        word (codes "robots.txt") refl,
        word (codes "metrics") refl,
        word (codes "version") refl,
        word (codes "app") refl,
        long (codes "app/") refl,
        long (codes "auth/") refl,
        long (codes "api/") refl,
        long (codes "api/v1/users") refl,
        long (codes "api/v1/settings") refl,
        long (codes "api/v1/audit") refl,
        long (codes "api/v1/admin/") refl,
      ),
      valid_code_path_segment_of_valid_alias c valid,
    )

-- ===== src/Link/Code/Chars.antt =====
-- What an accepted alias looks like: it can be routed, and it is no reserved word.
use shortr.Base.{ℕ, ◌≡◌, refl, true, [], ◌∷◌, all, arith}
use shortr.Base.Bytes.{Bytes}
use shortr.Link.Code.{alias_char, path_char, valid_alias_chars, valid_code_path_segment}

path_char_of_alias_char : (c : ℕ) → alias_char c ≡ true → path_char c ≡ true
path_char_of_alias_char c h = ground arith

pub all-path_char : (s : Bytes) → all alias_char s ≡ true → all path_char s ≡ true
all-path_char [] h = refl
all-path_char (c ∷ s) h = ground (arith, path_char_of_alias_char c, all-path_char s)

-- Whatever alias the validation admits, the redirect handler's first filter lets it through.
pub valid_code_path_segment_of_valid_alias :
    (s : Bytes) → valid_alias_chars s ≡ true → valid_code_path_segment s ≡ true
unfolding valid_alias_chars valid_code_path_segment
valid_code_path_segment_of_valid_alias s h = ground (arith, all-path_char s)

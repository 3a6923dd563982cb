-- ===== src/Link/Code.antt =====
-- internal/link/code.go and the alias rule of internal/validate/validate.go. Strings are lists of
-- bytes. A byte above 127 is part of a rune that no case of the character tests admits, so a test
-- of each byte is the source's test of each rune.
pub mod Chars
pub mod Generate
pub mod Fair
use mathlib.Core.List.{reverse}
use shortr.Base.{
  ℕ, zero, suc, ◌+◌, ◌-◌, ◌*◌, ◌%◌, Bool, true, false, ◌&&◌, ◌||◌, List, [], ◌∷◌, ◌++◌, Option,
  none, some, length, get_or, all, ltb, leb, ◌==◌, if◌then◌else◌,
}
use shortr.Base.Bytes.{Bytes, codes, bytes_eq, to_lower, member, is_upper, is_lower, is_digit}

abbrev pub alphabet_base58 : Bytes
alphabet_base58 = codes "123456789ABCDEFGHJKLMNPQRSTUVWXYZabcdefghijkmnopqrstuvwxyz"

abbrev pub alphabet_base62 : Bytes
alphabet_base62 = codes "0123456789ABCDEFGHIJKLMNOPQRSTUVWXYZabcdefghijklmnopqrstuvwxyz"

abbrev pub reserved : List Bytes
reserved =
    codes "api"
    ∷ codes "app"
    ∷ codes "auth"
    ∷ codes "admin"
    ∷ codes "assets"
    ∷ codes "static"
    ∷ codes "metrics"
    ∷ codes "health"
    ∷ codes "healthz"
    ∷ codes "readyz"
    ∷ codes "ready"
    ∷ codes "robots.txt"
    ∷ codes "favicon.ico"
    ∷ codes "sitemap.xml"
    ∷ codes "login"
    ∷ codes "logout"
    ∷ codes "setup"
    ∷ codes "oidc"
    ∷ codes "qr"
    ∷ codes "s"
    ∷ codes "u"
    ∷ codes "l"
    ∷ codes "p"
    ∷ codes "docs"
    ∷ codes "version"
    ∷ codes "debug"
    ∷ codes ".well-known"
    ∷ []

-- `byte(256 - (256 % n))`
abbrev pub limit : ℕ → ℕ
limit n = (256 - 256 % n) % 256

-- The body of the loop over one buffer: `none` is the `continue` of a rejected byte.
unfoldable pub pick : Bytes → ℕ → Option ℕ
pick alphabet b =
    if leb (limit (length alphabet)) b then none else some (get_or alphabet (b % length alphabet) 0)

-- The loop over one buffer, which stops when `out` has `len` bytes.
unfoldable pub fill : Bytes → ℕ → Bytes → List ℕ → Bytes
fill alphabet len out [] = out
fill alphabet len out (b ∷ buf) = elim (pick alphabet b) [
  | none ↦ fill alphabet len out buf
  | some c ↦ elim (length (out ++ c ∷ []) == len) [
    | true ↦ out ++ c ∷ []
    | false ↦ fill alphabet len (out ++ c ∷ []) buf
  ]
]

pub data Generated : Type 0 where
  code : Bytes → Generated
  rand_failed out_of_fuel : Generated

-- The outer loop. `read i` is the result of the call number `i` of `rand.Read`: the buffer that it
-- fills, or its error. `fuel` bounds the calls.
unfoldable pub draw : (ℕ → Option (List ℕ)) → ℕ → Bytes → ℕ → ℕ → Bytes → Generated
draw read zero alphabet len i out = if ltb (length out) len then out_of_fuel else code out
draw read (suc fuel) alphabet len i out = elim (ltb (length out) len) [
  | false ↦ code out
  | true ↦ elim (read i) [
    | none ↦ rand_failed
    | some buf ↦ draw read fuel alphabet len (suc i) (fill alphabet len out buf)
  ]
]

abbrev pub code_length : ℕ → ℕ
code_length len = if ltb len 4 then 4 else len

unfoldable pub generate_code : (ℕ → Option (List ℕ)) → ℕ → Bytes → ℕ → Generated
generate_code read fuel alphabet len = draw read fuel alphabet (code_length len) 0 []

abbrev pub alias_char : ℕ → Bool
alias_char c = is_lower c || is_upper c || is_digit c || (c == b'-') || (c == b'_')

abbrev pub is_mark : ℕ → Bool
is_mark c = (c == b'-') || (c == b'_')

unfoldable pub valid_alias_chars : Bytes → Bool
valid_alias_chars s =
    if ltb (length s) 1 || ltb 64 (length s)
    then false
    else if is_mark (get_or s 0 0) || is_mark (get_or (reverse s) 0 0)
    then false
    else all alias_char s

unfoldable pub is_reserved : Bytes → Bool
is_reserved [] = true
is_reserved (c ∷ s) =
    if (c == b'_') || (c == b'.') then true else member (to_lower (c ∷ s)) reserved

abbrev pub path_char : ℕ → Bool
path_char c = is_lower c || is_upper c || is_digit c || (c == b'-') || (c == b'_') || (c == b'.')

unfoldable pub valid_code_path_segment : Bytes → Bool
valid_code_path_segment s = if (length s == 0) || ltb 64 (length s) then false else all path_char s

pub data AliasError : Type 0 where
  bad_chars alias_reserved : AliasError

-- `validate.Alias`, with `nil` as `none`.
unfoldable pub alias_error : (Bytes → Bool) → (Bytes → Bool) → Bytes → Option AliasError
alias_error reserved_test valid_test s =
    if valid_test s then (if reserved_test s then some alias_reserved else none) else some bad_chars

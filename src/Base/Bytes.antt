-- ===== src/Base/Bytes.antt =====
-- Go strings as lists of bytes: equality, prefixes, suffixes, the ASCII case mapping, trimming.
use Prim.Native.Char.{code}
use Prim.Native.Nat.{ℕ, ◌+◌}
use Prim.Native.String.{String}
use mathlib.Core.Path.{◌≡◌, refl}
use mathlib.Core.Bool.{Bool, true, false, ◌&&◌, ◌||◌}
use mathlib.Core.List.{List, [], ◌∷◌, ◌++◌, map, reverse}
use mathlib.Core.Logic.{◌↔◌}
use native.Mathlib.Omega.{arith}
use shortr.Base.Tests.{leb, ◌==◌, if◌then◌else◌}

-- A Go string.
abbrev pub Bytes : Type 0
Bytes = List ℕ

-- The bytes of an ASCII literal.
abbrev pub codes : String → Bytes
codes String.[] = []
codes (String.◌∷◌ c s) = code c ∷ codes s

-- `a == b` on strings.
unfoldable pub bytes_eq : Bytes → Bytes → Bool
bytes_eq [] [] = true
bytes_eq (x ∷ xs) (y ∷ ys) = (x == y) && bytes_eq xs ys
bytes_eq _ _ = false

pub bytes_eq_sound : (a b : Bytes) → bytes_eq a b ≡ true → a ≡ b
unfolding bytes_eq
bytes_eq_sound [] [] h = refl
bytes_eq_sound [] (y ∷ ys) h = ground arith
bytes_eq_sound (x ∷ xs) [] h = ground arith
bytes_eq_sound (x ∷ xs) (y ∷ ys) h = ground (arith, bytes_eq_sound xs ys)

pub bytes_eq_refl : (a : Bytes) → bytes_eq a a ≡ true
unfolding bytes_eq
bytes_eq_refl [] = refl
bytes_eq_refl (x ∷ xs) = ground (arith, bytes_eq_refl xs)

pub bytes_eq_iff : (a b : Bytes) → (bytes_eq a b ≡ true) ↔ (a ≡ b)
bytes_eq_iff a b = (bytes_eq_sound a b, λ e. cc (e, bytes_eq_refl a))

-- `strings.HasPrefix(s, p)`, with the prefix first.
unfoldable pub has_prefix : Bytes → Bytes → Bool
has_prefix [] s = true
has_prefix (x ∷ p) [] = false
has_prefix (x ∷ p) (y ∷ s) = (x == y) && has_prefix p s

-- `strings.TrimPrefix(s, p)`, with the prefix first.
abbrev pub drop_prefix : Bytes → Bytes → Bytes
drop_prefix [] s = s
drop_prefix (x ∷ p) [] = []
drop_prefix (x ∷ p) (y ∷ s) = drop_prefix p s

unfoldable pub trim_prefix : Bytes → Bytes → Bytes
trim_prefix p s = if has_prefix p s then drop_prefix p s else s

unfoldable pub has_suffix : Bytes → Bytes → Bool
has_suffix p s = has_prefix (reverse p) (reverse s)

unfoldable pub trim_suffix : Bytes → Bytes → Bytes
trim_suffix p s = if has_suffix p s then reverse (drop_prefix (reverse p) (reverse s)) else s

-- `strings.Contains(s, p)`, with the part first.
unfoldable pub contains : Bytes → Bytes → Bool
contains p [] = has_prefix p []
contains p (y ∷ s) = has_prefix p (y ∷ s) || contains p s

pub has_prefix-append : (p s : Bytes) → has_prefix p (p ++ s) ≡ true
unfolding has_prefix
has_prefix-append [] s = refl
has_prefix-append (x ∷ p) s = ground (arith, has_prefix-append p s)

pub trim_prefix-append : (p s : Bytes) → trim_prefix p (p ++ s) ≡ s
unfolding trim_prefix
trim_prefix-append p s = ground (arith, has_prefix-append p s, drop_lem p s)
  where
    drop_lem : (q t : Bytes) → drop_prefix q (q ++ t) ≡ t
    drop_lem [] t = refl
    drop_lem (x ∷ q) t = drop_lem q t

pub append-trim_prefix : (p s : Bytes) → has_prefix p s ≡ true → s ≡ p ++ trim_prefix p s
unfolding trim_prefix has_prefix
append-trim_prefix p s h = ground (arith, h, drop_lem p s h)
  where
    drop_lem : (q t : Bytes) → has_prefix q t ≡ true → t ≡ q ++ drop_prefix q t
    drop_lem [] t h' = refl
    drop_lem (x ∷ q) [] h' = ground (arith, h')
    drop_lem (x ∷ q) (y ∷ t) h' = ground (arith, h', drop_lem q t)

abbrev pub is_upper : ℕ → Bool
is_upper c = leb b'A' c && leb c b'Z'

abbrev pub is_lower : ℕ → Bool
is_lower c = leb b'a' c && leb c b'z'

abbrev pub is_digit : ℕ → Bool
is_digit c = leb b'0' c && leb c b'9'

-- `strings.ToLower`, on ASCII text.
abbrev pub lower_byte : ℕ → ℕ
lower_byte c = if is_upper c then c + 32 else c

unfoldable pub to_lower : Bytes → Bytes
to_lower s = map lower_byte s

-- `s` is in the list.
abbrev pub member : Bytes → List Bytes → Bool
member s [] = false
member s (x ∷ xs) = bytes_eq x s || member s xs

-- ===== src/Auth/Tests.antt =====
-- Tests of the signed cookies, with a small `Codec`.
use shortr.Base.{
  ap, ℕ, ◌+◌, ◌-◌, ◌≡◌, ◌≤◌, refl, true, not, [], ◌∷◌, ◌++◌, map, all, Option, none, some, ◌==◌,
  arith,
}
use shortr.Base.Bytes.{Bytes, codes, bytes_eq}
use shortr.Auth.SignedCookie.{Codec, seconds, split_dot, compute_mac, seal_value, open_value}
use shortr.Auth.SignedCookie.Laws.{open_value-seal_value, open_value_sound}

shift_back : (s : Bytes) → map (λ c. c - 100) (map (λ c. c + 100) s) ≡ s
shift_back [] = refl
shift_back (c ∷ s) = ground (arith, shift_back s)

pub unb64_shift : (s : Bytes) → some (map (λ c. c - 100) (map (λ c. c + 100) s)) ≡ some s
unb64_shift s = ap some (shift_back s)

pub shift_no_dot : (s : Bytes) → all (λ c. not (c == b'.')) (map (λ c. c + 100) s) ≡ true
shift_no_dot [] = refl
shift_no_dot (c ∷ s) = ground (arith, shift_no_dot s)

abbrev read_one : Bytes → Option ℕ
read_one [] = none
read_one (n ∷ s) = some n

-- Bytes moved out of the range of the dot, and a MAC that is the key and the text.
abbrev pub small_codec : Codec
small_codec = record {
  b64 = map (λ c. c + 100);
  unb64 = λ s. some (map (λ c. c - 100) s);
  format_int = λ n. n ∷ [];
  parse_int = read_one;
  hmac = λ k s. k ++ s;
  unb64_b64 = unb64_shift;
  b64_no_dot = shift_no_dot;
  parse_format = λ n. refl;
}

open_value-seal_value_example :
    open_value small_codec
      (codes "key")
      (seal_value small_codec (codes "key") (codes "state") 5_000_000_000 1_000_000_000)
      7_000_000_000
    ≡ none
open_value-seal_value_example =
    open_value-seal_value small_codec (codes "key") (codes "state") 5_000_000_000 1_000_000_000
      7_000_000_000

abbrev token : Bytes
token = 201 ∷ 46 ∷ 105 ∷ 46 ∷ 175 ∷ 201 ∷ 100 ∷ 105 ∷ []

open_value_sound_example :
    (p : Bytes) × (e : Bytes) × (m : Bytes) × (rest : Bytes) × (exp : Bytes) × (expiry : ℕ)
    × (split_dot token ≡ some (p, rest))
    × (split_dot rest ≡ some (e, m))
    × (small_codec.unb64 p ≡ some (101 ∷ []))
    × (small_codec.unb64 e ≡ some exp)
    × (small_codec.unb64 m ≡ some (compute_mac small_codec (75 ∷ []) (101 ∷ []) exp))
    × (small_codec.parse_int exp ≡ some expiry)
    × (seconds 5_000_000_000 ≤ expiry)
unfolding open_value split_dot bytes_eq compute_mac
open_value_sound_example =
    open_value_sound small_codec (75 ∷ []) token (101 ∷ []) 5_000_000_000 refl

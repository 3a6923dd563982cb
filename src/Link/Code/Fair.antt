-- ===== src/Link/Code/Fair.antt =====
-- The rejection sampling of GenerateCode, and the codes that it returns.
use shortr.Base.{
  ℕ, zero, suc, ◌≡◌, refl, Bool, true, false, [], ◌∷◌, Option, none, some, ◌==◌, ==_iff, Bool-cases,
  ◌⊎◌, inl, inr, subst, all, All, arith,
}
use shortr.Base.Bytes.{Bytes}
use shortr.Link.Code.{pick, alphabet_base58, alphabet_base62}
use shortr.Link.Code.Generate.{has_char}

abbrev is_pick : ℕ → Option ℕ → Bool
is_pick c none = false
is_pick c (some d) = c == d

-- How many of the bytes below `n` give the character `c`.
pub hits : Bytes → ℕ → ℕ → ℕ
hits alphabet c zero = 0
hits alphabet c (suc n) = elim (is_pick c (pick alphabet n)) [
  | true ↦ suc (hits alphabet c n)
  | false ↦ hits alphabet c n
]

has_char-All : (P : ℕ → Type 0) (s : Bytes) (c : ℕ) → All P s → has_char s c ≡ true → P c
has_char-All P [] c h e = cc
has_char-All P (x ∷ s) c (px, h) e = elim (Bool-cases (x == c)) [
  | inl same ↦ subst P ((==_iff x c).0 same) px
  | inr other ↦ has_char-All P s c h (ground arith)
]

counted :
    (alphabet s : Bytes)
    → all (λ c. hits alphabet c 256 == 4) s ≡ true
    → All (λ c. hits alphabet c 256 ≡ 4) s
counted alphabet [] h = tt
counted alphabet (c ∷ s) h = (ground arith, counted alphabet s (ground arith))

base58_table : all (λ c. hits alphabet_base58 c 256 == 4) alphabet_base58 ≡ true
unfolding hits pick
base58_table = refl

base62_table : all (λ c. hits alphabet_base62 c 256 == 4) alphabet_base62 ≡ true
unfolding hits pick
base62_table = refl

-- The sampling has no modulo bias: of the 256 values of a random byte exactly four give each
-- character of either alphabet, so that the accepted bytes are spread evenly.
pub pick_uniform :
    (alphabet : Bytes) (c : ℕ)
    → (alphabet ≡ alphabet_base58) ⊎ (alphabet ≡ alphabet_base62)
    → has_char alphabet c ≡ true
    → hits alphabet c 256 ≡ 4
pick_uniform alphabet c (inl e) h =
    has_char-All (λ x. hits alphabet x 256 ≡ 4) alphabet c
      (rw e (counted alphabet_base58 alphabet_base58 base58_table)) h
pick_uniform alphabet c (inr e) h =
    has_char-All (λ x. hits alphabet x 256 ≡ 4) alphabet c
      (rw e (counted alphabet_base62 alphabet_base62 base62_table)) h

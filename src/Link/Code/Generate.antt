-- ===== src/Link/Code/Generate.antt =====
-- GenerateCode: what it returns, and that it returns.
use shortr.Base.{
  ℕ, zero, suc, ◌+◌, ◌%◌, ◌≤◌, ◌<◌, ◌≡◌, inl, inr, Bool, true, false, List, [], ◌∷◌, ◌++◌, Option,
  none, some, length, length-append, get_or, any, All, All-append, ltb, ltb→lt, ◌==◌, Bool-cases,
  Option-cases, arith,
}
use shortr.Base.Bytes.{Bytes}
use shortr.Link.Code.{limit, pick, fill, draw, code, generate_code, code_length}

-- The alphabet has the byte.
abbrev pub has_char : Bytes → ℕ → Bool
has_char alphabet c = any (λ x. x == c) alphabet

has_char-get_or : (a : Bytes) (i : ℕ) → i < length a → has_char a (get_or a i 0) ≡ true
has_char-get_or [] i h = absurd (omega arith)
has_char-get_or (x ∷ a) zero h = ground arith
has_char-get_or (x ∷ a) (suc i) h = ground (arith, has_char-get_or a i)

pick-has_char : (a : Bytes) (b c : ℕ) → 0 < length a → pick a b ≡ some c → has_char a c ≡ true
unfolding pick
pick-has_char a b c pos h = ground (arith, has_char-get_or a (b % length a) (omega arith))

pick-none : (a : Bytes) (b : ℕ) → pick a b ≡ none → ltb b (limit (length a)) ≡ false
unfolding pick
pick-none a b e = ground arith

module _ (a : Bytes) (len : ℕ) where
  fill-length-le : (out buf : List ℕ) → length out < len → length (fill a len out buf) ≤ len
  unfolding fill
  fill-length-le out [] h = omega arith
  fill-length-le out (b ∷ buf) h = elim (Option-cases (pick a b)) [
    | inl e ↦ ground (arith, fill-length-le out buf h)
    | inr (c, e) ↦ ground (arith, length-append out (c ∷ []), fill-length-le (out ++ c ∷ []) buf)
  ]

  -- A buffer with an accepted byte brings the loop forward.
  fill-grows : (out buf : List ℕ) → length out < len → length out ≤ length (fill a len out buf)
  unfolding fill
  fill-grows out [] h = omega arith
  fill-grows out (b ∷ buf) h = elim (Option-cases (pick a b)) [
    | inl e ↦ ground (arith, fill-grows out buf h)
    | inr (c, e) ↦ ground (arith, length-append out (c ∷ []), fill-grows (out ++ c ∷ []) buf)
  ]

  fill-gains :
      (out buf : List ℕ)
      → length out < len
      → any (λ b. ltb b (limit (length a))) buf ≡ true
      → length out < length (fill a len out buf)
  unfolding fill
  fill-gains out [] h p = cc
  fill-gains out (b ∷ buf) h p = elim (Option-cases (pick a b)) [
    | inl e ↦ ground (arith, fill-gains out buf h, pick-none a b e)
    | inr (c, e) ↦ ground (arith, length-append out (c ∷ []), fill-grows (out ++ c ∷ []) buf)
  ]

  fill-All :
      (out buf : List ℕ)
      → 0 < length a
      → All (λ c. has_char a c ≡ true) out
      → All (λ c. has_char a c ≡ true) (fill a len out buf)
  unfolding fill
  fill-All out [] pos h = h
  fill-All out (b ∷ buf) pos h = elim (Option-cases (pick a b)) [
    | inl e ↦ rw (e, fill) (fill-All out buf pos h)
    | inr (c, e) ↦
        let h' =
          All-append (λ x. has_char a x ≡ true) out (c ∷ []) h (pick-has_char a b c pos e, tt) in
        elim (Bool-cases (length (out ++ c ∷ []) == len)) [
          | inl q ↦ rw (e, q, fill) h'
          | inr q ↦ rw (e, q, fill) (fill-All (out ++ c ∷ []) buf pos h')
        ]
  ]

  -- A finished buffer is the code.
  finished :
      (out s : Bytes)
      → ltb (length out) len ≡ false
      → length out ≤ len
      → All (λ c. has_char a c ≡ true) out
      → code out ≡ code s
      → (length s ≡ len) × All (λ c. has_char a c ≡ true) s
  finished out s full le h e = let same : out ≡ s = cc in rw (← same) (ground arith, h)

  draw_sound :
      (read : ℕ → Option (List ℕ)) (fuel i : ℕ) (out s : Bytes)
      → 0 < length a
      → length out ≤ len
      → All (λ c. has_char a c ≡ true) out
      → draw read fuel a len i out ≡ code s
      → (length s ≡ len) × All (λ c. has_char a c ≡ true) s
  unfolding draw
  draw_sound read zero i out s pos le h e = elim (Bool-cases (ltb (length out) len)) [
    | inl more ↦ absurd (ground arith)
    | inr full ↦ finished out s full le h (ground arith)
  ]
  draw_sound read (suc fuel) i out s pos le h e = elim (Bool-cases (ltb (length out) len)) [
    | inr full ↦ finished out s full le h (ground arith)
    | inl more ↦ elim (Option-cases (read i)) [
      | inl failed ↦ absurd (ground arith)
      | inr (buf, given) ↦
          draw_sound read fuel (suc i) (fill a len out buf) s pos
            (fill-length-le out buf (ltb→lt _ _ more)) (fill-All out buf pos h) (ground arith)
    ]
  ]

  draw_total :
      (read : ℕ → Option (List ℕ)) (fuel i : ℕ) (out : Bytes)
      → ((j : ℕ)
          → (buf : List ℕ) × (read j ≡ some buf) × (any (λ b. ltb b (limit (length a))) buf ≡ true))
      → length out ≤ len
      → len ≤ length out + fuel
      → (s : Bytes) × (draw read fuel a len i out ≡ code s)
  unfolding draw
  draw_total read zero i out more le enough = (out, ground arith)
  draw_total read (suc fuel) i out more le enough = elim (Bool-cases (ltb (length out) len)) [
    | inr full ↦ (out, ground arith)
    | inl short ↦
        let (buf, given, accepted) = more i in
        let room = ltb→lt _ _ short in
        let gain = fill-gains out buf room accepted in
        let (s, e) =
          draw_total read fuel (suc i) (fill a len out buf) more (fill-length-le out buf room)
            (omega arith) in
        (s, ground arith)
  ]

-- GenerateCode returns, within as many reads as the code has characters, if no read fails and each
-- buffer has at least one byte below the rejection limit; and the code has the length that was
-- asked for, at least 4, with every character from the alphabet.
pub generate_code_total :
    (read : ℕ → Option (List ℕ)) (fuel : ℕ) (alphabet : Bytes) (len : ℕ)
    → ((i : ℕ)
        → (buf : List ℕ) × (read i ≡ some buf)
          × (any (λ b. ltb b (limit (length alphabet))) buf ≡ true))
    → 0 < length alphabet
    → code_length len ≤ fuel
    → (s : Bytes) × (generate_code read fuel alphabet len ≡ code s)
      × (length s ≡ code_length len)
      × All (λ c. has_char alphabet c ≡ true) s
unfolding generate_code
generate_code_total read fuel alphabet len more pos enough =
    let n = code_length len in
    let (s, e) = draw_total alphabet n read fuel 0 [] more (omega arith) (omega (arith, enough)) in
    let (exact, chars) = draw_sound alphabet n read fuel 0 [] s pos (omega arith) tt e in
    (s, e, exact, chars)

-- Whatever the source of randomness does, a code that GenerateCode returns has the length that was
-- asked for, at least 4, and all its characters are in the alphabet.
pub generate_code_sound :
    (read : ℕ → Option (List ℕ)) (fuel : ℕ) (alphabet : Bytes) (len : ℕ) (s : Bytes)
    → 0 < length alphabet
    → generate_code read fuel alphabet len ≡ code s
    → (length s ≡ code_length len) × All (λ c. has_char alphabet c ≡ true) s
unfolding generate_code
generate_code_sound read fuel alphabet len s pos e =
    draw_sound alphabet (code_length len) read fuel 0 [] s pos (omega arith) tt e

-- ===== src/Link/Cache/Nodes.antt =====
-- The list and the key set of a shard: what the primitive operations leave to be found.
use shortr.Base.{
  ◌+◌, ◌-◌, ◌≤◌, ◌<◌, ◌≡◌, refl, false, List, [], ◌∷◌, none, some, length, if◌then◌else◌,
  Bool-cases, inl, inr, map, any, arith,
}
use shortr.Base.Bytes.{
  Bytes, bytes_eq, bytes_eq_iff, bytes_eq_refl, member, is_upper, lower_byte, to_lower,
}
use shortr.Link.Cache.{Node, Entry, find, remove, back, remove_back, delete_key, lower_key}

pub member-delete_key :
    (c k : Bytes) (js : List Bytes)
    → member k (delete_key c js) ≡ (if bytes_eq c k then false else member k js)
unfolding delete_key
member-delete_key c k [] = ground arith
member-delete_key c k (j ∷ js) =
    ground (arith, bytes_eq_iff c k, bytes_eq_iff j c, bytes_eq_iff j k, member-delete_key c k js)

-- `toLower` is the ASCII lower case, the copy saved.
pub lower_key-to_lower : (s : Bytes) → lower_key s ≡ to_lower s
unfolding lower_key to_lower
lower_key-to_lower s = elim (Bool-cases (any is_upper s)) [
  | inl e ↦ rw e
  | inr e ↦ rw e (no_upper s e)
]
  where
    no_upper : (t : Bytes) → any is_upper t ≡ false → t ≡ map lower_byte t
    no_upper [] h = refl
    no_upper (c ∷ t) h = ground (arith, no_upper t)

module _ {ℓ} {L : Type ℓ} where
  -- No code twice.
  abbrev pub IsDistinct : List (Node L) → Type ℓ
  IsDistinct [] = Unit
  IsDistinct (n ∷ l) = (find n.code l ≡ none) × IsDistinct l

  pub find-remove :
      (c k : Bytes) (l : List (Node L))
      → IsDistinct l
      → find k (remove c l) ≡ (if bytes_eq c k then none else find k l)
  unfolding find remove
  find-remove c k [] d = ground arith
  find-remove c k (n ∷ l) (new, d) =
      ground
        (arith, bytes_eq_iff c k, bytes_eq_iff n.code c, bytes_eq_iff n.code k, find-remove c k l d)

  pub remove-IsDistinct : (c : Bytes) (l : List (Node L)) → IsDistinct l → IsDistinct (remove c l)
  unfolding remove
  remove-IsDistinct c [] d = tt
  remove-IsDistinct c (n ∷ l) (new, d) = elim (Bool-cases (bytes_eq n.code c)) [
    | inl e ↦ rw e d
    | inr e ↦ rw e (ground (arith, find-remove c n.code l d), remove-IsDistinct c l d)
  ]

  pub length-remove-le : (c : Bytes) (l : List (Node L)) → length (remove c l) ≤ length l
  unfolding remove
  length-remove-le c [] = omega arith
  length-remove-le c (n ∷ l) = ground (arith, length-remove-le c l)

  pub length-remove_found :
      (c : Bytes) (l : List (Node L)) (e : Entry L)
      → find c l ≡ some e
      → length (remove c l) + 1 ≡ length l
  unfolding find remove
  length-remove_found c [] e h = cc
  length-remove_found c (n ∷ l) e h = ground (arith, length-remove_found c l e)

  pub length-remove_back : (l : List (Node L)) → length (remove_back l) ≡ length l - 1
  unfolding remove_back
  length-remove_back [] = refl
  length-remove_back (n ∷ []) = refl
  length-remove_back (n ∷ m ∷ l) = omega (arith, length-remove_back (m ∷ l))

  back-cons : (n : Node L) (l : List (Node L)) → (m : Node L) × (back (n ∷ l) ≡ some m)
  unfolding back
  back-cons n [] = (n, refl)
  back-cons n (m ∷ l) = back-cons m l

  pub back_of_pos : (l : List (Node L)) → 0 < length l → (m : Node L) × (back l ≡ some m)
  back_of_pos [] h = elim h [ ]
  back_of_pos (n ∷ l) h = back-cons n l

  -- The last node is found.
  pub find-back :
      (l : List (Node L)) (b : Node L)
      → IsDistinct l
      → back l ≡ some b
      → find b.code l ≡ some b.entry
  unfolding find back
  find-back [] b d h = cc
  find-back (n ∷ []) b d h = ground (arith, bytes_eq_refl b.code)
  find-back (n ∷ m ∷ l) b (new, d) h =
      ground (arith, find-back (m ∷ l) b d h, bytes_eq_iff n.code b.code)

  pub find-remove_back :
      (k : Bytes) (l : List (Node L)) (b : Node L)
      → IsDistinct l
      → back l ≡ some b
      → find k (remove_back l) ≡ (if bytes_eq b.code k then none else find k l)
  unfolding find back remove_back
  find-remove_back k [] b d h = cc
  find-remove_back k (n ∷ []) b d h = ground arith
  find-remove_back k (n ∷ m ∷ l) b (new, d) h = ground (
    arith,
    find-remove_back k (m ∷ l) b d h,
    find-back (m ∷ l) b d h,
    bytes_eq_iff n.code k,
    bytes_eq_iff b.code k,
    bytes_eq_iff n.code b.code,
  )

  pub remove_back-IsDistinct : (l : List (Node L)) → IsDistinct l → IsDistinct (remove_back l)
  unfolding remove_back
  remove_back-IsDistinct [] d = tt
  remove_back-IsDistinct (n ∷ []) d = tt
  remove_back-IsDistinct (n ∷ m ∷ l) (new, d) =
      let (b, last) = back-cons m l in
      (ground (arith, find-remove_back n.code (m ∷ l) b d last), remove_back-IsDistinct (m ∷ l) d)

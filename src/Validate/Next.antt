-- ===== src/Validate/Next.antt =====
-- NextPath, the guard of the redirect after a login.
use shortr.Base.{
  ℕ, Bool, not, ◌≢◌, ◌==◌, All, if◌then◌else◌, ◌≤◌, ◌≡◌, refl, ◌⊎◌, true, false, ◌||◌, [], ◌∷◌,
  length, ltb, Bool-cases, inl, inr, arith,
}
use shortr.Base.Bytes.{Bytes, codes, bytes_eq, has_prefix, contains, append-trim_prefix}
use shortr.Validate.{next_path, contains_any}

-- A target that passes the checks.
pub record IsAccepted (p : Bytes) : Type 0 where
  pub under : has_prefix (codes "/app") p ≡ true
  pub one_slash : has_prefix (codes "//") p ≡ false
  pub no_backslash : contains (92 ∷ []) p ≡ false
  pub no_break : contains_any (13 ∷ 10 ∷ []) p ≡ false
  pub short : length p ≤ 512

app-IsAccepted : IsAccepted (codes "/app")
unfolding has_prefix contains
app-IsAccepted = record {
  under = refl;
  one_slash = refl;
  no_backslash = refl;
  no_break = refl;
  short = omega arith;
}

-- A rejected target is replaced.
fallback :
    (next p : Bytes)
    → p ≡ codes "/app"
    → ¬ IsAccepted next
    → IsAccepted p × ((p ≡ next) ⊎ ((p ≡ codes "/app") × (¬ IsAccepted next)))
fallback next p e bad = (rw e app-IsAccepted, inr (e, bad))

not_empty : (next : Bytes) → bytes_eq next [] ≡ true → IsAccepted next → ⊥
unfolding has_prefix bytes_eq
not_empty [] h v = ground (arith, v.under)
not_empty (c ∷ next) h v = ground arith

next_path-IsAccepted :
    (next : Bytes)
    → IsAccepted (next_path next)
      × ((next_path next ≡ next) ⊎ ((next_path next ≡ codes "/app") × (¬ IsAccepted next)))
unfolding next_path
next_path-IsAccepted next = elim (Bool-cases (bytes_eq next [] || ltb 512 (length next))) [
  | inl a ↦
      fallback next (next_path next) (rw (a, next_path))
        (λ v. ground (arith, v.short, not_empty next))
  | inr a ↦ elim (Bool-cases (has_prefix (codes "/app") next)) [
    | inr b ↦ fallback next (next_path next) (rw (a, b, next_path)) (λ v. ground (arith, v.under))
    | inl b ↦ elim (Bool-cases (has_prefix (codes "//") next || contains (92 ∷ []) next)) [
      | inl c ↦
          fallback next (next_path next) (rw (a, b, c, next_path))
            (λ v. ground (arith, v.one_slash, v.no_backslash))
      | inr c ↦ elim (Bool-cases (contains_any (13 ∷ 10 ∷ []) next)) [
        | inl d ↦
            fallback next (next_path next) (rw (a, b, c, d, next_path))
              (λ v. ground (arith, v.no_break))
        | inr d ↦
            rw (a, b, c, d, next_path)
              (
                record {
                  under = b;
                  one_slash = ground arith;
                  no_backslash = ground arith;
                  no_break = d;
                  short = ground arith;
                },
                inl refl,
              )
      ]
    ]
  ]
]

-- How a browser reads the start of a redirect's target (the URL standard): tabs and line breaks are
-- removed, and a backslash is a slash.
abbrev pub as_read : Bytes → Bytes
as_read [] = []
as_read (c ∷ s) =
    let rest = as_read s in
    if (c == 9) || (c == 10) || (c == 13) then rest else (if c == 92 then 47 else c) ∷ rest

-- A target that does not begin with a slash may name a scheme, and one with two slashes names a host.
abbrev pub may_leave : Bytes → Bool
may_leave [] = false
may_leave (c ∷ []) = not (c == 47)
may_leave (c ∷ d ∷ s) = not (c == 47) || (d == 47)

abbrev pub IsPlain : ℕ → Type 0
IsPlain c = (c ≢ 92) × (c ≢ 13) × (c ≢ 10)

-- A target that a browser looks up on the site that sent it, and that fits in one header line.
pub record StaysOnSite (p : Bytes) : Type 0 where
  pub on_site : may_leave (as_read p) ≡ false
  pub plain : All IsPlain p
  pub short : length p ≤ 512

all-IsPlain :
    (p : Bytes)
    → contains (92 ∷ []) p ≡ false
    → contains_any (13 ∷ 10 ∷ []) p ≡ false
    → All IsPlain p
unfolding contains has_prefix
all-IsPlain [] h k = tt
all-IsPlain (c ∷ p) h k = (
  ((λ e. ground (arith, h, e)), (λ e. ground (arith, k, e)), λ e. ground (arith, k, e)),
  all-IsPlain p (ground (arith, h)) (ground (arith, k)),
)

IsAccepted-StaysOnSite : (p : Bytes) → IsAccepted p → StaysOnSite p
IsAccepted-StaysOnSite p v = record {
  on_site = rw (append-trim_prefix (codes "/app") p v.under) refl;
  plain = all-IsPlain p v.no_backslash v.no_break;
  short = v.short;
}

-- Whatever a login request names as its target, the target that it is answered with is read by a
-- browser as a path of the same site, has no backslash and no line break, and is at most 512 bytes
-- long; it is the target that was named, or else "/app"; and naming it again gives it back.
pub next_path-StaysOnSite :
    (next : Bytes)
    → StaysOnSite (next_path next)
      × ((next_path next ≡ next) ⊎ (next_path next ≡ codes "/app"))
      × (next_path (next_path next) ≡ next_path next)
next_path-StaysOnSite next =
    let (good, which) = next_path-IsAccepted next in
    let (_, again) = next_path-IsAccepted (next_path next) in
    (
      IsAccepted-StaysOnSite (next_path next) good,
      elim which [ inl e ↦ inl e | inr (e, bad) ↦ inr e ],
      elim again [ inl e ↦ e | inr (e, bad) ↦ absurd (bad good) ],
    )

-- ===== src/Link/Create/Outcome.antt =====
-- Create as a whole: what its result says of the table.
use shortr.Base.{
  ℕ, ◌≡◌, refl, sym, ◌∙◌, ap, Bool, true, false, not, List, [], ◌∷◌, ◌++◌, Option, none, some,
  Option-cases, inl, inr, arith,
}
use shortr.Base.Bytes.{Bytes, bytes_eq}
use shortr.Store.{
  Link, Store, Res, ok, err, round_link, code_exists, get_user_by_id, count_links_for_user,
}
use shortr.Validate.{Net, Checked, accepted, refused, target_url as check_target, trim_space}
use shortr.Link.Code.{is_reserved, alias_error}
use shortr.Link.Input
use shortr.Link.Input.{FieldError, is_redirect_status, add_if}
use shortr.Link.Service.{Service, Policy}
use shortr.Link.Service.Coherent.{Coherent, same-Coherent}
use shortr.Link.Create.{
  Config, CreateInput, CreateResult, created, invalid, target_error, target_of, status_of,
  input_errors, alias_errors, link_limit_for, at_limit, new_link, hashed, create, create_valid,
}
use shortr.Link.Create.Laws.{Made, insert_link-Made}

-- The queries before the insertion write nothing.
pub alias_errors-links : (alias : Bytes) (st : Store) → (alias_errors alias st).1.links ≡ st.links
unfolding alias_errors code_exists
alias_errors-links alias st = ground arith

link_limit_for-links :
    (user : Bytes) (g : ℕ) (st : Store) → (link_limit_for user g st).1.links ≡ st.links
unfolding link_limit_for get_user_by_id
link_limit_for-links user g st = ground arith

pub at_limit-links :
    (actor : Option Bytes) (g : ℕ) (st : Store) → (at_limit actor g st).1.links ≡ st.links
unfolding at_limit count_links_for_user
at_limit-links none g st = refl
at_limit-links (some user) g st = ground (arith, link_limit_for-links user g st)

-- An alias without errors is no reserved word.
alias_errors-free :
    (alias : Bytes) (st : Store)
    → (alias_errors alias st).0 ≡ ok []
    → bytes_eq alias [] ≡ false
    → is_reserved alias ≡ false
unfolding alias_errors alias_error code_exists
alias_errors-free alias st h given = ground arith

nil_of_append {ℓ} : {A : Type ℓ} (xs ys : List A) → xs ++ ys ≡ [] → (xs ≡ []) × (ys ≡ [])
nil_of_append [] ys h = (refl, h)
nil_of_append (x ∷ xs) ys h = cc

target_of_nil : (c : Checked) → target_error c ≡ [] → c ≡ accepted (target_of c)
target_of_nil (accepted s) h = refl
target_of_nil (refused e) h = cc

add_if-nil : (b : Bool) (e : FieldError) → add_if b e ≡ [] → b ≡ false
add_if-nil true e h = cc
add_if-nil false e h = refl

input_errors-nil :
    (now : ℕ) (pol : Policy) (target : Checked) (given : CreateInput)
    → input_errors now pol target given ≡ []
    → (target ≡ accepted (target_of target)) × (is_redirect_status (status_of pol given) ≡ true)
unfolding input_errors
input_errors-nil now pol target given h =
    let (t, more) = nil_of_append (target_error target) _ h in
    let (status, _) =
      nil_of_append (add_if (not (is_redirect_status (status_of pol given))) Input.redirect_status)
        _ more in
    (target_of_nil target t, ground (arith, add_if-nil _ _ status))

module _ (net : Net) (hash : Bytes → Option Bytes) (cfg : Config) (now : ℕ) (ulid : Bytes)
    (read : ℕ → ℕ → Option (List ℕ)) (fuel : ℕ) (actor : Option Bytes) (ip : Bytes)
    (given : CreateInput) where
  abbrev pub admitted_target : Service → Checked
  admitted_target s =
      check_target net given.target_url cfg.max_url_length cfg.allow_private_targets
        s.policy.blocked_domains cfg.base_host

  -- A new link, and the rows after it.
  pub record IsCreated (s : Service) (l : Link) (after : List Link) : Type 0 where
    pub row : after ≡ s.store.links ++ round_link l ∷ []
    pub free : is_reserved l.code ≡ false
    pub admitted : admitted_target s ≡ accepted l.target_url
    pub status : is_redirect_status l.redirect_status ≡ true

  abbrev pub Outcome : Service → CreateResult → List Link → Type 0
  Outcome s (created l) after = IsCreated s l after
  Outcome s _ after = after ≡ s.store.links

  abbrev pub Kept : Service → CreateResult × Service → Type 0
  Kept s r = Coherent r.1 × Outcome s r.0 r.1.store.links

  outcome_of_Made :
      (s : Service) (pw : Option Bytes) (r : CreateResult × Service)
      → admitted_target s ≡ accepted (target_of (admitted_target s))
      → is_redirect_status (status_of s.policy given) ≡ true
      → Made now ulid s.store.links
          (new_link actor ip s.policy (target_of (admitted_target s)) given pw)
          r
      → Kept s r
  outcome_of_Made s pw (created l, t) target status (co, (rows, free, prep)) = (
    co,
    record {
      row = rows;
      free = free;
      admitted = target ∙ ap (λ (x : Link). accepted x.target_url) (sym prep);
      status = ap (λ (x : Link). is_redirect_status x.redirect_status) prep ∙ status;
    },
  )
  outcome_of_Made s pw (invalid es, t) target status m = m
  outcome_of_Made s pw (_, t) target status m = m

  -- The part after the validation, on a state whose queries have been counted.
  create_valid-Outcome :
      (s : Service) (st : Store)
      → st.links ≡ s.store.links
      → (bytes_eq (trim_space given.code) [] ≡ false → is_reserved (trim_space given.code) ≡ false)
      → admitted_target s ≡ accepted (target_of (admitted_target s))
      → is_redirect_status (status_of s.policy given) ≡ true
      → Coherent s
      → Kept s (
          create_valid net hash cfg now ulid read fuel actor ip given
            (target_of (admitted_target s))
            (record s { store = st }))
  unfolding create_valid
  create_valid-Outcome s st same free target status co = limits full.0 refl
    where
      full : Res Bool × Store
      full = at_limit actor s.policy.max_links_per_user st

      rows : full.1.links ≡ s.store.links
      rows = at_limit-links actor s.policy.max_links_per_user st ∙ same

      kept : Coherent (record s { store = full.1 })
      kept = same-Coherent s (record s { store = full.1 }) rows refl co

      template : Option Bytes → Link
      template pw = new_link actor ip s.policy (target_of (admitted_target s)) given pw

      limits :
          (r : Res Bool)
          → full.0 ≡ r
          → Kept s (
              create_valid net hash cfg now ulid read fuel actor ip given
                (target_of (admitted_target s))
                (record s { store = st }))
      limits (err e) h = rw (h, create_valid) (kept, rows)
      limits (ok true) h = rw (h, create_valid) (kept, rows)
      limits (ok false) h = elim (Option-cases (hashed hash given.password)) [
        | inl unhashed ↦ rw (h, unhashed, create_valid) (kept, rows)
        | inr (pw, good) ↦
            rw (h, good, create_valid)
              (outcome_of_Made s pw _ target status (
                insert_link-Made net hash cfg now ulid read fuel s.store.links (template pw)
                  (trim_space given.code) given.length (record s { store = full.1 }) free kept
                  rows))
      ]

  -- Create on a coherent state leaves it coherent, and on every outcome but success the table as it
  -- was. On success the table has exactly the new link more, its code is no reserved word, its target
  -- is what the target validation returned for the input, and its status is a redirect.
  pub create-Kept :
      (s : Service) → Coherent s → Kept s (create net hash cfg now ulid read fuel actor ip given s)
  unfolding create
  create-Kept s co = checks checked.0 refl
    where
      alias : Bytes
      alias = trim_space given.code

      errs : List FieldError
      errs = input_errors now s.policy (admitted_target s) given

      checked : Res (List FieldError) × Store
      checked = alias_errors alias s.store

      rows : checked.1.links ≡ s.store.links
      rows = alias_errors-links alias s.store

      kept : Coherent (record s { store = checked.1 })
      kept = same-Coherent s (record s { store = checked.1 }) rows refl co

      out : CreateResult × Service
      out = create net hash cfg now ulid read fuel actor ip given s

      valid :
          (more : List FieldError)
          → checked.0 ≡ ok more
          → (all : List FieldError) → errs ++ more ≡ all
          → Kept s out
      valid more h (e ∷ es) a = rw (h, a, create) (kept, rows)
      valid more h [] a =
          let (clean, free) = nil_of_append errs more a in
          let (target, status) = input_errors-nil now s.policy (admitted_target s) given clean in
          rw (h, a, create)
            (create_valid-Outcome s checked.1 rows
              (alias_errors-free alias s.store (h ∙ ap ok free)) target status co)

      checks : (r : Res (List FieldError)) → checked.0 ≡ r → Kept s out
      checks (err e) h = rw (h, create) (kept, rows)
      checks (ok more) h = valid more h (errs ++ more) refl

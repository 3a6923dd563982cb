-- ===== src/Server/Links/Foreign.antt =====
-- The requests of a user leave the links that the user may not edit as they are.
use shortr.Base.{
  ◌≡◌, refl, sym, ap, ◌∙◌, true, false, List, [], ◌∷◌, ◌++◌, some, inl, inr, Bool-cases,
  Option-cases, arith,
}
use shortr.Base.Bytes.{Bytes, bytes_eq, bytes_eq_iff, bytes_eq_sound}
use shortr.Store.{
  Link, User, Store, Res, ok, err, select, has_id, update_where, delete_where, get_link_by_id,
}
use shortr.Link.Service.{Service}
use shortr.Server.Console.{ApiError}
use shortr.Server.Links.{Owned, owned, not_owned, may_edit, get_owned_link}

-- Every row that the user may not edit is found unchanged under its id.
abbrev pub Untouched : User → List Link → List Link → Type 0
Untouched u before after =
    (id : Bytes) (r : Link)
    → select (has_id id) before ≡ some r
    → may_edit u r ≡ false
    → select (has_id id) after ≡ some r

pub same-Untouched : (u : User) (a b : List Link) → b ≡ a → Untouched u a b
same-Untouched u a b e id r here foreign = ap (select (has_id id)) e ∙ here

pub Untouched-trans :
    (u : User) (a b c : List Link) → Untouched u a b → Untouched u b c → Untouched u a c
Untouched-trans u a b c f g id r here foreign = g id r (f id r here foreign) foreign

select-update_where-ne :
    (id own : Bytes) (f : Link → Link) (rows : List Link)
    → ((r : Link) → (f r).id ≡ r.id)
    → bytes_eq own id ≡ false
    → select (has_id id) (update_where own f rows) ≡ select (has_id id) rows
unfolding select update_where
select-update_where-ne id own f [] keeps other = refl
select-update_where-ne id own f (r ∷ rows) keeps other = ground (
  arith,
  keeps r,
  other,
  select-update_where-ne id own f rows keeps other,
  bytes_eq_iff r.id own,
  bytes_eq_iff r.id id,
  bytes_eq_iff own id,
)

-- One id has one row, so a row that the user may edit is no row that the user may not.
same_id-absurd :
    (u : User) (l : Link) (id : Bytes) (rows : List Link) (r : Link)
    → select (has_id l.id) rows ≡ some l
    → may_edit u l ≡ true
    → select (has_id id) rows ≡ some r
    → may_edit u r ≡ false
    → bytes_eq l.id id ≡ true
    → ⊥
same_id-absurd u l id rows r found mine here foreign same =
    let id_same : l.id ≡ id = bytes_eq_sound l.id id same in
    let found' : select (has_id id) rows ≡ some l =
      ap (λ x. select (has_id x) rows) (sym id_same) ∙ found in
    let l_is_r : l ≡ r = ground (arith, found', here) in
    ground (arith, ap (may_edit u) l_is_r, mine, foreign)

-- A write to the row of a link that the user may edit.
pub update_where-Untouched :
    (u : User) (l : Link) (f : Link → Link) (rows : List Link)
    → ((r : Link) → (f r).id ≡ r.id)
    → select (has_id l.id) rows ≡ some l
    → may_edit u l ≡ true
    → Untouched u rows (update_where l.id f rows)
update_where-Untouched u l f rows keeps found mine id r here foreign =
    elim (Bool-cases (bytes_eq l.id id)) [
      | inr other ↦ select-update_where-ne id l.id f rows keeps other ∙ here
      | inl same ↦ absurd (same_id-absurd u l id rows r found mine here foreign same)
    ]

select-delete_where-ne :
    (id own : Bytes) (rows : List Link)
    → bytes_eq own id ≡ false
    → select (has_id id) (delete_where own rows) ≡ select (has_id id) rows
unfolding select delete_where
select-delete_where-ne id own [] other = refl
select-delete_where-ne id own (r ∷ rows) other = ground (
  arith,
  other,
  select-delete_where-ne id own rows other,
  bytes_eq_iff r.id own,
  bytes_eq_iff r.id id,
  bytes_eq_iff own id,
)

-- The removal of the row of a link that the user may edit.
pub delete_where-Untouched :
    (u : User) (l : Link) (rows : List Link)
    → select (has_id l.id) rows ≡ some l
    → may_edit u l ≡ true
    → Untouched u rows (delete_where l.id rows)
delete_where-Untouched u l rows found mine id r here foreign =
    elim (Bool-cases (bytes_eq l.id id)) [
      | inr other ↦ select-delete_where-ne id l.id rows other ∙ here
      | inl same ↦ absurd (same_id-absurd u l id rows r found mine here foreign same)
    ]

-- New rows after the old ones.
pub append-Untouched : (u : User) (rows more : List Link) → Untouched u rows (rows ++ more)
unfolding select
append-Untouched u [] more id r here foreign = absurd (ground (arith, here))
append-Untouched u (x ∷ rows) more id r here foreign = elim (Bool-cases (has_id id x)) [
  | inl same ↦ ground (arith, same, here)
  | inr other ↦
      ground (
        arith,
        other,
        here,
        append-Untouched u rows more id r (ground (arith, other, here)) foreign,
      )
]

-- A link that the user may edit, as it is stored.
pub record IsOwned (u : User) (rows : List Link) (l : Link) : Type 0 where
  pub found : select (has_id l.id) rows ≡ some l
  pub mine : may_edit u l ≡ true

-- What `getOwnedLink` answers.
pub data Got (u : User) (s : Service) (r : Owned × Service) : Type 0 where
  got_none : (e : ApiError) → r.0 ≡ not_owned e → r.1.store.links ≡ s.store.links → Got u s r
  got :
      (l : Link)
      → r.0 ≡ owned l
      → r.1.store.links ≡ s.store.links
      → IsOwned u s.store.links l
      → Got u s r

get_link_by_id-links : (id : Bytes) (st : Store) → (get_link_by_id id st).1.links ≡ st.links
unfolding get_link_by_id
get_link_by_id-links id st = ground arith

get_link_by_id-found :
    (id : Bytes) (st : Store) (l : Link)
    → (get_link_by_id id st).0 ≡ ok l
    → select (has_id id) st.links ≡ some l
unfolding get_link_by_id
get_link_by_id-found id st l h = elim (Bool-cases (st.faults st.queries)) [
  | inl fault ↦ absurd (ground (arith, fault, h))
  | inr fine ↦ elim (Option-cases (select (has_id id) st.links)) [
    | inl out ↦ absurd (ground (arith, fine, out, h))
    | inr (l', here) ↦ ground (arith, fine, here, h)
  ]
]

select-id :
    (id : Bytes) (rows : List Link) (l : Link) → select (has_id id) rows ≡ some l → l.id ≡ id
unfolding select
select-id id [] l h = absurd (ground (arith, h))
select-id id (r ∷ rows) l h = elim (Bool-cases (has_id id r)) [
  | inl same ↦
      let e : r ≡ l = ground (arith, same, h) in
      ap (λ x. x.id) (sym e) ∙ bytes_eq_sound r.id id same
  | inr other ↦ select-id id rows l (ground (arith, other, h))
]

pub get_owned_link-Got : (u : User) (id : Bytes) (s : Service) → Got u s (get_owned_link u id s)
unfolding get_owned_link
get_owned_link-Got u id s = cases (get_link_by_id id s.store).0 refl
  where
    cases : (r : Res Link) → (get_link_by_id id s.store).0 ≡ r → Got u s (get_owned_link u id s)
    cases (err e) q =
        rw (q, get_owned_link)
          (got_none ApiError.not_found_error refl (get_link_by_id-links id s.store))
    cases (ok l) q = elim (Bool-cases (may_edit u l)) [
      | inr foreign ↦
          rw (q, foreign, get_owned_link)
            (got_none ApiError.forbidden refl (get_link_by_id-links id s.store))
      | inl mine ↦
          let here : select (has_id id) s.store.links ≡ some l =
            get_link_by_id-found id s.store l q in
          rw (q, mine, get_owned_link)
            (got l refl (get_link_by_id-links id s.store) (record {
              found =
                  ap (λ x. select (has_id x) s.store.links) (select-id id s.store.links l here)
                  ∙ here;
              mine = mine;
            }))
    ]

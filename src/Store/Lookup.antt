-- ===== src/Store/Lookup.antt =====
-- GetLinkByCode: the exact match is the match without case, and the rows do not change.
use shortr.Base.{
  ℕ, ◌++◌, ◌+◌, ◌||◌, ◌≡◌, refl, ◌⊎◌, inl, inr, true, List, [], ◌∷◌, Option, none, some, Bool-cases,
  Option-cases, arith,
}
use shortr.Base.Bytes.{Bytes, bytes_eq, bytes_eq_iff, to_lower}
use shortr.Store.{
  round_link, prepare, create_link, owner_exists, Link, Store, Res, ok, err, not_found, db_error,
  select, constraints, get_link_by_code, attempt, commit, purge_link, delete_where, conflict,
  StoreError,
}
use shortr.Store.Rows.{row_of, constraints-delete_where}

row_of-exact :
    (code : Bytes) (rows : List Link) (l : Link)
    → constraints rows ≡ true
    → select (λ r. bytes_eq r.code code) rows ≡ some l
    → row_of (to_lower code) rows ≡ some l
unfolding select constraints
row_of-exact code [] l u h = cc
row_of-exact code (r ∷ rows) l u h = ground (
  arith,
  row_of-exact code rows l,
  bytes_eq_iff r.code code,
  bytes_eq_iff (to_lower r.code) (to_lower code),
)

pub select-has_key :
    (k : Bytes) (rows : List Link) (l : Link) → row_of k rows ≡ some l → to_lower l.code ≡ k
unfolding select
select-has_key k [] l h = cc
select-has_key k (r ∷ rows) l h =
    ground (arith, select-has_key k rows l, bytes_eq_iff (to_lower r.code) k)

-- What a query for a row returns.
abbrev pub found : Option Link → Res Link
found none = err not_found
found (some l) = ok l

-- If the table meets its constraints, GetLinkByCode reports a database error only if one of its two
-- statements fails; else it returns the link whose code is the given one up to the case of its letters,
-- and not_found exactly if there is none; and no row is written.
pub get_link_by_code_result :
    (code : Bytes) (st : Store)
    → constraints st.links ≡ true
    → (((st.faults st.queries || st.faults (st.queries + 1)) ≡ true)
          × ((get_link_by_code code st).0 ≡ err db_error)
        ⊎ ((get_link_by_code code st).0 ≡ found (row_of (to_lower code) st.links)))
      × ((get_link_by_code code st).1.links ≡ st.links)
unfolding get_link_by_code
get_link_by_code_result code st u = elim (Bool-cases (st.faults st.queries)) [
  | inl down ↦ rw (down, get_link_by_code) (inl (refl, refl), refl)
  | inr up ↦ elim (Option-cases (select (λ r. bytes_eq r.code code) st.links)) [
    | inr (l, exact) ↦
        rw (up, exact, row_of-exact code st.links l u exact, get_link_by_code) (inr refl, refl)
    | inl missing ↦ elim (Bool-cases (st.faults (st.queries + 1))) [
      | inl down ↦ rw (up, missing, down, get_link_by_code) (inl (refl, refl), refl)
      | inr up' ↦ elim (Option-cases (row_of (to_lower code) st.links)) [
        | inl out ↦ rw (up, missing, up', out, get_link_by_code) (inr refl, refl)
        | inr (l, here) ↦ rw (up, missing, up', here, get_link_by_code) (inr refl, refl)
      ]
    ]
  ]
]

-- The rows after a write: the new ones, if the write succeeded, and they meet the constraints.
pub data Wrote {ℓ} {A : Type ℓ} (before after : List Link) (a : A) (r : Res A × Store)
    : Type ℓ where
  failed : (e : StoreError) → r.0 ≡ err e → r.1.links ≡ before → Wrote before after a r
  wrote : r.0 ≡ ok a → r.1.links ≡ after → constraints after ≡ true → Wrote before after a r

pub attempt-commit {ℓ} :
    {A : Type ℓ} (st : Store) (rows : List Link) (a : A)
    → Wrote st.links rows a (attempt st (λ st'. commit st' rows a))
attempt-commit st rows a = elim (Bool-cases (st.faults st.queries)) [
  | inl fault ↦ rw fault (failed db_error refl refl)
  | inr fine ↦ elim (Bool-cases (constraints rows)) [
    | inl good ↦ rw (fine, good) (wrote refl refl good)
    | inr bad ↦ rw (fine, bad) (failed conflict refl refl)
  ]
]

pub create_link-Wrote :
    (now : ℕ) (ulid : Bytes) (l : Link) (st : Store)
    → Wrote st.links
        (st.links ++ round_link (prepare now ulid l) ∷ [])
        (prepare now ulid l)
        (create_link now ulid l st)
unfolding create_link
create_link-Wrote now ulid l st =
    let l' = prepare now ulid l in
    let rows = st.links ++ round_link l' ∷ [] in
    elim (Bool-cases (st.faults st.queries)) [
      | inl fault ↦ rw (fault, create_link) (failed db_error refl refl)
      | inr fine ↦ elim (Bool-cases (constraints rows)) [
        | inr bad ↦ rw (fine, bad, create_link) (failed conflict refl refl)
        | inl good ↦ elim (Bool-cases (owner_exists l' st)) [
          | inr orphan ↦ rw (fine, good, orphan, create_link) (failed db_error refl refl)
          | inl owned ↦ rw (fine, good, owned, create_link) (wrote refl refl good)
        ]
      ]
    ]

pub purge_link-Wrote :
    (id : Bytes) (st : Store)
    → constraints st.links ≡ true
    → Wrote st.links (delete_where id st.links) tt (purge_link id st)
unfolding purge_link
purge_link-Wrote id st u = elim (Bool-cases (st.faults st.queries)) [
  | inl fault ↦ rw fault (failed db_error refl refl)
  | inr fine ↦ rw fine (wrote refl refl (constraints-delete_where id st.links u))
]

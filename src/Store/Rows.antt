-- ===== src/Store/Rows.antt =====
-- What a statement does to the rows that a code selects.
use shortr.Base.{◌≡◌, refl, Bool, true, false, List, [], ◌∷◌, ◌++◌, Option, is_some, All, arith}
use shortr.Base.Bytes.{Bytes, bytes_eq, bytes_eq_iff, to_lower}
use shortr.Store.{Link, select, has_key, has_id, update_where, delete_where, constraints}

-- The row of a lower-cased code.
abbrev pub row_of : Bytes → List Link → Option Link
row_of k rows = select (has_key k) rows

pub row_of-append :
    (k : Bytes) (rows : List Link) (l : Link)
    → bytes_eq (to_lower l.code) k ≡ false
    → row_of k (rows ++ l ∷ []) ≡ row_of k rows
unfolding select
row_of-append k [] l h = ground arith
row_of-append k (r ∷ rows) l h = ground (arith, row_of-append k rows l h)

-- The rows with an id have a lower-cased code.
abbrev pub IdHasKey : Bytes → Bytes → List Link → Type 0
IdHasKey id k rows = All (λ r. has_id id r ≡ true → has_key k r ≡ true) rows

pub row_of-update_where_ne :
    (k id old : Bytes) (f : Link → Link) (rows : List Link)
    → IdHasKey id old rows
    → bytes_eq old k ≡ false
    → ((r : Link) → has_id id r ≡ true → has_key old r ≡ true → has_key k (f r) ≡ false)
    → row_of k (update_where id f rows) ≡ row_of k rows
unfolding select update_where
row_of-update_where_ne k id old f [] h ne miss = refl
row_of-update_where_ne k id old f (r ∷ rows) (hr, h) ne miss = ground (
  arith,
  row_of-update_where_ne k id old f rows h ne miss,
  hr,
  miss r,
  bytes_eq_iff (to_lower r.code) k,
  bytes_eq_iff (to_lower r.code) old,
  bytes_eq_iff old k,
)

pub row_of-delete_where_ne :
    (k id old : Bytes) (rows : List Link)
    → IdHasKey id old rows
    → bytes_eq old k ≡ false
    → row_of k (delete_where id rows) ≡ row_of k rows
unfolding select delete_where
row_of-delete_where_ne k id old [] h ne = refl
row_of-delete_where_ne k id old (r ∷ rows) (hr, h) ne = ground (
  arith,
  row_of-delete_where_ne k id old rows h ne,
  hr,
  bytes_eq_iff (to_lower r.code) k,
  bytes_eq_iff (to_lower r.code) old,
  bytes_eq_iff old k,
)

select-delete_where :
    (p : Link → Bool) (id : Bytes) (rows : List Link)
    → is_some (select p rows) ≡ false
    → is_some (select p (delete_where id rows)) ≡ false
unfolding select delete_where
select-delete_where p id [] h = refl
select-delete_where p id (r ∷ rows) h = ground (arith, select-delete_where p id rows)

-- Rows that are deleted break no constraint.
pub constraints-delete_where :
    (id : Bytes) (rows : List Link)
    → constraints rows ≡ true
    → constraints (delete_where id rows) ≡ true
unfolding constraints delete_where
constraints-delete_where id [] h = refl
constraints-delete_where id (r ∷ rows) h = ground (
  arith,
  constraints-delete_where id rows,
  select-delete_where (has_key (to_lower r.code)) id rows,
  select-delete_where (has_id r.id) id rows,
)

-- ===== src/Store/Reads.antt =====
-- What the queries for one row return, and that they change nothing.
use shortr.Base.{◌+◌, ◌≡◌, some, Bool-cases, Option-cases, inl, inr, arith}
use shortr.Base.Bytes.{Bytes}
use shortr.Base.Map.{lookup}
use shortr.Base.Table.{first}
use shortr.Store.{User, Store, select_user, ok, get_user_by_id}
use shortr.Store.Types.{Session, ApiKey, OidcIdentity}
use shortr.Store.Accounts.{
  get_session, get_api_key_by_hash, get_oidc_identity, has_key_hash, is_linked,
}

-- The store after a query.
abbrev pub queried : Store → Store
queried st = record st { queries = st.queries + 1 }

pub get_user_by_id-found :
    (id : Bytes) (st : Store) (u : User)
    → (get_user_by_id id st).0 ≡ ok u
    → select_user id st.users ≡ some u
unfolding get_user_by_id
get_user_by_id-found id st u h = elim (Bool-cases (st.faults st.queries)) [
  | inl fault ↦ absurd (ground (arith, fault, h))
  | inr fine ↦ elim (Option-cases (select_user id st.users)) [
    | inl out ↦ absurd (ground (arith, fine, out, h))
    | inr (v', here) ↦ ground (arith, fine, here, h)
  ]
]

pub get_user_by_id-queried : (id : Bytes) (st : Store) → (get_user_by_id id st).1 ≡ queried st
unfolding get_user_by_id
get_user_by_id-queried id st = elim (Bool-cases (st.faults st.queries)) [
  | inl fault ↦ simp (fault, get_user_by_id)
  | inr fine ↦ elim (Option-cases (select_user id st.users)) [
    | inl out ↦ simp (fine, out, get_user_by_id)
    | inr (v', here) ↦ simp (fine, here, get_user_by_id)
  ]
]

pub get_session-found :
    (id : Bytes) (st : Store) (s : Session)
    → (get_session id st).0 ≡ ok s
    → lookup id st.sessions ≡ some s
unfolding get_session
get_session-found id st s h = elim (Bool-cases (st.faults st.queries)) [
  | inl fault ↦ absurd (ground (arith, fault, h))
  | inr fine ↦ elim (Option-cases (lookup id st.sessions)) [
    | inl out ↦ absurd (ground (arith, fine, out, h))
    | inr (v', here) ↦ ground (arith, fine, here, h)
  ]
]

pub get_session-queried : (id : Bytes) (st : Store) → (get_session id st).1 ≡ queried st
unfolding get_session
get_session-queried id st = elim (Bool-cases (st.faults st.queries)) [
  | inl fault ↦ simp (fault, get_session)
  | inr fine ↦ elim (Option-cases (lookup id st.sessions)) [
    | inl out ↦ simp (fine, out, get_session)
    | inr (v', here) ↦ simp (fine, here, get_session)
  ]
]

pub get_api_key_by_hash-found :
    (hash : Bytes) (st : Store) (k : ApiKey)
    → (get_api_key_by_hash hash st).0 ≡ ok k
    → first (has_key_hash hash) st.api_keys ≡ some k
unfolding get_api_key_by_hash
get_api_key_by_hash-found hash st k h = elim (Bool-cases (st.faults st.queries)) [
  | inl fault ↦ absurd (ground (arith, fault, h))
  | inr fine ↦ elim (Option-cases (first (has_key_hash hash) st.api_keys)) [
    | inl out ↦ absurd (ground (arith, fine, out, h))
    | inr (v', here) ↦ ground (arith, fine, here, h)
  ]
]

pub get_api_key_by_hash-queried :
    (hash : Bytes) (st : Store) → (get_api_key_by_hash hash st).1 ≡ queried st
unfolding get_api_key_by_hash
get_api_key_by_hash-queried hash st = elim (Bool-cases (st.faults st.queries)) [
  | inl fault ↦ simp (fault, get_api_key_by_hash)
  | inr fine ↦ elim (Option-cases (first (has_key_hash hash) st.api_keys)) [
    | inl out ↦ simp (fine, out, get_api_key_by_hash)
    | inr (v', here) ↦ simp (fine, here, get_api_key_by_hash)
  ]
]

pub get_oidc_identity-found :
    (issuer subject : Bytes) (st : Store) (o : OidcIdentity)
    → (get_oidc_identity issuer subject st).0 ≡ ok o
    → first (is_linked issuer subject) st.oidc_identities ≡ some o
unfolding get_oidc_identity
get_oidc_identity-found issuer subject st o h = elim (Bool-cases (st.faults st.queries)) [
  | inl fault ↦ absurd (ground (arith, fault, h))
  | inr fine ↦ elim (Option-cases (first (is_linked issuer subject) st.oidc_identities)) [
    | inl out ↦ absurd (ground (arith, fine, out, h))
    | inr (v', here) ↦ ground (arith, fine, here, h)
  ]
]

pub get_oidc_identity-queried :
    (issuer subject : Bytes) (st : Store) → (get_oidc_identity issuer subject st).1 ≡ queried st
unfolding get_oidc_identity
get_oidc_identity-queried issuer subject st = elim (Bool-cases (st.faults st.queries)) [
  | inl fault ↦ simp (fault, get_oidc_identity)
  | inr fine ↦ elim (Option-cases (first (is_linked issuer subject) st.oidc_identities)) [
    | inl out ↦ simp (fine, out, get_oidc_identity)
    | inr (v', here) ↦ simp (fine, here, get_oidc_identity)
  ]
]

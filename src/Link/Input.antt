-- ===== src/Link/Input.antt =====
-- internal/link/service.go: what Create and Update share, the checks of single fields.
-- Messages are left out: an error is the field's. A limit below 1 is the number 0.
use shortr.Base.{
  ℕ, Bool, true, false, not, ◌||◌, List, [], ◌∷◌, length as size, any, all, ltb, ◌==◌,
  if◌then◌else◌,
}
use shortr.Base.Bytes.{Bytes, bytes_eq, to_lower, member}
use shortr.Validate.{TargetError, contains_any, trim_space, str_len}
use shortr.Link.Code.{AliasError}

pub data FieldError : Type 0 where
  target_url : TargetError → FieldError
  redirect_status length title description expires_at max_clicks utm : FieldError
  too_many_tags tag_length password alias_taken status : FieldError
  alias : AliasError → FieldError

-- `verrs.Add` under a test.
abbrev pub add_if : Bool → FieldError → List FieldError
add_if b e = if b then e ∷ [] else []

unfoldable pub is_redirect_status : ℕ → Bool
is_redirect_status n = (n == 301) || (n == 302) || (n == 307) || (n == 308)

-- `validateUTM`
unfoldable pub validate_utm : List Bytes → List FieldError
validate_utm vals = add_if (any (λ u. ltb 255 (size u) || contains_any (13 ∷ 10 ∷ []) u) vals) utm

-- `validateTags`
unfoldable pub validate_tags : List Bytes → List FieldError
validate_tags tags =
    if ltb 10 (size tags)
    then too_many_tags ∷ []
    else add_if (not (all (λ t. str_len t 1 32) tags)) tag_length

-- The loop of `normalizeTags`, with the keys that it has seen.
unfoldable pub normalize_from : List Bytes → List Bytes → List Bytes
normalize_from seen [] = []
normalize_from seen (t ∷ tags) = elim (bytes_eq (trim_space t) []) [
  | true ↦ normalize_from seen tags
  | false ↦ elim (member (to_lower (trim_space t)) seen) [
    | true ↦ normalize_from seen tags
    | false ↦ trim_space t ∷ normalize_from (to_lower (trim_space t) ∷ seen) tags
  ]
]

unfoldable pub normalize_tags : List Bytes → List Bytes
unfolding normalize_from
normalize_tags tags = normalize_from [] tags

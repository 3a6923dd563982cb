-- ===== src/Validate/Email.antt =====
-- internal/validate/validate.go, Email. The parser of net/mail is an argument.
use shortr.Base.{ℕ, not, ◌||◌, [], ◌∷◌, Option, none, some, length, any, ltb, ◌==◌, if◌then◌else◌}
use shortr.Base.Bytes.{Bytes, bytes_eq, to_lower}
use shortr.Validate.{trim_space}

-- The text after the last of a byte, all of it if there is none.
unfoldable pub after_last : ℕ → Bytes → Bytes
after_last c [] = []
after_last c (d ∷ s) =
    let rest = after_last c s in if any (λ e. e == c) s then rest else if d == c then s else d ∷ s

unfoldable pub email : (Bytes → Option Bytes) → Bytes → Option Bytes
unfolding after_last
email parse_address raw =
    let s = trim_space (to_lower raw) in
    if bytes_eq s [] || ltb 254 (length s) then none else elim (parse_address s) [
      | none ↦ none
      | some addr ↦
          if not (bytes_eq addr s)
          then none
          else if not (any (λ c. c == b'@') s)
          then none
          else if not (any (λ c. c == b'.') (after_last b'@' s))
          then none
          else some s
    ]

-- ===== src/Permission/Identifiers.antt =====
-- The identifier patterns of services/permission-gateway/src/ai_native_permissions/gateway.py.
use linux_ai_native_system.Prelude.{
  ℕ, zero, suc, Bool, true, false, not, ◌&&◌, ◌||◌, Option, none, some, List, [], ◌∷◌, Text, leb,
  nat_beq, is_lower_ascii, is_digit_ascii, codes, if◌then◌else◌,
}

-- `[a-z0-9_-]`
abbrev is_id_char : ℕ → Bool
is_id_char c = is_lower_ascii c || is_digit_ascii c || nat_beq c b'_' || nat_beq c b'-'

-- What may stand next: a letter at the start of a segment, else any character or a dot.
id_accepts : Bool → ℕ → Bool
id_accepts true c = is_lower_ascii c
id_accepts false c = is_id_char c || nat_beq c b'.'

-- Whether a segment starts here, and whether a dot has been seen.
id_scan : Bool → Bool → Text → Bool
unfolding id_accepts
id_scan start dotted [] = not start && dotted
id_scan start dotted (c ∷ s) =
    id_accepts start c && id_scan (nat_beq c b'.') (dotted || nat_beq c b'.') s

-- `_CAPABILITY_ID.fullmatch` (and `_SCOPE_ID`): `[a-z][a-z0-9_-]*(\.[a-z][a-z0-9_-]*)+`
unfoldable pub is_capability_id : Text → Bool
unfolding id_scan
is_capability_id = id_scan true false

-- `[a-z0-9_]`
abbrev is_step_char : ℕ → Bool
is_step_char c = is_lower_ascii c || is_digit_ascii c || nat_beq c b'_'

-- `[a-z0-9_]{0,n}`, to the end
step_tail : ℕ → Text → Bool
step_tail n [] = true
step_tail zero (c ∷ s) = false
step_tail (suc n) (c ∷ s) = is_step_char c && step_tail n s

step_body : Text → Bool
unfolding step_tail
step_body [] = false
step_body (c ∷ s) = is_lower_ascii c && step_tail 63 s

-- what follows the prefix
strip_prefix : Text → Text → Option Text
strip_prefix [] s = some s
strip_prefix (p ∷ ps) [] = none
strip_prefix (p ∷ ps) (c ∷ s) = if nat_beq p c then strip_prefix ps s else none

-- `re.fullmatch(r"step_[a-z][a-z0-9_]{0,63}", step_id)`
unfoldable pub is_step_id : Text → Bool
unfolding strip_prefix step_body
is_step_id s = elim (strip_prefix (codes "step_") s) [ none ↦ false | some t ↦ step_body t ]

is_hex_digit : ℕ → Bool
is_hex_digit c = is_digit_ascii c || (leb b'a' c && leb c b'f')

-- what follows `n` lower-case hexadecimal digits
hex_digits : ℕ → Text → Option Text
unfolding is_hex_digit
hex_digits zero s = some s
hex_digits (suc n) [] = none
hex_digits (suc n) (c ∷ s) = if is_hex_digit c then hex_digits n s else none

-- Groups of digits of the given sizes, joined by dashes, to the end.
hex_groups : List ℕ → Text → Bool
unfolding hex_digits
hex_groups [] s = false
hex_groups (n ∷ []) s = elim (hex_digits n s) [ some [] ↦ true | _ ↦ false ]
hex_groups (n ∷ m ∷ ns) s = elim (hex_digits n s) [
  | some (c ∷ t) ↦ nat_beq c b'-' && hex_groups (m ∷ ns) t
  | _ ↦ false
]

-- `str(UUID(s)) == s`: the canonical form, 8-4-4-4-12
unfoldable pub is_canonical_uuid : Text → Bool
unfolding hex_groups
is_canonical_uuid = hex_groups (8 ∷ 4 ∷ 4 ∷ 4 ∷ 12 ∷ [])

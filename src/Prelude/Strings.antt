-- ===== src/Prelude/Strings.antt =====
-- A Python `str` as the list of its code points.
use Prim.Native.Nat.{ℕ}
use Prim.Native.Char.{code}
use Prim.Native.String.{String}
use mathlib.Core.Path.{◌≡◌, refl}
use mathlib.Core.Logic.{◌↔◌}
use mathlib.Core.Bool.{Bool, true, false, ◌&&◌}
use mathlib.Core.List.{List, [], ◌∷◌}
use native.Mathlib.Omega.{arith}
use linux_ai_native_system.Prelude.Tests.{if◌then◌else◌, Eq, leb, nat_beq, nat_beq_iff}

abbrev pub Text : Type 0
Text = List ℕ

-- The code points of a literal.
abbrev pub codes : String → Text
codes String.[] = []
codes (String.◌∷◌ c s) = code c ∷ codes s

unfoldable pub text_beq : Text → Text → Bool
text_beq [] [] = true
text_beq [] (b ∷ t) = false
text_beq (a ∷ s) [] = false
text_beq (a ∷ s) (b ∷ t) = nat_beq a b && text_beq s t

pub text_beq_iff : (s t : Text) → (text_beq s t ≡ true) ↔ (s ≡ t)
unfolding text_beq
text_beq_iff [] [] = (λ h. refl, λ h. refl)
text_beq_iff [] (b ∷ t) = ground arith
text_beq_iff (a ∷ s) [] = ground arith
text_beq_iff (a ∷ s) (b ∷ t) = ground (arith, nat_beq_iff a b, text_beq_iff s t)

instance abbrev pub text_eq : Eq Text
text_eq = record { same = text_beq; same_iff = text_beq_iff }

-- `a < b` of Python strings: by code points, a proper prefix first.
unfoldable pub text_leb : Text → Text → Bool
text_leb [] t = true
text_leb (a ∷ s) [] = false
text_leb (a ∷ s) (b ∷ t) = elim (nat_beq a b) [ true ↦ text_leb s t | false ↦ leb a b ]

-- `[a-z]` and `[0-9]` of a regular expression over code points.
abbrev pub is_lower_ascii : ℕ → Bool
is_lower_ascii c = leb b'a' c && leb c b'z'

abbrev pub is_digit_ascii : ℕ → Bool
is_digit_ascii c = leb b'0' c && leb c b'9'

-- `s.lstrip()`
unfoldable pub strip_left : (ℕ → Bool) → Text → Text
strip_left is_space [] = []
strip_left is_space (c ∷ s) = let rest = strip_left is_space s in if is_space c then rest else c ∷ s

-- `s.rstrip()`
unfoldable pub strip_right : (ℕ → Bool) → Text → Text
strip_right is_space [] = []
strip_right is_space (c ∷ s) = elim (strip_right is_space s) [
  | [] ↦ if is_space c then [] else c ∷ []
  | d ∷ t ↦ c ∷ d ∷ t
]

-- `s.strip()`
unfoldable pub strip : (ℕ → Bool) → Text → Text
unfolding strip_left strip_right
strip is_space s = strip_right is_space (strip_left is_space s)

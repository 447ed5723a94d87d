-- ===== src/Prelude/Sorting.antt =====
-- `sorted` on strings.
use Prim.Native.Nat.{suc}
use mathlib.Core.Path.{◌≡◌, refl, ap, ◌∙◌}
use mathlib.Core.Bool.{◌||◌}
use mathlib.Core.List.{List, [], ◌∷◌}
use native.Mathlib.Omega.{arith}
use linux_ai_native_system.Prelude.Tests.{if◌then◌else◌, ◌==◌}
use linux_ai_native_system.Prelude.Lists.{length}
use linux_ai_native_system.Prelude.Sets.{contains}
use linux_ai_native_system.Prelude.Strings.{Text, text_leb, text_eq}

unfoldable pub insert_sorted : Text → List Text → List Text
unfolding text_leb
insert_sorted s [] = s ∷ []
insert_sorted s (t ∷ ts) = if text_leb s t then s ∷ t ∷ ts else t ∷ insert_sorted s ts

unfoldable pub sorted : List Text → List Text
unfolding insert_sorted
sorted [] = []
sorted (s ∷ ss) = insert_sorted s (sorted ss)

length-insert_sorted : (s : Text) (ts : List Text) → length (insert_sorted s ts) ≡ suc (length ts)
unfolding insert_sorted
length-insert_sorted s [] = refl
length-insert_sorted s (t ∷ ts) = ground (arith, length-insert_sorted s ts)

pub length-sorted : (ss : List Text) → length (sorted ss) ≡ length ss
unfolding sorted
length-sorted [] = refl
length-sorted (s ∷ ss) = length-insert_sorted s (sorted ss) ∙ ap suc (length-sorted ss)

contains-insert_sorted :
    (s a : Text) (ts : List Text) → contains (insert_sorted s ts) a ≡ (s == a || contains ts a)
unfolding insert_sorted
contains-insert_sorted s a [] = refl
contains-insert_sorted s a (t ∷ ts) = ground (arith, contains-insert_sorted s a ts)

-- sorting keeps the elements
pub contains-sorted : (ss : List Text) (a : Text) → contains (sorted ss) a ≡ contains ss a
unfolding sorted
contains-sorted [] a = refl
contains-sorted (s ∷ ss) a =
    ground (arith, contains-insert_sorted s a (sorted ss), contains-sorted ss a)

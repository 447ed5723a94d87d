-- ===== src/Prelude/Sets.antt =====
-- Python's `frozenset` as a list read through membership.
use Prim.Native.Nat.{ℕ, suc, ◌+◌, ◌≤◌}
use mathlib.Core.Path.{◌≡◌, refl, ◌∙◌}
use mathlib.Core.Logic.{inl, inr}
use mathlib.Core.Bool.{Bool, true, false, not, ◌&&◌, ◌||◌}
use mathlib.Core.List.{List, [], ◌∷◌, ◌++◌}
use native.Mathlib.Omega.{arith}
use linux_ai_native_system.Prelude.Tests.{Eq, ◌==◌, if◌then◌else◌, Bool-cases}
use linux_ai_native_system.Prelude.Lists.{all, keep}

module _ {ℓ} {A : Type ℓ} ⦃e : Eq A⦄ where
  -- `a in xs`
  abbrev pub contains : List A → A → Bool
  contains [] a = false
  contains (x ∷ xs) a = x == a || contains xs a

  -- `frozenset(xs)`: each element once, in the order of its last occurrence
  abbrev pub to_set : List A → List A
  to_set [] = []
  to_set (x ∷ xs) = let rest = to_set xs in if contains xs x then rest else x ∷ rest

  -- `xs | ys`
  abbrev pub union : List A → List A → List A
  union xs ys = to_set (xs ++ ys)

  -- `xs - ys`
  abbrev pub difference : List A → List A → List A
  difference xs ys = keep (λ x. not (contains ys x)) xs

  -- `xs.issubset(ys)`
  abbrev pub is_subset : List A → List A → Bool
  is_subset xs ys = all (contains ys) xs

  pub contains-append :
      (xs ys : List A) (a : A) → contains (xs ++ ys) a ≡ (contains xs a || contains ys a)
  contains-append [] ys a = refl
  contains-append (x ∷ xs) ys a = ground (arith, contains-append xs ys a)

  pub contains-to_set : (xs : List A) (a : A) → contains (to_set xs) a ≡ contains xs a
  contains-to_set [] a = refl
  contains-to_set (x ∷ xs) a = elim (Bool-cases (contains xs x)) [
    | inl h ↦ elim (Bool-cases (x == a)) [
      | inl q ↦ rw (h, contains-to_set xs a, q, ← (e.same_iff x a).0 q) h
      | inr q ↦ rw (h, contains-to_set xs a, q)
    ]
    | inr h ↦ rw (h, contains-to_set xs a)
  ]

  pub contains-union :
      (xs ys : List A) (a : A) → contains (union xs ys) a ≡ (contains xs a || contains ys a)
  contains-union xs ys a = contains-to_set (xs ++ ys) a ∙ contains-append xs ys a

  pub contains-difference :
      (xs ys : List A) (a : A)
      → contains (difference xs ys) a ≡ (contains xs a && not (contains ys a))
  contains-difference [] ys a = refl
  contains-difference (x ∷ xs) ys a = ground (arith, e.same_iff x a, contains-difference xs ys a)

  pub contains-keep :
      (p : A → Bool) (xs : List A) (a : A) → contains (keep p xs) a ≡ (contains xs a && p a)
  contains-keep p [] a = refl
  contains-keep p (x ∷ xs) a = ground (arith, e.same_iff x a, contains-keep p xs a)

  -- a subset holds each of its elements in the larger set
  pub contains_of_is_subset :
      (xs ys : List A) (a : A)
      → is_subset xs ys ≡ true
      → contains xs a ≡ true
      → contains ys a ≡ true
  contains_of_is_subset [] ys a h m = ground arith
  contains_of_is_subset (x ∷ xs) ys a h m =
      ground (arith, e.same_iff x a, contains_of_is_subset xs ys a)

  pub all_of_contains :
      (p : A → Bool) (xs : List A) → ((a : A) → contains xs a ≡ true → p a ≡ true) → all p xs ≡ true
  all_of_contains p [] h = refl
  all_of_contains p (x ∷ xs) h =
      ground (arith, h x, e.same_iff x x, all_of_contains p xs (λ a m. h a (ground arith)))

  -- the elements that a non-empty list lacks show it empty
  pub nil_of_not_contains : (xs : List A) → ((a : A) → contains xs a ≡ false) → xs ≡ []
  nil_of_not_contains [] h = refl
  nil_of_not_contains (x ∷ xs) h = ground (arith, h x, e.same_iff x x)

  pub contains-nil : (xs : List A) (a : A) → xs ≡ [] → contains xs a ≡ false
  contains-nil xs a h = rw h

  -- how often an element stands in a list
  abbrev pub count : A → List A → ℕ
  count a [] = 0
  count a (x ∷ xs) = let n = count a xs in if x == a then suc n else n

  -- the list without the first occurrence
  abbrev pub erase : A → List A → List A
  erase a [] = []
  erase a (x ∷ xs) = if x == a then xs else x ∷ erase a xs

  pub count-erase :
      (a b : A) (xs : List A)
      → contains xs a ≡ true
      → count b (erase a xs) + (if a == b then 1 else 0) ≡ count b xs
  count-erase a b [] h = ground arith
  count-erase a b (x ∷ xs) h =
      ground (arith, e.same_iff x a, e.same_iff x b, e.same_iff a b, count-erase a b xs)

  pub count-pos : (a : A) (xs : List A) → contains xs a ≡ true → 1 ≤ count a xs
  count-pos a [] h = ground arith
  count-pos a (x ∷ xs) h = ground (arith, count-pos a xs)

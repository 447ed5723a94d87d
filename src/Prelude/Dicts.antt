-- ===== src/Prelude/Dicts.antt =====
-- A Python dict, in insertion order, as an association list.
use Prim.Native.Nat.{suc, ◌≤◌}
use mathlib.Core.Path.{◌≡◌, refl, ap, sym, subst, ◌∙◌}
use mathlib.Core.Logic.{inl, inr}
use mathlib.Core.Bool.{Bool, false}
use mathlib.Core.Option.{Option, none, some}
use mathlib.Core.List.{List, [], ◌∷◌, ◌++◌, map}
use native.Mathlib.Omega.{arith}
use linux_ai_native_system.Prelude.Tests.{Eq, ◌==◌, if◌then◌else◌, is_some, Bool-cases, beq_refl}
use linux_ai_native_system.Prelude.Lists.{length, keep, All}
use linux_ai_native_system.Prelude.Sets.{contains}

abbrev pub Dict {ℓ κ} : Type ℓ → Type κ → Type (ℓ ⊔ κ)
Dict K V = List (K × V)

module _ {ℓ κ} {K : Type ℓ} {V : Type κ} ⦃e : Eq K⦄ where
  -- `d.get(k)`
  abbrev pub lookup : K → Dict K V → Option V
  lookup k [] = none
  lookup k ((j, v) ∷ d) = if j == k then some v else lookup k d

  -- `d[k] = v`: in place if the key is there, at the end otherwise
  abbrev pub assign : K → V → Dict K V → Dict K V
  assign k v [] = (k, v) ∷ []
  assign k v ((j, w) ∷ d) = if j == k then (j, v) ∷ d else (j, w) ∷ assign k v d

  -- the dict that `d.pop(k, None)` leaves
  abbrev pub remove : K → Dict K V → Dict K V
  remove k [] = []
  remove k ((j, w) ∷ d) = if j == k then d else (j, w) ∷ remove k d

  -- `d[k] = v; d.move_to_end(k)`
  abbrev pub put_last : K → V → Dict K V → Dict K V
  put_last k v d = remove k d ++ (k, v) ∷ []

  -- No key stands twice.
  abbrev pub DistinctKeys : Dict K V → Type κ
  DistinctKeys [] = Unit
  DistinctKeys ((k, _) ∷ d) = (lookup k d ≡ none) × DistinctKeys d

  pub lookup-assign :
      (k j : K) (v : V) (d : Dict K V)
      → lookup j (assign k v d) ≡ (if k == j then some v else lookup j d)
  lookup-assign k j v [] = refl
  lookup-assign k j v ((i, w) ∷ d) =
      ground (arith, e.same_iff k j, e.same_iff i k, e.same_iff i j, lookup-assign k j v d)

  pub lookup-remove_ne :
      (k j : K) (d : Dict K V) → (k == j) ≡ false → lookup j (remove k d) ≡ lookup j d
  lookup-remove_ne k j [] h = refl
  lookup-remove_ne k j ((i, w) ∷ d) h =
      ground (arith, e.same_iff k j, e.same_iff i k, e.same_iff i j, lookup-remove_ne k j d h)

  pub lookup-remove_self : (k : K) (d : Dict K V) → DistinctKeys d → lookup k (remove k d) ≡ none
  lookup-remove_self k [] h = refl
  lookup-remove_self k ((i, w) ∷ d) h = ground (arith, e.same_iff i k, lookup-remove_self k d h.1)

  pub remove-DistinctKeys : (k : K) (d : Dict K V) → DistinctKeys d → DistinctKeys (remove k d)
  remove-DistinctKeys k [] h = tt
  remove-DistinctKeys k ((i, w) ∷ d) h =
      ground
        (arith, e.same_iff k i, e.same_iff i k, remove-DistinctKeys k d h.1, lookup-remove_ne k i d)

  pub lookup-append :
      (j : K) (d f : Dict K V)
      → lookup j (d ++ f) ≡ (if is_some (lookup j d) then lookup j d else lookup j f)
  lookup-append j [] f = refl
  lookup-append j ((i, w) ∷ d) f = ground (arith, lookup-append j d f)

  pub append-DistinctKeys :
      (k : K) (v : V) (d : Dict K V)
      → DistinctKeys d
      → lookup k d ≡ none
      → DistinctKeys (d ++ (k, v) ∷ [])
  append-DistinctKeys k v [] h n = ground arith
  append-DistinctKeys k v ((i, w) ∷ d) h n = ground (
    arith,
    e.same_iff k i,
    e.same_iff i k,
    append-DistinctKeys k v d h.1,
    lookup-append i d ((k, v) ∷ []),
  )

  pub length-remove-le : (k : K) (d : Dict K V) → length (remove k d) ≤ length d
  length-remove-le k [] = omega arith
  length-remove-le k ((i, w) ∷ d) = ground (arith, length-remove-le k d)

  pub assign-assign : (k : K) (v w : V) (d : Dict K V) → assign k v (assign k w d) ≡ assign k v d
  assign-assign k v w [] = ground (arith, e.same_iff k k)
  assign-assign k v w ((i, u) ∷ d) = ground (arith, e.same_iff i k, assign-assign k v w d)

  -- to store what is there changes nothing
  pub assign_same : (k : K) (v : V) (d : Dict K V) → lookup k d ≡ some v → assign k v d ≡ d
  assign_same k v [] h = ground arith
  assign_same k v ((i, u) ∷ d) h = ground (arith, assign_same k v d)

  pub assign-DistinctKeys :
      (k : K) (v : V) (d : Dict K V) → DistinctKeys d → DistinctKeys (assign k v d)
  assign-DistinctKeys k v [] h = (refl, tt)
  assign-DistinctKeys k v ((i, u) ∷ d) h =
      ground (
        arith,
        e.same_iff i k,
        e.same_iff k i,
        lookup-assign k i v d,
        assign-DistinctKeys k v d h.1,
      )

  pub lookup-keep-none :
      (p : K × V → Bool) (k : K) (d : Dict K V) → lookup k d ≡ none → lookup k (keep p d) ≡ none
  lookup-keep-none p k [] h = refl
  lookup-keep-none p k ((i, u) ∷ d) h = ground (arith, lookup-keep-none p k d)

  pub keep-DistinctKeys :
      (p : K × V → Bool) (d : Dict K V) → DistinctKeys d → DistinctKeys (keep p d)
  keep-DistinctKeys p [] h = tt
  keep-DistinctKeys p ((i, u) ∷ d) h =
      ground (arith, lookup-keep-none p i d, keep-DistinctKeys p d h.1)

  -- A filter keeps an entry exactly when its row passes.
  pub lookup-keep :
      (p : K × V → Bool) (k : K) (v : V) (d : Dict K V)
      → DistinctKeys d
      → lookup k d ≡ some v
      → lookup k (keep p d) ≡ (if p (k, v) then some v else none)
  lookup-keep p k v [] h l = ground arith
  lookup-keep p k v ((i, u) ∷ d) h l =
      ground (arith, e.same_iff i k, lookup-keep p k v d h.1, lookup-keep-none p k d)

  pub contains-keys : (k : K) (d : Dict K V) → contains (map (λ e. e.0) d) k ≡ is_some (lookup k d)
  contains-keys k [] = refl
  contains-keys k ((i, u) ∷ d) = ground (arith, contains-keys k d)

-- `{k: f(k, v) for k, v in d.items()}`
abbrev pub map_values {ℓ κ υ} :
    {K : Type ℓ} {V : Type κ} {W : Type υ} → (K → V → W) → Dict K V → Dict K W
map_values f [] = []
map_values f ((k, v) ∷ d) = (k, f k v) ∷ map_values f d

pub length-map_values {ℓ κ υ} :
    {K : Type ℓ} {V : Type κ} {W : Type υ} (f : K → V → W) (d : Dict K V)
    → length (map_values f d) ≡ length d
length-map_values f [] = refl
length-map_values f ((k, v) ∷ d) = ap suc (length-map_values f d)

pub lookup-map_values {ℓ κ υ} :
    {K : Type ℓ} {V : Type κ} {W : Type υ} ⦃e : Eq K⦄ (f : K → V → W) (k : K) (d : Dict K V)
    → lookup k (map_values f d)
      ≡ elim (lookup k d) as (λ _. Option W) [ none ↦ none | some v ↦ some (f k v) ]
lookup-map_values f k [] = refl
lookup-map_values ⦃e⦄ f k ((j, v) ∷ d) = elim (Bool-cases (j == k)) [
  | inl is ↦ rw is (ap (λ i. some (f i v)) ((e.same_iff j k).0 is))
  | inr other ↦ rw other (lookup-map_values f k d)
]

-- What holds of all entries holds of an entry that is looked up.
pub All-lookup {ℓ κ υ} :
    {K : Type ℓ} {V : Type κ} ⦃e : Eq K⦄ (P : K × V → Type υ) (k : K) (v : V) (d : Dict K V)
    → All P d
    → lookup k d ≡ some v
    → P (k, v)
All-lookup P k v [] a h = cc
All-lookup {V} ⦃e⦄ P k v ((j, w) ∷ d) a h = elim (Bool-cases (j == k)) [
  | inl is ↦
      let same : ◌≡◌ {A = Option V} (some w) (some v) = rw is at h in
      let value : w ≡ v = cc in
      subst (λ i. P (i, v)) ((e.same_iff j k).0 is) (subst (λ u. P (j, u)) value a.0)
  | inr other ↦ All-lookup P k v d a.1 (rw other at h)
]

below_entry {ℓ κ} :
    {K : Type ℓ} {V : Type κ} ⦃e : Eq K⦄ (j : K) (w : V) (d f : Dict K V)
    → lookup j f ≡ none
    → All (λ x. lookup x.0 f ≡ some x.1) d
    → All (λ x. lookup x.0 ((j, w) ∷ f) ≡ some x.1) d
below_entry j w [] f n a = tt
below_entry {V} ⦃e⦄ j w ((k, v) ∷ d) f n a = (
  elim (Bool-cases (j == k)) [
    | inl is ↦
        let found : lookup j f ≡ some v = rw ((e.same_iff j k).0 is) (a.0) in
        let clash : ◌≡◌ {A = Option V} none (some v) = sym n ∙ found in absurd (cc)
    | inr other ↦ rw other a.0
  ],
  below_entry j w d f n a.1,
)

-- With distinct keys each entry is looked up under its key.
pub lookup-entries {ℓ κ} :
    {K : Type ℓ} {V : Type κ} ⦃e : Eq K⦄ (d : Dict K V)
    → DistinctKeys d
    → All (λ x. lookup x.0 d ≡ some x.1) d
lookup-entries [] h = tt
lookup-entries ⦃e⦄ ((j, w) ∷ d) h =
    (rw (beq_refl j), below_entry j w d d h.0 (lookup-entries d h.1))

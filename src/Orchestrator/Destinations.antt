-- ===== src/Orchestrator/Destinations.antt =====
-- `DestinationResolver.resolve` of
-- services/execution-orchestrator/src/ai_native_orchestrator/approval.py. A path of the library
-- `pathlib` is a value of a type that is a parameter, as is the test for white space of `str.strip`.
use linux_ai_native_system.Prelude.{
  strip, ℕ, ◌≡◌, ◌≢◌, sym, ap, ◌∙◌, Bool, true, false, ◌||◌, [], ◌∷◌, ◌++◌, ◌≤◌, any, length, ltb,
  nat_beq, nat_eq, Text, text_beq, text_beq_iff, text_eq, codes, Option, none, some, Dict, lookup,
  all, contains, not, ◌&&◌, refl, if◌then◌else◌, arith, ◌⊎◌,
}

-- `_INVALID_CHILD`, or a control character
abbrev pub is_invalid : ℕ → Bool
is_invalid c = contains (codes "<>:\"/\\|?*") c || ltb c 32

-- `name[-1] in {" ", "."}`
unfoldable pub ends_badly : Text → Bool
ends_badly [] = false
ends_badly (c ∷ []) = nat_beq c 32 || nat_beq c 46
ends_badly (c ∷ d ∷ s) = ends_badly (d ∷ s)

-- the checks of a child name
unfoldable pub is_unsafe : Text → Bool
unfolding ends_badly
is_unsafe [] = true
is_unsafe (c ∷ s) =
    ltb 128 (length (c ∷ s))
    || contains (codes "." ∷ codes ".." ∷ []) (c ∷ s)
    || ends_badly (c ∷ s)
    || any is_invalid (c ∷ s)

-- `destination == trusted_last_destination`, where there is one
abbrev is_last : Text → Option Text → Bool
is_last destination none = false
is_last destination (some last) = text_beq destination last

-- none of " * / : < > ? \ | and no control character
abbrev pub is_plain : ℕ → Bool
is_plain c = not (contains (34 ∷ 42 ∷ 47 ∷ 58 ∷ 60 ∷ 62 ∷ 63 ∷ 92 ∷ 124 ∷ []) c) && not (ltb c 32)

-- The name of the child for what was asked: the stripped name, of plain characters, which is not
-- empty, not longer than 128, no dot name, and does not end in a dot or a space; and no child where
-- none was asked for.
abbrev pub IsChild : (ℕ → Bool) → Option Text → Option Text → Type 0
IsChild is_space none none = Unit
IsChild is_space (some raw) (some name) =
    (name ≡ strip is_space raw)
    × (1 ≤ length name)
    × (length name ≤ 128)
    × (name ≢ codes ".")
    × (name ≢ codes "..")
    × (all is_plain name ≡ true)
    × ((s : Text) (c : ℕ) → name ≡ s ++ c ∷ [] → (c ≢ 32) × (c ≢ 46))
IsChild is_space _ _ = ⊥

all_plain : (s : Text) → any is_invalid s ≡ false → all is_plain s ≡ true
all_plain [] h = refl
all_plain (c ∷ s) h = ground (arith, all_plain s)

ends_badly-append : (s : Text) (c : ℕ) → ends_badly (s ++ c ∷ []) ≡ (nat_beq c 32 || nat_beq c 46)
unfolding ends_badly
ends_badly-append [] c = refl
ends_badly-append (d ∷ []) c = refl
ends_badly-append (d ∷ e ∷ s) c = ends_badly-append (e ∷ s) c

unsafe_lem :
    (name : Text)
    → is_unsafe name ≡ false
    → (1 ≤ length name) × (length name ≤ 128) × (all is_plain name ≡ true)
unfolding is_unsafe
unsafe_lem [] h = ground arith
unsafe_lem (d ∷ s) h = (ground arith, ground (arith, h), all_plain (d ∷ s) (ground (arith, h)))

ending : (name s : Text) (c : ℕ) → is_unsafe name ≡ false → name ≡ s ++ c ∷ [] → (c ≢ 32) × (c ≢ 46)
unfolding is_unsafe
ending [] s c h e = ground (arith, h)
ending (d ∷ n) s c h e =
    let badly = ap ends_badly e ∙ ends_badly-append s c in
    (λ is. ground (arith, h, badly, is), λ is. ground (arith, h, badly, is))

module _ {P : Type 0} (path : Text → P) where
  -- the base that `resolve` finds
  unfoldable pub base_of : Dict Text P → Text → Option Text → Option P
  base_of roles destination last = elim (lookup destination roles) [
    | some base ↦ some base
    | none ↦ if is_last destination last then some (path destination) else none
  ]

  -- `resolve`: the base and the name of the child below it, if one is asked for; `none` where it
  -- raises
  unfoldable pub resolve :
      (ℕ → Bool) → Dict Text P → Text → Option Text → Option Text → Option (P × Option Text)
  unfolding base_of strip is_unsafe
  resolve is_space roles destination directory_name last = elim (base_of roles destination last) [
    | none ↦ none
    | some base ↦ elim directory_name [
      | none ↦ some (base, none)
      | some raw ↦
          if is_unsafe (strip is_space raw) then none else some (base, some (strip is_space raw))
    ]
  ]

  not_dots : (name : Text) → is_unsafe name ≡ false → (name ≢ codes ".") × (name ≢ codes "..")
  unfolding is_unsafe text_beq
  not_dots name h = (
    λ e. (let b : true ≡ false = sym (ap is_unsafe e) ∙ h in ground arith),
    λ e. (let b : true ≡ false = sym (ap is_unsafe e) ∙ h in ground arith),
  )

  base_of_lem :
      (roles : Dict Text P) (destination : Text) (last : Option Text) (base : P)
      → base_of roles destination last ≡ some base
      → (lookup destination roles ≡ some base)
        ⊎ ((last ≡ some destination) × (path destination ≡ base))
  unfolding base_of
  base_of_lem roles destination none base h = ground (arith, h)
  base_of_lem roles destination (some l) base h = ground (arith, h, text_beq_iff destination l)

  -- Whatever is asked for, a destination that is resolved is a trusted role's path or the trusted
  -- earlier destination, or lies directly under it: there is a child exactly when one was asked for,
  -- and its name is the stripped one, which has between 1 and 128 characters, is no dot name, does
  -- not end in a dot or a space, and has no slash, no backslash, none of " * : < > ? | and no
  -- control character.
  pub resolve_confined :
      (is_space : ℕ → Bool) (roles : Dict Text P) (destination : Text)
      (directory_name last : Option Text) (base : P) (child : Option Text)
      → resolve is_space roles destination directory_name last ≡ some (base, child)
      → ((lookup destination roles ≡ some base)
          ⊎ ((last ≡ some destination) × (path destination ≡ base)))
        × IsChild is_space directory_name child
  unfolding resolve
  resolve_confined is_space roles destination none last base none h =
      (base_of_lem roles destination last base (ground (arith, h)), tt)
  resolve_confined is_space roles destination none last base (some name) h = ground (arith, h)
  resolve_confined is_space roles destination (some raw) last base none h = ground (arith, h)
  resolve_confined is_space roles destination (some raw) last base (some name) h =
      let safe : is_unsafe name ≡ false = ground (arith, h) in
      let dots = not_dots name safe in
      let plain = unsafe_lem name safe in
      (
        base_of_lem roles destination last base (ground (arith, h)),
        (
          ground (arith, h),
          plain.0,
          plain.1,
          dots.0,
          dots.1,
          plain.2,
          λ s c e. ending name s c safe e,
        ),
      )

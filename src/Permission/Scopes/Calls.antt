-- ===== src/Permission/Scopes/Calls.antt =====
-- `ScopeGrantStore` over any sequence of calls.
use linux_ai_native_system.Prelude.{
  Bool, true, false, not, ◌&&◌, ◌||◌, ◌≡◌, List, [], ◌∷◌, Text, text_eq, Option, none, some, any,
  contains, contains-to_set, contains-union, contains-difference, to_set, arith, Option-cases, inl,
  inr, text_beq_iff,
}
use linux_ai_native_system.Permission.Identifiers.{is_capability_id}
use linux_ai_native_system.Permission.Scopes.{Scopes, validate_scopes, replace, grant, revoke}

pub data Call : Type 0 where
  replace_with grant_all revoke_all : List Text → Call

abbrev pub run_call : Call → Scopes → Option Scopes
run_call (replace_with xs) s = replace xs s
run_call (grant_all xs) s = grant xs s
run_call (revoke_all xs) s = revoke xs s

-- A call that raises leaves the store as it was.
abbrev pub after : Call → Scopes → Scopes
after c s = elim (run_call c s) [ none ↦ s | some t ↦ t ]

unfoldable pub run : List Call → Scopes → Scopes
run [] s = s
run (c ∷ cs) s = run cs (after c s)

-- Every scope in the store is a scope identifier.
abbrev pub AllScopes : Scopes → Type 0
AllScopes s = (x : Text) → contains s x ≡ true → is_capability_id x ≡ true

any-contains :
    (xs : List Text) (x : Text)
    → any (λ s. not (is_capability_id s)) xs ≡ false
    → contains xs x ≡ true
    → is_capability_id x ≡ true
any-contains [] x h m = cc
any-contains (y ∷ xs) x h m = ground (arith, text_beq_iff y x, any-contains xs x)

validate_scopes_lem :
    (xs : List Text) (t : Scopes)
    → validate_scopes xs ≡ some t
    → AllScopes t × ((x : Text) → contains t x ≡ contains xs x)
unfolding validate_scopes
validate_scopes_lem xs t h =
    (λ x m. ground (arith, any-contains (to_set xs) x), λ x. ground (arith, contains-to_set xs x))

-- what the store holds after a call that does not raise
abbrev pub holds_after : Call → Scopes → Text → Bool
holds_after (replace_with xs) s x = contains xs x
holds_after (grant_all xs) s x = contains xs x || contains s x
holds_after (revoke_all xs) s x = contains s x && not (contains xs x)

-- A call that does not raise gives exactly the replaced, the joined or the reduced set.
pub run_call_holds :
    (c : Call) (s t : Scopes)
    → run_call c s ≡ some t
    → (x : Text) → contains t x ≡ holds_after c s x
unfolding replace grant revoke
run_call_holds (replace_with xs) s t h x = (validate_scopes_lem xs t h).1 x
run_call_holds (grant_all xs) s t h x = elim (Option-cases (validate_scopes xs)) [
  | inl bad ↦ ground arith
  | inr (a, e) ↦ ground (arith, e, contains-union s a x, (validate_scopes_lem xs a e).1 x)
]
run_call_holds (revoke_all xs) s t h x = elim (Option-cases (validate_scopes xs)) [
  | inl bad ↦ ground arith
  | inr (a, e) ↦ ground (arith, e, contains-difference s a x, (validate_scopes_lem xs a e).1 x)
]

run_call-AllScopes : (c : Call) (s t : Scopes) → AllScopes s → run_call c s ≡ some t → AllScopes t
unfolding replace
run_call-AllScopes (replace_with xs) s t v h = (validate_scopes_lem xs t h).0
run_call-AllScopes (grant_all xs) s t v h = λ x m. elim (Option-cases (validate_scopes xs)) [
  | inl bad ↦ unfold grant in ground arith
  | inr (a, e) ↦ ground (
    arith,
    run_call_holds (grant_all xs) s t h x,
    v x,
    (validate_scopes_lem xs a e).0 x,
    (validate_scopes_lem xs a e).1 x,
  )
]
run_call-AllScopes (revoke_all xs) s t v h =
    λ x m. ground (arith, run_call_holds (revoke_all xs) s t h x, v x)

-- Whatever calls are made, and whichever of them raise, the store holds scope identifiers only.
pub run-AllScopes : (cs : List Call) (s : Scopes) → AllScopes s → AllScopes (run cs s)
unfolding run
run-AllScopes [] s v = v
run-AllScopes (c ∷ cs) s v = run-AllScopes cs (after c s) (elim (Option-cases (run_call c s)) [
  | inl raised ↦ λ x m. ground (arith, v x)
  | inr (t, e) ↦ λ x m. ground (arith, e, run_call-AllScopes c s t v e x)
])

-- ===== src/Intents/Planner/References.antt =====
-- The dependencies that `IntentPlanner.plan`
-- (services/intent-compiler/src/ai_native_intents/planner.py) gives a step, read as identifiers of
-- steps and of operations.
use linux_ai_native_system.Prelude.{
  ◌≡◌, refl, true, false, not, List, [], ◌∷◌, map, any, all, Text, text_beq, text_eq, text_beq_iff,
  some, Dict, lookup, contains, contains-keep, arith,
}
use linux_ai_native_system.Permission.Contracts.{JsonValue, str}
use linux_ai_native_system.Orchestrator.Plans.{step_of, from_keys}
use linux_ai_native_system.Intents.Planner.{references}

pub step_of_beq : (a b : Text) → text_beq (step_of a) (step_of b) ≡ text_beq a b
unfolding text_beq
step_of_beq a b = refl

pub contains-step_of :
    (xs : List Text) (a : Text) → contains (map step_of xs) (step_of a) ≡ contains xs a
contains-step_of [] a = refl
contains-step_of (x ∷ xs) a = ground (arith, contains-step_of xs a, step_of_beq x a)

pub contains-from_keys : (xs : List Text) (a : Text) → contains (from_keys xs) a ≡ contains xs a
unfolding from_keys
contains-from_keys [] a = refl
contains-from_keys (x ∷ xs) a = ground (
  arith,
  contains-from_keys xs a,
  contains-keep (λ y. not (text_beq x y)) (from_keys xs) a,
  text_beq_iff x a,
)

-- Dependencies on earlier steps only.
pub earlier_steps :
    (seen ys : List Text)
    → ((a : Text) → contains ys a ≡ true → contains seen a ≡ true)
    → any (λ d. not (contains (map step_of seen) d)) (map step_of ys) ≡ false
earlier_steps seen [] h = refl
earlier_steps seen (y ∷ ys) h = ground (
  arith,
  earlier_steps seen ys (λ a m. h a (ground (arith, m))),
  contains-step_of seen y,
  h y,
  text_beq_iff y y,
)

-- An argument that is an operation's identifier is one of the references.
pub contains-references :
    (ids : List Text) (arguments : Dict Text JsonValue) (name value : Text)
    → lookup name arguments ≡ some (str value)
    → contains ids value ≡ true
    → contains (references ids arguments) value ≡ true
unfolding references
contains-references ids [] name value l m = ground (arith, l)
contains-references ids ((k, str v) ∷ arguments) name value l m =
    ground (arith, l, m, contains-references ids arguments name value, text_beq_iff v value)
contains-references ids ((k, JsonValue.int v) ∷ arguments) name value l m =
    ground (arith, l, m, contains-references ids arguments name value)
contains-references ids ((k, JsonValue.negative_int v) ∷ arguments) name value l m =
    ground (arith, l, m, contains-references ids arguments name value)
contains-references ids ((k, JsonValue.float) ∷ arguments) name value l m =
    ground (arith, l, m, contains-references ids arguments name value)
contains-references ids ((k, JsonValue.bool v) ∷ arguments) name value l m =
    ground (arith, l, m, contains-references ids arguments name value)
contains-references ids ((k, JsonValue.null) ∷ arguments) name value l m =
    ground (arith, l, m, contains-references ids arguments name value)
contains-references ids ((k, JsonValue.tuple v) ∷ arguments) name value l m =
    ground (arith, l, m, contains-references ids arguments name value)
contains-references ids ((k, JsonValue.other) ∷ arguments) name value l m =
    ground (arith, l, m, contains-references ids arguments name value)

pub all_contained :
    (seen ys : List Text) (a : Text)
    → all (λ v. contains seen v) ys ≡ true
    → contains ys a ≡ true
    → contains seen a ≡ true
all_contained seen [] a h m = ground (arith, m)
all_contained seen (y ∷ ys) a h m = ground (arith, h, m, all_contained seen ys a, text_beq_iff y a)

pub none_missing :
    (seen ys : List Text) (a : Text)
    → any (λ d. not (contains seen d)) ys ≡ false
    → contains ys a ≡ true
    → contains seen a ≡ true
none_missing seen [] a h m = ground (arith, m)
none_missing seen (y ∷ ys) a h m = ground (arith, h, m, none_missing seen ys a, text_beq_iff y a)

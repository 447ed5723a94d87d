-- ===== src/Tests/Orchestrator.antt =====
-- The stores of services/execution-orchestrator at work: two entries at most, for 300 ticks.
use mathlib.Core.List.{Perm}
use linux_ai_native_system.Prelude.{
  ℕ, ◌≡◌, refl, Text, text_beq, text_eq, none, some, codes, [], ◌∷◌, ◌++◌, arith,
}
use linux_ai_native_system.Orchestrator.Expiring.{
  Stored, Store, make, contents, purge, evict, put, take,
}
use linux_ai_native_system.Orchestrator.Expiring.Bounds.{
  IsValid, put_call, take_call, run_store, run_store-IsValid, take-put, take_once,
}
use linux_ai_native_system.Orchestrator.Expiring.Conservation.{
  option_list, put_conserves, take_conserves,
}

abbrev first : Text
first = codes "a"

abbrev second : Text
second = codes "b"

abbrev third : Text
third = codes "c"

abbrev stored : ℕ → ℕ → Stored ℕ
stored v t = record { content = v; expires_at = t }

abbrev two : Store ℕ
two = record {
  capacity = 2;
  ttl = 300;
  entries = (first, stored 1 310) ∷ (second, stored 2 320) ∷ [];
}

two-IsValid : IsValid two
unfolding text_beq
two-IsValid = record { bounded = ground arith; keys = (refl, (refl, tt)) }

-- a third entry makes the first one leave
put_evicts : (put 100 third 3 two).1 ≡ 1 ∷ []
unfolding put purge evict text_beq
put_evicts = refl

-- limits of zero are refused
make_refuses : make {V = ℕ} 0 300 ≡ none
unfolding make
make_refuses = refl

run_store-IsValid_example :
    IsValid (run_store (put_call 100 third 3 ∷ take_call 110 second ∷ []) two)
run_store-IsValid_example =
    run_store-IsValid (put_call 100 third 3 ∷ take_call 110 second ∷ []) two two-IsValid

take-put_example : (take 399 third (put 100 third 3 two).0).1 ≡ some 3
take-put_example = take-put 100 399 third 3 two two-IsValid (omega arith) (omega arith)

take_once_example :
    (take 200 second (run_store (put_call 100 third 3 ∷ []) (take 50 second two).0)).1 ≡ none
unfolding text_beq
take_once_example = take_once 50 200 second (put_call 100 third 3 ∷ []) two two-IsValid (refl, tt)

put_conserves_example :
    Perm ((put 100 third 3 two).1 ++ contents (put 100 third 3 two).0.entries) (3 ∷ 1 ∷ 2 ∷ [])
unfolding text_beq
put_conserves_example = put_conserves 100 third 3 two refl

take_conserves_example :
    Perm
      ((take 315 second two).2
        ++ (option_list (take 315 second two).1 ++ contents (take 315 second two).0.entries))
      (1 ∷ 2 ∷ [])
take_conserves_example = take_conserves 315 second two

-- ===== src/Tests/Scheduler.antt =====
-- The event queue of services/index-scheduler at work: two events at most, held back for 5 ticks.
use linux_ai_native_system.Prelude.{
  ℕ, ◌≤◌, ◌≡◌, ◌⊎◌, refl, true, not, ◌||◌, Bool, Text, text_beq, codes, some, [], ◌∷◌, any, all,
  length, nat_beq, arith,
}
use linux_ai_native_system.Scheduler.Queue.{
  FileEvent, created, modified, deleted, Queue, Key, key_of, everywhere, rescan_of, is_ready, merge,
  collapse_volume, store, put_locked, accepted, empty_volume, put, pop_loop, pop_ready,
}
use linux_ai_native_system.Scheduler.Queue.Bounds.{IsValid}
use linux_ai_native_system.Scheduler.Queue.Runs.{put_call, pop_call, run, run-IsValid}
use linux_ai_native_system.Scheduler.Queue.Coverage.{covers, covered_by, run-covers}
use linux_ai_native_system.Scheduler.Queue.Ready.{pop_ready_lem}

abbrev is_blank : ℕ → Bool
is_blank c = nat_beq c 32

abbrev disk : Text
disk = codes "d"

abbrev made : FileEvent
made = record { volume_id = disk; path = codes "a"; kind = created; observed_at = 10 }

abbrev changed : FileEvent
changed = record { volume_id = disk; path = codes "a"; kind = modified; observed_at = 12 }

abbrev other : FileEvent
other = record { volume_id = disk; path = codes "b"; kind = deleted; observed_at = 13 }

abbrev third : FileEvent
third = record { volume_id = codes "e"; path = codes "c"; kind = created; observed_at = 14 }

abbrev empty : Queue
empty = record { max_events = 2; debounce = 5; events = [] }

abbrev one : Queue
one = record empty { events = (key_of made, made) ∷ [] }

abbrev two : Queue
two = record empty { events = (key_of made, made) ∷ (key_of other, other) ∷ [] }

empty-IsValid : IsValid empty
empty-IsValid = record { positive = omega arith; bounded = omega arith; keys = tt; named = tt }

one-IsValid : IsValid one
one-IsValid = record {
  positive = omega arith;
  bounded = omega arith;
  keys = (refl, tt);
  named = (refl, tt);
}

-- a change of a file that is new leaves it new, seen last at the change
put_merges :
    put is_blank changed one
    ≡ accepted (record empty { events = (key_of made, record made { observed_at = 12 }) ∷ [] })
unfolding put put_locked store collapse_volume merge text_beq
put_merges = refl

-- one event too many becomes a rescan of everything
put_overflows :
    put is_blank third two
    ≡ accepted (record empty { events = (everywhere, rescan_of (codes "*") 14) ∷ [] })
unfolding put put_locked store collapse_volume merge text_beq
put_overflows = refl

-- a blank volume is refused
put_refuses : put is_blank (record made { volume_id = codes " " }) empty ≡ empty_volume
unfolding put
put_refuses = refl

-- a rescan goes at once, a change when it has rested
pops : pop_ready 16 4 two ≡ some (made ∷ [], record empty { events = (key_of other, other) ∷ [] })
unfolding pop_ready pop_loop
pops = refl

run-IsValid_example :
    IsValid (run is_blank (put_call changed ∷ pop_call 20 1 ∷ put_call third ∷ []) one).1
run-IsValid_example =
    run-IsValid is_blank (put_call changed ∷ pop_call 20 1 ∷ put_call third ∷ []) one one-IsValid

put_first : put is_blank made empty ≡ accepted one
unfolding put put_locked store collapse_volume merge text_beq
put_first = refl

run-covers_example :
    (any (covered_by (key_of made)) (run is_blank (put_call other ∷ put_call third ∷ []) one).0
      || covers (key_of made) (run is_blank (put_call other ∷ put_call third ∷ []) one).1.events)
    ≡ true
run-covers_example =
    run-covers is_blank made empty one (put_call other ∷ put_call third ∷ []) empty-IsValid
      put_first

pop_ready_lem_example :
    (length (made ∷ []) ≤ 4)
    × (all (is_ready 5 16) (made ∷ []) ≡ true)
    × ((4 ≤ length (made ∷ []))
        ⊎ (all (λ (e : Key × FileEvent). not (is_ready 5 16 e.1)) ((key_of other, other) ∷ [])
            ≡ true))
pop_ready_lem_example =
    pop_ready_lem 16 4 two (record empty { events = (key_of other, other) ∷ [] }) (made ∷ []) pops

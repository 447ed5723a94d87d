-- ===== src/Scheduler/Queue/Ready.antt =====
-- What `pop_ready` (queue.py of services/index-scheduler) hands out.
use linux_ai_native_system.Prelude.{
  ℕ, ◌-◌, ◌≤◌, ◌<◌, ◌≡◌, ◌⊎◌, refl, true, not, List, [], ◌∷◌, some, all, length, arith,
}
use linux_ai_native_system.Scheduler.Queue.{FileEvent, Queue, is_ready, pop_loop, pop_ready}
use linux_ai_native_system.Scheduler.Queue.Bounds.{Events}

length-pop_loop-le :
    (debounce now room : ℕ) (d : Events) → length (pop_loop debounce now room d).0 ≤ room
unfolding pop_loop
length-pop_loop-le debounce now room [] = omega arith
length-pop_loop-le debounce now room ((k, e) ∷ d) =
    ground
      (arith, length-pop_loop-le debounce now room d, length-pop_loop-le debounce now (room - 1) d)

pop_loop_ready :
    (debounce now room : ℕ) (d : Events)
    → all (is_ready debounce now) (pop_loop debounce now room d).0 ≡ true
unfolding pop_loop
pop_loop_ready debounce now room [] = refl
pop_loop_ready debounce now room ((k, e) ∷ d) =
    ground (arith, pop_loop_ready debounce now room d, pop_loop_ready debounce now (room - 1) d)

pop_loop_left :
    (debounce now room : ℕ) (d : Events)
    → length (pop_loop debounce now room d).0 < room
    → all (λ e. not (is_ready debounce now e.1)) (pop_loop debounce now room d).1 ≡ true
unfolding pop_loop
pop_loop_left debounce now room [] h = refl
pop_loop_left debounce now room ((k, e) ∷ d) h =
    ground (arith, pop_loop_left debounce now room d, pop_loop_left debounce now (room - 1) d)

-- At most `limit` events are handed out, each of them ready (a rescan, or one that has rested for
-- the debounce time), and if they are fewer, then no ready event is left in the queue.
pub pop_ready_lem :
    (now limit : ℕ) (q q' : Queue) (ready : List FileEvent)
    → pop_ready now limit q ≡ some (ready, q')
    → (length ready ≤ limit)
      × (all (is_ready q.debounce now) ready ≡ true)
      × ((limit ≤ length ready) ⊎ (all (λ e. not (is_ready q.debounce now e.1)) q'.events ≡ true))
unfolding pop_ready
pop_ready_lem now limit q q' ready h = ground (
  arith,
  h,
  length-pop_loop-le q.debounce now limit q.events,
  pop_loop_ready q.debounce now limit q.events,
  pop_loop_left q.debounce now limit q.events,
)

-- ===== src/Scheduler/Queue/Runs.antt =====
-- Calls on the event queue (queue.py of services/index-scheduler), one after the other.
use linux_ai_native_system.Prelude.{ℕ, Bool, List, [], ◌∷◌, ◌++◌, Option, none, some, arith}
use linux_ai_native_system.Scheduler.Queue.{FileEvent, Queue, Put, accepted, put, pop_ready}
use linux_ai_native_system.Scheduler.Queue.Bounds.{IsValid, put_locked-IsValid, pop_loop-IsValid}

pub data Call : Type 0 where
  put_call : FileEvent → Call
  pop_call : ℕ → ℕ → Call

-- the queue after a put, whether or not it raised
abbrev pub after_put : Queue → Put → Queue
after_put q (accepted q') = q'
after_put q _ = q

-- what a pop hands out and the queue after it, whether or not it raised
abbrev pub after_pop : Queue → Option (List FileEvent × Queue) → List FileEvent × Queue
after_pop q none = ([], q)
after_pop q (some r) = r

pub pop-IsValid :
    (now limit : ℕ) (q : Queue) → IsValid q → IsValid (after_pop q (pop_ready now limit q)).1
unfolding pop_ready
pop-IsValid now limit q v = ground (arith, v, pop_loop-IsValid now limit q v)

module _ (is_space : ℕ → Bool) where
  -- all that is popped, in order, and the queue in the end
  unfoldable pub run : List Call → Queue → List FileEvent × Queue
  run [] q = ([], q)
  run (put_call event ∷ cs) q = run cs (after_put q (put is_space event q))
  run (pop_call now limit ∷ cs) q =
      let popped = after_pop q (pop_ready now limit q) in
      let rest = run cs popped.1 in (popped.0 ++ rest.0, rest.1)

  pub put-IsValid :
      (event : FileEvent) (q : Queue) → IsValid q → IsValid (after_put q (put is_space event q))
  unfolding put
  put-IsValid event q v = ground (arith, v, put_locked-IsValid event q v)

  -- Whatever is put into a valid queue and popped from it, and whenever, the queue stays within its limit, with one event to a
  -- key and each event under its own key.
  pub run-IsValid : (cs : List Call) (q : Queue) → IsValid q → IsValid (run cs q).1
  unfolding run
  run-IsValid [] q v = v
  run-IsValid (put_call event ∷ cs) q v = run-IsValid cs _ (put-IsValid event q v)
  run-IsValid (pop_call now limit ∷ cs) q v = run-IsValid cs _ (pop-IsValid now limit q v)

-- ===== src/Scheduler/Queue/Coverage.antt =====
-- No event that the queue (queue.py of services/index-scheduler) accepted is lost: until an event
-- that covers its file is handed out, the queue holds one.
use linux_ai_native_system.Prelude.{
  ℕ, ◌-◌, ◌≡◌, refl, Bool, true, not, ◌&&◌, ◌||◌, List, [], ◌∷◌, ◌++◌, any, All, Text, text_beq,
  text_beq_iff, none, lookup, remove, keep, is_some, if◌then◌else◌, arith, subst, lookup-assign,
  lookup-remove_ne, Option-cases, inl, inr, ◌⊎◌,
}
use linux_ai_native_system.Scheduler.Queue.{
  FileEvent, Key, key_beq, key_beq_iff, key_eq, Queue, accepted, put, key_of, everywhere, rescan_of,
  merge, collapse_volume, store, put_locked, pop_loop, pop_ready,
}
use linux_ai_native_system.Scheduler.Queue.Runs.{
  Call, put_call, pop_call, run, after_put, after_pop, put-IsValid, pop-IsValid,
}
use linux_ai_native_system.Scheduler.Queue.Bounds.{Events, Named, IsValid}

-- The queue holds an event for the file, its volume or everything.
unfoldable pub covers : Key → Events → Bool
covers k events =
    is_some (lookup everywhere events)
    || is_some (lookup (k.0, []) events)
    || is_some (lookup k events)

lookup-others :
    (volume_id : Text) (k : Key) (d : Events)
    → lookup k (keep (λ e. not (text_beq e.0.0 volume_id)) d)
      ≡ (if text_beq k.0 volume_id then none else lookup k d)
lookup-others volume_id k [] = ground arith
lookup-others volume_id k ((j, e) ∷ d) =
    ground (arith, key_beq_iff j k, lookup-others volume_id k d)

-- A key that was there, and the event's own, are there once the event is stored, or their volume is.
store_keeps :
    (event : FileEvent) (key j : Key) (d : Events)
    → key.0 ≡ event.volume_id
    → (key_beq key j || is_some (lookup j d)) ≡ true
    → (is_some (lookup j (store event key d))
        || (text_beq j.0 event.volume_id
            && is_some (lookup (event.volume_id, []) (store event key d))))
      ≡ true
unfolding store collapse_volume
store_keeps event key j d v h =
    let root : Key = (event.volume_id, []) in
    let others = keep (λ e. not (text_beq e.0.0 event.volume_id)) d in
    let collapsed = rescan_of event.volume_id event.observed_at in
    ground (
      arith,
      lookup-assign key j event d,
      lookup-assign root j collapsed others,
      lookup-assign root root collapsed others,
      lookup-others event.volume_id j d,
      key_beq_iff key j,
      key_beq_iff root root,
      text_beq_iff j.0 event.volume_id,
    )

-- The key is one of those that cover `k`.
abbrev touches : Key → Key → Bool
touches key k = key_beq key everywhere || key_beq key (k.0, []) || key_beq key k

-- Storing an event leaves covered what was, and covers the event's key.
store-covers :
    (event : FileEvent) (key k : Key) (d : Events)
    → key.0 ≡ event.volume_id
    → (touches key k || covers k d) ≡ true
    → covers k (store event key d) ≡ true
unfolding covers
store-covers event key k d v h = ground (
  arith,
  store_keeps event key everywhere d v,
  store_keeps event key (k.0, []) d v,
  store_keeps event key k d v,
  text_beq_iff k.0 event.volume_id,
  text_beq_iff everywhere.0 event.volume_id,
)

-- Removing a key uncovers nothing that it is put back for.
remove-covers :
    (key k : Key) (d : Events)
    → covers k d ≡ true
    → (touches key k || covers k (remove key d)) ≡ true
unfolding covers
remove-covers key k d h = ground (
  arith,
  lookup-remove_ne key everywhere d,
  lookup-remove_ne key (k.0, []) d,
  lookup-remove_ne key k d,
)

-- What was covered before a put is covered after it, and so is the file of the event.
put_locked-covers :
    (event : FileEvent) (q : Queue) (k : Key)
    → (covers k q.events ≡ true) ⊎ (key_beq (key_of event) k ≡ true)
    → covers k (put_locked event q) ≡ true
unfolding put_locked merge covers
put_locked-covers event q k h =
    let key = key_of event in
    elim (Option-cases (lookup key q.events)) [
      | inl absent ↦ ground (
        arith,
        h,
        key_beq_iff everywhere everywhere,
        key_beq_iff key k,
        store-covers event key k q.events refl,
      )
      | inr (previous, there) ↦ ground (
        arith,
        h,
        key_beq_iff key k,
        remove-covers key k q.events,
        store-covers (merge previous event) key k (remove key q.events) refl,
      )
    ]

-- An event that is handed out covers the file.
abbrev pub covered_by : Key → FileEvent → Bool
covered_by k e =
    key_beq (key_of e) everywhere || key_beq (key_of e) (k.0, []) || key_beq (key_of e) k

any_covered :
    (k : Key) (es : List FileEvent)
    → (any (λ e. key_beq (key_of e) everywhere) es
        || any (λ e. key_beq (key_of e) (k.0, [])) es
        || any (λ e. key_beq (key_of e) k) es)
      ≡ true
    → any (covered_by k) es ≡ true
any_covered k [] h = h
any_covered k (e ∷ es) h = ground (arith, any_covered k es)

put_covered :
    (is_space : ℕ → Bool) (event : FileEvent) (q : Queue) (k : Key)
    → covers k q.events ≡ true
    → covers k (after_put q (put is_space event q)).events ≡ true
unfolding put
put_covered is_space event q k h = ground (arith, h, put_locked-covers event q k (inl h))

pop_loop-lookup :
    (debounce now room : ℕ) (k : Key) (d : Events)
    → All Named d
    → is_some (lookup k d) ≡ true
    → (any (λ e. key_beq (key_of e) k) (pop_loop debounce now room d).0
        || is_some (lookup k (pop_loop debounce now room d).1))
      ≡ true
unfolding pop_loop
pop_loop-lookup debounce now room k [] a h = ground arith
pop_loop-lookup debounce now room k ((j, e) ∷ d) a h = ground (
  arith,
  key_beq_iff j k,
  a.0,
  pop_loop-lookup debounce now room k d a.1,
  pop_loop-lookup debounce now (room - 1) k d a.1,
)

-- What is covered stays covered until an event that covers it is handed out.
pub pop_loop-covers :
    (debounce now room : ℕ) (k : Key) (d : Events)
    → All Named d
    → covers k d ≡ true
    → (any (covered_by k) (pop_loop debounce now room d).0
        || covers k (pop_loop debounce now room d).1)
      ≡ true
unfolding covers
pop_loop-covers debounce now room k d a h =
    let popped = (pop_loop debounce now room d).0 in
    ground (
      arith,
      any_covered k popped,
      pop_loop-lookup debounce now room everywhere d a,
      pop_loop-lookup debounce now room (k.0, []) d a,
      pop_loop-lookup debounce now room k d a,
    )

pop_covered :
    (now limit : ℕ) (q : Queue) (k : Key)
    → IsValid q
    → covers k q.events ≡ true
    → (any (covered_by k) (after_pop q (pop_ready now limit q)).0
        || covers k (after_pop q (pop_ready now limit q)).1.events)
      ≡ true
unfolding pop_ready
pop_covered now limit q k v h =
    ground (arith, h, pop_loop-covers q.debounce now limit k q.events v.named h)

any-append :
    (p : FileEvent → Bool) (xs ys : List FileEvent) → any p (xs ++ ys) ≡ (any p xs || any p ys)
any-append p [] ys = refl
any-append p (x ∷ xs) ys = ground (arith, any-append p xs ys)

-- What is covered stays covered, whatever is put and popped, until an event that covers it is
-- handed out.
pub run_covered :
    (is_space : ℕ → Bool) (k : Key) (cs : List Call) (q : Queue)
    → IsValid q
    → covers k q.events ≡ true
    → (any (covered_by k) (run is_space cs q).0 || covers k (run is_space cs q).1.events) ≡ true
unfolding run
run_covered is_space k [] q v h = h
run_covered is_space k (put_call event ∷ cs) q v h =
    run_covered is_space k cs (after_put q (put is_space event q)) (put-IsValid is_space event q v)
      (put_covered is_space event q k h)
run_covered is_space k (pop_call now limit ∷ cs) q v h =
    let popped = after_pop q (pop_ready now limit q) in
    ground (
      arith,
      any-append (covered_by k) popped.0 (run is_space cs popped.1).0,
      pop_covered now limit q k v h,
      run_covered is_space k cs popped.1 (pop-IsValid now limit q v),
    )

-- After a valid queue has accepted an event, and whatever is put and popped after it, an event that covers
-- its file (one for it, for its volume or for everything) has been handed out or is in the queue.
pub run-covers :
    (is_space : ℕ → Bool) (event : FileEvent) (q q' : Queue) (cs : List Call)
    → IsValid q
    → put is_space event q ≡ accepted q'
    → (any (covered_by (key_of event)) (run is_space cs q').0
        || covers (key_of event) (run is_space cs q').1.events)
      ≡ true
unfolding put
run-covers is_space event q q' cs v h =
    run_covered is_space (key_of event) cs q'
      (subst (λ r. IsValid (after_put q r)) h (put-IsValid is_space event q v))
      (ground (
        arith,
        h,
        key_beq_iff (key_of event) (key_of event),
        put_locked-covers event q (key_of event),
      ))

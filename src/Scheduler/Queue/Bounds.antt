-- ===== src/Scheduler/Queue/Bounds.antt =====
-- The bound of the event queue (queue.py of services/index-scheduler) and the keys of its events.
use linux_ai_native_system.Prelude.{
  ℕ, suc, ◌-◌, ◌≤◌, ◌≡◌, refl, sym, ap, Bool, not, [], ◌∷◌, text_beq, none, some, Dict,
  DistinctKeys, lookup, assign, remove, keep, length, length-keep-le, if◌then◌else◌, All,
  Option-cases, inl, inr, arith, remove-DistinctKeys, keep-DistinctKeys, assign-DistinctKeys,
}
use linux_ai_native_system.Scheduler.Queue.{
  EventKind, created, modified, deleted, rescan, FileEvent, Key, key_beq_iff, key_eq, Queue,
  is_rescan, key_of, merged_kind, rescan_of, merge, collapse_volume, store, put_locked, pop_loop,
}

abbrev pub Events : Type 0
Events = Dict Key FileEvent

-- The event stands under its own key.
abbrev pub Named : Key × FileEvent → Type 0
Named e = e.0 ≡ key_of e.1

-- There is room for an event, the events are within the limit, no key stands twice, and each
-- event stands under its own key.
pub record IsValid (q : Queue) : Type 0 where
  pub positive : 1 ≤ q.max_events
  pub bounded : length q.events ≤ q.max_events
  pub keys : DistinctKeys q.events
  pub named : All Named q.events

length-assign-le : (k : Key) (e : FileEvent) (d : Events) → length (assign k e d) ≤ suc (length d)
length-assign-le k e [] = omega arith
length-assign-le k e ((j, f) ∷ d) = ground (arith, length-assign-le k e d)

length-remove :
    (k : Key) (e : FileEvent) (d : Events)
    → lookup k d ≡ some e
    → suc (length (remove k d)) ≡ length d
length-remove k e [] h = ground arith
length-remove k e ((j, f) ∷ d) h = ground (arith, length-remove k e d)

All-keep : (p : Key × FileEvent → Bool) (d : Events) → All Named d → All Named (keep p d)
All-keep p [] a = tt
All-keep p (e ∷ d) a = ground (arith, All-keep p d a.1)

All-remove : (k : Key) (d : Events) → All Named d → All Named (remove k d)
All-remove k [] a = tt
All-remove k ((j, f) ∷ d) a = ground (arith, All-remove k d a.1)

All-assign :
    (k : Key) (e : FileEvent) (d : Events) → k ≡ key_of e → All Named d → All Named (assign k e d)
All-assign k e [] h a = (h, tt)
All-assign k e ((j, f) ∷ d) h a = ground (arith, key_beq_iff j k, All-assign k e d h a.1)

pub merged_kind-is_rescan : (p c : EventKind) → is_rescan (merged_kind p c) ≡ is_rescan c
merged_kind-is_rescan p deleted = refl
merged_kind-is_rescan p rescan = refl
merged_kind-is_rescan created created = refl
merged_kind-is_rescan modified created = refl
merged_kind-is_rescan deleted created = refl
merged_kind-is_rescan rescan created = refl
merged_kind-is_rescan created modified = refl
merged_kind-is_rescan modified modified = refl
merged_kind-is_rescan deleted modified = refl
merged_kind-is_rescan rescan modified = refl

-- What `store` keeps of the three parts of the invariant.
record StoreKeeps (event : FileEvent) (key : Key) (d : Events) : Type 0 where
  size : length (store event key d) ≤ suc (length d)
  distinct : DistinctKeys (store event key d)
  all_named : All Named (store event key d)

store-Keeps :
    (event : FileEvent) (key : Key) (d : Events)
    → key ≡ key_of event
    → DistinctKeys d
    → All Named d
    → StoreKeeps event key d
unfolding store collapse_volume
store-Keeps event key d h k a =
    let collapsed = rescan_of event.volume_id event.observed_at in
    let others : Key × FileEvent → Bool = λ e. not (text_beq e.0.0 event.volume_id) in
    let root : Key = (event.volume_id, []) in
    record {
      size = ground (
        arith,
        length-assign-le key event d,
        length-assign-le root collapsed (keep others d),
        length-keep-le others d,
      );
      distinct = ground (
        arith,
        assign-DistinctKeys key event d k,
        assign-DistinctKeys root collapsed (keep others d) (keep-DistinctKeys others d k),
      );
      all_named = ground (
        arith,
        All-assign key event d h a,
        All-assign root collapsed (keep others d) refl (All-keep others d a),
      );
    }

-- A put keeps the queue within its limit, with one event to a key, each under its own.
pub put_locked-IsValid :
    (event : FileEvent) (q : Queue) → IsValid q → IsValid (record q { events = put_locked event q })
unfolding put_locked merge
put_locked-IsValid event q v = elim (Option-cases (lookup (key_of event) q.events)) [
  | inl absent ↦
      let stored : StoreKeeps event (key_of event) q.events =
        store-Keeps event (key_of event) q.events refl v.keys v.named in
      record {
        positive = v.positive;
        bounded = ground (arith, stored.size, v.bounded, v.positive);
        keys = ground (arith, stored.distinct, v.keys);
        named = ground (arith, stored.all_named, v.named);
      }
  | inr (previous, there) ↦
      let left = remove (key_of event) q.events in
      let stored : StoreKeeps (merge previous event) (key_of event) left =
        store-Keeps (merge previous event) (key_of event) left
          (ap (λ b. (event.volume_id, if b then [] else event.path))
            (sym (merged_kind-is_rescan previous.kind event.kind)))
          (remove-DistinctKeys (key_of event) q.events v.keys)
          (All-remove (key_of event) q.events v.named) in
      record {
        positive = v.positive;
        bounded =
            ground
              (arith, stored.size, v.bounded, length-remove (key_of event) previous q.events there);
        keys = ground (arith, stored.distinct, v.keys);
        named = ground (arith, stored.all_named, v.named);
      }
]

-- What `pop_loop` leaves was there before.
pop_loop-none :
    (debounce now room : ℕ) (k : Key) (d : Events)
    → lookup k d ≡ none
    → lookup k (pop_loop debounce now room d).1 ≡ none
unfolding pop_loop
pop_loop-none debounce now room k [] h = refl
pop_loop-none debounce now room k ((j, e) ∷ d) h =
    ground (arith, pop_loop-none debounce now room k d, pop_loop-none debounce now (room - 1) k d)

record PopKeeps (debounce now room : ℕ) (d : Events) : Type 0 where
  size : length (pop_loop debounce now room d).1 ≤ length d
  distinct : DistinctKeys (pop_loop debounce now room d).1
  all_named : All Named (pop_loop debounce now room d).1

pop_loop-Keeps :
    (debounce now room : ℕ) (d : Events)
    → DistinctKeys d
    → All Named d
    → PopKeeps debounce now room d
unfolding pop_loop
pop_loop-Keeps debounce now room [] k a = record {
  size = omega arith;
  distinct = tt;
  all_named = tt;
}
pop_loop-Keeps debounce now room ((j, e) ∷ d) k a =
    let takes = pop_loop-Keeps debounce now (room - 1) d k.1 a.1 in
    let skips = pop_loop-Keeps debounce now room d k.1 a.1 in
    record {
      size = ground (arith, takes.size, skips.size);
      distinct = ground (
        arith,
        takes.distinct,
        skips.distinct,
        pop_loop-none debounce now room j d k.0,
        pop_loop-none debounce now (room - 1) j d k.0,
      );
      all_named = ground (arith, takes.all_named, skips.all_named, a.0);
    }

pub pop_loop-IsValid :
    (now room : ℕ) (q : Queue)
    → IsValid q
    → IsValid (record q { events = (pop_loop q.debounce now room q.events).1 })
pop_loop-IsValid now room q v =
    let kept = pop_loop-Keeps q.debounce now room q.events v.keys v.named in
    record {
      positive = v.positive;
      bounded = omega (arith, kept.size, v.bounded);
      keys = kept.distinct;
      named = kept.all_named;
    }

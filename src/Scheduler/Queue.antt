-- ===== src/Scheduler/Queue.antt =====
-- `CoalescingEventQueue` of
-- services/index-scheduler/src/ai_native_scheduler/queue.py, with the events of contracts.py. Times
-- are ticks; each method runs under the queue's lock.
pub mod Bounds
pub mod Coverage
pub mod Ready
pub mod Runs
use linux_ai_native_system.Prelude.{
  ℕ, ◌+◌, ◌-◌, ◌≡◌, ◌↔◌, refl, ap, Bool, true, false, not, ◌&&◌, ◌||◌, List, [], ◌∷◌, Text,
  text_beq, text_eq, text_beq_iff, codes, Option, none, some, Dict, lookup, assign, remove, keep,
  all, length, leb, ltb, is_some, if◌then◌else◌, Eq, arith,
}

pub data EventKind : Type 0 where
  created modified deleted rescan : EventKind

pub record FileEvent : Type 0 where
  pub volume_id : Text
  pub path : Text
  pub kind : EventKind
  pub observed_at : ℕ

-- the key of an event: its volume and its path
abbrev pub Key : Type 0
Key = Text × Text

abbrev pub key_beq : Key → Key → Bool
key_beq a b = text_beq a.0 b.0 && text_beq a.1 b.1

pub key_beq_iff : (a b : Key) → (key_beq a b ≡ true) ↔ (a ≡ b)
key_beq_iff (v, p) (w, q) = ground (arith, text_beq_iff v w, text_beq_iff p q)

instance abbrev pub key_eq : Eq Key
key_eq = record { same = key_beq; same_iff = key_beq_iff }

-- `CoalescingEventQueue`
pub record Queue : Type 0 where
  pub max_events : ℕ
  pub debounce : ℕ
  pub events : Dict Key FileEvent

-- `__init__`; `none` where it raises (no number of ticks is negative)
unfoldable pub make : ℕ → ℕ → Option Queue
make max_events debounce =
    if ltb max_events 1
    then none
    else some (record { max_events = max_events; debounce = debounce; events = [] })

-- `kind is EventKind.RESCAN`
abbrev pub is_rescan : EventKind → Bool
is_rescan rescan = true
is_rescan _ = false

abbrev pub is_empty : Text → Bool
is_empty [] = true
is_empty (c ∷ cs) = false

abbrev pub key_of : FileEvent → Key
key_of event = (event.volume_id, if is_rescan event.kind then [] else event.path)

-- `("*", "")`, the key of a rescan of everything
abbrev pub everywhere : Key
everywhere = (codes "*", [])

abbrev pub rescan_of : Text → ℕ → FileEvent
rescan_of volume_id observed_at = record {
  volume_id = volume_id;
  path = [];
  kind = rescan;
  observed_at = observed_at;
}

abbrev pub merged_kind : EventKind → EventKind → EventKind
merged_kind _ deleted = deleted
merged_kind deleted created = modified
merged_kind created modified = created
merged_kind _ current = current

-- `_merge`
unfoldable pub merge : FileEvent → FileEvent → FileEvent
merge previous current = record current { kind = merged_kind previous.kind current.kind }

-- `_collapse_volume`
unfoldable pub collapse_volume : Text → ℕ → Dict Key FileEvent → Dict Key FileEvent
collapse_volume volume_id observed_at events =
    assign (volume_id, []) (rescan_of volume_id observed_at)
      (keep (λ e. not (text_beq e.0.0 volume_id)) events)

-- The end of `put`: the event replaces its volume's, or is stored under its key.
unfoldable pub store : FileEvent → Key → Dict Key FileEvent → Dict Key FileEvent
unfolding collapse_volume
store event key events =
    if is_rescan event.kind
    then collapse_volume event.volume_id event.observed_at events
    else assign key event events

-- The critical section of `put`.
unfoldable pub put_locked : FileEvent → Queue → Dict Key FileEvent
unfolding store merge
put_locked event q =
    let key = key_of event in
    if is_some (lookup everywhere q.events)
    then q.events
    else if is_some (lookup (event.volume_id, []) q.events) && not (is_rescan event.kind)
    then q.events
    else elim (lookup key q.events) [
      | some previous ↦ store (merge previous event) key (remove key q.events)
      | none ↦
          if leb q.max_events (length q.events)
          then (everywhere, rescan_of (codes "*") event.observed_at) ∷ []
          else store event key q.events
    ]

-- How `put` ends.
pub data Put : Type 0 where
  accepted : Queue → Put
  empty_volume empty_path : Put

-- `put`. `str.strip` removes what Unicode calls white space: the test is the host's.
unfoldable pub put : (ℕ → Bool) → FileEvent → Queue → Put
unfolding put_locked
put is_space event q =
    if all is_space event.volume_id
    then empty_volume
    else if not (is_rescan event.kind) && is_empty event.path
    then empty_path
    else accepted (record q { events = put_locked event q })

-- an event that `pop_ready` does not hold back: `now - observed_at >= debounce`, or a rescan
abbrev pub is_ready : ℕ → ℕ → FileEvent → Bool
is_ready debounce now event = is_rescan event.kind || leb (event.observed_at + debounce) now

-- The loop of `pop_ready`, with room for so many: what it pops, and what it leaves.
unfoldable pub pop_loop : ℕ → ℕ → ℕ → Dict Key FileEvent → List FileEvent × Dict Key FileEvent
pop_loop debounce now room [] = ([], [])
pop_loop debounce now room ((k, event) ∷ events) =
    let takes = leb 1 room && is_ready debounce now event in
    let rest = pop_loop debounce now (if takes then room - 1 else room) events in
    if takes then (event ∷ rest.0, rest.1) else (rest.0, (k, event) ∷ rest.1)

-- `pop_ready`; `none` where it raises
unfoldable pub pop_ready : ℕ → ℕ → Queue → Option (List FileEvent × Queue)
unfolding pop_loop
pop_ready now limit q =
    if ltb limit 1
    then none
    else (let rest = pop_loop q.debounce now limit q.events in
        some (rest.0, record q { events = rest.1 }))

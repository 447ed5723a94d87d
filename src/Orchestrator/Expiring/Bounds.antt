-- ===== src/Orchestrator/Expiring/Bounds.antt =====
-- The bound, the expiry and the single use of an expiring store.
use linux_ai_native_system.Prelude.{
  ℕ, ◌+◌, ◌≤◌, ◌<◌, ◌≡◌, ◌↔◌, refl, false, not, List, [], ◌∷◌, ◌++◌, Text, text_eq, text_beq,
  text_beq_iff, none, some, Dict, DistinctKeys, lookup, remove, put_last, keep, length,
  length-remove-le, length-keep-le, arith, remove-DistinctKeys, keep-DistinctKeys,
  append-DistinctKeys, lookup-remove_self, lookup-append, lookup-keep, lookup-keep-none, All,
  Option-cases, inl, inr,
}
use linux_ai_native_system.Orchestrator.Expiring.{Stored, Store, is_expired, evict, put, take}

module _ {V : Type 0} where
  length-evict-le :
      (capacity : ℕ) (d : Dict Text (Stored V)) → length (evict capacity d).1 ≤ capacity
  unfolding evict
  length-evict-le capacity [] = omega arith
  length-evict-le capacity ((k, s) ∷ d) = ground (arith, length-evict-le capacity d)

  evict-DistinctKeys :
      (capacity : ℕ) (d : Dict Text (Stored V)) → DistinctKeys d → DistinctKeys (evict capacity d).1
  unfolding evict
  evict-DistinctKeys capacity [] h = tt
  evict-DistinctKeys capacity ((k, s) ∷ d) h = ground (arith, evict-DistinctKeys capacity d h.1)

  -- A store's entries are within its capacity, and no key stands twice.
  pub record IsValid (s : Store V) : Type 0 where
    pub bounded : length s.entries ≤ s.capacity
    pub keys : DistinctKeys s.entries

  put_last-DistinctKeys :
      (key : Text) (e : Stored V) (d : Dict Text (Stored V))
      → DistinctKeys d
      → DistinctKeys (put_last key e d)
  put_last-DistinctKeys key e d h =
      append-DistinctKeys key e (remove key d) (remove-DistinctKeys key d h)
        (lookup-remove_self key d h)

  pub put-IsValid :
      (now : ℕ) (key : Text) (content : V) (s : Store V)
      → IsValid s
      → IsValid (put now key content s).0
  unfolding put
  put-IsValid now key content s v = record {
    bounded = length-evict-le s.capacity _;
    keys = evict-DistinctKeys s.capacity _ (
        put_last-DistinctKeys key _ _
          (keep-DistinctKeys (λ e. not (is_expired now e)) s.entries v.keys));
  }

  pub take-IsValid : (now : ℕ) (key : Text) (s : Store V) → IsValid s → IsValid (take now key s).0
  unfolding take
  take-IsValid now key s v = record {
    bounded = omega (
      arith,
      length-remove-le key (keep (λ e. not (is_expired now e)) s.entries),
      length-keep-le (λ e. not (is_expired now e)) s.entries,
      v.bounded,
    );
    keys =
        remove-DistinctKeys key _
          (keep-DistinctKeys (λ e. not (is_expired now e)) s.entries v.keys);
  }

-- A call on the store.
pub data Call (V : Type 0) : Type 0 where
  put_call : ℕ → Text → V → Call V
  take_call : ℕ → Text → Call V

module _ {V : Type 0} where
  unfoldable pub run_store : List (Call V) → Store V → Store V
  run_store [] s = s
  run_store (put_call now key content ∷ cs) s = run_store cs (put now key content s).0
  run_store (take_call now key ∷ cs) s = run_store cs (take now key s).0

  -- Whatever is put into a valid store and taken from it, and whenever, the entries stay within the capacity and no key
  -- stands twice.
  pub run_store-IsValid : (cs : List (Call V)) (s : Store V) → IsValid s → IsValid (run_store cs s)
  unfolding run_store
  run_store-IsValid [] s v = v
  run_store-IsValid (put_call now key content ∷ cs) s v =
      run_store-IsValid cs (put now key content s).0 (put-IsValid now key content s v)
  run_store-IsValid (take_call now key ∷ cs) s v =
      run_store-IsValid cs (take now key s).0 (take-IsValid now key s v)

  -- The entry that was put last stays when room is made.
  lookup-evict_last :
      (capacity : ℕ) (key : Text) (e : Stored V) (d : Dict Text (Stored V))
      → 1 ≤ capacity
      → lookup key d ≡ none
      → lookup key (evict capacity (d ++ (key, e) ∷ [])).1 ≡ some e
  unfolding evict
  lookup-evict_last capacity key e [] c h = ground (arith, text_beq_iff key key)
  lookup-evict_last capacity key e ((k, s) ∷ d) c h = ground (
    arith,
    text_beq_iff key key,
    lookup-evict_last capacity key e d c,
    lookup-append key d ((key, e) ∷ []),
  )

  -- What is put into a valid store with a capacity of one or more can be taken until its time to
  -- live has passed.
  pub take-put :
      (now later : ℕ) (key : Text) (content : V) (s : Store V)
      → IsValid s
      → 1 ≤ s.capacity
      → later < now + s.ttl
      → (take later key (put now key content s).0).1 ≡ some content
  unfolding put take
  take-put now later key content s v c w =
      let live = keep (λ e. not (is_expired now e)) s.entries in
      let stored : Stored V = record { content = content; expires_at = now + s.ttl } in
      let distinct = keep-DistinctKeys (λ e. not (is_expired now e)) s.entries v.keys in
      let kept = (evict s.capacity (put_last key stored live)).1 in
      let there : lookup key kept ≡ some stored =
        lookup-evict_last s.capacity key stored (remove key live) c
          (lookup-remove_self key live distinct) in
      let kept_keys : DistinctKeys kept =
        evict-DistinctKeys s.capacity _ (put_last-DistinctKeys key stored live distinct) in
      ground (arith, lookup-keep (λ e. not (is_expired later e)) key stored kept kept_keys there)

  -- A valid store hands out a content for a key exactly when an entry with that content is there
  -- under the key and has not expired.
  pub take_iff :
      (now : ℕ) (key : Text) (s : Store V) (content : V)
      → IsValid s
      → ((take now key s).1 ≡ some content) ↔ (
          (e : Stored V) × (lookup key s.entries ≡ some e)
          × (now < e.expires_at)
          × (e.content ≡ content))
  unfolding take
  take_iff now key s content v = elim (Option-cases (lookup key s.entries)) [
    | inl absent ↦ (
      λ h. ground (arith, lookup-keep-none (λ e. not (is_expired now e)) key s.entries absent),
      λ h. ground (arith, h.1),
    )
    | inr (e, l) ↦ (
      λ h. (
        e,
        l,
        ground (arith, lookup-keep (λ e. not (is_expired now e)) key e s.entries v.keys l),
        ground (arith, lookup-keep (λ e. not (is_expired now e)) key e s.entries v.keys l),
      ),
      λ h. ground (
        arith,
        h.1,
        h.2,
        h.3,
        lookup-keep (λ e. not (is_expired now e)) key e s.entries v.keys l,
      ),
    )
  ]

  -- the call does not put the key
  abbrev pub Spares : Text → Call V → Type 0
  Spares key (put_call now k content) = text_beq k key ≡ false
  Spares key (take_call now k) = Unit

  lookup-remove-none :
      (k key : Text) (d : Dict Text (Stored V))
      → lookup key d ≡ none
      → lookup key (remove k d) ≡ none
  lookup-remove-none k key [] h = refl
  lookup-remove-none k key ((i, e) ∷ d) h = ground (arith, lookup-remove-none k key d)

  lookup-evict-none :
      (capacity : ℕ) (key : Text) (d : Dict Text (Stored V))
      → lookup key d ≡ none
      → lookup key (evict capacity d).1 ≡ none
  unfolding evict
  lookup-evict-none capacity key [] h = refl
  lookup-evict-none capacity key ((i, e) ∷ d) h = ground (arith, lookup-evict-none capacity key d)

  put_absent :
      (now : ℕ) (k key : Text) (content : V) (s : Store V)
      → text_beq k key ≡ false
      → lookup key s.entries ≡ none
      → lookup key (put now k content s).0.entries ≡ none
  unfolding put
  put_absent now k key content s n h =
      let live = keep (λ e. not (is_expired now e)) s.entries in
      let stored : Stored V = record { content = content; expires_at = now + s.ttl } in
      lookup-evict-none s.capacity key (put_last k stored live) (
        ground (
          arith,
          lookup-append key (remove k live) ((k, stored) ∷ []),
          lookup-remove-none k key live,
          lookup-keep-none (λ e. not (is_expired now e)) key s.entries h,
        ))

  take_absent :
      (now : ℕ) (k key : Text) (s : Store V)
      → lookup key s.entries ≡ none
      → lookup key (take now k s).0.entries ≡ none
  unfolding take
  take_absent now k key s h =
      lookup-remove-none k key _ (lookup-keep-none (λ e. not (is_expired now e)) key s.entries h)

  run_store_absent :
      (cs : List (Call V)) (key : Text) (s : Store V)
      → All (Spares key) cs
      → lookup key s.entries ≡ none
      → lookup key (run_store cs s).entries ≡ none
  unfolding run_store
  run_store_absent [] key s a h = h
  run_store_absent (put_call now k content ∷ cs) key s a h =
      run_store_absent cs key _ a.1 (put_absent now k key content s a.0 h)
  run_store_absent (take_call now k ∷ cs) key s a h =
      run_store_absent cs key _ a.1 (take_absent now k key s h)

  -- Once a key has been taken from a valid store, it cannot be taken again, whatever calls come between that do not
  -- put it anew.
  pub take_once :
      (now later : ℕ) (key : Text) (cs : List (Call V)) (s : Store V)
      → IsValid s
      → All (Spares key) cs
      → (take later key (run_store cs (take now key s).0)).1 ≡ none
  unfolding take
  take_once now later key cs s v a = ground (
    arith,
    lookup-keep-none (λ e. not (is_expired later e)) key (run_store cs (take now key s).0).entries
        (run_store_absent cs key (take now key s).0 a (
          lookup-remove_self key _
            (keep-DistinctKeys (λ e. not (is_expired now e)) s.entries v.keys))),
  )

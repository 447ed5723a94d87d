-- ===== src/Orchestrator/Expiring.antt =====
-- The ordered, bounded, expiring dict that `CompiledPlanStore` (store.py) and
-- `ApprovalSessionStore` (approval.py) of services/execution-orchestrator both keep. The clock's
-- reading is an argument; each method runs under the store's lock.
pub mod Bounds
pub mod Conservation
use linux_ai_native_system.Prelude.{
  ℕ, ◌+◌, Bool, true, false, not, List, [], ◌∷◌, ◌++◌, Text, text_eq, Option, none, some, Dict,
  lookup, remove, assign, put_last, keep, map, length, ltb, leb, if◌then◌else◌,
}

-- `_StoredPlan`, `_StoredSession`
pub record Stored (V : Type 0) : Type 0 where
  pub content : V
  pub expires_at : ℕ

pub record Store (V : Type 0) : Type 0 where
  pub capacity : ℕ
  pub ttl : ℕ
  pub entries : Dict Text (Stored V)

module _ {V : Type 0} where
  -- `__init__`; `none` where it raises
  unfoldable pub make : ℕ → ℕ → Option (Store V)
  make capacity ttl =
      if ltb capacity 1
      then none
      else if ltb ttl 1
      then none
      else some (record { capacity = capacity; ttl = ttl; entries = [] })

  -- `value.expires_at <= now`
  abbrev pub is_expired : ℕ → Text × Stored V → Bool
  is_expired now e = leb e.1.expires_at now

  abbrev pub contents : Dict Text (Stored V) → List V
  contents [] = []
  contents ((k, s) ∷ d) = s.content ∷ contents d

  -- `_purge`: what has expired, and what is left
  unfoldable pub purge : ℕ → Dict Text (Stored V) → List V × Dict Text (Stored V)
  purge now d = (contents (keep (is_expired now) d), keep (λ e. not (is_expired now e)) d)

  -- `while len(…) > capacity: popitem(last=False)`
  unfoldable pub evict : ℕ → Dict Text (Stored V) → List V × Dict Text (Stored V)
  evict capacity [] = ([], [])
  evict capacity ((k, s) ∷ d) =
      let rest = evict capacity d in
      if ltb capacity (length ((k, s) ∷ d)) then (s.content ∷ rest.0, rest.1) else ([], (k, s) ∷ d)

  -- `put`: the new store, and what had expired or had to make room
  unfoldable pub put : ℕ → Text → V → Store V → Store V × List V
  unfolding purge evict
  put now key content s =
      let (expired, live) = purge now s.entries in
      let filled = put_last key (record { content = content; expires_at = now + s.ttl }) live in
      let (evicted, kept) = evict s.capacity filled in
      (record s { entries = kept }, expired ++ evicted)

  -- The critical section of `claim`: the new store, the entry if it was there, and what had expired.
  unfoldable pub take : ℕ → Text → Store V → Store V × Option V × List V
  unfolding purge
  take now key s =
      let (expired, live) = purge now s.entries in
      (
        record s { entries = remove key live },
        elim (lookup key live) [ none ↦ none | some e ↦ some e.content ],
        expired,
      )

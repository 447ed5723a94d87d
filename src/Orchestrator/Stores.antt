-- ===== src/Orchestrator/Stores.antt =====
-- `CompiledPlanStore` (services/execution-orchestrator/src/ai_native_orchestrator/store.py) and
-- `ApprovalSessionStore` (approval.py beside it), over the dict that they share.
use linux_ai_native_system.Prelude.{
  ℕ, Bool, not, ◌&&◌, List, [], Text, Option, none, some, all, length, ltb, if◌then◌else◌,
}
use linux_ai_native_system.Orchestrator.Expiring.{Store, put, take}

-- `id.strip() and len(id) <= 128`; which characters are white space is the host's to say.
unfoldable pub valid_key : (ℕ → Bool) → Text → Bool
valid_key is_space id = not (all is_space id) && not (ltb 128 (length id))

-- How `claim` ends.
pub data Claimed (V : Type 0) : Type 0 where
  claimed : V → Claimed V
  invalid_id not_found : Claimed V

module _ {V : Type 0} (is_space : ℕ → Bool) where
  abbrev claimed_or : Option V → Claimed V
  claimed_or none = not_found
  claimed_or (some v) = claimed v

  -- `CompiledPlanStore.claim`
  unfoldable pub claim_plan : ℕ → Text → Store V → Store V × Claimed V
  unfolding valid_key
  claim_plan now id s =
      if valid_key is_space id
      then (let (s', found, expired) = take now id s in (s', claimed_or found))
      else (s, invalid_id)

  -- `ApprovalSessionStore.claim`, with the sessions that had expired
  unfoldable pub claim_session : ℕ → Text → Store V → Store V × Claimed V × List V
  unfolding valid_key
  claim_session now id s =
      if valid_key is_space id
      then (let (s', found, expired) = take now id s in (s', claimed_or found, expired))
      else (s, invalid_id, [])

module _ {V : Type 0} where
  -- `CompiledPlanStore.put`, which drops what it evicts
  unfoldable pub put_plan : ℕ → Text → V → Store V → Store V
  put_plan now id plan s = (put now id plan s).0

  -- `ApprovalSessionStore.put`
  unfoldable pub put_session : ℕ → Text → V → Store V → Store V × List V
  put_session now id session s = put now id session s

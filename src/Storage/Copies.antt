-- ===== src/Storage/Copies.antt =====
-- `ApprovalAuthority` and the plans of `MaterializeService`
-- (services/storage-catalog/src/ai_native_storage/materialize.py). `P` is the type of plans. The copying
-- of the files follows a start and is not modelled; tokens, identifiers and the clock's readings are
-- arguments.
pub mod Starts
use linux_ai_native_system.Prelude.{
  ℕ, ◌+◌, Bool, true, false, not, ◌&&◌, List, [], ◌∷◌, Text, text_eq, text_beq, Option, none, some,
  is_some, Dict, lookup, assign, remove, keep, leb, if◌then◌else◌,
}

pub record ApprovalGrant : Type 0 where
  pub plan_id : Text
  pub token : Text

-- `_tokens` and `_plans`, with the moments of their expiry
pub record Copies (P : Type 0) : Type 0 where
  pub ttl : ℕ
  pub plan_ttl : ℕ
  pub tokens : Dict Text (Text × ℕ)
  pub plans : Dict Text (P × ℕ)

-- How a method ends.
pub data Copying (P : Type 0) : Type 0 where
  granted : ApprovalGrant → Copying P
  started : P → Copying P
  done permission_error key_error : Copying P

-- the entries that have not expired
abbrev pub live : {V : Type 0} → ℕ → Dict Text (V × ℕ) → Dict Text (V × ℕ)
live now d = keep (λ e. not (leb e.1.1 now)) d

module _ {P : Type 0} where
  -- `ApprovalAuthority.approve`, with the new token
  unfoldable pub approve : ℕ → Text → Bool → Text → Copies P → Copies P × Copying P
  approve now plan_id user_confirmed token s =
      if user_confirmed
      then (
        record s { tokens = assign plan_id (token, now + s.ttl) (live now s.tokens) },
        granted (record { plan_id = plan_id; token = token }),
      )
      else (s, permission_error)

  -- `ApprovalAuthority.consume`
  unfoldable pub consume : ℕ → ApprovalGrant → Copies P → Copies P × Bool
  consume now grant s =
      let tokens = live now s.tokens in
      (
        record s { tokens = remove grant.plan_id tokens },
        elim (lookup grant.plan_id tokens) [ none ↦ false | some e ↦ text_beq e.0 grant.token ],
      )

  -- `ApprovalAuthority.revoke`
  unfoldable pub revoke : Text → Copies P → Copies P
  revoke plan_id s = record s { tokens = remove plan_id s.tokens }

  -- the tokens without those of the expired plans
  unfoldable pub revoke_expired :
      ℕ → Dict Text (P × ℕ) → Dict Text (Text × ℕ) → Dict Text (Text × ℕ)
  revoke_expired now [] tokens = tokens
  revoke_expired now ((id, e) ∷ plans) tokens =
      revoke_expired now plans (if leb e.1 now then remove id tokens else tokens)

  -- `MaterializeService._purge_plans`
  unfoldable pub purge_plans : ℕ → Copies P → Copies P
  unfolding revoke_expired
  purge_plans now s = record s {
    plans = live now s.plans;
    tokens = revoke_expired now s.plans s.tokens;
  }

  -- The end of `MaterializeService.create_copy_plan`.
  unfoldable pub store_plan : ℕ → Text → P → Copies P → Copies P
  unfolding purge_plans
  store_plan now plan_id plan s =
      let t = purge_plans now s in
      record t { plans = assign plan_id (plan, now + s.plan_ttl) t.plans }

  -- `MaterializeService.execute` up to the copying
  unfoldable pub start_copy : ℕ → Text → ApprovalGrant → Copies P → Copies P × Copying P
  unfolding purge_plans consume
  start_copy now plan_id grant s =
      let t = purge_plans now s in
      let popped = record t { plans = remove plan_id t.plans } in
      elim (lookup plan_id t.plans) [
        | none ↦ (popped, key_error)
        | some e ↦
            if not (text_beq grant.plan_id plan_id)
            then (popped, key_error)
            else (let (after, accepted) = consume now grant popped in
                (after, if accepted then started e.0 else permission_error))
      ]

  -- `MaterializeService.discard`
  unfoldable pub discard : Text → Copies P → Copies P
  unfolding revoke
  discard plan_id s = revoke plan_id (record s { plans = remove plan_id s.plans })

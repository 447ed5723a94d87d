-- ===== src/Tests/Copies.antt =====
-- The approval of a copy (services/storage-catalog) at work on one plan.
use linux_ai_native_system.Prelude.{
  ℕ, ◌<◌, ◌≡◌, ◌≢◌, refl, true, [], ◌∷◌, Text, text_eq, text_beq, codes, some, lookup,
}
use linux_ai_native_system.Storage.Copies.{
  ApprovalGrant, Copies, started, permission_error, key_error, consume, revoke_expired, purge_plans,
  start_copy,
}
use linux_ai_native_system.Storage.Copies.Starts.{approve_call, run, copy_once, start_copy_needs}

abbrev plan_id : Text
plan_id = codes "plan-1"

abbrev grant : ApprovalGrant
grant = record { plan_id = plan_id; token = codes "token-1" }

-- The plan 7 and the token, as approved.
abbrev approved : Copies ℕ
approved = record {
  ttl = 300;
  plan_ttl = 600;
  tokens = (plan_id, (codes "token-1", 400)) ∷ [];
  plans = (plan_id, (7, 700)) ∷ [];
}

copy_starts : (start_copy 200 plan_id grant approved).1 ≡ started 7
unfolding start_copy purge_plans revoke_expired consume text_beq
copy_starts = refl

-- A wrong token uses the plan up all the same.
wrong_token :
    (start_copy 200 plan_id (record grant { token = codes "guess" }) approved).1 ≡ permission_error
unfolding start_copy purge_plans revoke_expired consume text_beq
wrong_token = refl

too_late : (start_copy 700 plan_id grant approved).1 ≡ key_error
unfolding start_copy purge_plans revoke_expired consume text_beq
too_late = refl

start_copy_needs_example :
    (plan_id ≡ plan_id)
    × ((until : ℕ) × (lookup plan_id approved.plans ≡ some (7, until)) × (200 < until))
    × ((until : ℕ) × (lookup plan_id approved.tokens ≡ some (grant.token, until)) × (200 < until))
start_copy_needs_example =
    start_copy_needs 200 plan_id grant approved 7 (refl, tt) (refl, tt) copy_starts

copy_once_example :
    (start_copy 220 plan_id grant (
      run
        (approve_call 210 plan_id true (codes "token-1") ∷ [])
        (start_copy 200 plan_id grant approved).0)).1
    ≢ started 7
copy_once_example =
    copy_once 200 220 plan_id grant grant (approve_call 210 plan_id true (codes "token-1") ∷ [])
      approved 7 (refl, tt) (tt, tt)

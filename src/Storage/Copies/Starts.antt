-- ===== src/Storage/Copies/Starts.antt =====
-- When a copy of `MaterializeService`
-- (services/storage-catalog/src/ai_native_storage/materialize.py) starts.
use linux_ai_native_system.Prelude.{
  ℕ, ◌+◌, ◌<◌, ◌≡◌, ◌≢◌, refl, ap, ◌∙◌, subst, Bool, true, false, not, List, [], ◌∷◌, Text, text_eq,
  text_beq, text_beq_iff, none, some, Dict, DistinctKeys, lookup, remove, leb, if◌then◌else◌,
  lookup-assign, lookup-remove_self, lookup-remove_ne, lookup-keep-none, remove-DistinctKeys,
  keep-DistinctKeys, All, arith, Option-cases, Bool-cases, inl, inr,
}
use linux_ai_native_system.Storage.Copies.{
  ApprovalGrant, Copies, started, live, approve, consume, revoke, revoke_expired, purge_plans,
  store_plan, start_copy, discard,
}

lookup-remove-none :
    {V : Type 0} (k id : Text) (d : Dict Text V)
    → lookup id d ≡ none
    → lookup id (remove k d) ≡ none
lookup-remove-none k id [] h = refl
lookup-remove-none k id ((i, e) ∷ d) h = ground (arith, h, lookup-remove-none k id d)

lookup-remove :
    {V : Type 0} (k id : Text) (d : Dict Text V) (e : V)
    → lookup id (remove k d) ≡ some e
    → DistinctKeys d
    → lookup id d ≡ some e
lookup-remove k id d e h distinct = elim (Bool-cases (text_beq k id)) [
  | inl is ↦ ground (
    arith,
    h,
    lookup-remove_self k d distinct,
    ap (λ x. lookup x (remove k d)) ((text_beq_iff k id).0 is),
  )
  | inr other ↦ ground (arith, h, lookup-remove_ne k id d other)
]

lookup-live :
    {V : Type 0} (now : ℕ) (id : Text) (d : Dict Text (V × ℕ)) (e : V × ℕ)
    → lookup id (live now d) ≡ some e
    → DistinctKeys d
    → (lookup id d ≡ some e) × (now < e.1)
lookup-live now id [] e h distinct = ground (arith, h)
lookup-live now id ((i, u) ∷ d) e h distinct = ground (
  arith,
  h,
  distinct,
  lookup-live now id d e,
  text_beq_iff i id,
  lookup-keep-none (λ x. not (leb x.1.1 now)) i d,
)

-- A call on the service or on its authority.
pub data Call (P : Type 0) : Type 0 where
  approve_call : ℕ → Text → Bool → Text → Call P
  store_call : ℕ → Text → P → Call P
  start_call : ℕ → Text → ApprovalGrant → Call P
  discard_call : Text → Call P

module _ {P : Type 0} where
  unfoldable pub run : List (Call P) → Copies P → Copies P
  run [] s = s
  run (approve_call now id confirmed token ∷ cs) s = run cs (approve now id confirmed token s).0
  run (store_call now id plan ∷ cs) s = run cs (store_plan now id plan s)
  run (start_call now id grant ∷ cs) s = run cs (start_copy now id grant s).0
  run (discard_call id ∷ cs) s = run cs (discard id s)

  -- The call stores no plan under the identifier.
  abbrev pub Spares : Text → Call P → Type 0
  Spares id (store_call now k plan) = text_beq k id ≡ false
  Spares id _ = Unit

  -- What is found once the tokens of expired plans are gone was there before.
  lookup-revoke_expired :
      (now : ℕ) (plans : Dict Text (P × ℕ)) (id : Text) (tokens : Dict Text (Text × ℕ))
      (e : Text × ℕ)
      → DistinctKeys tokens
      → lookup id (revoke_expired now plans tokens) ≡ some e
      → lookup id tokens ≡ some e
  unfolding revoke_expired
  lookup-revoke_expired now [] id tokens e distinct h = h
  lookup-revoke_expired now ((k, u) ∷ plans) id tokens e distinct h =
      elim (Bool-cases (leb u.1 now)) [
        | inl over ↦
            lookup-remove k id tokens e
              (lookup-revoke_expired now plans id (remove k tokens) e
                (remove-DistinctKeys k tokens distinct) (ground (arith, h, over)))
              distinct
        | inr lives ↦
            lookup-revoke_expired now plans id tokens e distinct (ground (arith, h, lives))
      ]

  revoke_expired-DistinctKeys :
      (now : ℕ) (plans : Dict Text (P × ℕ)) (tokens : Dict Text (Text × ℕ))
      → DistinctKeys tokens
      → DistinctKeys (revoke_expired now plans tokens)
  unfolding revoke_expired
  revoke_expired-DistinctKeys now [] tokens distinct = distinct
  revoke_expired-DistinctKeys now ((k, u) ∷ plans) tokens distinct =
      revoke_expired-DistinctKeys now plans (if leb u.1 now then remove k tokens else tokens)
        (elim (Bool-cases (leb u.1 now)) [
          | inl over ↦ ground (arith, over, remove-DistinctKeys k tokens distinct)
          | inr lives ↦ ground (arith, lives, distinct)
        ])

  start_absent :
      (now : ℕ) (id : Text) (grant : ApprovalGrant) (s : Copies P) (plan : P)
      → lookup id s.plans ≡ none
      → (start_copy now id grant s).1 ≢ started plan
  unfolding start_copy purge_plans
  start_absent now id grant s plan h e =
      ground (arith, e, lookup-keep-none (λ x. not (leb x.1.1 now)) id s.plans h)

  start_plans :
      (now : ℕ) (id : Text) (grant : ApprovalGrant) (s : Copies P)
      → (start_copy now id grant s).0.plans ≡ remove id (live now s.plans)
  unfolding start_copy purge_plans consume
  start_plans now id grant s = elim (Option-cases (lookup id (live now s.plans))) [
    | inl absent ↦ ground (arith, absent)
    | inr (e, there) ↦ elim (Bool-cases (text_beq grant.plan_id id)) [
      | inl is ↦ ground (arith, there, is)
      | inr other ↦ ground (arith, there, other)
    ]
  ]

  run_absent :
      (cs : List (Call P)) (id : Text) (s : Copies P)
      → All (Spares id) cs
      → lookup id s.plans ≡ none
      → lookup id (run cs s).plans ≡ none
  unfolding run approve store_plan purge_plans discard revoke
  run_absent [] id s a h = h
  run_absent (approve_call now k true token ∷ cs) id s a h = run_absent cs id _ a.1 h
  run_absent (approve_call now k false token ∷ cs) id s a h = run_absent cs id _ a.1 h
  run_absent (store_call now k plan ∷ cs) id s a h =
      run_absent cs id (store_plan now k plan s) a.1 (
        ground (
          arith,
          a.0,
          lookup-assign k id (plan, now + s.plan_ttl) (live now s.plans),
          lookup-keep-none (λ x. not (leb x.1.1 now)) id s.plans h,
        ))
  run_absent (start_call now k grant ∷ cs) id s a h =
      run_absent cs id (start_copy now k grant s).0 a.1 (
        ap (λ d. lookup id d) (start_plans now k grant s)
        ∙ lookup-remove-none k id (live now s.plans)
            (lookup-keep-none (λ x. not (leb x.1.1 now)) id s.plans h))
  run_absent (discard_call k ∷ cs) id s a h =
      run_absent cs id (discard k s) a.1 (lookup-remove-none k id s.plans h)

  -- Once a copy of a plan has been asked for, whether it started or not, none of that plan starts
  -- again, whatever calls come between that do not store a plan under its identifier.
  pub copy_once :
      (now later : ℕ) (id : Text) (grant again : ApprovalGrant) (cs : List (Call P)) (s : Copies P)
      (plan : P)
      → DistinctKeys s.plans
      → All (Spares id) cs
      → (start_copy later id again (run cs (start_copy now id grant s).0)).1 ≢ started plan
  copy_once now later id grant again cs s plan distinct a =
      start_absent later id again (run cs (start_copy now id grant s).0) plan (
        run_absent cs id (start_copy now id grant s).0 a (
          ap (λ d. lookup id d) (start_plans now id grant s)
          ∙ lookup-remove_self id (live now s.plans)
              (keep-DistinctKeys (λ x. not (leb x.1.1 now)) s.plans distinct)))

  -- A copy starts only for a plan that is stored and has not expired, with a grant for that plan whose
  -- token the authority has and which has not expired either.
  pub start_copy_needs :
      (now : ℕ) (id : Text) (grant : ApprovalGrant) (s : Copies P) (plan : P)
      → DistinctKeys s.plans
      → DistinctKeys s.tokens
      → (start_copy now id grant s).1 ≡ started plan
      → (grant.plan_id ≡ id)
        × ((until : ℕ) × (lookup id s.plans ≡ some (plan, until)) × (now < until))
        × ((until : ℕ) × (lookup id s.tokens ≡ some (grant.token, until)) × (now < until))
  unfolding start_copy purge_plans consume
  start_copy_needs now id grant s plan plans tokens h =
      let left = revoke_expired now s.plans s.tokens in
      elim (Option-cases (lookup id (live now s.plans))) [
        | inl absent ↦ ground (arith, h, absent)
        | inr (e, there) ↦ elim (Bool-cases (text_beq grant.plan_id id)) [
          | inr other ↦ ground (arith, h, there, other)
          | inl is ↦ elim (Option-cases (lookup grant.plan_id (live now left))) [
            | inl absent ↦ ground (arith, h, there, is, absent)
            | inr (t, known) ↦ elim (Bool-cases (text_beq t.0 grant.token)) [
              | inr other ↦ ground (arith, h, there, is, known, other)
              | inl same ↦
                  let of_plan = (text_beq_iff grant.plan_id id).0 is in
                  let (stored, in_time) = lookup-live now id s.plans e there plans in
                  let (left_there, valid) =
                    lookup-live now grant.plan_id left t known
                      (revoke_expired-DistinctKeys now s.plans s.tokens tokens) in
                  let kept =
                    lookup-revoke_expired now s.plans grant.plan_id s.tokens t tokens left_there in
                  let plan_same : e.0 ≡ plan = ground (arith, h, there, is, known, same) in
                  (
                    of_plan,
                    (e.1, ground (arith, stored, plan_same), in_time),
                    (
                      t.1,
                      subst (λ k. lookup k s.tokens ≡ some (grant.token, t.1)) of_plan
                          (ground (arith, kept, text_beq_iff t.0 grant.token, same)),
                      valid,
                    ),
                  )
            ]
          ]
        ]
      ]

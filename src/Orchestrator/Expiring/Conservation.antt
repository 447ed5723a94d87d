-- ===== src/Orchestrator/Expiring/Conservation.antt =====
-- Nothing that was put is dropped silently: what `ApprovalSessionStore` (approval.py) does not
-- keep, it hands back, so that the orchestrator can close the task it belongs to.
use mathlib.Core.List.{Perm, perm_middle, append_assoc, append-nil}
use mathlib.Core.List.Perm
use linux_ai_native_system.Prelude.{
  ℕ, ◌+◌, ◌≡◌, refl, sym, ap, ◌∙◌, lookup-keep-none, subst, not, List, [], ◌∷◌, ◌++◌, Text, text_eq,
  text_beq, Option, none, some, Dict, lookup, remove, put_last, keep, leb, arith, Bool-cases,
  Option-cases, inl, inr,
}
use linux_ai_native_system.Orchestrator.Expiring.{
  Stored, Store, contents, is_expired, purge, evict, put, take,
}

module _ {V : Type 0} where
  contents-append : (d f : Dict Text (Stored V)) → contents (d ++ f) ≡ contents d ++ contents f
  contents-append [] f = refl
  contents-append ((k, e) ∷ d) f = ap (λ r. e.content ∷ r) (contents-append d f)

  evict-contents :
      (capacity : ℕ) (d : Dict Text (Stored V))
      → (evict capacity d).0 ++ contents (evict capacity d).1 ≡ contents d
  unfolding evict
  evict-contents capacity [] = refl
  evict-contents capacity ((k, e) ∷ d) = ground (arith, evict-contents capacity d)

  remove_absent : (key : Text) (d : Dict Text (Stored V)) → lookup key d ≡ none → remove key d ≡ d
  remove_absent key [] h = refl
  remove_absent key ((k, e) ∷ d) h = ground (arith, remove_absent key d)

  via : {xs ys zs : List V} → xs ≡ ys → Perm ys zs → Perm xs zs
  via {zs} q p = subst (λ (ws : List V). Perm ws zs) (sym q) p

  purge-Perm :
      (now : ℕ) (d : Dict Text (Stored V))
      → Perm ((purge now d).0 ++ contents (purge now d).1) (contents d)
  unfolding purge
  purge-Perm now [] = Perm.refl []
  purge-Perm now ((k, e) ∷ d) =
      let gone = contents (keep (is_expired now) d) in
      let left = contents (keep (λ x. not (is_expired now x)) d) in
      let rest : Perm (e.content ∷ gone ++ left) (contents ((k, e) ∷ d)) =
        Perm.cons e.content (purge-Perm now d) in
      elim (Bool-cases (leb e.expires_at now)) [
        | inl expired ↦ via {ys = e.content ∷ gone ++ left} (ground arith) rest
        | inr live ↦
            via {ys = gone ++ e.content ∷ left} (ground arith)
              (Perm.trans (perm_middle gone left) rest)
      ]

  abbrev pub option_list : Option V → List V
  option_list none = []
  option_list (some v) = v ∷ []

  remove-Perm :
      (key : Text) (e : Stored V) (d : Dict Text (Stored V))
      → lookup key d ≡ some e
      → Perm (e.content ∷ contents (remove key d)) (contents d)
  remove-Perm key e [] h = ground arith
  remove-Perm key e ((k, f) ∷ d) h = elim (Bool-cases (text_beq k key)) [
    | inl here ↦ via {ys = f.content ∷ contents d} (ground arith) (Perm.refl _)
    | inr there ↦ via {ys = e.content ∷ f.content ∷ contents (remove key d)} (ground arith) (
        Perm.trans (Perm.swap f.content e.content (contents (remove key d)))
          (Perm.cons f.content (remove-Perm key e d (ground arith))))
  ]

  -- Nothing is lost by a put: what was there and the new entry are what is there now and what is
  -- handed back, in some order, provided that the key is a fresh one.
  pub put_conserves :
      (now : ℕ) (key : Text) (content : V) (s : Store V)
      → lookup key s.entries ≡ none
      → Perm
          ((put now key content s).1 ++ contents (put now key content s).0.entries)
          (content ∷ contents s.entries)
  unfolding put purge
  put_conserves now key content s h =
      let live = keep (λ e. not (is_expired now e)) s.entries in
      let stored : Stored V = record { content = content; expires_at = now + s.ttl } in
      let gone = contents (keep (is_expired now) s.entries) in
      via {ys = gone ++ contents live ++ content ∷ []}
        (append_assoc gone _ _
          ∙ ap (λ r. gone ++ r)
              (evict-contents s.capacity (put_last key stored live)
                ∙ contents-append (remove key live) ((key, stored) ∷ [])
                ∙ ap (λ r. contents r ++ content ∷ [])
                    (remove_absent key live (lookup-keep-none _ key s.entries h)))
          ∙ sym (append_assoc gone (contents live) (content ∷ [])))
        (Perm.trans (perm_middle (gone ++ contents live) []) (
          via (ap (λ r. content ∷ r) (append-nil (gone ++ contents live)))
            (Perm.cons content (purge-Perm now s.entries))))

  -- A take only moves entries: what was there is what is there now, what is taken and what is
  -- handed back as expired, in some order.
  pub take_conserves :
      (now : ℕ) (key : Text) (s : Store V)
      → Perm
          ((take now key s).2
            ++ (option_list (take now key s).1 ++ contents (take now key s).0.entries))
          (contents s.entries)
  unfolding take purge
  take_conserves now key s =
      let live = keep (λ e. not (is_expired now e)) s.entries in
      let gone = contents (keep (is_expired now) s.entries) in
      Perm.trans
        (Perm.append_left {t₁ = option_list (take now key s).1 ++ contents (remove key live)}
          {t₂ = contents live} gone
          (elim (Option-cases (lookup key live)) [
            | inl absent ↦
                via {ys = contents live} (ground (arith, remove_absent key live)) (Perm.refl _)
            | inr (e, there) ↦
                via {ys = e.content ∷ contents (remove key live)} (ground arith)
                  (remove-Perm key e live there)
          ]))
        (purge-Perm now s.entries)

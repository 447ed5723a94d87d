-- ===== src/Capabilities/Cycles/Visits.antt =====
-- The search for cycles (`_cycle_members` of the capability registry) with its fuel: every visit
-- ends, and keeps what makes the search sound.
use linux_ai_native_system.Prelude.{
  ℕ, zero, suc, ◌<◌, ◌≡◌, inl, inr, refl, sym, ap, subst, ◌∙◌, true, List, [], ◌∷◌, ◌++◌, map,
  Option, some, is_some, Text, text_eq, text_beq, text_beq_iff, lookup, contains, contains-append,
  contains-keep, contains-keys, length, Bool-cases, Option-cases, arith,
}
use linux_ai_native_system.Capabilities.Cycles.{
  Graph, Search, targets, from_node, visit_each, leave, visit, start, cycle_members,
}
use linux_ai_native_system.Capabilities.Cycles.Order.{
  free, free-lt, free-nil, DependsOn, Chain, segment_turns, Ordered, Marked, Within, Ordered-mono,
  IsSound, Grows, Grows-trans, Reached, Reached-Grows, Visited,
}

abbrev pub keys : Graph → List Text
keys g = map (λ e. e.0) g

length-keys : (g : Graph) → length (keys g) ≡ length g
length-keys [] = refl
length-keys (e ∷ g) = ap suc (length-keys g)

Grows-refl : (s : Search) → Grows s s
Grows-refl s = record { stack = refl; visited = λ a m. m; cycles = λ a m. m }

-- A visit that ends well.
abbrev EndsWell : Graph → Text → Search → Option Search → Type 0
EndsWell g node s r = (t : Search) × (r ≡ some t) × Visited g node s t

-- A row of visits that ends well.
record Rows (g : Graph) (active ds : List Text) (s t : Search) : Type 0 where
  sound : IsSound g t
  grows : Grows s t
  reached : (d : Text) → contains ds d ≡ true → Reached active d t

visit_each_ends :
    (g : Graph) (v : Text → Search → Option Search) (active : List Text)
    → ((d : Text) (s : Search)
        → contains (keys g) d ≡ true
        → s.active ≡ active
        → Chain g (d ∷ active)
        → IsSound g s
        → EndsWell g d s (v d s))
    → (ds : List Text)
    → ((d : Text) → contains ds d ≡ true → (contains (keys g) d ≡ true) × Chain g (d ∷ active))
    → (s : Search) → s.active ≡ active
    → IsSound g s
    → (t : Search) × (visit_each v ds s ≡ some t) × Rows g active ds s t
unfolding visit_each
visit_each_ends g v active ends [] each s a sound =
    (s, refl, record { sound = sound; grows = Grows-refl s; reached = λ d m. ground arith })
visit_each_ends g v active ends (d ∷ ds) each s a sound =
    let (known, chain) = each d (ground (arith, text_beq_iff d d)) in
    let (t, e, first) = ends d s known a chain sound in
    let (u, f, rest) =
      visit_each_ends g v active ends ds (λ x m. each x (ground (arith, m))) t
        (first.grows.stack ∙ a) first.sound in
    (
      u,
      ground (arith, e, f),
      record {
        sound = rest.sound;
        grows = Grows-trans s t u first.grows rest.grows;
        reached = λ x m. elim (Bool-cases (text_beq d x)) [
          | inl is ↦
              subst (λ y. Reached active y u) ((text_beq_iff d x).0 is)
                (Reached-Grows active d t u rest.grows (subst (λ b. Reached b d t) a first.reached))
          | inr other ↦ rest.reached x (ground (arith, m, other))
        ];
      },
    )

Reached-on :
    (active : List Text) (node : Text) (t : Search)
    → contains active node ≡ true
    → Within (from_node node active) t.cycles
    → Reached active node t
unfolding from_node
Reached-on [] node t on w = ground arith
Reached-on (u ∷ us) node t on w = inr (w u (ground (arith, text_beq_iff u u)))

-- A dependency that is visited is a node.
pub targets_known : (g : Graph) (node d : Text) → DependsOn g node d → contains (keys g) d ≡ true
unfolding targets
targets_known g node d m = elim (Option-cases (lookup node g)) [
  | inl absent ↦ ground (arith, m, absent)
  | inr (ds, there) ↦
      ground (arith, m, there, contains-keep (λ x. is_some (lookup x g)) ds d, contains-keys d g)
]

-- A node on the stack: the segment from it is marked.
visit_active :
    (g : Graph) (node : Text) (s : Search)
    → IsSound g s
    → Chain g (node ∷ s.active)
    → contains s.active node ≡ true
    → Visited g node s (record s { cycles = from_node node s.active ++ s.cycles })
visit_active g node s sound chain on =
    let segment = from_node node s.active in
    let more : Within s.cycles (segment ++ s.cycles) =
      λ a m. ground (arith, m, contains-append segment s.cycles a) in
    let marks : Within segment (segment ++ s.cycles) =
      λ a m. ground (arith, m, contains-append segment s.cycles a) in
    record {
      sound = record {
        chain = sound.chain;
        ordered = Ordered-mono g s.cycles (segment ++ s.cycles) s.visited more sound.ordered;
        marked = λ c m. elim (Bool-cases (contains segment c)) [
          | inl here ↦
              let (d, edge, at) = segment_turns g node c s.active chain on here in
              (d, edge, marks d at)
          | inr before ↦
              let (d, edge, at) =
                sound.marked c (ground (arith, m, before, contains-append segment s.cycles c)) in
              (d, edge, more d at)
        ];
      };
      grows = record { stack = refl; visited = λ a m. m; cycles = more };
      reached = Reached-on s.active node (record s { cycles = segment ++ s.cycles }) on marks;
    }

left-Reached :
    (active : List Text) (node : Text) (t : Search)
    → contains t.visited node ≡ true
    → Reached active node t
left-Reached [] node t m = m
left-Reached (u ∷ us) node t m = inl m

-- A node whose dependencies have been visited.
visit_leaves :
    (g : Graph) (node : Text) (s t : Search)
    → IsSound g s
    → Rows g (node ∷ s.active) (targets g node) (record s { active = node ∷ s.active }) t
    → Visited g node s (leave node t)
visit_leaves g node s t sound rows =
    let popped : (leave node t).active ≡ s.active =
      ap (λ (a : List Text). elim a as (λ _. List Text) [ [] ↦ [] | u ∷ older ↦ older ])
        rows.grows.stack in
    record {
      sound = record {
        chain = subst (Chain g) (sym popped) sound.chain;
        ordered = (rows.reached, rows.sound.ordered);
        marked = rows.sound.marked;
      };
      grows = record {
        stack = popped;
        visited = λ a m. ground (arith, rows.grows.visited a m);
        cycles = rows.grows.cycles;
      };
      reached = left-Reached s.active node (leave node t) (ground (arith, text_beq_iff node node));
    }

pub visit_ends :
    (fuel : ℕ) (g : Graph) (node : Text) (s : Search)
    → free s.active (keys g) < fuel
    → contains (keys g) node ≡ true
    → IsSound g s
    → Chain g (node ∷ s.active)
    → EndsWell g node s (visit fuel g node s)
unfolding visit
visit_ends zero g node s h m sound chain = elim h [ ]
visit_ends (suc fuel) g node s h m sound chain = elim (Bool-cases (contains s.active node)) [
  | inl on ↦ (
    record s { cycles = from_node node s.active ++ s.cycles },
    ground (arith, on),
    visit_active g node s sound chain on,
  )
  | inr off ↦ elim (Bool-cases (contains s.visited node)) [
    | inl before ↦ (
      s,
      ground (arith, off, before),
      record { sound = sound; grows = Grows-refl s; reached = left-Reached s.active node s before },
    )
    | inr new ↦
        let entered = record s { active = node ∷ s.active } in
        let (t, e, rows) =
          visit_each_ends g (visit fuel g) (node ∷ s.active)
            (λ d r known a c sound'.
              visit_ends fuel g d r
                (omega (arith, free-lt node s.active (keys g) m off, ap (λ x. free x (keys g)) a))
                known sound' (subst (λ x. Chain g (d ∷ x)) (sym a) c))
            (targets g node) (λ d edge. (targets_known g node d edge, (edge, chain))) entered refl
            (record { chain = chain; ordered = sound.ordered; marked = sound.marked }) in
        (leave node t, ground (arith, off, new, e), visit_leaves g node s t sound rows)
  ]
]

-- What `_cycle_members` finds.
pub record Found (g : Graph) (cycles : List Text) : Type 0 where
  pub marked : Marked g cycles
  pub order : List Text
  pub ordered : Ordered g cycles order
  pub complete : (node : Text) → contains (keys g) node ≡ true → contains order node ≡ true

-- `_cycle_members` ends. Each module that it marks depends on a marked one, and there is an order of
-- all modules in which the dependencies of each unmarked one stand after it.
pub cycle_members_ends :
    (g : Graph) → (cycles : List Text) × (cycle_members g ≡ some cycles) × Found g cycles
unfolding cycle_members
cycle_members_ends g =
    let (t, e, rows) =
      visit_each_ends g (visit (suc (length g)) g) []
        (λ d s known a c sound.
          visit_ends (suc (length g)) g d s
            (omega (arith, ap (λ x. free x (keys g)) a, free-nil (keys g), length-keys g)) known
            sound (subst (λ x. Chain g (d ∷ x)) (sym a) c))
        (keys g) (λ d m. (m, tt)) start refl
        (record { chain = tt; ordered = tt; marked = λ c m. ground arith }) in
    (
      t.cycles,
      ground (arith, e),
      record {
        marked = rows.sound.marked;
        order = t.visited;
        ordered = rows.sound.ordered;
        complete = λ node m. rows.reached node m;
      },
    )

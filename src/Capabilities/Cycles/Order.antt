-- ===== src/Capabilities/Cycles/Order.antt =====
-- The search for cycles ends, and what it finds: each module that it marks depends on a marked one,
-- and the modules that it leaves unmarked are left in an order in which dependencies come first.
use linux_ai_native_system.Prelude.{
  ℕ, suc, ◌≤◌, ◌<◌, ◌≡◌, ◌⊎◌, inl, inr, refl, sym, ap, subst, ◌∙◌, true, false, List, [], ◌∷◌, Text,
  text_eq, text_beq, text_beq_iff, contains, length, if◌then◌else◌, Bool-cases, arith,
}
use linux_ai_native_system.Capabilities.Cycles.{Graph, Search, targets, from_node}

-- how many of the nodes are not in the list
pub free : List Text → List Text → ℕ
free active [] = 0
free active (k ∷ ks) = let n = free active ks in if contains active k then n else suc n

free-le : (u : Text) (active ks : List Text) → free (u ∷ active) ks ≤ free active ks
unfolding free
free-le u active [] = omega arith
free-le u active (k ∷ ks) = ground (arith, free-le u active ks)

pub free-lt :
    (u : Text) (active ks : List Text)
    → contains ks u ≡ true
    → contains active u ≡ false
    → free (u ∷ active) ks < free active ks
unfolding free
free-lt u active [] m h = ground arith
free-lt u active (k ∷ ks) m h =
    ground (arith, free-lt u active ks, free-le u active ks, text_beq_iff u k, text_beq_iff k u)

pub free-nil : (ks : List Text) → free [] ks ≡ length ks
unfolding free
free-nil [] = refl
free-nil (k ∷ ks) = ap suc (free-nil ks)

-- A node depends on another.
abbrev pub DependsOn : Graph → Text → Text → Type 0
DependsOn g u d = contains (targets g u) d ≡ true

-- Each node of the list is a dependency of the next.
abbrev pub Chain : Graph → List Text → Type 0
Chain g [] = Unit
Chain g (u ∷ []) = Unit
Chain g (u ∷ v ∷ us) = DependsOn g v u × Chain g (v ∷ us)

-- A node of the list depends on the given node or on a node of the list.
abbrev Turns : Graph → Text → List Text → Text → Type 0
Turns g n us c = (d : Text) × DependsOn g c d × ((d ≡ n) ⊎ (contains us d ≡ true))

from_node_lem :
    (g : Graph) (node n c : Text) (active : List Text)
    → Chain g (n ∷ active)
    → contains (from_node node active) c ≡ true
    → Turns g n (from_node node active) c
unfolding from_node
from_node_lem g node n c [] h m = ground arith
from_node_lem g node n c (u ∷ active) h m = elim (Bool-cases (text_beq u c)) [
  | inl is ↦ (n, subst (λ x. DependsOn g x n) ((text_beq_iff u c).0 is) h.0, inl refl)
  | inr other ↦
      let (d, edge, at) = from_node_lem g node u c active h.1 (ground arith) in
      (d, edge, inr (ground (arith, m, at, text_beq_iff u d)))
]

from_node_itself :
    (node : Text) (active : List Text)
    → contains active node ≡ true
    → contains (from_node node active) node ≡ true
unfolding from_node
from_node_itself node [] m = m
from_node_itself node (u ∷ active) m = ground (arith, from_node_itself node active)

-- The segment of the stack from a dependency of its head: each node of it depends on another of it.
pub segment_turns :
    (g : Graph) (node c : Text) (active : List Text)
    → Chain g (node ∷ active)
    → contains active node ≡ true
    → contains (from_node node active) c ≡ true
    → (d : Text) × DependsOn g c d × (contains (from_node node active) d ≡ true)
segment_turns g node c active h a m =
    let (d, edge, at) = from_node_lem g node node c active h m in
    (
      d,
      edge,
      elim at [
        | inl q ↦
            subst (λ x. contains (from_node node active) x ≡ true) (sym q)
              (from_node_itself node active a)
        | inr here ↦ here
      ],
    )

-- The nodes that the search has left: a dependency of an unmarked one was left before it.
abbrev pub Ordered : Graph → List Text → List Text → Type 0
Ordered g cycles [] = Unit
Ordered g cycles (u ∷ us) =
    ((d : Text) → DependsOn g u d → (contains us d ≡ true) ⊎ (contains cycles u ≡ true))
    × Ordered g cycles us

-- Each marked node depends on a marked one.
abbrev pub Marked : Graph → List Text → Type 0
Marked g cycles =
    (c : Text)
    → contains cycles c ≡ true
    → (d : Text) × DependsOn g c d × (contains cycles d ≡ true)

abbrev pub Within : List Text → List Text → Type 0
Within xs ys = (a : Text) → contains xs a ≡ true → contains ys a ≡ true

pub Ordered-mono :
    (g : Graph) (before after us : List Text)
    → Within before after
    → Ordered g before us
    → Ordered g after us
Ordered-mono g before after [] w o = tt
Ordered-mono g before after (u ∷ us) w o = (
  λ d edge. elim (o.0 d edge) [ inl left ↦ inl left | inr marked ↦ inr (w u marked) ],
  Ordered-mono g before after us w o.1,
)

-- What the search keeps.
pub record IsSound (g : Graph) (s : Search) : Type 0 where
  pub chain : Chain g s.active
  pub ordered : Ordered g s.cycles s.visited
  pub marked : Marked g s.cycles

-- What a visit adds.
pub record Grows (s t : Search) : Type 0 where
  pub stack : t.active ≡ s.active
  pub visited : Within s.visited t.visited
  pub cycles : Within s.cycles t.cycles

pub Grows-trans : (s t u : Search) → Grows s t → Grows t u → Grows s u
Grows-trans s t u p q = record {
  stack = q.stack ∙ p.stack;
  visited = λ a m. q.visited a (p.visited a m);
  cycles = λ a m. q.cycles a (p.cycles a m);
}

-- A visited node has been left, or it is on the stack and the head of the stack is marked.
abbrev pub Reached : List Text → Text → Search → Type 0
Reached [] node t = contains t.visited node ≡ true
Reached (u ∷ us) node t = (contains t.visited node ≡ true) ⊎ (contains t.cycles u ≡ true)

pub Reached-Grows :
    (active : List Text) (node : Text) (s t : Search)
    → Grows s t
    → Reached active node s
    → Reached active node t
Reached-Grows [] node s t g r = g.visited node r
Reached-Grows (u ∷ us) node s t g r = elim r [
  | inl left ↦ inl (g.visited node left)
  | inr marked ↦ inr (g.cycles u marked)
]

-- How a visit of a node ends.
pub record Visited (g : Graph) (node : Text) (s t : Search) : Type 0 where
  pub sound : IsSound g t
  pub grows : Grows s t
  pub reached : Reached s.active node t

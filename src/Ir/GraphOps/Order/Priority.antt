-- ===== src/Ir/GraphOps/Order/Priority.antt =====
-- fsm_graph_ops.cpp: sort_transitions_by_priority orders the transitions of a source by their
-- priority and leaves the sources in the order in which they first occur.
use fsmc.Common.{
  ◌+◌, ◌<◌, ◌≤◌, ◌≡◌, ◌⊎◌, ◌↔◌, ◌∙◌, sym, inl, inr, Bool, true, false, ◌&&◌, ◌||◌, String, str_eq,
  eq_iff, List, [], ◌∷◌, ◌++◌, length, if◌then◌else◌, ◌==◌, contains, contains-append, keep_if,
  Bool-cases, arith,
}
use mathlib.Core.List.{append_assoc, append-nil}
use fsmc.Ir.Model.{TransitionEdge, FsmIr}
use fsmc.Ir.GraphOps.Order.{source_order, position, rank, precedes, sort_transitions_by_priority}
use fsmc.Ir.GraphOps.Order.Insertion.{All, Ordered, stable_sort-Ordered, keep_if-stable_sort}

abbrev pub sources : List TransitionEdge → List String
sources [] = []
sources (t ∷ ts) = t.source ∷ sources ts

position-append :
    (ks ls : List String) (a : String)
    → position (ks ++ ls) a ≡ (if contains a ks then position ks a else length ks + position ls a)
unfolding position
position-append [] ls a = omega arith
position-append (k ∷ ks) ls a = ground (arith, position-append ks ls a)

position-lt-length :
    (ks : List String) (a : String) → contains a ks ≡ true → position ks a < length ks
unfolding position
position-lt-length [] a h = cc
position-lt-length (k ∷ ks) a h = ground (arith, position-lt-length ks a)

position_injective :
    (ks : List String) (a b : String) → contains a ks ≡ true → position ks a ≡ position ks b → a ≡ b
unfolding position
position_injective [] a b h e = cc
position_injective (k ∷ ks) a b h e =
    ground (arith, position_injective ks a b, eq_iff k a, eq_iff k b)

-- A key that is there already changes no comparison of positions.
position-repeat :
    (ks ls : List String) (s a b : String)
    → contains s ks ≡ true
    → (position (ks ++ s ∷ ls) a < position (ks ++ s ∷ ls) b)
      ↔ (position (ks ++ ls) a < position (ks ++ ls) b)
unfolding position
position-repeat ks ls s a b h = ground (
  arith,
  position-append ks (s ∷ ls) a,
  position-append ks (s ∷ ls) b,
  position-append ks ls a,
  position-append ks ls b,
  eq_iff s a,
  eq_iff s b,
  position-lt-length ks a,
  position-lt-length ks b,
)

source_order_positions :
    (ts : List TransitionEdge) (ks : List String) (a b : String)
    → (position (source_order ts ks) a < position (source_order ts ks) b)
      ↔ (position (ks ++ sources ts) a < position (ks ++ sources ts) b)
unfolding source_order
source_order_positions [] ks a b = rw append-nil (λ h. h, λ h. h)
source_order_positions (t ∷ ts) ks a b = elim (Bool-cases (contains t.source ks)) [
  | inl old ↦
      let (into, back) = source_order_positions ts ks a b in
      let (widen, narrow) = position-repeat ks (sources ts) t.source a b old in
      rw old (λ h. narrow (into h), λ h. back (widen h))
  | inr new ↦
      rw (new, ← append_assoc ks (t.source ∷ []) (sources ts))
        (source_order_positions ts (ks ++ t.source ∷ []) a b)
]

contains-source_order :
    (ts : List TransitionEdge) (ks : List String) (a : String)
    → contains a (source_order ts ks) ≡ (contains a ks || contains a (sources ts))
unfolding source_order
contains-source_order [] ks a = ground arith
contains-source_order (t ∷ ts) ks a = ground (
  arith,
  contains-source_order ts ks a,
  contains-source_order ts (ks ++ t.source ∷ []) a,
  contains-append a ks (t.source ∷ []),
  eq_iff t.source a,
)

-- The first transition with the source of `a` stands before the first with the source of `b`; or
-- the sources are one, and `a` has not the later priority.
abbrev pub Before : List TransitionEdge → TransitionEdge → TransitionEdge → Type 0
Before ts a b =
    (position (sources ts) a.source < position (sources ts) b.source)
    ⊎ ((a.source ≡ b.source) × (rank a ≤ rank b))

-- The transitions that the order does not tell from `k`: those of its source and its priority.
abbrev pub is_level : TransitionEdge → TransitionEdge → Bool
is_level k t = str_eq t.source k.source && (rank t == rank k)

Before-trans :
    (ts : List TransitionEdge) (a b c : TransitionEdge)
    → Before ts a b
    → Before ts b c
    → Before ts a c
Before-trans ts a b c (inl p) (inl q) = inl (omega arith)
Before-trans ts a b c (inl p) (inr q) = inl (rw q.0 at p)
Before-trans ts a b c (inr p) (inl q) = inl (rw (← p.0) at q)
Before-trans ts a b c (inr p) (inr q) = inr (p.0 ∙ q.0, omega arith)

module _ (ts : List TransitionEdge) where
  abbrev keys : List String
  keys = source_order ts []

  abbrev IsKey : TransitionEdge → Type 0
  IsKey t = contains t.source keys ≡ true

  precedes-Before :
      (a b : TransitionEdge) → IsKey a → IsKey b → precedes keys a b ≡ true → Before ts a b
  unfolding precedes
  precedes-Before a b ka kb h = elim (Bool-cases (str_eq a.source b.source)) [
    | inl same ↦ inr ((eq_iff a.source b.source).0 same, ground arith)
    | inr other ↦ inl ((source_order_positions ts [] a.source b.source).0 (ground arith))
  ]

  not_precedes-Before :
      (a b : TransitionEdge) → IsKey a → IsKey b → precedes keys a b ≡ false → Before ts b a
  unfolding precedes
  not_precedes-Before a b ka kb h = elim (Bool-cases (str_eq a.source b.source)) [
    | inl same ↦ inr (sym ((eq_iff a.source b.source).0 same), ground arith)
    | inr other ↦ inl (
        (source_order_positions ts [] b.source a.source).0
          (ground (arith, position_injective keys a.source b.source ka, eq_iff a.source b.source)))
  ]

  All-keys :
      (us : List TransitionEdge)
      → ((a : String) → contains a (sources us) ≡ true → contains a keys ≡ true)
      → All IsKey us
  All-keys [] h = tt
  All-keys (u ∷ us) h = (
    h u.source (ground (arith, eq_iff u.source u.source)),
    All-keys us (λ a m. h a (ground arith)),
  )

  level_precedes :
      (k a b : TransitionEdge)
      → is_level k a ≡ true
      → is_level k b ≡ true
      → precedes keys a b ≡ false
  unfolding precedes
  level_precedes k a b h h' =
      ground (arith, eq_iff a.source k.source, eq_iff b.source k.source, eq_iff a.source b.source)

-- After the sort, sources stand in the order in which they first occurred, and the transitions of a
-- source in the order of their priority, 1 first and 0 last; and transitions of one source and one
-- priority are those of the machine, in the same order.
pub sort_transitions_by_priority-Ordered :
    (ir : FsmIr)
    → Ordered (Before ir.transitions) (sort_transitions_by_priority ir).transitions
      × ((k : TransitionEdge)
          → keep_if (is_level k) (sort_transitions_by_priority ir).transitions
            ≡ keep_if (is_level k) ir.transitions)
unfolding sort_transitions_by_priority
sort_transitions_by_priority-Ordered ir =
    let ts = ir.transitions in
    (
      stable_sort-Ordered (precedes (keys ts)) (IsKey ts) (Before ts) (precedes-Before ts)
          (not_precedes-Before ts) (Before-trans ts) ts
          (All-keys ts ts (λ a m. contains-source_order ts [] a ∙ m)),
      λ k. keep_if-stable_sort (precedes (keys ts)) (is_level k) (level_precedes ts k) ts,
    )

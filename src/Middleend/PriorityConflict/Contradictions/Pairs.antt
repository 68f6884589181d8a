-- ===== src/Middleend/PriorityConflict/Contradictions/Pairs.antt =====
-- priority_conflict_pass.cpp, run: when it reports a pair of transitions.
use Prim.Native.String.{◌++◌ as str_append}
use fsmc.Common.{
  codes, codes-append, and_left, and_right, and_intro, ℕ, ◌<◌, ◌≡◌, ◌↔◌, refl, ap, ◌∙◌, inl, inr,
  Bool, true, false, ◌&&◌, String, str_eq, eq_iff, List, [], ◌∷◌, ◌++◌, some, Bool-cases, arith,
}
use fsmc.Ir.Trigger.{duration_in_ms, Trigger, signal, time, change, anonymous}
use fsmc.Ir.Model.{TransitionEdge, FsmIr, HierarchicalPriority, is_empty}
use fsmc.Middleend.PriorityConflict.{get_trigger_key, source_of, contradicts, check_pair, to_string}
use fsmc.Middleend.PriorityConflict.Climbing.{
  IsAncestor, IsAncestor-irrefl, Falls, is_ancestor_of-IsAncestor,
}

-- The order of two priorities that the policy forbids: the ancestor's first, then the substate's.
abbrev pub Forbids : HierarchicalPriority → ℕ → ℕ → Type 0
Forbids HierarchicalPriority.outer_first outer inner = inner < outer
Forbids HierarchicalPriority.inner_first outer inner = outer < inner

-- The first transition leaves an ancestor of the source of the second, both are triggered alike and have a
-- priority, and the policy forbids the order of their priorities.
pub record Contradicts (ir : FsmIr) (t1 t2 : TransitionEdge) : Type 0 where
  pub ancestor : IsAncestor ir (source_of ir t1) (source_of ir t2)
  pub triggers : get_trigger_key t1.trigger ≡ get_trigger_key t2.trigger
  pub outer_given : 0 < t1.priority
  pub inner_given : 0 < t2.priority
  pub forbidden : Forbids ir.preemption_priority t1.priority t2.priority

prefix_not_empty :
    (a s : String) (n : ℕ) (rest : List ℕ) → codes a ≡ n ∷ rest → is_empty (str_append a s) ≡ false
prefix_not_empty a s n rest h = elim (Bool-cases (is_empty (str_append a s))) [
  | inl empty ↦
      let whole : codes (str_append a s) ≡ [] = ap codes ((eq_iff (str_append a s) "").0 empty) in
      let joined : codes (str_append a s) ≡ (n ∷ rest) ++ codes s =
        codes-append a s ∙ ap (λ x. x ++ codes s) h in
      absurd cc
  | inr other ↦ other
]

pub key_not_empty : (t : Trigger) → is_empty (get_trigger_key t) ≡ false
unfolding get_trigger_key
key_not_empty (signal s) = prefix_not_empty "signal:" s 115 (codes "ignal:") refl
key_not_empty (time t) =
    prefix_not_empty "time:" (to_string (duration_in_ms t)) 116 (codes "ime:") refl
key_not_empty (change e) = prefix_not_empty "change:" e 99 (codes "hange:") refl
key_not_empty anonymous = refl

contradicts_iff :
    (policy : HierarchicalPriority) (t1 t2 : TransitionEdge)
    → (contradicts policy t1 t2 ≡ true) ↔ (
        (get_trigger_key t1.trigger ≡ get_trigger_key t2.trigger)
        × (0 < t1.priority)
        × (0 < t2.priority)
        × Forbids policy t1.priority t2.priority)
unfolding contradicts
contradicts_iff HierarchicalPriority.outer_first t1 t2 = ground (
  arith,
  key_not_empty t1.trigger,
  eq_iff (get_trigger_key t1.trigger) (get_trigger_key t2.trigger),
)
contradicts_iff HierarchicalPriority.inner_first t1 t2 = ground (
  arith,
  key_not_empty t1.trigger,
  eq_iff (get_trigger_key t1.trigger) (get_trigger_key t2.trigger),
)

Contradicts-intro :
    (ir : FsmIr) (t1 t2 : TransitionEdge) (b : Bool)
    → (b ≡ true) ↔ IsAncestor ir (source_of ir t1) (source_of ir t2)
    → ((b && contradicts ir.preemption_priority t1 t2) ≡ true) ↔ Contradicts ir t1 t2
Contradicts-intro ir t1 t2 b ancestor =
    let (into, back) = contradicts_iff ir.preemption_priority t1 t2 in
    (
      λ e.
          let (triggers, outer, inner, forbidden) =
            into (and_right b (contradicts ir.preemption_priority t1 t2) e) in
          record {
            ancestor = ancestor.0 (and_left b (contradicts ir.preemption_priority t1 t2) e);
            triggers = triggers;
            outer_given = outer;
            inner_given = inner;
            forbidden = forbidden;
          },
      λ c.
          and_intro (ancestor.1 c.ancestor)
            (back (c.triggers, c.outer_given, c.inner_given, c.forbidden)),
    )

pub not_self :
    (ir : FsmIr) (depth : String → ℕ)
    → Falls ir depth
    → (t : TransitionEdge) → Contradicts ir t t
    → ⊥
not_self ir depth falls t c = IsAncestor-irrefl ir depth falls (source_of ir t) c.ancestor

module _ (ir : FsmIr) (depth : String → ℕ) (falls : Falls ir depth) (fuel : ℕ)
    (enough : (x : String) → depth x < fuel) where
  pub check_pair_iff :
      (t1 t2 : TransitionEdge)
      → (b : Bool) × (check_pair ir fuel t1 t2 ≡ some b) × ((b ≡ true) ↔ Contradicts ir t1 t2)
  unfolding check_pair
  check_pair_iff t1 t2 = elim (Bool-cases (str_eq (source_of ir t1) (source_of ir t2))) [
    | inl same ↦
        let one : source_of ir t1 ≡ source_of ir t2 =
          (eq_iff (source_of ir t1) (source_of ir t2)).0 same in
        (
          false,
          rw same refl,
          (
            λ e. absurd cc,
            λ c. absurd (IsAncestor-irrefl ir depth falls (source_of ir t2) (rw one at c.ancestor)),
          ),
        )
    | inr other ↦
        let (b, done, ancestor) =
          is_ancestor_of-IsAncestor ir (source_of ir t1) depth falls fuel enough
            (source_of ir t2) in
        (
          b && contradicts ir.preemption_priority t1 t2,
          rw (other, done) refl,
          Contradicts-intro ir t1 t2 b ancestor,
        )
  ]

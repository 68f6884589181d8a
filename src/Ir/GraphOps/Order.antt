-- ===== src/Ir/GraphOps/Order.antt =====
-- fsm_graph_ops.cpp, sort_transitions_by_priority: the order of the transition table.
pub mod Insertion
pub mod Priority
use fsmc.Common.{
  ℕ, zero, suc, Bool, not, String, str_eq, List, [], ◌∷◌, ◌++◌, if◌then◌else◌, ltb, ◌==◌, contains,
}
use fsmc.Ir.Model.{TransitionEdge, FsmIr}

-- std::stable_sort: each element goes before the first one of the sorted rest that is not less.
unfoldable pub insert_sorted {ℓ} : {A : Type ℓ} → (A → A → Bool) → A → List A → List A
insert_sorted less x [] = x ∷ []
insert_sorted less x (y ∷ ys) = if less y x then y ∷ insert_sorted less x ys else x ∷ y ∷ ys

unfoldable pub stable_sort {ℓ} : {A : Type ℓ} → (A → A → Bool) → List A → List A
unfolding insert_sorted
stable_sort less [] = []
stable_sort less (x ∷ xs) = insert_sorted less x (stable_sort less xs)

-- The map source_order, as the list of its keys: a key's value is its position, since `order`
-- counts the keys.
unfoldable pub source_order : List TransitionEdge → List String → List String
source_order [] keys = keys
source_order (t ∷ ts) keys =
    source_order ts (if contains t.source keys then keys else keys ++ t.source ∷ [])

-- The value of a key.
unfoldable pub position : List String → String → ℕ
position [] key = 0
position (k ∷ ks) key = if str_eq k key then 0 else suc (position ks key)

-- Priority 0 is unspecified, and comes after every other.
unfoldable pub rank : TransitionEdge → ℕ
rank t = if t.priority == 0 then 4294967295 else t.priority

unfoldable pub precedes : List String → TransitionEdge → TransitionEdge → Bool
unfolding position rank
precedes keys a b =
    if not (str_eq a.source b.source)
    then ltb (position keys a.source) (position keys b.source)
    else ltb (rank a) (rank b)

unfoldable pub sort_transitions_by_priority : FsmIr → FsmIr
sort_transitions_by_priority ir = record ir {
  transitions = stable_sort (precedes (source_order ir.transitions [])) ir.transitions;
}

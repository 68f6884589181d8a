-- ===== src/Ir/GraphOps/Update.antt =====
-- fsm_graph_ops.cpp: writes through find_state_mut, as seen by later lookups.
use mathlib.Core.Option.{some-injective}
use fsmc.Common.{
  ◌≡◌, refl, ap, inl, inr, Bool, ◌||◌, Bool-cases, String, str_eq, eq_iff, List, [], ◌∷◌, map,
  Option, none, some, if◌then◌else◌, arith,
}
use fsmc.Ir.Model.{StateNode, find_by_name}
use fsmc.Ir.GraphOps.{update_state}

-- The write leaves names alone.
abbrev pub KeepsName : (StateNode → StateNode) → Type 0
KeepsName f = (s : StateNode) → (f s).name ≡ s.name

abbrev pub map_found : (StateNode → StateNode) → Option StateNode → Option StateNode
map_found f none = none
map_found f (some s) = some (f s)

pub find_by_name-update_state :
    (f : StateNode → StateNode)
    → KeepsName f
    → (x n : String) (ss : List StateNode)
    → find_by_name (update_state f x ss) n
      ≡ (if str_eq x n then map_found f (find_by_name ss n) else find_by_name ss n)
unfolding find_by_name update_state
find_by_name-update_state f keeps x n [] = ground arith
find_by_name-update_state f keeps x n (s ∷ ss) = ground (
  arith,
  keeps s,
  find_by_name-update_state f keeps x n ss,
  eq_iff s.name x,
  eq_iff s.name n,
  eq_iff x n,
)

pub find_by_name-map :
    (f : StateNode → StateNode)
    → KeepsName f
    → (n : String) (ss : List StateNode)
    → find_by_name (map f ss) n ≡ map_found f (find_by_name ss n)
unfolding find_by_name
find_by_name-map f keeps n [] = refl
find_by_name-map f keeps n (s ∷ ss) = ground (arith, keeps s, find_by_name-map f keeps n ss)

abbrev pub when : Bool → (StateNode → StateNode) → StateNode → StateNode
when b f s = if b then f s else s

-- A write that would change nothing in the state found changes nothing.
pub update_state_same :
    (f : StateNode → StateNode) (x : String) (ss : List StateNode)
    → map_found f (find_by_name ss x) ≡ find_by_name ss x
    → update_state f x ss ≡ ss
unfolding find_by_name update_state
update_state_same f x [] h = refl
update_state_same f x (s ∷ ss) h = elim (Bool-cases (str_eq s.name x)) [
  | inl hit ↦ rw hit (ap (λ (t : StateNode). t ∷ ss) (some-injective (f s) s (rw hit at h)))
  | inr miss ↦ rw miss (ap (◌∷◌ s) (update_state_same f x ss (rw miss at h)))
]

-- Writes of one function, which may be made twice, are one write if any of them is made.
pub when_twice :
    (f : StateNode → StateNode)
    → ((s : StateNode) → f (f s) ≡ f s)
    → (a b : Bool) (o : Option StateNode)
    → map_found (when b f) (map_found (when a f) o) ≡ map_found (when (a || b) f) o
when_twice f idem a b none = refl
when_twice f idem a b (some s) = ground (arith, idem s)

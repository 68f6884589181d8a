-- ===== src/Ir/GraphOps/WellFormed.antt =====
-- fsm_graph_ops.cpp, is_well_formed, with is_valid of concurrency_semantics.hpp.
use mathlib.Core.List.{Memᴰ}
use mathlib.Core.List.Memᴰ
use Prim.Native.String.{◌++◌ as str_append}
use fsmc.Common.{
  ◌≡◌, ◌≢◌, ◌↔◌, refl, Bool, true, false, not, ◌&&◌, String, eq_iff, List, [], ◌∷◌, Option, none,
  some, inl, inr, if◌then◌else◌, Bool-cases, arith,
}
use fsmc.Ir.Model.{
  StateNode, TransitionEdge, FsmIr, ConcurrencySemantics, EventDispatchSemantics,
  OrthogonalConflictResolution, is_empty, find_state,
}

abbrev is_synchronous : EventDispatchSemantics → Bool
is_synchronous EventDispatchSemantics.synchronous_reactive = true
is_synchronous _ = false

abbrev is_interleaved : OrthogonalConflictResolution → Bool
is_interleaved OrthogonalConflictResolution.interleaved = true
is_interleaved _ = false

unfoldable pub is_valid : ConcurrencySemantics → Bool
is_valid c =
    if is_synchronous c.dispatch && is_interleaved c.orthogonal_conflict then false else true

abbrev is_missing : Option StateNode → Bool
is_missing none = true
is_missing (some s) = false

-- A name that is written, and that no state has.
unfoldable pub dangles : FsmIr → String → Bool
dangles ir name = not (is_empty name) && is_missing (find_state ir name)

unfoldable pub check_transitions : FsmIr → List TransitionEdge → Option String
check_transitions ir [] = none
check_transitions ir (t ∷ ts) =
    if dangles ir t.source
    then some (str_append "Transition source state '" (str_append t.source "' not found in states"))
    else if dangles ir t.target
    then some (str_append "Transition target state '" (str_append t.target "' not found in states"))
    else check_transitions ir ts

-- The text written to `error`, or `none` where the machine is well formed.
unfoldable pub is_well_formed : FsmIr → Option String
is_well_formed ir =
    if not (is_valid ir.concurrency)
    then some (
        str_append
          "Invalid concurrency semantics: SynchronousReactive clock model incompatible with Interleaved "
          "orthogonal resolution")
    else if dangles ir ir.initial_state
    then some (str_append "Initial state '" (str_append ir.initial_state "' not found in states"))
    else check_transitions ir ir.transitions

-- The name is empty, or a lookup finds a state of that name.
abbrev pub Resolves : FsmIr → String → Type 0
Resolves ir name = name ≢ "" → (s : StateNode) × (find_state ir name ≡ some s)

pub record IsWellFormed (ir : FsmIr) : Type 0 where
  pub consistent : ¬ (
      (ir.concurrency.dispatch ≡ EventDispatchSemantics.synchronous_reactive)
      × (ir.concurrency.orthogonal_conflict ≡ OrthogonalConflictResolution.interleaved))
  pub initial : Resolves ir ir.initial_state
  pub endpoints :
      (t : TransitionEdge) → Memᴰ t ir.transitions → Resolves ir t.source × Resolves ir t.target

pub dangles-false : (ir : FsmIr) (name : String) → (dangles ir name ≡ false) ↔ Resolves ir name
unfolding dangles
dangles-false ir name = (into (find_state ir name) refl, back)
  where
    into :
        (o : Option StateNode)
        → find_state ir name ≡ o
        → (not (is_empty name) && is_missing (find_state ir name)) ≡ false
        → Resolves ir name
    into none e h written = ground (arith, eq_iff name "")
    into (some s) e h written = (s, e)

    back : Resolves ir name → (not (is_empty name) && is_missing (find_state ir name)) ≡ false
    back r = elim (Bool-cases (is_empty name)) [
      | inl blank ↦ rw blank
      | inr written ↦ let (s, e) = r (λ same. ground (arith, eq_iff name "")) in rw (written, e)
    ]

abbrev Endpoints : FsmIr → List TransitionEdge → Type 0
Endpoints ir ts = (t : TransitionEdge) → Memᴰ t ts → Resolves ir t.source × Resolves ir t.target

check_transitions_none :
    (ir : FsmIr) (ts : List TransitionEdge) → (check_transitions ir ts ≡ none) ↔ Endpoints ir ts
unfolding check_transitions
check_transitions_none ir ts = (into ts, back ts)
  where
    into : (ts : List TransitionEdge) → check_transitions ir ts ≡ none → Endpoints ir ts
    into [] h t m = absurd (Memᴰ.not-nil m)
    into (x ∷ ts) h t m =
        let source : dangles ir x.source ≡ false = ground arith in
        let target : dangles ir x.target ≡ false = ground arith in
        elim (Memᴰ.cases_cons m) [
          | inl e ↦
              rw e ((dangles-false ir x.source).0 source, (dangles-false ir x.target).0 target)
          | inr rest ↦ into ts (ground arith) t rest
        ]

    back : (ts : List TransitionEdge) → Endpoints ir ts → check_transitions ir ts ≡ none
    back [] h = refl
    back (x ∷ ts) h =
        let (source, target) = h x (Memᴰ.head refl) in
        rw ((dangles-false ir x.source).1 source, (dangles-false ir x.target).1 target)
          (back ts (λ t m. h t (Memᴰ.tail m)))

-- The check reports no error exactly if the machine is well formed: its dispatch is not synchronous
-- with interleaved regions, and its initial state, and the source and the target of each of its
-- transitions, are empty names or names of states.
pub is_well_formed-IsWellFormed : (ir : FsmIr) → (is_well_formed ir ≡ none) ↔ IsWellFormed ir
unfolding is_well_formed is_valid
is_well_formed-IsWellFormed ir = (into, back)
  where
    into : is_well_formed ir ≡ none → IsWellFormed ir
    into h = record {
      consistent = λ both. ground arith;
      initial = (dangles-false ir ir.initial_state).0 (ground arith);
      endpoints = (check_transitions_none ir ir.transitions).0 (ground arith);
    }

    back : IsWellFormed ir → is_well_formed ir ≡ none
    back w = ground (
      arith,
      (dangles-false ir ir.initial_state).1 w.initial,
      (check_transitions_none ir ir.transitions).1 w.endpoints,
      w.consistent,
    )

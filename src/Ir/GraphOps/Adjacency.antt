-- ===== src/Ir/GraphOps/Adjacency.antt =====
-- fsm_graph_ops.cpp, rebuild_adjacency_indices: what the indices of a state are.
use mathlib.Core.List.{append-nil, append_assoc}
use mathlib.Core.Path.{ap₂}
use fsmc.Common.{
  ℕ, suc, ◌<◌, ◌≡◌, inl, inr, refl, ◌∙◌, ap, Bool, true, false, not, ◌&&◌, ◌||◌, String, str_eq,
  eq_iff, List, [], ◌∷◌, ◌++◌, map, none, some, if◌then◌else◌, contains, Bool-cases, Option-cases,
  arith,
}
use fsmc.Ir.Model.{StateNode, TransitionEdge, FsmIr, is_empty, find_by_name, find_state}
use fsmc.Ir.GraphOps.{
  update_state, clear_edges, holds, add_outgoing, add_incoming, add_outgoing_once,
  add_incoming_once, add_main, add_others, add_edge, add_edges, rebuild_adjacency_indices,
}
use fsmc.Ir.GraphOps.Update.{
  KeepsName, map_found, when, when_twice, find_by_name-update_state, find_by_name-map,
}

-- The transition leaves the state of this name: it is the source, or one of the further ones.
abbrev pub leaves : String → TransitionEdge → Bool
leaves n t = if str_eq t.source n then not (is_empty n) else contains n t.source_ids

abbrev pub enters : String → TransitionEdge → Bool
enters n t = if str_eq t.target n then not (is_empty n) else contains n t.target_ids

-- The positions, from `i` on, of the transitions that pass a test.
abbrev pub indices : (TransitionEdge → Bool) → ℕ → List TransitionEdge → List ℕ
indices test i [] = []
indices test i (t ∷ ts) = if test t then i ∷ indices test (suc i) ts else indices test (suc i) ts

abbrev pub with_indices : String → ℕ → List TransitionEdge → StateNode → StateNode
with_indices n i ts s = record s {
  outgoing_transitions = s.outgoing_transitions ++ indices (leaves n) i ts;
  incoming_transitions = s.incoming_transitions ++ indices (enters n) i ts;
}

module _ (f : StateNode → StateNode) (keeps : KeepsName f) (main n : String) where
  find-add_main :
      (ss : List StateNode)
      → find_by_name (add_main f main ss) n
        ≡ map_found (when (str_eq main n && not (is_empty n)) f) (find_by_name ss n)
  unfolding add_main
  find-add_main ss = ground (
    arith,
    find_by_name-update_state f keeps main n ss,
    eq_iff main "",
    eq_iff main n,
    eq_iff n "",
  )

  module _ (idem : (s : StateNode) → f (f s) ≡ f s) where
    find-add_others :
        (xs : List String) (ss : List StateNode)
        → find_by_name (add_others f main xs ss) n
          ≡ map_found (when (not (str_eq main n) && contains n xs) f) (find_by_name ss n)
    unfolding add_others
    find-add_others [] ss = ground arith
    find-add_others (x ∷ xs) ss = elim (Bool-cases (str_eq x main)) [
      | inl own ↦ rw own (
          find-add_others xs ss ∙ ap (λ b. map_found (when b f) (find_by_name ss n)) (own_test own))
      | inr other ↦ rw other (
          find-add_others xs (update_state f x ss)
          ∙ ap (map_found (when (not (str_eq main n) && contains n xs) f)) (step other)
          ∙ when_twice f idem (not (str_eq main n) && str_eq x n) _ (find_by_name ss n)
          ∙ ap (λ b. map_found (when b f) (find_by_name ss n)) (ground arith))
    ]
      where
        own_test :
            str_eq x main ≡ true
            → (not (str_eq main n) && contains n xs)
              ≡ (not (str_eq main n) && (str_eq x n || contains n xs))
        own_test own = ground (arith, eq_iff x main, eq_iff x n, eq_iff main n)

        step :
            str_eq x main ≡ false
            → find_by_name (update_state f x ss) n
              ≡ map_found (when (not (str_eq main n) && str_eq x n) f) (find_by_name ss n)
        step other = ground (
          arith,
          find_by_name-update_state f keeps x n ss,
          eq_iff x main,
          eq_iff x n,
          eq_iff main n,
        )

-- Every index is below `i`, so that `i` is new.
abbrev Below : ℕ → List ℕ → Type 0
Below i [] = Unit
Below i (x ∷ xs) = (x < i) × Below i xs

Below-suc : (i : ℕ) (xs : List ℕ) → Below i xs → Below (suc i) xs
Below-suc i [] h = tt
Below-suc i (x ∷ xs) h = (omega arith, Below-suc i xs h.1)

Below-append : (i : ℕ) (xs : List ℕ) → Below i xs → Below (suc i) (xs ++ i ∷ [])
Below-append i [] h = omega arith
Below-append i (x ∷ xs) h = (omega arith, Below-append i xs h.1)

holds-Below : (i : ℕ) (xs : List ℕ) → Below i xs → holds i xs ≡ false
holds-Below i [] h = refl
holds-Below i (x ∷ xs) h = ground (arith, holds-Below i xs)

holds-append : (i : ℕ) (xs : List ℕ) → holds i (xs ++ i ∷ []) ≡ true
holds-append i [] = ground arith
holds-append i (x ∷ xs) = ground (arith, holds-append i xs)

once_out :
    (i : ℕ) (s : StateNode) → add_outgoing_once i (add_outgoing_once i s) ≡ add_outgoing_once i s
unfolding add_outgoing_once add_outgoing
once_out i s = ground (arith, holds-append i s.outgoing_transitions)

once_in :
    (i : ℕ) (s : StateNode) → add_incoming_once i (add_incoming_once i s) ≡ add_incoming_once i s
unfolding add_incoming_once add_incoming
once_in i s = ground (arith, holds-append i s.incoming_transitions)

out_name : (i : ℕ) → KeepsName (add_outgoing i)
unfolding add_outgoing
out_name i s = refl

in_name : (i : ℕ) → KeepsName (add_incoming i)
unfolding add_incoming
in_name i s = refl

once_out_name : (i : ℕ) → KeepsName (add_outgoing_once i)
unfolding add_outgoing_once add_outgoing
once_out_name i s = ground arith

once_in_name : (i : ℕ) → KeepsName (add_incoming_once i)
unfolding add_incoming_once add_incoming
once_in_name i s = ground arith

-- The indices of a state are all below `i`.
abbrev IsFresh : ℕ → StateNode → Type 0
IsFresh i s = Below i s.outgoing_transitions × Below i s.incoming_transitions

-- What one transition adds to the state found under the name `n`.
find-add_edge :
    (i : ℕ) (t : TransitionEdge) (n : String) (ss : List StateNode)
    → find_by_name (add_edge i t ss) n
      ≡ map_found
          (when (not (str_eq t.target n) && contains n t.target_ids) (add_incoming_once i))
          (map_found (when (str_eq t.target n && not (is_empty n)) (add_incoming i)) (
            map_found
              (when (not (str_eq t.source n) && contains n t.source_ids) (add_outgoing_once i))
              (map_found
                (when (str_eq t.source n && not (is_empty n)) (add_outgoing i))
                (find_by_name ss n))))
unfolding add_edge
find-add_edge i t n ss =
    let out = add_main (add_outgoing i) t.source ss in
    let outs = add_others (add_outgoing_once i) t.source t.source_ids out in
    let into = add_main (add_incoming i) t.target outs in
    rw (
      find-add_others (add_incoming_once i) (once_in_name i) t.target n (once_in i) t.target_ids
          into,
      find-add_main (add_incoming i) (in_name i) t.target n outs,
      find-add_others (add_outgoing_once i) (once_out_name i) t.source n (once_out i) t.source_ids
          out,
      find-add_main (add_outgoing i) (out_name i) t.source n ss,
    )

abbrev add_if : Bool → ℕ → List ℕ → List ℕ
add_if b i xs = if b then xs ++ i ∷ [] else xs

add_if-Below : (b : Bool) (i : ℕ) (xs : List ℕ) → Below i xs → Below (suc i) (add_if b i xs)
add_if-Below true i xs h = Below-append i xs h
add_if-Below false i xs h = Below-suc i xs h

add_if-indices :
    (test : TransitionEdge → Bool) (i : ℕ) (t : TransitionEdge) (ts : List TransitionEdge)
    (xs : List ℕ)
    → add_if (test t) i xs ++ indices test (suc i) ts ≡ xs ++ indices test i (t ∷ ts)
add_if-indices test i t ts xs = elim (Bool-cases (test t)) [
  | inl yes_ ↦ rw yes_ (append_assoc xs (i ∷ []) (indices test (suc i) ts))
  | inr no_ ↦ rw no_
]

-- One transition adds its position to the indices of the state that has the name `n`.
abbrev with_edge : String → ℕ → TransitionEdge → StateNode → StateNode
with_edge n i t s = record s {
  outgoing_transitions = add_if (leaves n t) i s.outgoing_transitions;
  incoming_transitions = add_if (enters n t) i s.incoming_transitions;
}

add_edge_found :
    (i : ℕ) (t : TransitionEdge) (n : String) (ss : List StateNode) (s : StateNode)
    → find_by_name ss n ≡ some s
    → IsFresh i s
    → find_by_name (add_edge i t ss) n ≡ some (with_edge n i t s)
unfolding add_outgoing add_outgoing_once add_incoming add_incoming_once
add_edge_found i t n ss s found fresh = ground (
  arith,
  find-add_edge i t n ss,
  holds-Below i s.outgoing_transitions,
  holds-Below i s.incoming_transitions,
)

add_edges_found :
    (i : ℕ) (ts : List TransitionEdge) (n : String) (ss : List StateNode) (s : StateNode)
    → find_by_name ss n ≡ some s
    → IsFresh i s
    → find_by_name (add_edges i ts ss) n ≡ some (with_indices n i ts s)
unfolding add_edges
add_edges_found i [] n ss s found fresh =
    ground (arith, append-nil s.outgoing_transitions, append-nil s.incoming_transitions)
add_edges_found i (t ∷ ts) n ss s found fresh =
    let next = add_edge_found i t n ss s found fresh in
    let fresh' : IsFresh (suc i) (with_edge n i t s) =
      (add_if-Below (leaves n t) i _ fresh.0, add_if-Below (enters n t) i _ fresh.1) in
    add_edges_found (suc i) ts n (add_edge i t ss) (with_edge n i t s) next fresh'
    ∙ ap some (
        ap₂ (λ out into. record s { outgoing_transitions = out; incoming_transitions = into })
          (add_if-indices (leaves n) i t ts s.outgoing_transitions)
          (add_if-indices (enters n) i t ts s.incoming_transitions))

add_edges_missing :
    (i : ℕ) (ts : List TransitionEdge) (n : String) (ss : List StateNode)
    → find_by_name ss n ≡ none
    → find_by_name (add_edges i ts ss) n ≡ none
unfolding add_edges
add_edges_missing i [] n ss h = h
add_edges_missing i (t ∷ ts) n ss h =
    add_edges_missing (suc i) ts n (add_edge i t ss) (find-add_edge i t n ss ∙ rw h)

clear_edges_name : KeepsName clear_edges
unfolding clear_edges
clear_edges_name s = refl

-- The state with indices that are exactly the positions of the transitions that leave or enter it.
abbrev pub indexed : String → List TransitionEdge → StateNode → StateNode
indexed n ts s = record s {
  outgoing_transitions = indices (leaves n) 0 ts;
  incoming_transitions = indices (enters n) 0 ts;
}

-- After the rebuild, the state that a lookup of any name finds has as its outgoing indices, in
-- ascending order and each once, exactly the positions of the transitions that have the name as
-- their source, unless it is empty, or else among their further sources; so too for its incoming
-- indices and the targets. Its other fields are unchanged, and a name is found exactly if it was.
pub find_state-rebuild_adjacency_indices :
    (ir : FsmIr) (n : String)
    → find_state (rebuild_adjacency_indices ir) n
      ≡ map_found (indexed n ir.transitions) (find_state ir n)
unfolding rebuild_adjacency_indices clear_edges
find_state-rebuild_adjacency_indices ir n =
    let cleared = find_by_name-map clear_edges clear_edges_name n ir.states in
    elim (Option-cases (find_by_name ir.states n)) [
      | inl missing ↦
          rw missing (
            add_edges_missing 0 ir.transitions n (map clear_edges ir.states) (cleared ∙ rw missing))
      | inr (s, found) ↦ rw found (
          add_edges_found 0 ir.transitions n (map clear_edges ir.states) (clear_edges s)
            (cleared ∙ rw found) (tt, tt))
    ]

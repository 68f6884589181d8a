-- ===== src/Middleend/DeadStatePruning/Correct.antt =====
-- dead_state_pruning_pass.cpp: what the pass keeps.
use mathlib.Core.List.{Memᴰ}
use mathlib.Core.Option.{some-injective}
use fsmc.Common.{
  ◌≡◌, ap, sym, ◌↔◌, inl, inr, ◌≢◌, Bool, true, false, ◌||◌, eq_iff, none, some, contains,
  mem-keep_if, or_split, arith, Bool-cases,
}
use fsmc.Ir.Model.{
  StateNode, TransitionEdge, FsmIr, StateKind, final, is_empty, is_final, is_choice_node,
}
use fsmc.Middleend.Worklist.{Search}
use fsmc.Middleend.DeadStatePruning.{
  root, is_static_false, search, keep_state, keep_transition, Outcome, pruned, finish, run,
}
use fsmc.Middleend.DeadStatePruning.Successors.{Live, search_returns, search-Live}

-- A state that stays: a final state, a choice node, or one that edges lead to from the root.
pub data StaysState (ir : FsmIr) (s : StateNode) : Type 0 where
  ends : s.kind ≡ final → StaysState ir s
  chooses : is_choice_node ir s.name ≡ true → StaysState ir s
  runs : Live ir s.name → StaysState ir s

-- A transition that stays: its guard is not the text `false`, and edges lead to its source from the
-- root, or it has none.
pub data StaysTransition (ir : FsmIr) (t : TransitionEdge) : Type 0 where
  leaves : is_static_false t ≡ false → Live ir t.source → StaysTransition ir t
  sourceless : is_static_false t ≡ false → t.source ≡ "" → StaysTransition ir t

is_final_iff : (k : StateKind) → (is_final k ≡ true) ↔ (k ≡ final)
is_final_iff k = (into k, λ e. rw e)
  where
    into : (k : StateKind) → is_final k ≡ true → k ≡ final
    into k h = ground arith

module _ (ir : FsmIr) (t : Search) (found : search ir ≡ some t) where
  pub keep_state-Stays : (s : StateNode) → (keep_state ir t.reached s ≡ true) ↔ StaysState ir s
  unfolding keep_state
  keep_state-Stays s = (into, back)
    where
      live : (contains s.name t.reached ≡ true) ↔ Live ir s.name
      live = search-Live ir t found s.name

      into : keep_state ir t.reached s ≡ true → StaysState ir s
      into h = elim (Bool-cases (is_final s.kind || is_choice_node ir s.name)) [
        | inl special ↦ elim (or_split (is_final s.kind) _ special) [
          | inl e ↦ ends ((is_final_iff s.kind).0 e)
          | inr e ↦ chooses e
        ]
        | inr plain ↦ runs (live.0 (rw plain at h))
      ]

      back : StaysState ir s → keep_state ir t.reached s ≡ true
      back (ends e) = rw e
      back (chooses e) = ground arith
      back (runs l) = ground (arith, live.1 l)

  keep_transition-Stays :
      (e : TransitionEdge) → (keep_transition t.reached e ≡ true) ↔ StaysTransition ir e
  unfolding keep_transition
  keep_transition-Stays e = (into, back)
    where
      live : (contains e.source t.reached ≡ true) ↔ Live ir e.source
      live = search-Live ir t found e.source

      into : keep_transition t.reached e ≡ true → StaysTransition ir e
      into h = elim (Bool-cases (is_static_false e)) [
        | inl dead ↦ cc (rw dead at h)
        | inr alive ↦ elim (or_split (contains e.source t.reached) _ (rw alive at h)) [
          | inl m ↦ leaves alive (live.0 m)
          | inr m ↦ sourceless alive ((eq_iff _ _).0 m)
        ]
      ]

      back : StaysTransition ir e → keep_transition t.reached e ≡ true
      back (leaves a l) = ground (arith, live.1 l)
      back (sourceless a m) = ground (arith, (eq_iff e.source "").1 m)

  pub pruned-states :
      (s : StateNode) → Memᴰ s (pruned ir t.reached).states ↔ (Memᴰ s ir.states × StaysState ir s)
  unfolding pruned
  pruned-states s =
      let (into, back) = mem-keep_if (keep_state ir t.reached) ir.states s in
      (
        λ m. ((into m).0, (keep_state-Stays s).0 (into m).1),
        λ h. back (h.0, (keep_state-Stays s).1 h.1),
      )

  pub pruned-transitions :
      (e : TransitionEdge)
      → Memᴰ e (pruned ir t.reached).transitions ↔ (Memᴰ e ir.transitions × StaysTransition ir e)
  unfolding pruned
  pruned-transitions e =
      let (into, back) = mem-keep_if (keep_transition t.reached) ir.transitions e in
      (
        λ m. ((into m).0, (keep_transition-Stays e).0 (into m).1),
        λ h. back (h.0, (keep_transition-Stays e).1 h.1),
      )

-- The pass returns, with either setting of its option.
pub run_returns : (prune : Bool) (ir : FsmIr) → (out : Outcome) × (run prune ir ≡ some out)
unfolding run
run_returns prune ir = elim (Bool-cases (is_empty (root ir))) [
  | inl nowhere ↦ (record { ir = ir; report = none }, rw nowhere)
  | inr somewhere ↦ let (t, found) = search_returns ir in (finish prune ir t, rw (somewhere, found))
]

pub run-pruned :
    (ir : FsmIr) (out : Outcome)
    → root ir ≢ ""
    → run true ir ≡ some out
    → (t : Search) × (search ir ≡ some t) × (out.ir ≡ pruned ir t.reached)
unfolding run finish
run-pruned ir out rooted h =
    let (t, found) = search_returns ir in
    let somewhere : is_empty (root ir) ≡ false = ground (arith, eq_iff (root ir) "", rooted) in
    let same = some-injective _ out (rw (somewhere, found) at h) in
    (t, found, sym (ap (λ o. o.ir) same))

-- Where the search has a root, call a name live if it is in the least set that has the root and, with
-- a state, its children, its parent, its initial sub-state, and the `target` of each of its transitions
-- whose guard is not the text `false`. The further targets of a fork, target_ids, are not followed.
-- Pruning keeps exactly the states that are final, choice nodes or live, and exactly the transitions
-- whose guard is not the text `false` and whose source is live or empty; so a state that only the further
-- targets of forks lead to is removed, unless it is final or a choice node.
pub run-Stays :
    (ir : FsmIr) (out : Outcome)
    → root ir ≢ ""
    → run true ir ≡ some out
    → ((s : StateNode) → Memᴰ s out.ir.states ↔ (Memᴰ s ir.states × StaysState ir s))
      × ((e : TransitionEdge)
          → Memᴰ e out.ir.transitions ↔ (Memᴰ e ir.transitions × StaysTransition ir e))
run-Stays ir out rooted h =
    let (t, found, e) = run-pruned ir out rooted h in
    (λ s. rw e (pruned-states ir t found s), λ x. rw e (pruned-transitions ir t found x))

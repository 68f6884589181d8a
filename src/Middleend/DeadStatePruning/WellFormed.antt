-- ===== src/Middleend/DeadStatePruning/WellFormed.antt =====
-- dead_state_pruning_pass.cpp: the pruned machine is well formed if the machine is.
use mathlib.Core.List.{Memᴰ}
use fsmc.Common.{
  ◌≡◌, ◌≢◌, ◌⊎◌, ◌∙◌, refl, Bool, true, false, String, none, some, inl, inr, eq_iff, Bool-cases,
  arith,
}
use fsmc.Ir.Model.{TransitionEdge, FsmIr, is_empty}
use fsmc.Ir.GraphOps.WellFormed.{
  Resolves, IsWellFormed, is_well_formed, is_well_formed-IsWellFormed,
}
use fsmc.Middleend.Worklist.{Search}
use fsmc.Middleend.DeadStatePruning.{root, search, Outcome, pruned, finish, run}
use fsmc.Middleend.DeadStatePruning.Edges.{by_transition}
use fsmc.Middleend.DeadStatePruning.Successors.{search_returns, Live, initially, follows}
use fsmc.Middleend.DeadStatePruning.Correct.{
  leaves, sourceless, pruned-transitions, run-pruned, run_returns,
}
use fsmc.Middleend.DeadStatePruning.Preservation.{find_state-after}

-- The identifier of the initial state is left out or is its name, as canonicalize makes it, and
-- each transition has a source.
pub record IsEntered (ir : FsmIr) : Type 0 where
  pub named : (ir.initial_state_id ≡ "") ⊎ (ir.initial_state_id ≡ ir.initial_state)
  pub sourced : (t : TransitionEdge) → Memᴰ t ir.transitions → t.source ≢ ""

module _ (ir : FsmIr) (entered : IsEntered ir) (w : IsWellFormed ir) where
  root_initial : ir.initial_state ≢ "" → root ir ≡ ir.initial_state
  unfolding root
  root_initial h =
      ground (arith, entered.named, eq_iff ir.initial_state "", eq_iff ir.initial_state_id "")

  module _ (t : Search) (found : search ir ≡ some t) where
    live_Resolves :
        (name : String) → Live ir name → Resolves ir name → Resolves (pruned ir t.reached) name
    live_Resolves name l r written =
        let (s, e) = r written in (s, find_state-after ir t found name l ∙ e)

    endpoints_after :
        (x : TransitionEdge)
        → Memᴰ x (pruned ir t.reached).transitions
        → Resolves (pruned ir t.reached) x.source × Resolves (pruned ir t.reached) x.target
    endpoints_after x m =
        let (before, stays) = (pruned-transitions ir t found x).0 m in
        let (source, target) = w.endpoints x before in
        elim stays [
          | leaves static l ↦ (
            live_Resolves x.source l source,
            λ written.
                live_Resolves x.target
                  (follows l (
                    by_transition (
                      x,
                      before,
                      record { leaves = refl; live = static; enters = refl; named = written },
                    )))
                  target written,
          )
          | sourceless static e ↦ absurd (entered.sourced x before e)
        ]

    pruned-IsWellFormed : IsWellFormed (pruned ir t.reached)
    unfolding pruned
    pruned-IsWellFormed = record {
      consistent = w.consistent;
      initial = λ written.
          let first : Live ir (root ir) = initially in
          live_Resolves ir.initial_state (rw (root_initial written) at first) w.initial written;
      endpoints = endpoints_after;
    }

-- With the option off, or with nowhere to begin, the machine is returned as it is.
run-unchanged :
    (prune : Bool) (ir : FsmIr) (out : Outcome)
    → (prune ≡ false) ⊎ (root ir ≡ "")
    → run prune ir ≡ some out
    → out.ir ≡ ir
unfolding run finish
run-unchanged prune ir out (inl off) h = let (t, found) = search_returns ir in ground arith
run-unchanged prune ir out (inr nowhere) h = ground (arith, eq_iff (root ir) "")

run_unless_unchanged :
    (prune : Bool) (ir : FsmIr) (out : Outcome)
    → IsEntered ir
    → IsWellFormed ir
    → run prune ir ≡ some out
    → IsWellFormed out.ir
run_unless_unchanged false ir out entered w h = rw (run-unchanged false ir out (inl refl) h) w
run_unless_unchanged true ir out entered w h = elim (Bool-cases (is_empty (root ir))) [
  | inl nowhere ↦ rw (run-unchanged true ir out (inr ((eq_iff (root ir) "").0 nowhere)) h) w
  | inr somewhere ↦
      let (t, found, e) = run-pruned ir out (λ b. ground (arith, eq_iff (root ir) "")) h in
      rw e (pruned-IsWellFormed ir entered w t found)
]

-- Where a machine is well formed, its initial state is identified by its name or not at all, and
-- each of its transitions has a source, the pass returns, and the machine it returns is well formed.
pub run-is_well_formed :
    (prune : Bool) (ir : FsmIr)
    → IsEntered ir
    → is_well_formed ir ≡ none
    → (out : Outcome) × (run prune ir ≡ some out) × (is_well_formed out.ir ≡ none)
run-is_well_formed prune ir entered w =
    let (out, h) = run_returns prune ir in
    let before = (is_well_formed-IsWellFormed ir).0 w in
    (
      out,
      h,
      (is_well_formed-IsWellFormed out.ir).1 (run_unless_unchanged prune ir out entered before h),
    )

-- ===== src/Middleend/DeadStatePruning/Preservation.antt =====
-- dead_state_pruning_pass.cpp: a lookup of a live name, and the root, are the same after pruning.
use fsmc.Common.{
  ◌≡◌, refl, inl, inr, Bool, true, String, str_eq, eq_iff, List, [], ◌∷◌, some, keep_if, Bool-cases,
  if◌then◌else◌,
}
use fsmc.Ir.Model.{StateNode, FsmIr, is_empty, find_state, find_by_name}
use fsmc.Middleend.Worklist.{Search}
use fsmc.Middleend.DeadStatePruning.{root, first_name, search, keep_state, pruned}
use fsmc.Middleend.DeadStatePruning.Successors.{Live, initially}
use fsmc.Middleend.DeadStatePruning.Correct.{runs, keep_state-Stays}

find_by_name-keep_if :
    (test : StateNode → Bool) (ss : List StateNode) (u : String)
    → ((s : StateNode) → s.name ≡ u → test s ≡ true)
    → find_by_name (keep_if test ss) u ≡ find_by_name ss u
unfolding find_by_name
find_by_name-keep_if test [] u h = refl
find_by_name-keep_if test (s ∷ ss) u h = elim (Bool-cases (str_eq s.name u)) [
  | inl hit ↦ rw (h s ((eq_iff s.name u).0 hit), hit)
  | inr miss ↦ elim (Bool-cases (test s)) [
    | inl kept ↦ rw (kept, miss) (find_by_name-keep_if test ss u h)
    | inr dropped ↦ rw (dropped, miss) (find_by_name-keep_if test ss u h)
  ]
]

module _ (ir : FsmIr) (t : Search) (found : search ir ≡ some t) where
  abbrev after : FsmIr
  after = pruned ir t.reached

  keeps_Live : (s : StateNode) → Live ir s.name → keep_state ir t.reached s ≡ true
  keeps_Live s l = (keep_state-Stays ir t found s).1 (runs l)

  pub find_state-after : (u : String) → Live ir u → find_state after u ≡ find_state ir u
  unfolding after pruned
  find_state-after u l =
      find_by_name-keep_if (keep_state ir t.reached) ir.states u (λ s e. keeps_Live s (rw e l))

  first_name-after :
      (ss : List StateNode)
      → ((s : StateNode) → s.name ≡ first_name ss → keep_state ir t.reached s ≡ true)
      → first_name (keep_if (keep_state ir t.reached) ss) ≡ first_name ss
  unfolding first_name
  first_name-after [] h = refl
  first_name-after (s ∷ ss) h = rw (h s refl)

  pub root-after : root after ≡ root ir
  unfolding root after pruned
  root-after =
      let first : Live ir (root ir) = initially in
      elim (Bool-cases (
        is_empty
          (if is_empty ir.initial_state_id then ir.initial_state else ir.initial_state_id))) [
            | inl absent ↦
                rw absent
                  (first_name-after ir.states (λ s e. keeps_Live s (rw e (rw absent at first))))
            | inr given ↦ rw given
          ]

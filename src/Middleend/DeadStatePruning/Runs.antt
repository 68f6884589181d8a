-- ===== src/Middleend/DeadStatePruning/Runs.antt =====
-- dead_state_pruning_pass.cpp: the pruned machine has the runs of the machine.
use mathlib.Core.List.{Memᴰ}
use mathlib.Core.List.Memᴰ
use fsmc.Common.{
  ◌≡◌, refl, ◌∙◌, sym, ◌↔◌, ◌⊎◌, inl, inr, ◌≢◌, true, false, String, List, [], ◌∷◌, ◌++◌, some,
}
use fsmc.Ir.Model.{
  StateNode, StateKind, parallel, initial, shallow_history, deep_history, TransitionEdge, FsmIr,
  find_state,
}
use fsmc.Middleend.Worklist.{Search}
use fsmc.Middleend.DeadStatePruning.{root, is_static_false, search, Outcome, pruned, run}
use fsmc.Middleend.DeadStatePruning.Edges.{to_child, to_parent, to_initial, by_transition}
use fsmc.Middleend.DeadStatePruning.Successors.{Live, initially, follows}
use fsmc.Middleend.DeadStatePruning.Correct.{
  runs, leaves, pruned-states, pruned-transitions, run-pruned,
}
use fsmc.Middleend.DeadStatePruning.Preservation.{find_state-after, root-after}

-- A transition that a run takes from a configuration, which is a list of active states: its source and
-- its further sources are active, and its guard is not the text `false`.
pub record Enabled (t : TransitionEdge) (c : List String) : Type 0 where
  pub source : Memᴰ t.source c
  pub sources : (v : String) → Memᴰ v t.source_ids → Memᴰ v c
  pub live : is_static_false t ≡ false
  pub target : t.target ≢ ""

abbrev IsHistory : StateKind → Type 0
IsHistory kind = (kind ≡ shallow_history) ⊎ (kind ≡ deep_history)

-- The configurations that a run comes to. It begins in the initial state. Where a state is active, so
-- may become its parent, its initial sub-state, a child that is an initial pseudo-state, the children
-- that are the regions of a parallel state, and, where it is a history, the states of an earlier
-- configuration. An enabled transition enters its target and all its further targets, and may leave any
-- of the states that were active. Guards and events are left open but for the guard `false`.
pub data Run (ir : FsmIr) : List String → Type 0 where
  begins : Run ir (root ir ∷ [])
  enters_parent :
      {c : List String} (u v : String) (s : StateNode)
      → Run ir c
      → Memᴰ u c
      → find_state ir u ≡ some s
      → s.parent_state ≡ v
      → v ≢ ""
      → Run ir (v ∷ c)
  enters_initial :
      {c : List String} (u v : String) (s : StateNode)
      → Run ir c
      → Memᴰ u c
      → find_state ir u ≡ some s
      → s.initial_sub_state ≡ v
      → v ≢ ""
      → Run ir (v ∷ c)
  enters_child :
      {c : List String} (u : String) (s child : StateNode)
      → Run ir c
      → Memᴰ u c
      → find_state ir u ≡ some s
      → Memᴰ child ir.states
      → child.parent_state ≡ u
      → (s.kind ≡ parallel) ⊎ (child.kind ≡ initial)
      → Run ir (child.name ∷ c)
  resumes :
      {c earlier : List String} (u v : String) (s : StateNode)
      → Run ir c
      → Memᴰ u c
      → find_state ir u ≡ some s
      → IsHistory s.kind
      → Run ir earlier
      → Memᴰ v earlier
      → Run ir (v ∷ c)
  fires :
      {c : List String} (t : TransitionEdge) (kept : List String)
      → Run ir c
      → Memᴰ t ir.transitions
      → Enabled t c
      → ((v : String) → Memᴰ v kept → Memᴰ v c)
      → Run ir (t.target ∷ t.target_ids ++ kept)

-- No transition is a fork: its target is all that it enters.
abbrev pub IsForkFree : FsmIr → Type 0
IsForkFree ir =
    (t : TransitionEdge) (v : String) → Memᴰ t ir.transitions → Memᴰ v t.target_ids → v ≡ t.target

split {ℓ} : {A : Type ℓ} {a : A} (xs ys : List A) → Memᴰ a (xs ++ ys) → Memᴰ a xs ⊎ Memᴰ a ys
split [] ys m = inr m
split (x ∷ xs) ys m = elim (Memᴰ.cases_cons m) [
  | inl e ↦ inl (Memᴰ.head e)
  | inr rest ↦ elim (split xs ys rest) [ inl here ↦ inl (Memᴰ.tail here) | inr there ↦ inr there ]
]

module _ (ir : FsmIr) (forkless : IsForkFree ir) where
  -- Every state of a configuration is live.
  abbrev AllLive : List String → Type 0
  AllLive c = (v : String) → Memᴰ v c → Live ir v

  AllLive-cons : (v : String) (c : List String) → Live ir v → AllLive c → AllLive (v ∷ c)
  AllLive-cons v c l h w m = elim (Memᴰ.cases_cons m) [ inl e ↦ rw e l | inr rest ↦ h w rest ]

  target-Live :
      (t : TransitionEdge) (c : List String)
      → Memᴰ t ir.transitions
      → Enabled t c
      → AllLive c
      → Live ir t.target
  target-Live t c m e h = follows (h t.source e.source) (
      by_transition
        (t, m, record { leaves = refl; live = e.live; enters = refl; named = e.target }))

  Run-AllLive : {c : List String} → Run ir c → AllLive c
  Run-AllLive begins = λ w m. elim (Memᴰ.cases_cons m) [
    | inl e ↦ rw e initially
    | inr rest ↦ absurd (Memᴰ.not-nil rest)
  ]
  Run-AllLive (enters_parent {c} u v s r m e p n) =
      AllLive-cons v c (follows (Run-AllLive r u m) (to_parent s e p n)) (Run-AllLive r)
  Run-AllLive (enters_initial {c} u v s r m e p n) =
      AllLive-cons v c (follows (Run-AllLive r u m) (to_initial s e p n)) (Run-AllLive r)
  Run-AllLive (enters_child {c} u s child r m e there below why) =
      AllLive-cons child.name c
        (follows (Run-AllLive r u m)
          (to_child (child, there, record { below = below; called = refl })))
        (Run-AllLive r)
  Run-AllLive (resumes {c} u v s r m e k r' m') =
      AllLive-cons v c (Run-AllLive r' v m') (Run-AllLive r)
  Run-AllLive (fires {c} t kept r m e sub) =
      let l = target-Live t c m e (Run-AllLive r) in
      AllLive-cons t.target (t.target_ids ++ kept) l (λ w n. elim (split t.target_ids kept n) [
        | inl further ↦ rw (forkless t w m further) l
        | inr stayed ↦ Run-AllLive r w (sub w stayed)
      ])

  module _ (t : Search) (found : search ir ≡ some t) where
    abbrev after : FsmIr
    after = pruned ir t.reached

    Run-after : {c : List String} → Run ir c → Run after c
    Run-after begins = rw (← root-after ir t found) begins
    Run-after (enters_parent u v s r m e p n) =
        enters_parent u v s (Run-after r) m (find_state-after ir t found u (Run-AllLive r u m) ∙ e)
          p n
    Run-after (enters_initial u v s r m e p n) =
        enters_initial u v s (Run-after r) m (find_state-after ir t found u (Run-AllLive r u m) ∙ e)
          p n
    Run-after (enters_child u s child r m e there below why) =
        let l : Live ir child.name =
          follows (Run-AllLive r u m)
            (to_child (child, there, record { below = below; called = refl })) in
        enters_child u s child (Run-after r) m
          (find_state-after ir t found u (Run-AllLive r u m) ∙ e)
          ((pruned-states ir t found child).1 (there, runs l)) below why
    Run-after (resumes u v s r m e k r' m') =
        resumes u v s (Run-after r) m (find_state-after ir t found u (Run-AllLive r u m) ∙ e) k
          (Run-after r') m'
    Run-after (fires x kept r m e sub) =
        fires x kept (Run-after r)
          ((pruned-transitions ir t found x).1 (m, leaves e.live (Run-AllLive r x.source e.source)))
          e sub

    Run-before : {c : List String} → Run after c → Run ir c
    Run-before begins = rw (root-after ir t found) begins
    Run-before (enters_parent u v s r m e p n) =
        let back = Run-before r in
        enters_parent u v s back m (sym (find_state-after ir t found u (Run-AllLive back u m)) ∙ e)
          p n
    Run-before (enters_initial u v s r m e p n) =
        let back = Run-before r in
        enters_initial u v s back m (sym (find_state-after ir t found u (Run-AllLive back u m)) ∙ e)
          p n
    Run-before (enters_child u s child r m e there below why) =
        let back = Run-before r in
        enters_child u s child back m
          (sym (find_state-after ir t found u (Run-AllLive back u m)) ∙ e)
          ((pruned-states ir t found child).0 there).0 below why
    Run-before (resumes u v s r m e k r' m') =
        let back = Run-before r in
        resumes u v s back m (sym (find_state-after ir t found u (Run-AllLive back u m)) ∙ e) k
          (Run-before r') m'
    Run-before (fires x kept r m e sub) =
        fires x kept (Run-before r) ((pruned-transitions ir t found x).0 m).0 e sub

    pub pruned-Run :
        (c : List String)
        → (Run after c ↔ Run ir c)
          × (Run ir c → (s : StateNode) → Memᴰ s ir.states → Memᴰ s.name c → Memᴰ s after.states)
    pruned-Run c = (
      (Run-before, Run-after),
      λ r s m n. (pruned-states ir t found s).1 (m, runs (Run-AllLive r s.name n)),
    )

-- Where the search has a root and no transition is a fork, the pruned machine has the runs of the machine: it
-- comes to a configuration exactly if the machine does; and no state of such a configuration is removed.
pub run-Run :
    (ir : FsmIr) (out : Outcome)
    → IsForkFree ir
    → root ir ≢ ""
    → run true ir ≡ some out
    → (c : List String)
    → (Run out.ir c ↔ Run ir c)
      × (Run ir c → (s : StateNode) → Memᴰ s ir.states → Memᴰ s.name c → Memᴰ s out.ir.states)
run-Run ir out forkless rooted h c =
    let (t, found, e) = run-pruned ir out rooted h in rw e (pruned-Run ir forkless t found c)

-- ===== src/Middleend/Worklist.antt =====
-- The worklist loop with which passes find the reachable states: a set of names reached and a queue
-- of names still to be expanded (dead_state_pruning_pass.cpp).
pub mod Loop
pub mod Closure
use fsmc.Common.{
  ℕ, zero, suc, Bool, String, List, [], ◌∷◌, ◌++◌, Option, none, some, if◌then◌else◌, contains,
}

pub record Search : Type 0 where
  pub reached : List String
  pub queue : List String

-- `if (reachable.count(v) == 0) { reachable.insert(v); q.push(v); }`
unfoldable pub visit : Search → String → Search
visit s v =
    if contains v s.reached
    then s
    else record { reached = v ∷ s.reached; queue = s.queue ++ v ∷ [] }

unfoldable pub visit_all : Search → List String → Search
unfolding visit
visit_all s [] = s
visit_all s (v ∷ vs) = visit_all (visit s v) vs

module _ (successors : String → List String) where
  -- One round of the loop, after `u` left the head of the queue.
  unfoldable pub expand : Search → String → List String → Search
  unfolding visit_all
  expand s u rest = visit_all (record s { queue = rest }) (successors u)

  -- `while (!q.empty())`, with fuel; `none` means that the fuel ran out.
  unfoldable pub loop : ℕ → Search → Option Search
  unfolding expand
  loop zero s = elim s.queue [ [] ↦ some s | _ ∷ _ ↦ none ]
  loop (suc fuel) s = elim s.queue [ [] ↦ some s | u ∷ rest ↦ loop fuel (expand s u rest) ]

  unfoldable pub start : String → Search
  start root = record { reached = root ∷ []; queue = root ∷ [] }

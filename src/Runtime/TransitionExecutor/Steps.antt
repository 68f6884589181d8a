-- ===== src/Runtime/TransitionExecutor/Steps.antt =====
-- detail/transition_executor.hpp: the steps that a transition consists of, as a list.
use fsmc.Common.{
  ◌≡◌, refl, Bool, ◌||◌, ◌&&◌, not, String, str_eq, List, [], ◌∷◌, ◌++◌, Option, none, some,
  if◌then◌else◌,
}
use fsmc.Runtime.StateType.{
  StateType, top, sub, traits, state_name, is_same, is_substate_of, ancestors,
}
use fsmc.Runtime.TransitionExecutor.{TransitionInfo, Row, Instance}

pub data Step : Type 0 where
  records : String → String → Step
  exits enters becomes : StateType → Step
  acts : Row → Step
  reports : TransitionInfo → Step

-- The states of a list up to the first that passes the test, which is left out.
abbrev pub until : (StateType → Bool) → List StateType → List StateType
until test [] = []
until test (s ∷ ss) = if test s then [] else s ∷ until test ss

-- Those from the outermost in, that can be made without arguments and are not the target.
abbrev pub outside_in : StateType → List StateType → List Step
outside_in target [] = []
outside_in target (s ∷ ss) =
    if not (is_same s target) && (traits s).default_constructible
    then outside_in target ss ++ enters s ∷ []
    else outside_in target ss

abbrev pub exits_of : List StateType → List Step
exits_of [] = []
exits_of (s ∷ ss) = exits s ∷ exits_of ss

unfoldable pub exit_steps : StateType → StateType → List Step
exit_steps target s =
    exits s
    ∷ exits_of
        (until (λ a. is_substate_of target a || not (traits a).default_constructible) (ancestors s))

unfoldable pub enter_steps : StateType → StateType → List Step
enter_steps current s =
    outside_in s (until (λ a. is_substate_of current a) (ancestors s)) ++ enters s ∷ []

-- The pairs of a composite state and the substate that is recorded for it.
unfoldable pub parent_steps : Option String → String → List Step
parent_steps none state = []
parent_steps (some parent) state = if str_eq parent "" then [] else records parent state ∷ []

unfoldable pub record_steps : StateType → List Step
unfolding parent_steps
record_steps (sub t parent) = records (state_name parent) t.name ∷ record_steps parent
record_steps (top t) = parent_steps t.parent t.name

unfoldable pub lifecycle : TransitionInfo → StateType → Row → List Step
unfolding exit_steps enter_steps record_steps
lifecycle info src row =
    if row.is_internal
    then acts row ∷ reports info ∷ []
    else record_steps src
      ++ (exit_steps row.target src
          ++ (acts row ∷ becomes row.target ∷ (enter_steps src row.target ++ reports info ∷ [])))

module _ {F : Type 0} (fsm : Instance F) where
  unfoldable pub take_step : Step → F → F
  take_step (records parent substate) f = fsm.record_history parent substate f
  take_step (exits s) f = fsm.on_exit s f
  take_step (enters s) f = fsm.on_enter s f
  take_step (becomes s) f = fsm.set_current_state s f
  take_step (acts row) f = fsm.action row f
  take_step (reports info) f = fsm.observer info f

  unfoldable pub take_steps : List Step → F → F
  unfolding take_step
  take_steps [] f = f
  take_steps (s ∷ ss) f = take_steps ss (take_step s f)

  pub take_steps-append :
      (xs ys : List Step) (f : F) → take_steps (xs ++ ys) f ≡ take_steps ys (take_steps xs f)
  unfolding take_steps
  take_steps-append [] ys f = refl
  take_steps-append (x ∷ xs) ys f = take_steps-append xs ys (take_step x f)

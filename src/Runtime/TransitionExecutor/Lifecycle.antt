-- ===== src/Runtime/TransitionExecutor/Lifecycle.antt =====
-- detail/transition_executor.hpp: the order of the hooks of a transition.
pub mod Common
pub mod Balance
use fsmc.Common.{
  ℕ, ◌≡◌, refl, ap, ◌∙◌, sym, inl, inr, Bool, true, false, ◌||◌, ◌&&◌, not, String, str_eq, List,
  [], ◌∷◌, ◌++◌, Option, none, some, if◌then◌else◌, Bool-cases,
}
use fsmc.Runtime.StateType.{
  StateType, StateTraits, top, sub, traits, state_name, is_same, is_substate_of, get_parent_name,
  name_or_blank, ancestors,
}
use fsmc.Runtime.TransitionExecutor.{
  TransitionTrace, TransitionInfo, Row, Instance, DispatchResult, info_of, perform,
  perform_external, call_hierarchical_on_exit, call_ancestor_on_enter_helper,
  call_hierarchical_on_enter, record_ancestor_history, enter_ancestor, record_parent_name,
  has_parent_type,
}
use fsmc.Runtime.TransitionExecutor.Steps.{
  Step, records, exits, enters, becomes, acts, reports, until, outside_in, exits_of, exit_steps,
  enter_steps, parent_steps, record_steps, lifecycle, take_step, take_steps, take_steps-append,
}

module _ {F : Type 0} (fsm : Instance F) where
  exits-steps :
      (target s : StateType) (f : F)
      → call_hierarchical_on_exit fsm target s f ≡ take_steps fsm (exit_steps target s) f
  unfolding call_hierarchical_on_exit take_steps exit_steps take_step
  exits-steps target (top t) f = refl
  exits-steps target (sub t parent) f = elim (Bool-cases (is_substate_of target parent)) [
    | inl inside ↦ rw inside
    | inr outside ↦ elim (Bool-cases (traits parent).default_constructible) [
      | inl made ↦ rw (outside, made) (exits-steps target parent (fsm.on_exit (sub t parent) f))
      | inr not_made ↦ rw (outside, not_made)
    ]
  ]

  enter_ancestor-steps :
      (target s : StateType) (ss : List StateType) (f : F)
      → enter_ancestor fsm target s (take_steps fsm (outside_in target ss) f)
        ≡ take_steps fsm (outside_in target (s ∷ ss)) f
  unfolding enter_ancestor take_steps take_step
  enter_ancestor-steps target s ss f = elim (Bool-cases (is_same s target)) [
    | inl same ↦ rw same
    | inr other ↦ elim (Bool-cases (traits s).default_constructible) [
      | inl made ↦
          rw (other, made) (sym (take_steps-append fsm (outside_in target ss) (enters s ∷ []) f))
      | inr not_made ↦ rw (other, not_made)
    ]
  ]

  ancestors-steps :
      (current target s : StateType) (f : F)
      → call_ancestor_on_enter_helper fsm current target s f
        ≡ take_steps fsm
            (outside_in target (s ∷ until (λ a. is_substate_of current a) (ancestors s)))
            f
  unfolding call_ancestor_on_enter_helper take_steps
  ancestors-steps current target (top t) f = enter_ancestor-steps target (top t) [] f
  ancestors-steps current target (sub t parent) f =
      elim (Bool-cases (is_substate_of current parent)) [
        | inl inside ↦ rw inside (enter_ancestor-steps target (sub t parent) [] f)
        | inr outside ↦
            rw (outside, ancestors-steps current target parent f)
              (enter_ancestor-steps target (sub t parent)
                (parent ∷ until (λ a. is_substate_of current a) (ancestors parent)) f)
      ]

  enter_sub :
      (current parent : StateType) (t : StateTraits) (f : F)
      → call_hierarchical_on_enter fsm current (sub t parent) f
        ≡ fsm.on_enter (sub t parent) (
            if is_substate_of current parent
            then f
            else call_ancestor_on_enter_helper fsm current (sub t parent) parent f)
  unfolding call_hierarchical_on_enter
  enter_sub current parent t f = refl

  enters-steps :
      (current s : StateType) (f : F)
      → call_hierarchical_on_enter fsm current s f ≡ take_steps fsm (enter_steps current s) f
  unfolding call_hierarchical_on_enter take_steps take_step enter_steps
  enters-steps current (top t) f = refl
  enters-steps current (sub t parent) f = elim (Bool-cases (is_substate_of current parent)) [
    | inl inside ↦ rw (enter_sub current parent t f, inside)
    | inr outside ↦
        rw (enter_sub current parent t f, outside, ancestors-steps current (sub t parent) parent f)
          (sym (
            take_steps-append fsm
              (outside_in (sub t parent)
                (parent ∷ until (λ a. is_substate_of current a) (ancestors parent)))
              (enters (sub t parent) ∷ []) f))
  ]

  record_parent_name-steps :
      (parent : Option String) (state : String) (f : F)
      → record_parent_name fsm parent state f ≡ take_steps fsm (parent_steps parent state) f
  unfolding record_parent_name take_steps take_step parent_steps
  record_parent_name-steps none state f = refl
  record_parent_name-steps (some parent) state f = elim (Bool-cases (str_eq parent "")) [
    | inl nameless ↦ rw nameless
    | inr named ↦ rw named
  ]

  records-steps :
      (s : StateType) (f : F)
      → record_ancestor_history fsm s (state_name s) f ≡ take_steps fsm (record_steps s) f
  unfolding record_ancestor_history take_steps take_step record_steps
  records-steps (sub t parent) f =
      records-steps parent (fsm.record_history (state_name parent) t.name f)
  records-steps (top t) f = record_parent_name-steps t.parent t.name f

  parent_recording :
      (parent : Option String) (state : String) (f : F)
      → (if not (str_eq (name_or_blank parent) "") || false
          then record_parent_name fsm parent state f
          else f)
        ≡ take_steps fsm (parent_steps parent state) f
  unfolding take_steps take_step parent_steps record_parent_name
  parent_recording none state f = refl
  parent_recording (some parent) state f = elim (Bool-cases (str_eq parent "")) [
    | inl nameless ↦ rw nameless
    | inr named ↦ rw named
  ]

  -- The recording is asked for exactly where there is something to record.
  recording-steps :
      (s : StateType) (f : F)
      → (if not (str_eq (get_parent_name s) "") || has_parent_type fsm s
          then record_ancestor_history fsm s (state_name s) f
          else f)
        ≡ take_steps fsm (record_steps s) f
  unfolding get_parent_name has_parent_type record_ancestor_history record_steps
  recording-steps (top t) f = parent_recording t.parent t.name f
  recording-steps (sub t parent) f = elim (Bool-cases (str_eq (state_name parent) "")) [
    | inl nameless ↦ rw nameless (records-steps (sub t parent) f)
    | inr named ↦ rw named (records-steps (sub t parent) f)
  ]

  -- The steps of an external transition, one part after the other.
  lifecycle-append :
      (info : TransitionInfo) (src : StateType) (row : Row) (f : F)
      → row.is_internal ≡ false
      → take_steps fsm (lifecycle info src row) f
        ≡ fsm.observer info (
            take_steps fsm (enter_steps src row.target) (
              fsm.set_current_state row.target (
                fsm.action row (
                  take_steps fsm
                    (exit_steps row.target src)
                    (take_steps fsm (record_steps src) f)))))
  unfolding lifecycle take_steps take_step
  lifecycle-append info src row f moves = rw moves (
      take_steps-append fsm (record_steps src) _ f
      ∙ (take_steps-append fsm (exit_steps row.target src) _ (take_steps fsm (record_steps src) f)
          ∙ take_steps-append fsm (enter_steps src row.target) (reports info ∷ []) _))

  external-steps :
      (evt_name : String) (src : StateType) (row : Row) (f : F)
      → perform_external fsm evt_name src row f
        ≡ fsm.observer (info_of fsm evt_name src row) (
            take_steps fsm (enter_steps src row.target) (
              fsm.set_current_state row.target (
                fsm.action row (
                  take_steps fsm
                    (exit_steps row.target src)
                    (take_steps fsm (record_steps src) f)))))
  unfolding perform_external
  external-steps evt_name src row f =
      let info = info_of fsm evt_name src row in
      let after : F → F = λ left.
        call_hierarchical_on_enter fsm src row.target
          (fsm.set_current_state row.target (fsm.action row left)) in
      ap (λ r. fsm.observer info (after (call_hierarchical_on_exit fsm row.target src r)))
        (recording-steps src f)
      ∙ (ap (λ e. fsm.observer info (after e))
            (exits-steps row.target src (take_steps fsm (record_steps src) f))
          ∙ ap (fsm.observer info) (enters-steps src row.target _))

  perform_external_of :
      (evt_name : String) (src : StateType) (row : Row) (f : F)
      → row.is_internal ≡ false
      → perform fsm evt_name src row f ≡ perform_external fsm evt_name src row f
  unfolding perform
  perform_external_of evt_name src row f moves =
      ap
        (λ b.
          if b
          then fsm.observer (info_of fsm evt_name src row) (fsm.action row f)
          else perform_external fsm evt_name src row f)
        moves

  pub perform-lifecycle :
      (evt_name : String) (src : StateType) (row : Row) (f : F)
      → perform fsm evt_name src row f
        ≡ take_steps fsm (lifecycle (info_of fsm evt_name src row) src row) f
  unfolding perform lifecycle take_steps take_step
  perform-lifecycle evt_name src row f = elim (Bool-cases row.is_internal) [
    | inl stays ↦ rw stays
    | inr moves ↦
        perform_external_of evt_name src row f moves
        ∙ (external-steps evt_name src row f
            ∙ sym (lifecycle-append (info_of fsm evt_name src row) src row f moves))
  ]

-- ===== src/Runtime/TransitionExecutor/Examples.antt =====
-- A machine of nested states with hooks that keep a log, and instances of the theorems about it.
use mathlib.Core.List.{Memᴰ}
use mathlib.Core.List.Memᴰ
use mathlib.Core.Path.{subst}
use fsmc.Common.{
  ◌≢◌, ap, sym, inl, inr, arith, ◌≡◌, refl, not, str_eq, true, false, List, [], ◌∷◌, ◌++◌, none,
  some,
}
use fsmc.Runtime.StateType.{
  StateType, top, sub, traits, is_substate_of, is_substate_of_impl, get_parent_name,
}
use fsmc.Runtime.TransitionExecutor.{
  success, external, Row, Instance, matches, perform, perform_external, call_hierarchical_on_exit,
  call_hierarchical_on_enter, record_ancestor_history, try_index, execute,
  execute_transition_from_ports,
}
use fsmc.Runtime.TransitionExecutor.Selection.{
  first_enabled, last_matching, chosen, execute-first_enabled,
}
use fsmc.Runtime.TransitionExecutor.Steps.{Step, records, exits, enters, becomes, acts}
use fsmc.Runtime.TransitionExecutor.Lifecycle.Balance.{Apart, Balanced, perform-Balanced}

abbrev on : StateType
on = top (record {
  type_id = 0;
  name = "On";
  type_name = "On";
  parent = none;
  default_constructible = true;
})

abbrev heating : StateType
heating =
    sub
      (record {
        type_id = 1;
        name = "Heating";
        type_name = "Heating";
        parent = some "On";
        default_constructible = true;
      })
      on

abbrev fast : StateType
fast =
    sub
      (record {
        type_id = 2;
        name = "Fast";
        type_name = "Fast";
        parent = some "Heating";
        default_constructible = true;
      })
      heating

abbrev off : StateType
off = top (record {
  type_id = 3;
  name = "Off";
  type_name = "Off";
  parent = none;
  default_constructible = true;
})

abbrev refused : Row
refused = record {
  source = heating;
  event = 7;
  target = on;
  is_internal = false;
  guard_type = "Never";
  action_type = "a";
}

abbrev switched_off : Row
switched_off = record {
  source = on;
  event = 7;
  target = off;
  is_internal = false;
  guard_type = "Always";
  action_type = "b";
}

abbrev switched_on : Row
switched_on = record {
  source = off;
  event = 8;
  target = fast;
  is_internal = false;
  guard_type = "Always";
  action_type = "c";
}

abbrev rows : List Row
rows = refused ∷ switched_off ∷ switched_on ∷ []

abbrev logger : Instance (List Step)
logger = record {
  record_history = λ parent substate log. log ++ records parent substate ∷ [];
  on_exit = λ s log. log ++ exits s ∷ [];
  on_enter = λ s log. log ++ enters s ∷ [];
  guard = λ row log. not (str_eq row.guard_type "Never");
  action = λ row log. log ++ acts row ∷ [];
  set_current_state = λ s log. log ++ becomes s ∷ [];
  observer = λ info log. log;
}

switched_off_runs : execute_transition_from_ports logger "Toggle" fast 7 rows [] ≡ (
  records "Heating" "Fast"
      ∷ records "On" "Heating"
      ∷ exits fast
      ∷ exits heating
      ∷ exits on
      ∷ acts switched_off
      ∷ becomes off
      ∷ enters off
      ∷ [],
  record {
    status = success;
    trace = some record {
      source = "Fast";
      target = "Off";
      event = "Toggle";
      guard = "Always";
      action = "b";
      kind = external;
    };
  },
)
unfolding execute_transition_from_ports execute try_index matches perform perform_external
    call_hierarchical_on_exit call_hierarchical_on_enter record_ancestor_history is_substate_of
    is_substate_of_impl get_parent_name
switched_off_runs = refl

execute-first_enabled_example :
    execute_transition_from_ports logger "Toggle" fast 7 rows []
    ≡ chosen logger "Toggle" fast 7
        (first_enabled logger "Toggle" fast 7 rows [])
        (last_matching logger "Toggle" fast 7 rows none)
        []
execute-first_enabled_example = execute-first_enabled logger "Toggle" fast 7 rows []

-- Another branch of the hierarchy.
abbrev cooling : StateType
cooling =
    sub
      (record {
        type_id = 4;
        name = "Cooling";
        type_name = "Cooling";
        parent = some "On";
        default_constructible = true;
      })
      on

abbrev slow : StateType
slow =
    sub
      (record {
        type_id = 5;
        name = "Slow";
        type_name = "Slow";
        parent = some "Cooling";
        default_constructible = true;
      })
      cooling

abbrev turned : Row
turned = record {
  source = fast;
  event = 9;
  target = slow;
  is_internal = false;
  guard_type = "Always";
  action_type = "d";
}

two {ℓ} :
    (P : StateType → Type ℓ) (x y : StateType)
    → P x
    → P y
    → (a : StateType) → Memᴰ a (x ∷ y ∷ [])
    → P a
two P x y p q a m = elim (Memᴰ.cases_cons m) [
  | inl e ↦ subst P (sym e) p
  | inr rest ↦ elim (Memᴰ.cases_cons rest) [
    | inl e ↦ subst P (sym e) q
    | inr nowhere ↦ absurd (Memᴰ.not-nil nowhere)
  ]
]

not_among :
    (a x y : StateType)
    → (traits a).type_id ≢ (traits x).type_id
    → (traits a).type_id ≢ (traits y).type_id
    → Memᴰ a (x ∷ y ∷ [])
    → ⊥
not_among a x y h k m = elim (Memᴰ.cases_cons m) [
  | inl e ↦ h (ap (λ s. (traits s).type_id) e)
  | inr rest ↦ elim (Memᴰ.cases_cons rest) [
    | inl e ↦ k (ap (λ s. (traits s).type_id) e)
    | inr nowhere ↦ absurd (Memᴰ.not-nil nowhere)
  ]
]

turned-Apart : Apart fast slow
unfolding is_substate_of is_substate_of_impl
turned-Apart = record {
  of_src =
      two _ heating on
        (λ h. cc, λ m. absurd (not_among heating cooling on (omega arith) (omega arith) m))
        (λ h. Memᴰ.tail (Memᴰ.head refl), λ m. refl);
  of_target =
      two _ cooling on
        (λ h. cc, λ m. absurd (not_among cooling heating on (omega arith) (omega arith) m))
        (λ h. Memᴰ.tail (Memᴰ.head refl), λ m. refl);
  src_made = two _ heating on refl refl;
  target_made = two _ cooling on (refl, refl) (refl, refl);
}

perform-Balanced_example : Balanced logger (perform logger "Turn" fast turned []) fast slow []
perform-Balanced_example = perform-Balanced logger "Turn" fast turned [] refl turned-Apart

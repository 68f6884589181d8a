-- ===== src/Runtime/StateType.antt =====
-- traits/reflection.hpp and traits/observer_traits.hpp: the state types of a machine, with what the
-- templates read of one, and the test whether one lies inside another. A type's parents form a finite
-- chain, since `parent_type` names a complete type.
use fsmc.Common.{ℕ, Bool, false, ◌||◌, String, str_eq, List, [], ◌∷◌, Option, none, some, ◌==◌}

-- `type_id` stands for the type itself, `name` for its display name, by an
-- object or by the type alike, `type_name` for get_type_name,
-- and `parent` for the member of that name, where the type has it.
pub record StateTraits : Type 0 where
  pub type_id : ℕ
  pub name : String
  pub type_name : String
  pub parent : Option String
  pub default_constructible : Bool

-- A type without a `parent_type`, and one with it.
pub data StateType : Type 0 where
  top : StateTraits → StateType
  sub : StateTraits → StateType → StateType

abbrev pub traits : StateType → StateTraits
traits (top t) = t
traits (sub t parent) = t

abbrev pub state_name : StateType → String
state_name s = (traits s).name

abbrev pub is_same : StateType → StateType → Bool
is_same s t = (traits s).type_id == (traits t).type_id

unfoldable pub is_substate_of_impl : StateType → StateType → Bool
is_substate_of_impl (top t) super = false
is_substate_of_impl (sub t parent) super =
    is_same parent super
    || str_eq (state_name super) (state_name parent)
    || is_substate_of_impl parent super

abbrev pub is_named : Option String → StateType → Bool
is_named none super = false
is_named (some parent) super =
    str_eq (state_name super) parent || str_eq (traits super).type_name parent

unfoldable pub is_substate_of : StateType → StateType → Bool
unfolding is_substate_of_impl
is_substate_of state super =
    is_same state super || is_substate_of_impl state super || is_named (traits state).parent super

abbrev pub name_or_blank : Option String → String
name_or_blank none = ""
name_or_blank (some parent) = parent

unfoldable pub get_parent_name : StateType → String
get_parent_name (sub t parent) = state_name parent
get_parent_name (top t) = name_or_blank t.parent

-- The parents of a state, innermost first.
abbrev pub ancestors : StateType → List StateType
ancestors (top t) = []
ancestors (sub t parent) = parent ∷ ancestors parent

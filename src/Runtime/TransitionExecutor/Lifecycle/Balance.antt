-- ===== src/Runtime/TransitionExecutor/Lifecycle/Balance.antt =====
-- detail/transition_executor.hpp: the exits and entries of a transition balance.
use mathlib.Core.List.{Memᴰ}
use mathlib.Core.List.Memᴰ
use fsmc.Common.{
  String, str_eq, ◌≡◌, refl, ap, ◌∙◌, sym, inl, inr, ◌↔◌, Bool, true, false, not, ◌||◌, List, [],
  ◌∷◌, ◌++◌, if◌then◌else◌, Option, none, some, length, Bool-cases, arith,
}
use fsmc.Runtime.StateType.{StateType, top, sub, traits, is_same, is_substate_of, ancestors}
use fsmc.Runtime.TransitionExecutor.{TransitionInfo, Row, Instance, info_of, perform}
use fsmc.Runtime.TransitionExecutor.Steps.{
  Step, records, exits, enters, becomes, acts, reports, until, outside_in, exits_of, exit_steps,
  enter_steps, record_steps, parent_steps, lifecycle, take_steps,
}
use fsmc.Runtime.TransitionExecutor.Lifecycle.{perform-lifecycle}
use fsmc.Runtime.TransitionExecutor.Lifecycle.Common.{
  since, until-since, uncut, cut, since-Cut, since_of_cut, since_of_uncut, behind-ancestors,
  find_ancestor, deeper_before, ancestor_shallower,
}

true_or_false {ℓ} : {A : Type ℓ} (b : Bool) → b ≡ true → b ≡ false → A
true_or_false b h k = ground (arith, h, k)

module _ (s t : StateType) (test_s test_t : StateType → Bool)
    (h : (a : StateType) → Memᴰ a (ancestors s) → (test_s a ≡ true) ↔ Memᴰ a (ancestors t))
    (k : (b : StateType) → Memᴰ b (ancestors t) → (test_t b ≡ true) ↔ Memᴰ b (ancestors s)) where
  nothing_shared :
      ((a : StateType) → Memᴰ a (ancestors s) → test_s a ≡ false)
      → (b : StateType) → Memᴰ b (ancestors t)
      → test_t b ≡ false
  nothing_shared apart b m = elim (Bool-cases (test_t b)) [
    | inl holds ↦
        let above_s = (k b m).0 holds in true_or_false _ ((h b above_s).1 m) (apart b above_s)
    | inr passed ↦ passed
  ]

  nothing_before :
      (before before' : List StateType) (a : StateType)
      → ancestors s ≡ before ++ a ∷ ancestors a
      → ancestors t ≡ before' ++ a ∷ ancestors a
      → ((b : StateType) → Memᴰ b before → test_s b ≡ false)
      → (b : StateType) → Memᴰ b before'
      → test_t b ≡ false
  nothing_before before before' a e e' passed b m = elim (Bool-cases (test_t b)) [
    | inr outside ↦ outside
    | inl inside ↦
        let above_t : Memᴰ b (ancestors t) = rw e' (Memᴰ.append_left _ m) in
        let above_s = (k b above_t).0 inside in
        let deeper = deeper_before t before' a b e' m in
        elim (Memᴰ.append_cases before (rw e at above_s)) [
          | inl early ↦ true_or_false _ ((h b above_s).1 above_t) (passed b early)
          | inr late ↦ elim (Memᴰ.cases_cons late) [
            | inl same ↦ let n = ap (λ x. length (ancestors x)) same in absurd (omega arith)
            | inr beyond ↦ let n = ancestor_shallower a b beyond in absurd (omega arith)
          ]
        ]
  ]

  -- Both chains of parents end in the same part, from the first shared parent on.
  pub same_rest : since test_s (ancestors s) ≡ since test_t (ancestors t)
  same_rest = elim (since-Cut test_s (ancestors s)) [
    | uncut apart e ↦ e ∙ sym (since_of_uncut test_t (ancestors t) (nothing_shared apart))
    | cut before a behind e passed stop r ↦
        let b = behind-ancestors s before a behind e in
        let e_s : ancestors s ≡ before ++ a ∷ ancestors a = rw (← b) e in
        let above_s : Memᴰ a (ancestors s) = rw e_s (Memᴰ.append_right before (Memᴰ.head refl)) in
        let above_t = (h a above_s).0 stop in
        let (before', e_t) = find_ancestor t a above_t in
        r
        ∙ (ap (◌∷◌ a) b
            ∙ sym (
                ap (since test_t) e_t
                ∙ since_of_cut test_t before' a (ancestors a)
                    (nothing_before before before' a e_s e_t passed) ((k a above_t).1 above_s)))
  ]

-- The states that are entered and not yet exited, innermost first, under the steps of a transition;
-- `none` where a state is exited that is not the innermost one.
pub entered_after : List Step → List StateType → Option (List StateType)
entered_after [] active = some active
entered_after (exits s ∷ steps) [] = none
entered_after (exits s ∷ steps) (a ∷ active) =
    let rest = entered_after steps active in if is_same a s then rest else none
entered_after (enters s ∷ steps) active = entered_after steps (s ∷ active)
entered_after (becomes s ∷ steps) active = entered_after steps active
entered_after (acts row ∷ steps) active = entered_after steps active
entered_after (records parent substate ∷ steps) active = entered_after steps active
entered_after (reports info ∷ steps) active = entered_after steps active

is_same_self : (s : StateType) → is_same s s ≡ true
is_same_self s = ground arith

entered_after-exits :
    (xs : List StateType) (steps : List Step) (active : List StateType)
    → entered_after (exits_of xs ++ steps) (xs ++ active) ≡ entered_after steps active
unfolding entered_after
entered_after-exits [] steps active = refl
entered_after-exits (x ∷ xs) steps active =
    rw (is_same_self x) (entered_after-exits xs steps active)

entered_after-records :
    (s : StateType) (steps : List Step) (active : List StateType)
    → entered_after (record_steps s ++ steps) active ≡ entered_after steps active
unfolding entered_after record_steps parent_steps
entered_after-records (sub t parent) steps active = entered_after-records parent steps active
entered_after-records (top t) steps active = outermost t.parent t.name
  where
    outermost :
        (parent : Option String) (state : String)
        → entered_after (parent_steps parent state ++ steps) active ≡ entered_after steps active
    outermost none state = refl
    outermost (some parent) state = elim (Bool-cases (str_eq parent "")) [
      | inl nameless ↦ rw nameless refl
      | inr named ↦ rw named refl
    ]

append_assoc : (xs ys zs : List Step) → (xs ++ ys) ++ zs ≡ xs ++ (ys ++ zs)
append_assoc [] ys zs = refl
append_assoc (x ∷ xs) ys zs = ap (◌∷◌ x) (append_assoc xs ys zs)

entered_after-enters :
    (target : StateType) (xs : List StateType) (steps : List Step) (active : List StateType)
    → ((a : StateType)
        → Memᴰ a xs
        → (is_same a target ≡ false) × ((traits a).default_constructible ≡ true))
    → entered_after (outside_in target xs ++ steps) active ≡ entered_after steps (xs ++ active)
unfolding entered_after
entered_after-enters target [] steps active h = refl
entered_after-enters target (x ∷ xs) steps active h =
    let (other, made) = h x (Memᴰ.head refl) in
    rw (other, made, append_assoc (outside_in target xs) (enters x ∷ []) steps)
      (entered_after-enters target xs (enters x ∷ steps) active (λ a m. h a (Memᴰ.tail m)))

until_same :
    (test test' : StateType → Bool) (ss : List StateType)
    → ((a : StateType) → Memᴰ a ss → test a ≡ test' a)
    → until test ss ≡ until test' ss
until_same test test' [] h = refl
until_same test test' (s ∷ ss) h =
    rw (h s (Memᴰ.head refl), until_same test test' ss (λ a m. h a (Memᴰ.tail m))) refl

mem-until :
    (test : StateType → Bool) (ss : List StateType) (a : StateType)
    → Memᴰ a (until test ss)
    → Memᴰ a ss
mem-until test ss a m = rw (← until-since test ss) (Memᴰ.append_left _ m)

-- Two states of which neither holds the other, in a hierarchy whose names tell its states apart: the
-- test for substates finds the parents, and nothing else, among the parents of the two.
pub record Apart (src target : StateType) : Type 0 where
  pub of_src :
      (a : StateType)
      → Memᴰ a (ancestors src)
      → (is_substate_of target a ≡ true) ↔ Memᴰ a (ancestors target)
  pub of_target :
      (a : StateType)
      → Memᴰ a (ancestors target)
      → (is_substate_of src a ≡ true) ↔ Memᴰ a (ancestors src)
  pub src_made : (a : StateType) → Memᴰ a (ancestors src) → (traits a).default_constructible ≡ true
  pub target_made :
      (a : StateType)
      → Memᴰ a (ancestors target)
      → (is_same a target ≡ false) × ((traits a).default_constructible ≡ true)

module _ (src target : StateType) (apart : Apart src target) where
  exit_phase :
      (steps : List Step)
      → entered_after (exit_steps target src ++ steps) (src ∷ ancestors src)
        ≡ entered_after steps (since (λ a. is_substate_of target a) (ancestors src))
  unfolding exit_steps entered_after
  exit_phase steps =
      let holds : StateType → Bool = λ a. is_substate_of target a in
      let same =
        until_same (λ a. is_substate_of target a || not (traits a).default_constructible) holds
          (ancestors src) (λ a m. let made = apart.src_made a m in ground arith) in
      rw (is_same_self src, same)
        (ap (entered_after (exits_of (until holds (ancestors src)) ++ steps))
            (sym (until-since holds (ancestors src)))
          ∙ entered_after-exits (until holds (ancestors src)) steps (since holds (ancestors src)))

  enter_phase :
      (steps : List Step)
      → entered_after
          (enter_steps src target ++ steps)
          (since (λ a. is_substate_of src a) (ancestors target))
        ≡ entered_after steps (target ∷ ancestors target)
  unfolding enter_steps entered_after
  enter_phase steps =
      let holds : StateType → Bool = λ a. is_substate_of src a in
      let between = until holds (ancestors target) in
      let shared = since holds (ancestors target) in
      ap (λ ss. entered_after ss shared)
        (append_assoc (outside_in target between) (enters target ∷ []) steps)
      ∙ (entered_after-enters target between (enters target ∷ steps) shared
            (λ a m. apart.target_made a (mem-until holds (ancestors target) a m))
          ∙ ap (λ ss. entered_after steps (target ∷ ss)) (until-since holds (ancestors target)))

lifecycle_balanced :
    (info : TransitionInfo) (src : StateType) (row : Row)
    → row.is_internal ≡ false
    → Apart src row.target
    → entered_after (lifecycle info src row) (src ∷ ancestors src)
      ≡ some (row.target ∷ ancestors row.target)
unfolding lifecycle entered_after
lifecycle_balanced info src row moves apart =
    let shared =
      same_rest src row.target (λ a. is_substate_of row.target a) (λ a. is_substate_of src a)
        apart.of_src apart.of_target in
    rw moves (
      entered_after-records src _ (src ∷ ancestors src)
      ∙ (exit_phase src row.target apart _
          ∙ (ap (entered_after (enter_steps src row.target ++ reports info ∷ [])) shared
              ∙ enter_phase src row.target apart (reports info ∷ []))))

-- What a transition does is a sequence of steps that ends with the target and its parents entered and
-- not yet exited, where the source and its parents were at its start.
pub record Balanced {F : Type 0} (fsm : Instance F) (result : F) (src target : StateType) (f : F)
    : Type 0 where
  pub steps : List Step
  pub performs : result ≡ take_steps fsm steps f
  pub balances : entered_after steps (src ∷ ancestors src) ≡ some (target ∷ ancestors target)

-- Where neither of two states holds the other, the parents can be made without arguments, and the
-- names tell the states apart, an external transition exits states innermost first and enters
-- states so that from the source and its parents the target and its parents are left as active.
pub perform-Balanced :
    {F : Type 0} (fsm : Instance F) (evt_name : String) (src : StateType) (row : Row) (f : F)
    → row.is_internal ≡ false
    → Apart src row.target
    → Balanced fsm (perform fsm evt_name src row f) src row.target f
perform-Balanced fsm evt_name src row f moves apart = record {
  steps = lifecycle (info_of fsm evt_name src row) src row;
  performs = perform-lifecycle fsm evt_name src row f;
  balances = lifecycle_balanced (info_of fsm evt_name src row) src row moves apart;
}

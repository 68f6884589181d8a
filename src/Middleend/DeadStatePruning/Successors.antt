-- ===== src/Middleend/DeadStatePruning/Successors.antt =====
-- dead_state_pruning_pass.cpp: a round visits exactly the states that an edge leads to, and the
-- names that the search can visit are bounded, so it ends.
use mathlib.Core.List.{Memᴰ}
use mathlib.Core.List.Memᴰ
use mathlib.Core.Option.{some-injective}
use fsmc.Common.{
  ◌+◌, ◌≡◌, refl, ap, ◌∙◌, sym, ◌↔◌, inl, inr, ◌≢◌, Bool, true, ◌||◌, String, str_eq, eq_iff, List,
  [], ◌∷◌, map, Option, none, some, length, contains, contains-append, Bool-cases, or_split, arith,
}
use fsmc.Ir.Model.{StateNode, FsmIr, find_state, find_by_name}
use fsmc.Middleend.Worklist.{Search}
use fsmc.Middleend.Worklist.Loop.{AllIn, start_ends}
use fsmc.Middleend.Worklist.Closure.{Reach, loop-Reach}
use fsmc.Middleend.DeadStatePruning.{
  root, substates, unless_empty, around, targets, successors, names, search,
}
use fsmc.Middleend.DeadStatePruning.Edges.{
  Edge, to_child, to_parent, to_initial, by_transition, substates_sound, substates_complete,
  targets_sound, targets_complete, unless_empty_sound, unless_empty_complete,
}

around_sound :
    (ir : FsmIr) (u v : String) (o : Option StateNode)
    → find_state ir u ≡ o
    → contains v (around o) ≡ true
    → Edge ir u v
unfolding around
around_sound ir u v none e h = cc
around_sound ir u v (some s) e h =
    elim (or_split (contains v (unless_empty s.parent_state)) _
      (rw (contains-append v (unless_empty s.parent_state)) at h)) [
        | inl p ↦
            let (same, full) = unless_empty_sound s.parent_state v p in to_parent s e same full
        | inr p ↦
            let (same, full) = unless_empty_sound s.initial_sub_state v p in
            to_initial s e same full
      ]

or_left : (a b : Bool) → a ≡ true → (a || b) ≡ true
or_left a b h = ground arith

or_right : (a b : Bool) → b ≡ true → (a || b) ≡ true
or_right a b h = ground arith

around_parent :
    (s : StateNode) (v : String) → s.parent_state ≡ v → v ≢ "" → contains v (around (some s)) ≡ true
unfolding around
around_parent s v e h =
    contains-append v (unless_empty s.parent_state) (unless_empty s.initial_sub_state)
    ∙ or_left _ _ (unless_empty_complete s.parent_state v e h)

around_initial :
    (s : StateNode) (v : String)
    → s.initial_sub_state ≡ v
    → v ≢ ""
    → contains v (around (some s)) ≡ true
unfolding around
around_initial s v e h =
    contains-append v (unless_empty s.parent_state) (unless_empty s.initial_sub_state)
    ∙ or_right _ _ (unless_empty_complete s.initial_sub_state v e h)

contains-successors :
    (ir : FsmIr) (u v : String)
    → contains v (successors ir u) ≡ (
        contains v (substates ir.states u)
        || (contains v (around (find_state ir u)) || contains v (targets ir.transitions u)))
unfolding successors
contains-successors ir u v =
    contains-append v (substates ir.states u) _
    ∙ ap (◌||◌ (contains v (substates ir.states u)))
        (contains-append v (around (find_state ir u)) (targets ir.transitions u))

pub successors-Edge :
    (ir : FsmIr) (u v : String) → (contains v (successors ir u) ≡ true) ↔ Edge ir u v
successors-Edge ir u v = (into, back)
  where
    into : contains v (successors ir u) ≡ true → Edge ir u v
    into h =
        elim (or_split (contains v (substates ir.states u)) _
          (sym (contains-successors ir u v) ∙ h)) [
            | inl p ↦ to_child (substates_sound ir.states u v p)
            | inr p ↦ elim (or_split (contains v (around (find_state ir u))) _ p) [
              | inl q ↦ around_sound ir u v (find_state ir u) refl q
              | inr q ↦ by_transition (targets_sound ir.transitions u v q)
            ]
          ]

    back : Edge ir u v → contains v (successors ir u) ≡ true
    back (to_child (s, m, c)) =
        contains-successors ir u v
        ∙ or_left (contains v (substates ir.states u)) _ (substates_complete ir.states s u v m c)
    back (to_parent s e p h) =
        contains-successors ir u v
        ∙ or_right (contains v (substates ir.states u)) _ (
            or_left (contains v (around (find_state ir u))) (contains v (targets ir.transitions u))
              (rw e (around_parent s v p h)))
    back (to_initial s e p h) =
        contains-successors ir u v
        ∙ or_right (contains v (substates ir.states u)) _ (
            or_left (contains v (around (find_state ir u))) (contains v (targets ir.transitions u))
              (rw e (around_initial s v p h)))
    back (by_transition (t, m, f)) =
        contains-successors ir u v
        ∙ or_right (contains v (substates ir.states u)) _ (
            or_right (contains v (around (find_state ir u))) (contains v (targets ir.transitions u))
              (targets_complete ir.transitions t u v m f))

contains-map {ℓ} :
    {A : Type ℓ} (f : A → String) (xs : List A) (a : A)
    → Memᴰ a xs
    → contains (f a) (map f xs) ≡ true
contains-map f [] a m = absurd (Memᴰ.not-nil m)
contains-map f (x ∷ xs) a m = elim (Memᴰ.cases_cons m) [
  | inl e ↦ rw e (or_left _ _ ((eq_iff (f x) (f x)).1 refl))
  | inr rest ↦ or_right (str_eq (f x) (f a)) _ (contains-map f xs a rest)
]

find_by_name-mem :
    (ss : List StateNode) (u : String) (s : StateNode) → find_by_name ss u ≡ some s → Memᴰ s ss
unfolding find_by_name
find_by_name-mem [] u s e = cc
find_by_name-mem (x ∷ ss) u s e = elim (Bool-cases (str_eq x.name u)) [
  | inl hit ↦ Memᴰ.head (sym (some-injective x s (rw hit at e)))
  | inr miss ↦ Memᴰ.tail (find_by_name-mem ss u s (rw miss at e))
]

AllIn-of :
    (vs us : List String)
    → ((v : String) → contains v vs ≡ true → contains v us ≡ true)
    → AllIn vs us
AllIn-of [] us h = tt
AllIn-of (v ∷ vs) us h = (
  h v (or_left _ _ ((eq_iff v v).1 refl)),
  AllIn-of vs us (λ w m. h w (or_right (str_eq v w) _ m)),
)

module _ (ir : FsmIr) where
  abbrev from_names : List String
  from_names = map (λ s. s.name) ir.states

  abbrev from_parents : List String
  from_parents = map (λ s. s.parent_state) ir.states

  abbrev from_initials : List String
  from_initials = map (λ s. s.initial_sub_state) ir.states

  abbrev from_targets : List String
  from_targets = map (λ t. t.target) ir.transitions

  contains-names :
      (v : String)
      → contains v (names ir) ≡ (
          contains v from_names
          || (contains v from_parents || (contains v from_initials || contains v from_targets)))
  unfolding names
  contains-names v = rw (
    contains-append v from_names,
    contains-append v from_parents,
    contains-append v from_initials,
  )

  Edge-names : (u v : String) → Edge ir u v → contains v (names ir) ≡ true
  Edge-names u v (to_child (s, m, c)) =
      contains-names v ∙ or_left _ _ (rw c.called at (contains-map (λ s. s.name) ir.states s m))
  Edge-names u v (to_parent s e p h) =
      let m = find_by_name-mem ir.states u s e in
      contains-names v
      ∙ or_right (contains v from_names) _
          (or_left _ _ (rw p at (contains-map (λ s. s.parent_state) ir.states s m)))
  Edge-names u v (to_initial s e p h) =
      let m = find_by_name-mem ir.states u s e in
      contains-names v
      ∙ or_right (contains v from_names) _ (
          or_right (contains v from_parents) _
            (or_left _ _ (rw p at (contains-map (λ s. s.initial_sub_state) ir.states s m))))
  Edge-names u v (by_transition (t, m, f)) =
      contains-names v
      ∙ or_right (contains v from_names) _ (
          or_right (contains v from_parents) _ (
            or_right (contains v from_initials) _
              (rw f.enters at (contains-map (λ t. t.target) ir.transitions t m))))

  -- The least set of names that has the root of the search and is closed under edges.
  pub data Live : String → Type 0 where
    initially : Live (root ir)
    follows : {u v : String} → Live u → Edge ir u v → Live v

  Reach-Live : {v : String} → Reach (successors ir) (root ir) v → Live v
  Reach-Live Reach.here = initially
  Reach-Live (Reach.next {u} {v = w} r e) = follows (Reach-Live r) ((successors-Edge ir u w).0 e)

  Live-Reach : {v : String} → Live v → Reach (successors ir) (root ir) v
  Live-Reach initially = Reach.here
  Live-Reach (follows {u} {v = w} l e) = Reach.next (Live-Reach l) ((successors-Edge ir u w).1 e)

  -- The search ends within its fuel.
  pub search_returns : (t : Search) × (search ir ≡ some t)
  unfolding search
  search_returns =
      start_ends (successors ir) (names ir)
        (λ u.
          AllIn-of (successors ir u) (names ir)
            (λ v h. Edge-names u v ((successors-Edge ir u v).0 h)))
        (root ir)

  pub search-Live :
      (t : Search) → search ir ≡ some t → (v : String) → (contains v t.reached ≡ true) ↔ Live v
  unfolding search
  search-Live t h v =
      let (into, back) = loop-Reach (successors ir) (root ir) (length (names ir) + 1) t h v in
      (λ m. Reach-Live (into m), λ l. back (Live-Reach l))

-- ===== src/Middleend/PriorityConflict/Climbing.antt =====
-- priority_conflict_pass.cpp, is_ancestor_of: what the walk along parent_id finds, and when it ends.
use fsmc.Common.{
  ℕ, zero, suc, ◌<◌, ◌≡◌, ◌≢◌, ◌⊎◌, ◌↔◌, refl, inl, inr, Bool, true, false, String, str_eq, eq_iff,
  none, some, Option-cases, Bool-cases, arith,
}
use fsmc.Ir.Model.{StateNode, FsmIr, is_empty, find_by_id}
use fsmc.Middleend.PriorityConflict.{parent_of, climb, is_ancestor_of}

-- `p` is reached from `c` along parent_id.
pub data IsAncestor (ir : FsmIr) (p : String) : String → Type 0 where
  parent :
      {c : String} (s : StateNode)
      → find_by_id ir.states c ≡ some s
      → is_empty p ≡ false
      → parent_of s ≡ p
      → IsAncestor ir p c
  above :
      {c : String} (s : StateNode)
      → find_by_id ir.states c ≡ some s
      → is_empty (parent_of s) ≡ false
      → IsAncestor ir p (parent_of s)
      → IsAncestor ir p c

-- A depth that falls from each state to its parent: parent_id has no cycle.
abbrev pub Falls : FsmIr → (String → ℕ) → Type 0
Falls ir depth =
    (x : String) (s : StateNode)
    → is_empty x ≡ false
    → find_by_id ir.states x ≡ some s
    → depth (parent_of s) < depth x

pub IsAncestor-named : (ir : FsmIr) (p x : String) → IsAncestor ir p x → is_empty p ≡ false
IsAncestor-named ir p x (IsAncestor.parent s found named e) = named
IsAncestor-named ir p x (IsAncestor.above s found named a) = IsAncestor-named ir p (parent_of s) a

IsAncestor-depth :
    (ir : FsmIr) (depth : String → ℕ)
    → Falls ir depth
    → (p x : String) → is_empty x ≡ false
    → IsAncestor ir p x
    → depth p < depth x
IsAncestor-depth ir depth falls p x here (IsAncestor.parent s found named e) =
    let down : depth (parent_of s) < depth x = falls x s here found in rw e at down
IsAncestor-depth ir depth falls p x here (IsAncestor.above s found named a) =
    omega (arith, falls x s here found, IsAncestor-depth ir depth falls p (parent_of s) named a)

pub IsAncestor-irrefl :
    (ir : FsmIr) (depth : String → ℕ) → Falls ir depth → (x : String) → IsAncestor ir x x → ⊥
IsAncestor-irrefl ir depth falls x a =
    omega (arith, IsAncestor-depth ir depth falls x x (IsAncestor-named ir x x a) a)

-- The name is `p`, or has `p` above it.
abbrev Reaches : FsmIr → String → String → Type 0
Reaches ir p x = (is_empty x ≡ false) × ((x ≡ p) ⊎ IsAncestor ir p x)

module _ (ir : FsmIr) (p : String) where
  IsAncestor-cases :
      {x : String}
      → IsAncestor ir p x
      → (s : StateNode) × (find_by_id ir.states x ≡ some s) × Reaches ir p (parent_of s)
  IsAncestor-cases (IsAncestor.parent s found named e) = (s, found, (rw e named, inl e))
  IsAncestor-cases (IsAncestor.above s found named a) = (s, found, (named, inr a))

  Reaches-IsAncestor :
      {x : String} (s : StateNode)
      → find_by_id ir.states x ≡ some s
      → Reaches ir p (parent_of s)
      → IsAncestor ir p x
  Reaches-IsAncestor s found (named, inl e) = IsAncestor.parent s found (rw (← e) named) e
  Reaches-IsAncestor s found (named, inr a) = IsAncestor.above s found named a

  -- A state has an ancestor when its parent has, or is it.
  found_iff :
      (x : String) (s : StateNode)
      → find_by_id ir.states x ≡ some s
      → Reaches ir p (parent_of s) ↔ IsAncestor ir p x
  found_iff x s found = (
    Reaches-IsAncestor s found,
    λ a.
        let (s', found', reaches) = IsAncestor-cases a in
        let same : s' ≡ s = cc in rw (← same) reaches,
  )

  not_found : (x : String) → find_by_id ir.states x ≡ none → IsAncestor ir p x → ⊥
  not_found x lost a = let (s, found, reaches) = IsAncestor-cases a in cc

  -- What the walk answers from a name that is neither empty nor `p`, given its answer from the parent.
  climb_iff :
      (b : Bool) (x : String) (s : StateNode)
      → is_empty x ≡ false
      → str_eq x p ≡ false
      → find_by_id ir.states x ≡ some s
      → (b ≡ true) ↔ Reaches ir p (parent_of s)
      → (b ≡ true) ↔ Reaches ir p x
  climb_iff b x s named miss found reaches =
      let (into, back) = found_iff x s found in
      (
        λ e. (named, inr (into (reaches.0 e))),
        λ r. elim r.1 [
          | inl hit ↦ absurd (cc ((eq_iff x p).1 hit, miss))
          | inr a ↦ reaches.1 (back a)
        ],
      )

  climb-Reaches :
      (depth : String → ℕ)
      → Falls ir depth
      → (fuel : ℕ) (x : String) → depth x < fuel
      → (b : Bool) × (climb ir p fuel x ≡ some b) × ((b ≡ true) ↔ Reaches ir p x)
  unfolding climb
  climb-Reaches depth falls zero x h = absurd (omega arith)
  climb-Reaches depth falls (suc fuel) x h = elim (Bool-cases (is_empty x)) [
    | inl end ↦ (false, rw end refl, (λ e. absurd cc, λ r. absurd (cc (r.0, end))))
    | inr named ↦ elim (Bool-cases (str_eq x p)) [
      | inl hit ↦ (true, rw (named, hit) refl, (λ e. (named, inl ((eq_iff x p).0 hit)), λ r. refl))
      | inr miss ↦ elim (Option-cases (find_by_id ir.states x)) [
        | inl lost ↦ (
          false,
          rw (named, miss, lost) refl,
          (
            λ e. absurd cc,
            λ r. elim r.1 [
              | inl hit ↦ absurd (cc ((eq_iff x p).1 hit, miss))
              | inr a ↦ absurd (not_found x lost a)
            ],
          ),
        )
        | inr (s, found) ↦
            let (b, done, reaches) =
              climb-Reaches depth falls fuel (parent_of s) (omega (arith, falls x s named found)) in
            (b, rw (named, miss, found) done, climb_iff b x s named miss found reaches)
      ]
    ]
  ]

  -- Where the depth falls from each state to its parent, the walk ends, and finds the ancestors.
  pub is_ancestor_of-IsAncestor :
      (depth : String → ℕ)
      → Falls ir depth
      → (fuel : ℕ) → ((x : String) → depth x < fuel)
      → (c : String)
      → (b : Bool) × (is_ancestor_of ir fuel p c ≡ some b) × ((b ≡ true) ↔ IsAncestor ir p c)
  unfolding is_ancestor_of
  is_ancestor_of-IsAncestor depth falls fuel enough c =
      elim (Option-cases (find_by_id ir.states c)) [
        | inl lost ↦ (
          false,
          rw (lost, is_ancestor_of) refl,
          (λ e. absurd cc, λ a. absurd (not_found c lost a)),
        )
        | inr (s, found) ↦
            let (b, done, reaches) =
              climb-Reaches depth falls fuel (parent_of s) (enough (parent_of s)) in
            let (into, back) = found_iff c s found in
            (b, rw (found, is_ancestor_of) done, (λ e. into (reaches.0 e), λ a. reaches.1 (back a)))
      ]

  -- Names from which the walk goes on for ever: each is a state other than `p` whose parent is one of
  -- them.
  abbrev pub IsTrap : (String → Type 0) → Type 0
  IsTrap Stuck =
      (x : String)
      → Stuck x
      → (is_empty x ≡ false)
        × (x ≢ p)
        × ((s : StateNode) × (find_by_id ir.states x ≡ some s) × Stuck (parent_of s))

  climb_diverges :
      (Stuck : String → Type 0)
      → IsTrap Stuck
      → (fuel : ℕ) (x : String) → Stuck x
      → climb ir p fuel x ≡ none
  unfolding climb
  climb_diverges Stuck trap zero x h = refl
  climb_diverges Stuck trap (suc fuel) x h =
      let (named, other, (s, found, on)) = trap x h in
      let miss : str_eq x p ≡ false = elim (Bool-cases (str_eq x p)) [
        | inl hit ↦ absurd (other ((eq_iff x p).0 hit))
        | inr miss ↦ miss
      ] in
      rw (named, miss, found) (climb_diverges Stuck trap fuel (parent_of s) on)

  -- From a state whose parent is such a name, is_ancestor_of does not return, however many rounds its loop
  -- is given.
  pub is_ancestor_of_diverges :
      (Stuck : String → Type 0)
      → IsTrap Stuck
      → (c : String) (s : StateNode) → find_by_id ir.states c ≡ some s
      → Stuck (parent_of s)
      → (fuel : ℕ) → is_ancestor_of ir fuel p c ≡ none
  unfolding is_ancestor_of
  is_ancestor_of_diverges Stuck trap c s found h fuel =
      rw (found, is_ancestor_of) (climb_diverges Stuck trap fuel (parent_of s) h)

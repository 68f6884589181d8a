-- ===== src/Middleend/PriorityConflict/Contradictions.antt =====
-- priority_conflict_pass.cpp, run: the pairs of transitions for which it fails.
pub mod Pairs
use Prim.Native.String.{◌++◌ as str_append}
use fsmc.Common.{
  codes, codes-append, and_left, and_right, and_intro, ℕ, suc, ◌+◌, ◌<◌, ◌≡◌, ◌⊎◌, ◌↔◌, refl, sym,
  ap, ◌∙◌, inl, inr, Bool, true, false, ◌&&◌, String, str_eq, eq_iff, List, [], ◌∷◌, ◌++◌,
  get_elem?, some, if◌then◌else◌, ◌==◌, Bool-cases, arith,
}
use mathlib.Core.List.{Memᴰ}
use mathlib.Core.List.Memᴰ
use fsmc.Ir.Trigger.{duration_in_ms, Trigger, signal, time, change, anonymous}
use fsmc.Ir.Model.{TransitionEdge, FsmIr, HierarchicalPriority, is_empty}
use fsmc.Middleend.PriorityConflict.{
  get_trigger_key, source_of, contradicts, check_pair, contradiction, check_row, check_all, is_nil,
  Report, run, all_races, state_transitions, Contradiction, to_string,
}
use fsmc.Middleend.PriorityConflict.Climbing.{
  IsAncestor, IsAncestor-irrefl, Falls, is_ancestor_of-IsAncestor,
}
use fsmc.Middleend.PriorityConflict.Contradictions.Pairs.{Contradicts, not_self, check_pair_iff}

check_all-some :
    (ir : FsmIr) (fuel i : ℕ) (t1 : TransitionEdge) (ts : List TransitionEdge)
    (errors more : List Contradiction)
    → check_row ir fuel i t1 0 ir.transitions ≡ some errors
    → check_all ir fuel (suc i) ts ≡ some more
    → check_all ir fuel i (t1 ∷ ts) ≡ some (errors ++ more)
unfolding check_all
check_all-some ir fuel i t1 ts errors more done finished = rw (done, finished, check_all) refl

pub run-some :
    (ir : FsmIr) (fuel : ℕ) (errors : List Contradiction)
    → check_all ir fuel 0 ir.transitions ≡ some errors
    → run ir fuel
      ≡ some (record {
        races = all_races ir (state_transitions ir ir.transitions []);
        contradictions = errors;
        passed = is_nil errors;
      })
unfolding run
run-some ir fuel errors done = rw (done, run) refl

at_place :
    (ts : List TransitionEdge) (m n : ℕ) (t : TransitionEdge)
    → m ≡ n
    → get_elem? ts m ≡ some t
    → get_elem? ts n ≡ some t
at_place ts m n t e h = ap (get_elem? ts) (sym e) ∙ h

module _ (ir : FsmIr) (depth : String → ℕ) (falls : Falls ir depth) (fuel : ℕ)
    (enough : (x : String) → depth x < fuel) where
  -- A transition of the list contradicts `t1`.
  abbrev Some : TransitionEdge → List TransitionEdge → Type 0
  Some t1 ts = (t2 : TransitionEdge) × Memᴰ t2 ts × Contradicts ir t1 t2

  Some-skip :
      (t1 t2 : TransitionEdge) (ts : List TransitionEdge) → t2 ≡ t1 → Some t1 ts ↔ Some t1 (t2 ∷ ts)
  Some-skip t1 t2 ts same = (
    λ w. let (t, m, c) = w in (t, Memᴰ.tail m, c),
    λ w.
        let (t, m, c) = w in
        elim (Memᴰ.cases_cons m) [
          | inl e ↦ absurd (not_self ir depth falls t1 (rw (e ∙ same) at c))
          | inr rest ↦ (t, rest, c)
        ],
  )

  -- The errors of a longer row.
  Some-cons :
      (t1 t2 : TransitionEdge) (ts : List TransitionEdge) (b : Bool) (errors : List Contradiction)
      → (b ≡ true) ↔ Contradicts ir t1 t2
      → (is_nil errors ≡ false) ↔ Some t1 ts
      → (is_nil (if b then contradiction ir t1 t2 ∷ errors else errors) ≡ false) ↔ Some t1 (t2 ∷ ts)
  Some-cons t1 t2 ts true errors pair iff = (λ e. (t2, Memᴰ.head refl, pair.0 refl), λ w. refl)
  Some-cons t1 t2 ts false errors pair iff = (
    λ e. let (t, m, c) = iff.0 e in (t, Memᴰ.tail m, c),
    λ w.
        let (t, m, c) = w in
        elim (Memᴰ.cases_cons m) [
          | inl e ↦ let back : false ≡ true = pair.1 (rw e at c) in absurd cc
          | inr rest ↦ iff.1 (t, rest, c)
        ],
  )

  -- The errors of a row, where the place that is skipped, if it is in the row, holds `t1` itself.
  check_row_iff :
      (i : ℕ) (t1 : TransitionEdge) (j : ℕ) (ts : List TransitionEdge)
      → ((k : ℕ) (t : TransitionEdge) → i ≡ j + k → get_elem? ts k ≡ some t → t ≡ t1)
      → (errors : List Contradiction) × (check_row ir fuel i t1 j ts ≡ some errors)
        × ((is_nil errors ≡ false) ↔ Some t1 ts)
  unfolding check_row
  check_row_iff i t1 j [] here = ([], refl, (λ e. absurd cc, λ w. absurd (Memᴰ.not-nil w.1)))
  check_row_iff i t1 j (t2 ∷ ts) here =
      let (errors, done, iff) =
        check_row_iff i t1 (suc j) ts (λ k t e. here (suc k) t (omega arith)) in
      elim (Bool-cases (i == j)) [
        | inl skip ↦
            let (into, back) = Some-skip t1 t2 ts (here 0 t2 (ground arith) refl) in
            (errors, rw skip done, (λ e. into (iff.0 e), λ w. iff.1 (back w)))
        | inr apart ↦
            let (b, answered, pair) = check_pair_iff ir depth falls fuel enough t1 t2 in
            (
              if b then contradiction ir t1 t2 ∷ errors else errors,
              rw (apart, answered, done) refl,
              Some-cons t1 t2 ts b errors pair iff,
            )
      ]

  -- Some transition of the list is contradicted by one of the machine.
  abbrev Any : List TransitionEdge → Type 0
  Any ts = (t1 : TransitionEdge) × Memᴰ t1 ts × Some t1 ir.transitions

  is_nil-append :
      (xs ys : List Contradiction)
      → (is_nil (xs ++ ys) ≡ false) ↔ ((is_nil xs ≡ false) ⊎ (is_nil ys ≡ false))
  is_nil-append [] ys = (λ e. inr e, λ c. elim c [ inl e ↦ absurd cc | inr e ↦ e ])
  is_nil-append (x ∷ xs) ys = (λ e. inl refl, λ c. refl)

  Any-cons :
      (t1 : TransitionEdge) (ts : List TransitionEdge) (errors more : List Contradiction)
      → (is_nil errors ≡ false) ↔ Some t1 ir.transitions
      → (is_nil more ≡ false) ↔ Any ts
      → (is_nil (errors ++ more) ≡ false) ↔ Any (t1 ∷ ts)
  Any-cons t1 ts errors more row rows = (
    λ e. elim ((is_nil-append errors more).0 e) [
      | inl first ↦ (t1, Memᴰ.head refl, row.0 first)
      | inr later ↦ let (t, m, w) = rows.0 later in (t, Memᴰ.tail m, w)
    ],
    λ a.
        let (t, m, w) = a in
        elim (Memᴰ.cases_cons m) [
          | inl e ↦ (is_nil-append errors more).1 (inl (row.1 (rw e at w)))
          | inr rest ↦ (is_nil-append errors more).1 (inr (rows.1 (t, rest, w)))
        ],
  )

  check_all_iff :
      (i : ℕ) (ts : List TransitionEdge)
      → ((k : ℕ) (t : TransitionEdge)
          → get_elem? ts k ≡ some t
          → get_elem? ir.transitions (i + k) ≡ some t)
      → (errors : List Contradiction) × (check_all ir fuel i ts ≡ some errors)
        × ((is_nil errors ≡ false) ↔ Any ts)
  unfolding check_all
  check_all_iff i [] here = ([], refl, (λ e. absurd cc, λ a. absurd (Memᴰ.not-nil a.1)))
  check_all_iff i (t1 ∷ ts) here =
      let (errors, done, row) = check_row_iff i t1 0 ir.transitions (λ k t e h.
        let first : get_elem? ir.transitions k ≡ some t1 =
          at_place ir.transitions (i + 0) k t1 (omega arith) (here 0 t1 refl) in
        cc) in
      let (more, finished, rows) = check_all_iff (suc i) ts (λ k t e.
        at_place ir.transitions (i + suc k) (suc i + k) t (omega arith) (here (suc k) t e)) in
      (
        errors ++ more,
        check_all-some ir fuel i t1 ts errors more done finished,
        Any-cons t1 ts errors more row rows,
      )

-- Where the depth falls from each state to its parent, and the fuel is above every depth, the pass returns; it
-- fails exactly when a transition contradicts another: it leaves an ancestor of the other's source, the triggers
-- are the same, both have a priority, and the policy forbids the order of the two.
pub run-Contradicts :
    (ir : FsmIr) (depth : String → ℕ)
    → Falls ir depth
    → (fuel : ℕ) → ((x : String) → depth x < fuel)
    → (r : Report) × (run ir fuel ≡ some r)
      × ((r.passed ≡ false) ↔ (
          (t1 : TransitionEdge) × Memᴰ t1 ir.transitions
          × ((t2 : TransitionEdge) × Memᴰ t2 ir.transitions × Contradicts ir t1 t2)))
unfolding run
run-Contradicts ir depth falls fuel enough =
    let (errors, done, iff) =
      check_all_iff ir depth falls fuel enough 0 ir.transitions
        (λ k t. at_place ir.transitions k (0 + k) t (omega arith)) in
    (
      record {
        races = all_races ir (state_transitions ir ir.transitions []);
        contradictions = errors;
        passed = is_nil errors;
      },
      run-some ir fuel errors done,
      iff,
    )

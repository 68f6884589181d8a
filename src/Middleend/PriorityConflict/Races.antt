-- ===== src/Middleend/PriorityConflict/Races.antt =====
-- priority_conflict_pass.cpp, run: the transitions of one state that race are reported.
use mathlib.Core.Path.{subst}
use fsmc.Common.{
  ℕ, Option-cases, ◌≡◌, ◌⊎◌, refl, sym, ap, ◌∙◌, inl, inr, Bool, true, false, String, str_eq,
  eq_iff, List, [], ◌∷◌, ◌++◌, none, some, if◌then◌else◌, keep_if, mem-keep_if, Bool-cases, arith,
}
use mathlib.Core.List.{Memᴰ, append_assoc, append-nil}
use mathlib.Core.List.Memᴰ
use fsmc.Ir.Model.{TransitionEdge, FsmIr, find_by_id}
use fsmc.Middleend.PriorityConflict.{
  get_trigger_key, source_of, push_back, state_transitions, guards_equal, is_race, Race, races_with,
  races_among, all_races, Report, run, check_all, is_nil,
}
use fsmc.Middleend.PriorityConflict.Contradictions.Pairs.{key_not_empty}
use fsmc.Middleend.PriorityConflict.Contradictions.{run-some}

-- `t1` stands before `t2`.
abbrev pub Precedes : TransitionEdge → TransitionEdge → List TransitionEdge → Type 0
Precedes t1 t2 [] = ⊥
Precedes t1 t2 (t ∷ ts) = ((t1 ≡ t) × Memᴰ t2 ts) ⊎ Precedes t1 t2 ts

-- They are triggered alike, with equal guards and one priority.
pub record IsRace (t1 t2 : TransitionEdge) : Type 0 where
  pub triggers : get_trigger_key t1.trigger ≡ get_trigger_key t2.trigger
  pub guards : guards_equal t1 t2 ≡ true
  pub priorities : t1.priority ≡ t2.priority

is_race-IsRace : (t1 t2 : TransitionEdge) → IsRace t1 t2 → is_race t1 t2 ≡ true
unfolding is_race
is_race-IsRace t1 t2 r = ground (
  arith,
  key_not_empty t1.trigger,
  (eq_iff (get_trigger_key t1.trigger) (get_trigger_key t2.trigger)).1 r.triggers,
  r.guards,
  r.priorities,
)

-- The transitions that a state's id leads to.
abbrev found : String → List (String × List TransitionEdge) → List TransitionEdge
found id [] = []
found id ((key, edges) ∷ m) = if str_eq key id then edges else found id m

abbrev leaves : FsmIr → String → TransitionEdge → Bool
leaves ir id t = str_eq (source_of ir t) id

found-push_back :
    (id src : String) (t : TransitionEdge) (m : List (String × List TransitionEdge))
    → found id (push_back src t m) ≡ found id m ++ (if str_eq src id then t ∷ [] else [])
unfolding push_back
found-push_back id src t [] = ground arith
found-push_back id src t ((key, edges) ∷ m) = elim (Bool-cases (str_eq key src)) [
  | inl same ↦
      let name : key ≡ src = (eq_iff key src).0 same in
      elim (Bool-cases (str_eq key id)) [
        | inl hit ↦ let asked : str_eq src id ≡ true = rw name at hit in rw (same, hit, asked) refl
        | inr miss ↦
            let skipped : str_eq src id ≡ false = rw name at miss in
            rw (same, miss, skipped) (sym (append-nil (found id m)))
      ]
  | inr other ↦ elim (Bool-cases (str_eq key id)) [
    | inl hit ↦
        let skipped : str_eq src id ≡ false =
          ground (arith, (eq_iff key id).0 hit, eq_iff src id, eq_iff key src) in
        rw (other, hit, skipped) (sym (append-nil edges))
    | inr miss ↦ rw (other, miss) (found-push_back id src t m)
  ]
]

keep_if-append :
    (test : TransitionEdge → Bool) (t : TransitionEdge) (ts : List TransitionEdge)
    → (if test t then t ∷ [] else []) ++ keep_if test ts ≡ keep_if test (t ∷ ts)
keep_if-append test t ts = elim (Bool-cases (test t)) [
  | inl kept ↦ rw kept refl
  | inr dropped ↦ rw dropped refl
]

found-state_transitions :
    (ir : FsmIr) (id : String) (ts : List TransitionEdge) (m : List (String × List TransitionEdge))
    → found id (state_transitions ir ts m) ≡ found id m ++ keep_if (leaves ir id) ts
unfolding state_transitions
found-state_transitions ir id [] m = sym (append-nil (found id m))
found-state_transitions ir id (t ∷ ts) m =
    found-state_transitions ir id ts (push_back (source_of ir t) t m)
    ∙ ap (λ x. x ++ keep_if (leaves ir id) ts) (found-push_back id (source_of ir t) t m)
    ∙ append_assoc (found id m) (if leaves ir id t then t ∷ [] else []) (keep_if (leaves ir id) ts)
    ∙ ap (λ x. found id m ++ x) (keep_if-append (leaves ir id) t ts)

Precedes-keep_if :
    (test : TransitionEdge → Bool) (t1 t2 : TransitionEdge) (ts : List TransitionEdge)
    → test t1 ≡ true
    → test t2 ≡ true
    → Precedes t1 t2 ts
    → Precedes t1 t2 (keep_if test ts)
Precedes-keep_if test t1 t2 [] h k p = p
Precedes-keep_if test t1 t2 (t ∷ ts) h k (inl p) =
    let here : test t ≡ true = ap test (sym p.0) ∙ h in
    rw here (inl (p.0, (mem-keep_if test ts t2).1 (p.1, k)))
Precedes-keep_if test t1 t2 (t ∷ ts) h k (inr p) = elim (Bool-cases (test t)) [
  | inl kept ↦ rw kept (inr (Precedes-keep_if test t1 t2 ts h k p))
  | inr dropped ↦ rw dropped (Precedes-keep_if test t1 t2 ts h k p)
]

-- What the warning about `t` and another names.
abbrev pub race_of : String → TransitionEdge → Race
race_of name t = (name, get_trigger_key t.trigger, t.priority)

mem-races_with :
    (name : String) (t1 t2 : TransitionEdge) (ts : List TransitionEdge)
    → is_race t1 t2 ≡ true
    → Memᴰ t2 ts
    → Memᴰ (race_of name t1) (races_with name t1 ts)
unfolding races_with
mem-races_with name t1 t2 [] r m = absurd (Memᴰ.not-nil m)
mem-races_with name t1 t2 (t ∷ ts) r m = elim (Memᴰ.cases_cons m) [
  | inl e ↦ rw (← e, r) (Memᴰ.head refl)
  | inr rest ↦ elim (Bool-cases (is_race t1 t)) [
    | inl hit ↦ rw hit (Memᴰ.tail (mem-races_with name t1 t2 ts r rest))
    | inr miss ↦ rw miss (mem-races_with name t1 t2 ts r rest)
  ]
]

mem-races_among :
    (name : String) (t1 t2 : TransitionEdge) (ts : List TransitionEdge)
    → is_race t1 t2 ≡ true
    → Precedes t1 t2 ts
    → Memᴰ (race_of name t1) (races_among name ts)
unfolding races_among
mem-races_among name t1 t2 [] r p = absurd p
mem-races_among name t1 t2 (t ∷ ts) r (inl p) =
    rw (← p.0) (Memᴰ.append_left (races_among name ts) (mem-races_with name t1 t2 ts r p.1))
mem-races_among name t1 t2 (t ∷ ts) r (inr p) =
    Memᴰ.append_right (races_with name t ts) (mem-races_among name t1 t2 ts r p)

-- The name that a warning gives to the state with an id.
abbrev pub name_of : FsmIr → String → String
name_of ir id = elim (find_by_id ir.states id) [ none ↦ id | some s ↦ s.name ]

mem-all_races :
    (ir : FsmIr) (id : String) (t1 t2 : TransitionEdge) (m : List (String × List TransitionEdge))
    → is_race t1 t2 ≡ true
    → Precedes t1 t2 (found id m)
    → Memᴰ (race_of (name_of ir id) t1) (all_races ir m)
unfolding all_races
mem-all_races ir id t1 t2 [] r p = absurd p
mem-all_races ir id t1 t2 ((key, edges) ∷ m) r p = elim (Bool-cases (str_eq key id)) [
  | inl hit ↦
      let name : key ≡ id = (eq_iff key id).0 hit in
      subst
        (λ k.
          Memᴰ (race_of (name_of ir id) t1) (races_among (name_of ir k) edges ++ all_races ir m))
        (sym name)
        (Memᴰ.append_left (all_races ir m)
          (mem-races_among (name_of ir id) t1 t2 edges r (rw hit at p)))
  | inr miss ↦
      Memᴰ.append_right (races_among (name_of ir key) edges)
        (mem-all_races ir id t1 t2 m r (rw miss at p))
]

run-races :
    (ir : FsmIr) (fuel : ℕ) (report : Report)
    → run ir fuel ≡ some report
    → all_races ir (state_transitions ir ir.transitions []) ≡ report.races
unfolding run
run-races ir fuel report done = elim (Option-cases (check_all ir fuel 0 ir.transitions)) [
  | inl out ↦ absurd (cc (rw (out, run) at done))
  | inr (errors, answered) ↦
      let whole : record {
        races = all_races ir (state_transitions ir ir.transitions []);
        contradictions = errors;
        passed = is_nil errors;
      }
          ≡ report =
        cc (sym (run-some ir fuel errors answered) ∙ done) in
      ap (λ (x : Report). x.races) whole
]

-- If the pass returns, and of two transitions one stands before the other, both leave one state, are triggered alike,
-- and have equal guards and one priority, then the pass warns about the state, the trigger and the priority.
pub run-IsRace :
    (ir : FsmIr) (fuel : ℕ) (report : Report)
    → run ir fuel ≡ some report
    → (t1 t2 : TransitionEdge) → Precedes t1 t2 ir.transitions
    → source_of ir t1 ≡ source_of ir t2
    → IsRace t1 t2
    → Memᴰ (race_of (name_of ir (source_of ir t1)) t1) report.races
run-IsRace ir fuel report done t1 t2 before same race =
    let id = source_of ir t1 in
    let first : leaves ir id t1 ≡ true = (eq_iff (source_of ir t1) id).1 refl in
    let second : leaves ir id t2 ≡ true = (eq_iff (source_of ir t2) id).1 (sym same) in
    let group : Precedes t1 t2 (found id (state_transitions ir ir.transitions [])) =
      subst (Precedes t1 t2) (sym (found-state_transitions ir id ir.transitions []))
        (Precedes-keep_if (leaves ir id) t1 t2 ir.transitions first second before) in
    rw⁻¹ (run-races ir fuel report done) (
      mem-all_races ir id t1 t2 (state_transitions ir ir.transitions []) (is_race-IsRace t1 t2 race)
        group)

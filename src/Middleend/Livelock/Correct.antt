-- ===== src/Middleend/Livelock/Correct.antt =====
-- livelock_analysis_pass.cpp: the pass finds a zero-time cycle exactly if there is one.
use mathlib.Core.List.{Memᴰ}
use mathlib.Core.List.Memᴰ
use mathlib.Core.Path.{subst}
use mathlib.Core.Option.{some-injective}
use fsmc.Common.{
  ℕ, ◌+◌, ◌≡◌, ◌↔◌, refl, sym, ◌∙◌, ap, inl, inr, Bool, true, false, not, String, eq_iff, List, [],
  ◌∷◌, ◌++◌, some, map, length, contains, Option-cases, arith,
}
use fsmc.Ir.Model.{StateNode, FsmIr}
use fsmc.Middleend.Livelock.{white, Search, shown, dfs, zero_adj, search_all, unvisited, names, run}
use fsmc.Middleend.Livelock.Steps.{
  Color-cases, search_all-nil, search_all-fresh, search_all-seen, search_all-stopped,
}
use fsmc.Middleend.Livelock.Walks.{Walk, IsRanked-Walk, IsRanked-Circuit, Circuit}
use fsmc.Middleend.Livelock.Reports.{search_all-Grows}
use fsmc.Middleend.Livelock.Ends.{search_returns}
use fsmc.Middleend.Livelock.Invariant.{IsClean, LeadsTo, Caught, dfs-IsSound}

-- A circuit of transitions that take no time, to which such transitions lead from a state.
abbrev pub Livelock : FsmIr → Type 0
Livelock ir =
    (x : StateNode) × Memᴰ x ir.states
    × (v : String) × (q : List String) × (r : List String) × Walk (zero_adj ir) x.id q v
    × Circuit (zero_adj ir) v r

-- A state leads to a circuit, which the first message shows.
abbrev pub FirstShown : FsmIr → List StateNode → List (List String) → Type 0
FirstShown ir xs reports =
    (x : StateNode) × Memᴰ x xs
    × (v : String) × (q : List String) × (r : List String) × (more : List (List String)) × Walk
        (zero_adj ir) x.id q v
    × Circuit (zero_adj ir) v r
    × (reports ≡ map (shown ir) (v ∷ r) ∷ more)

-- What the loop over the states has to show for its result.
abbrev Decided : FsmIr → List StateNode → List String → Bool → Search → Type 0
Decided ir xs done true t = FirstShown ir xs t.reports
Decided ir xs done false t =
    (done' : List String) × IsClean ir t done'
    × ((y : String) → contains y done ≡ true → contains y done' ≡ true)
    × ((x : StateNode) → Memᴰ x xs → contains x.id done' ≡ true)

module _ (ir : FsmIr) (fuel : ℕ) where
  -- One more state, finished by now.
  Decided-cons :
      (x : StateNode) (xs : List StateNode) (done done' : List String) (b : Bool) (t : Search)
      → ((y : String) → contains y done ≡ true → contains y done' ≡ true)
      → contains x.id done' ≡ true
      → Decided ir xs done' b t
      → Decided ir (x ∷ xs) done b t
  Decided-cons x xs done done' true t ext m (y, k, c, q, r, more, walk, round, e) =
      (y, Memᴰ.tail k, c, q, r, more, walk, round, e)
  Decided-cons x xs done done' false t ext m (d, c, ext', all) = (
    d,
    c,
    λ y k. ext' y (ext y k),
    λ y k. elim (Memᴰ.cases_cons k) [ inl e ↦ rw e (ext' x.id m) | inr rest ↦ all y rest ],
  )

  -- A cycle that was found is not forgotten.
  search_all-true :
      (xs : List StateNode) (s : Search) (b : Bool) (t : Search)
      → search_all ir fuel xs true s ≡ some (b, t)
      → b ≡ true
  search_all-true [] s b t h = unfold search_all in cc
  search_all-true (x ∷ xs) s b t h = elim (Color-cases (s.color x.id)) [
    | inl w ↦ elim (Option-cases (dfs ir fuel x.id s)) [
      | inl stuck ↦ absurd (cc (search_all-stopped ir fuel x xs true s w stuck))
      | inr ((more, s'), e) ↦
          search_all-true xs s' b t (sym (search_all-fresh ir fuel x xs true s more s' w e) ∙ h)
    ]
    | inr other ↦ search_all-true xs s b t (sym (search_all-seen ir fuel x xs true s other) ∙ h)
  ]

  Caught-first :
      (x : StateNode) (xs : List StateNode) (s : Search) (done : List String) (b : Bool)
      (t : Search)
      → Caught ir x.id s
      → search_all ir fuel xs true s ≡ some (b, t)
      → Decided ir (x ∷ xs) done b t
  Caught-first x xs s done b t (v, q, r, w, c, e) h =
      let (more, k) = search_all-Grows ir fuel xs true s b t h in
      let first : Decided ir (x ∷ xs) done true t =
        (x, Memᴰ.head refl, v, q, r, more, w, c, k ∙ ap (λ m. m ++ more) e) in
      rw (search_all-true xs s b t h) first

  search_all-Decided :
      (xs : List StateNode) (s : Search) (done : List String) (b : Bool) (t : Search)
      → IsClean ir s done
      → s.path ≡ []
      → search_all ir fuel xs false s ≡ some (b, t)
      → Decided ir xs done b t
  search_all-Decided [] s done b t c empty h =
      let none_left : Decided ir [] done false s =
        (done, c, λ y m. m, λ x m. absurd (Memᴰ.not-nil m)) in
      subst (λ (p : Bool × Search). Decided ir [] done p.0 p.1)
        (some-injective (false, s) (b, t) (sym (search_all-nil ir fuel false s) ∙ h)) none_left
  search_all-Decided (x ∷ xs) s done b t c empty h = elim (Color-cases (s.color x.id)) [
    | inl w ↦ elim (Option-cases (dfs ir fuel x.id s)) [
      | inl stuck ↦ absurd (cc (search_all-stopped ir fuel x xs false s w stuck))
      | inr ((more, s'), e) ↦ fresh more s' w e (λ s'' d k. search_all-Decided xs s'' d b t k)
    ]
    | inr other ↦
        Decided-cons x xs done done b t (λ y m. m) (ground (arith, c.painted x.id, empty))
          (search_all-Decided xs s done b t c empty
            (sym (search_all-seen ir fuel x xs false s other) ∙ h))
  ]
    where
      on : LeadsTo ir x.id (s.path ++ x.id ∷ []) x.id
      on = ([], rw empty refl, refl)

      fresh :
          (more : Bool) (s' : Search)
          → s.color x.id ≡ white
          → dfs ir fuel x.id s ≡ some (more, s')
          → ((s'' : Search) (d : List String)
              → IsClean ir s'' d
              → s''.path ≡ []
              → search_all ir fuel xs false s'' ≡ some (b, t)
              → Decided ir xs d b t)
          → Decided ir (x ∷ xs) done b t
      fresh true s' w e again =
          Caught-first x xs s' done b t (dfs-IsSound ir x.id fuel x.id s done true s' c w on e)
            (sym (search_all-fresh ir fuel x xs false s true s' w e) ∙ h)
      fresh false s' w e again =
          let (done', c', same, ext, own) =
            dfs-IsSound ir x.id fuel x.id s done false s' c w on e in
          Decided-cons x xs done done' b t ext (own x.id (ground (arith, eq_iff x.id x.id))) (
            again s' done' c' (same ∙ empty)
              (sym (search_all-fresh ir fuel x xs false s false s' w e) ∙ h))

unvisited_Clean : (ir : FsmIr) → IsClean ir unvisited []
unvisited_Clean ir = record { painted = λ x. refl; ranked = tt; quiet = refl }

Decided-iff :
    (ir : FsmIr) (b : Bool) (t : Search)
    → Decided ir ir.states [] b t
    → ((not b ≡ true) ↔ ¬ Livelock ir) × (b ≡ true → FirstShown ir ir.states t.reports)
Decided-iff ir true t (x, m, v, q, r, more, w, c, e) =
    ((λ h. cc, λ none_. absurd (none_ (x, m, v, q, r, w, c))), λ h. (x, m, v, q, r, more, w, c, e))
Decided-iff ir false t (done, c, ext, all) = (
  (
    λ h (x, m, v, q, r, w, k).
        IsRanked-Circuit (zero_adj ir) done c.ranked v r
          (IsRanked-Walk (zero_adj ir) done c.ranked x.id q v (all x m) w) k,
    λ h. refl,
  ),
  λ h. cc,
)

-- The pass returns. It returns true exactly if no state leads, by transitions that take no time, to
-- a circuit of such transitions; and where it returns false, its first message shows such a circuit.
pub run-Livelock :
    (ir : FsmIr)
    → (ok : Bool) × (reports : List (List String)) × (run ir ≡ some (ok, reports))
      × ((ok ≡ true) ↔ ¬ Livelock ir)
      × (ok ≡ false → FirstShown ir ir.states reports)
unfolding run
run-Livelock ir =
    let (b, t, e) = search_returns ir in
    let (iff, shows) = Decided-iff ir b t (
      search_all-Decided ir (length (names ir) + 1) ir.states unvisited [] b t (unvisited_Clean ir)
        refl e) in
    (not b, t.reports, rw (e, run) refl, iff, λ h. shows (ground arith))

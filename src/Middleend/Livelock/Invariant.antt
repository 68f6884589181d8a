-- ===== src/Middleend/Livelock/Invariant.antt =====
-- livelock_analysis_pass.cpp: until a cycle is found, the path is a walk from a root, what is
-- finished leads only to what was finished before, and no message is written.
use mathlib.Core.Option.{some-injective}
use mathlib.Core.Path.{subst}
use fsmc.Common.{
  ℕ, zero, suc, ◌≡◌, refl, sym, ◌∙◌, ap, inl, inr, Bool, true, false, String, str_eq, eq_iff, List,
  [], ◌∷◌, ◌++◌, Option, some, map, if◌then◌else◌, contains, contains-append, Bool-cases,
  Option-cases, arith,
}
use fsmc.Ir.Model.{FsmIr}
use fsmc.Middleend.Livelock.{
  Color, white, gray, black, Search, drop_last, shown, enter, leave, report_cycle, scan, dfs,
  zero_adj,
}
use fsmc.Middleend.Livelock.Steps.{
  Color-cases, scan-gray, scan-black, scan-found, scan-passed, scan-stopped, dfs-found, dfs-passed,
  dfs-stopped,
}
use fsmc.Middleend.Livelock.Walks.{
  Walk, Walk-concat, Walk-drop_to, IsRanked, Circuit, drop_last-concat,
}

abbrev shade : List String → List String → String → Color
shade path done x = if contains x path then gray else if contains x done then black else white

pub record IsClean (ir : FsmIr) (s : Search) (done : List String) : Type 0 where
  pub painted : (x : String) → s.color x ≡ shade s.path done x
  pub ranked : IsRanked (zero_adj ir) done
  pub quiet : s.reports ≡ []

Circuit-of :
    (next : String → List String) (v : String) (r : List String)
    → Walk next v (r ++ v ∷ []) v
    → Circuit next v (r ++ v ∷ [])
Circuit-of next v [] w = w
Circuit-of next v (x ∷ r) w = w

module _ (ir : FsmIr) (root : String) where
  -- The path leads from the root to `u`.
  abbrev pub LeadsTo : List String → String → Type 0
  LeadsTo path u = (q : List String) × (path ≡ root ∷ q) × Walk (zero_adj ir) root q u

  -- The only message shows a circuit that the root leads to.
  abbrev pub Caught : Search → Type 0
  Caught s =
      (v : String) × (q : List String) × (r : List String) × Walk (zero_adj ir) root q v
      × Circuit (zero_adj ir) v r
      × (s.reports ≡ map (shown ir) (v ∷ r) ∷ [])

  -- Nothing was found: the names given are finished.
  abbrev pub Passed : Search → List String → List String → Search → Type 0
  Passed s done us s' =
      (done' : List String) × IsClean ir s' done'
      × (s'.path ≡ s.path)
      × ((y : String) → contains y done ≡ true → contains y done' ≡ true)
      × ((y : String) → contains y us ≡ true → contains y done' ≡ true)

  abbrev pub Verdict : Search → List String → List String → Bool → Search → Type 0
  Verdict s done us true s' = Caught s'
  Verdict s done us false s' = Passed s done us s'

  abbrev pub IsSound : (String → Search → Option (Bool × Search)) → Type 0
  IsSound call =
      (v : String) (s : Search) (done : List String) (found : Bool) (s' : Search)
      → IsClean ir s done
      → s.color v ≡ white
      → LeadsTo (s.path ++ v ∷ []) v
      → call v s ≡ some (found, s')
      → Verdict s done (v ∷ []) found s'

  report_Caught :
      (s : Search) (done : List String) (u v : String)
      → IsClean ir s done
      → LeadsTo s.path u
      → contains v (zero_adj ir u) ≡ true
      → s.color v ≡ gray
      → Caught (report_cycle ir v s)
  unfolding report_cycle
  report_Caught s done u v c (p, e, w) edge g =
      let on_path : contains v s.path ≡ true = ground (arith, c.painted v) in
      let (q, r, before, after, rest) = Walk-drop_to (zero_adj ir) root p u v w (rw e at on_path) in
      (
        v,
        q,
        r ++ v ∷ [],
        before,
        Circuit-of (zero_adj ir) v r (Walk-concat (zero_adj ir) v r u v after edge),
        rw (c.quiet, e, rest) refl,
      )

  -- The verdict at the result of a computation.
  Verdict-of :
      (s : Search) (done us : List String) {b found : Bool} {t s' : Search}
      → Verdict s done us b t
      → ◌≡◌ {A = Option (Bool × Search)} (some (b, t)) (some (found, s'))
      → Verdict s done us found s'
  Verdict-of s done us {b} {found} {t} {s'} v e =
      subst (λ (p : Bool × Search). Verdict s done us p.0 p.1) (some-injective (b, t) (found, s') e)
        v

  -- Going on from a search that has finished `v`.
  Verdict-cons :
      (s t : Search) (done : List String) (v : String) (vs : List String) (found : Bool)
      (s' : Search) (p : Passed s done (v ∷ []) t)
      → Verdict t p.0 vs found s'
      → Verdict s done (v ∷ vs) found s'
  Verdict-cons s t done v vs true s' p w = w
  Verdict-cons s t done v vs false s' p w = (
    w.0,
    w.1,
    w.2 ∙ p.2,
    λ y m. w.3 y (p.3 y m),
    λ y m. elim (Bool-cases (str_eq v y)) [
      | inl own ↦ w.3 y (p.4 y (rw own refl))
      | inr other ↦ w.4 y (rw other at m)
    ],
  )

  module _ (call : String → Search → Option (Bool × Search)) (sound : IsSound call)
      (u : String) where
    scan-Verdict :
        (vs : List String) (s : Search) (done : List String) (found : Bool) (s' : Search)
        → ((v : String) → contains v vs ≡ true → contains v (zero_adj ir u) ≡ true)
        → IsClean ir s done
        → LeadsTo s.path u
        → scan ir call vs s ≡ some (found, s')
        → Verdict s done vs found s'
    scan-Verdict [] s done found s' sub c on h =
        Verdict-of s done [] {b = false} (done, c, refl, λ y m. m, λ y m. cc) (unfold scan in h)
    scan-Verdict (v ∷ vs) s done found s' sub c on h = elim (Color-cases (s.color v)) [
      | inl w ↦ elim (Option-cases (call v s)) [
        | inl stuck ↦ absurd (cc (scan-stopped ir call v vs s w stuck))
        | inr ((b, t), e) ↦ called b t w e (λ t' d k. scan-Verdict vs t' d found s' later k)
      ]
      | inr (inl g) ↦
          Verdict-of s done (v ∷ vs) {b = true}
            (report_Caught s done u v c on (sub v (ground (arith, eq_iff v v))) g)
            (sym (scan-gray ir call v vs s g) ∙ h)
      | inr (inr b) ↦
          let finished : contains v done ≡ true = ground (arith, c.painted v) in
          let past : Passed s done (v ∷ []) s =
            (done, c, refl, λ y m. m, λ y m. ground (arith, eq_iff v y)) in
          Verdict-cons s s done v vs found s' past
            (scan-Verdict vs s done found s' later c on (sym (scan-black ir call v vs s b) ∙ h))
    ]
      where
        later : (w : String) → contains w vs ≡ true → contains w (zero_adj ir u) ≡ true
        later w m = sub w (ground arith)

        below : LeadsTo (s.path ++ v ∷ []) v
        below =
            let (q, e, walk) = on in
            (
              q ++ v ∷ [],
              ap (λ p. p ++ v ∷ []) e,
              Walk-concat (zero_adj ir) root q u v walk (sub v (ground (arith, eq_iff v v))),
            )

        called :
            (b : Bool) (t : Search)
            → s.color v ≡ white
            → call v s ≡ some (b, t)
            → ((t' : Search) (d : List String)
                → IsClean ir t' d
                → LeadsTo t'.path u
                → scan ir call vs t' ≡ some (found, s')
                → Verdict t' d vs found s')
            → Verdict s done (v ∷ vs) found s'
        called true t w e again =
            Verdict-of s done (v ∷ vs) {b = true} (sound v s done true t c w below e)
              (sym (scan-found ir call v vs s t w e) ∙ h)
        called false t w e again =
            let past = sound v s done false t c w below e in
            Verdict-cons s t done v vs found s' past
              (again t past.0 past.1 (rw past.2 on) (sym (scan-passed ir call v vs s t w e) ∙ h))

  enter_Clean :
      (u : String) (s : Search) (done : List String)
      → IsClean ir s done
      → IsClean ir (enter u s) done
  unfolding enter
  enter_Clean u s done c = record {
    painted = λ x. ground (arith, c.painted x, contains-append x s.path (u ∷ []), eq_iff u x);
    ranked = c.ranked;
    quiet = c.quiet;
  }

  leave-Passed :
      (u : String) (s : Search) (done : List String) (s' : Search)
      → IsClean ir s done
      → s.color u ≡ white
      → Passed (enter u s) done (zero_adj ir u) s'
      → Passed s done (u ∷ []) (leave u s')
  unfolding enter leave
  leave-Passed u s done s' c w (done', c', same, ext, all) =
      let back : drop_last s'.path ≡ s.path = ap drop_last same ∙ drop_last-concat s.path u in
      (
        u ∷ done',
        record {
          painted = λ x. rw back (
              ground (
                arith,
                c'.painted x,
                c.painted u,
                contains-append x s.path (u ∷ []),
                eq_iff u x,
                same,
              ));
          ranked = (all, c'.ranked);
          quiet = c'.quiet;
        },
        back,
        λ y m. ground (arith, ext y),
        λ y m. ground (arith, eq_iff u y),
      )

  pub dfs-IsSound : (fuel : ℕ) → IsSound (dfs ir fuel)
  dfs-IsSound zero u s done found s' c w on h = unfold dfs in cc
  dfs-IsSound (suc fuel) u s done found s' c w on h =
      elim (Option-cases (scan ir (dfs ir fuel) (zero_adj ir u) (enter u s))) [
        | inl stuck ↦ absurd (cc (dfs-stopped ir fuel u s stuck))
        | inr ((b, t), e) ↦ visited b t e (
            scan-Verdict (dfs ir fuel) (dfs-IsSound fuel) u (zero_adj ir u) (enter u s) done b t
              (λ v m. m) (enter_Clean u s done c) (unfold enter in on) e)
      ]
    where
      visited :
          (b : Bool) (t : Search)
          → scan ir (dfs ir fuel) (zero_adj ir u) (enter u s) ≡ some (b, t)
          → Verdict (enter u s) done (zero_adj ir u) b t
          → Verdict s done (u ∷ []) found s'
      visited true t e below =
          Verdict-of s done (u ∷ []) {b = true} below (sym (dfs-found ir fuel u s t e) ∙ h)
      visited false t e below =
          Verdict-of s done (u ∷ []) {b = false} (leave-Passed u s done t c w below)
            (sym (dfs-passed ir fuel u s t e) ∙ h)

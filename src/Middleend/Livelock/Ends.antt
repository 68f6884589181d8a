-- ===== src/Middleend/Livelock/Ends.antt =====
-- livelock_analysis_pass.cpp: the search ends within its fuel, whatever was visited before.
use fsmc.Common.{
  ℕ, zero, suc, ◌+◌, ◌≤◌, ◌<◌, ◌≡◌, refl, ◌∙◌, inl, inr, Bool, true, false, ◌||◌, String, eq_iff,
  List, [], ◌∷◌, Option, some, map, length, if◌then◌else◌, contains, contains-append, Bool-cases,
  arith,
}
use fsmc.Ir.Model.{StateNode, TransitionEdge, FsmIr}
use fsmc.Middleend.Livelock.{
  target_of, adjacent, Color, white, gray, black, Search, paint, enter, leave, report_cycle, scan,
  dfs, zero_adj, search_all, names, unvisited,
}
use fsmc.Middleend.Livelock.Steps.{
  Color-cases, scan-gray, scan-black, scan-found, scan-passed, dfs-found, dfs-passed,
  search_all-fresh, search_all-seen,
}

abbrev is_white : Color → Bool
is_white white = true
is_white _ = false

-- How many entries of a list are unvisited.
whites : (String → Color) → List String → ℕ
whites color [] = 0
whites color (x ∷ xs) = if is_white (color x) then suc (whites color xs) else whites color xs

whites-le-length : (color : String → Color) (xs : List String) → whites color xs ≤ length xs
unfolding whites
whites-le-length color [] = omega arith
whites-le-length color (x ∷ xs) = ground (arith, whites-le-length color xs)

whites-paint_le :
    (u : String) (c : Color) (color : String → Color) (xs : List String)
    → is_white c ≡ false
    → whites (paint u c color) xs ≤ whites color xs
unfolding whites
whites-paint_le u c color [] h = omega arith
whites-paint_le u c color (x ∷ xs) h = ground (arith, whites-paint_le u c color xs h)

whites-paint_lt :
    (u : String) (c : Color) (color : String → Color) (xs : List String)
    → is_white c ≡ false
    → contains u xs ≡ true
    → is_white (color u) ≡ true
    → whites (paint u c color) xs < whites color xs
unfolding whites
whites-paint_lt u c color [] h m k = cc
whites-paint_lt u c color (x ∷ xs) h m k =
    ground (
      arith,
      whites-paint_lt u c color xs h,
      whites-paint_le u c color xs h,
      eq_iff x u,
      eq_iff u x,
    )

module _ (ir : FsmIr) where
  -- The call returns, and makes no name unvisited again.
  abbrev Returns : Option (Bool × Search) → ℕ → Type 0
  Returns o n =
      (found : Bool) × (s : Search) × (o ≡ some (found, s)) × (whites s.color (names ir) ≤ n)

  module _ (call : String → Search → Option (Bool × Search)) (most : ℕ)
      (call_returns : (v : String) (s : Search)
        → contains v (names ir) ≡ true
        → s.color v ≡ white
        → whites s.color (names ir) < most
        → Returns (call v s) (whites s.color (names ir))) where
    scan-Returns :
        (vs : List String) (s : Search)
        → ((v : String) → contains v vs ≡ true → contains v (names ir) ≡ true)
        → whites s.color (names ir) < most
        → Returns (scan ir call vs s) (whites s.color (names ir))
    unfolding report_cycle
    scan-Returns [] s h k = unfold scan in (false, s, refl, omega arith)
    scan-Returns (v ∷ vs) s h k = elim (Color-cases (s.color v)) [
      | inl w ↦
          let (found, s', e, le) = call_returns v s (h v (ground (arith, eq_iff v v))) w k in
          elim (Bool-cases found) [
            | inl hit ↦ (true, s', scan-found ir call v vs s s' w (rw hit at e), le)
            | inr miss ↦
                let (b, t, e', le') = scan-Returns vs s' later (omega arith) in
                (b, t, scan-passed ir call v vs s s' w (rw miss at e) ∙ e', omega arith)
          ]
      | inr (inl g) ↦ (true, report_cycle ir v s, scan-gray ir call v vs s g, omega arith)
      | inr (inr b) ↦
          let (found, t, e, le) = scan-Returns vs s later k in
          (found, t, scan-black ir call v vs s b ∙ e, le)
    ]
      where
        later : (w : String) → contains w vs ≡ true → contains w (names ir) ≡ true
        later w m = h w (ground arith)

  zero_adj-names : (u v : String) → contains v (zero_adj ir u) ≡ true → contains v (names ir) ≡ true
  unfolding zero_adj names adjacent
  zero_adj-names u v m =
      contains-append v (map (λ (s : StateNode). s.id) ir.states)
        (map (target_of ir) ir.transitions)
      ∙ ground (arith, among ir.transitions m)
    where
      among :
          (es : List TransitionEdge)
          → contains v (adjacent ir es u) ≡ true
          → contains v (map (target_of ir) es) ≡ true
      among [] h = cc
      among (e ∷ es) h = ground (arith, among es)

  -- Fuel above the number of unvisited names is enough.
  dfs-Returns :
      (fuel : ℕ) (u : String) (s : Search)
      → contains u (names ir) ≡ true
      → s.color u ≡ white
      → whites s.color (names ir) < fuel
      → Returns (dfs ir fuel u s) (whites s.color (names ir))
  unfolding enter leave
  dfs-Returns zero u s m w h = elim h [ ]
  dfs-Returns (suc fuel) u s m w h =
      let visited = whites-paint_lt u gray s.color (names ir) refl m (rw w refl) in
      let (found, s', e, le) =
        scan-Returns (dfs ir fuel) fuel (dfs-Returns fuel) (zero_adj ir u) (enter u s)
          (zero_adj-names u) (omega arith) in
      elim (Bool-cases found) [
        | inl hit ↦ (true, s', dfs-found ir fuel u s s' (rw hit at e), omega arith)
        | inr miss ↦ (
          false,
          leave u s',
          dfs-passed ir fuel u s s' (rw miss at e),
          omega (arith, whites-paint_le u black s'.color (names ir) refl),
        )
      ]

  search_all_returns :
      (fuel : ℕ) (xs : List StateNode) (found : Bool) (s : Search)
      → ((x : String)
          → contains x (map (λ (s : StateNode). s.id) xs) ≡ true
          → contains x (names ir) ≡ true)
      → whites s.color (names ir) < fuel
      → (b : Bool) × (t : Search) × (search_all ir fuel xs found s ≡ some (b, t))
  search_all_returns fuel [] found s m h = unfold search_all in (found, s, refl)
  search_all_returns fuel (x ∷ xs) found s m h = elim (Color-cases (s.color x.id)) [
    | inl w ↦
        let (more, s', e, le) =
          dfs-Returns fuel x.id s (m x.id (ground (arith, eq_iff x.id x.id))) w h in
        let (b, t, e') = search_all_returns fuel xs (found || more) s' later (omega arith) in
        (b, t, search_all-fresh ir fuel x xs found s more s' w e ∙ e')
    | inr other ↦
        let (b, t, e) = search_all_returns fuel xs found s later h in
        (b, t, search_all-seen ir fuel x xs found s other ∙ e)
  ]
    where
      later :
          (y : String)
          → contains y (map (λ (s : StateNode). s.id) xs) ≡ true
          → contains y (names ir) ≡ true
      later y k = m y (ground arith)

  -- The search over all states returns.
  pub search_returns :
      (b : Bool) × (t : Search) × (search_all ir (length (names ir) + 1) ir.states false unvisited
        ≡ some (b, t))
  search_returns =
      search_all_returns (length (names ir) + 1) ir.states false unvisited
        (λ x m.
          unfold names in contains-append x (map (λ (s : StateNode). s.id) ir.states) _ ∙ rw m)
        (omega (arith, whites-le-length (λ u. white) (names ir)))

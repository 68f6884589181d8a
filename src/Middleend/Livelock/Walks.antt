-- ===== src/Middleend/Livelock/Walks.antt =====
-- livelock_analysis_pass.cpp: walks of transitions that take no time, and lists that a walk cannot
-- leave.
use fsmc.Common.{
  ◌≡◌, refl, ap, inl, inr, true, String, str_eq, eq_iff, List, [], ◌∷◌, ◌++◌, contains, Bool-cases,
  arith,
}
use fsmc.Middleend.Livelock.{drop_to, drop_last}

module _ (next : String → List String) where
  -- A walk from `x` to `u` along the names listed, which follow `x`.
  abbrev pub Walk : String → List String → String → Type 0
  Walk x [] u = x ≡ u
  Walk x (y ∷ r) u = (contains y (next x) ≡ true) × Walk y r u

  pub Walk-concat :
      (x : String) (p : List String) (u v : String)
      → Walk x p u
      → contains v (next u) ≡ true
      → Walk x (p ++ v ∷ []) v
  Walk-concat x [] u v w e = (rw w e, refl)
  Walk-concat x (y ∷ r) u v w e = (w.0, Walk-concat y r u v w.1 e)

  -- From a place on a walk, the rest of it.
  pub Walk-drop_to :
      (x : String) (p : List String) (u v : String)
      → Walk x p u
      → contains v (x ∷ p) ≡ true
      → (q : List String) × (r : List String) × Walk x q v
        × Walk v r u
        × (drop_to v (x ∷ p) ≡ v ∷ r)
  Walk-drop_to x [] u v w m =
      let same : x ≡ v = ground (arith, eq_iff x v) in
      ([], [], same, rw (← same) w, rw ((eq_iff x v).1 same) (ap (λ a. a ∷ []) same))
  Walk-drop_to x (y ∷ p) u v w m = elim (Bool-cases (str_eq x v)) [
    | inl hit ↦
        let same = (eq_iff x v).0 hit in
        ([], y ∷ p, same, rw (← same) w, rw hit (ap (λ a. a ∷ y ∷ p) same))
    | inr miss ↦
        let (q, r, before, after, rest) = Walk-drop_to y p u v w.1 (rw miss at m) in
        (y ∷ q, r, (w.0, before), after, rw miss rest)
  ]

  -- The list holds what its members lead to, and each leads only to members behind it.
  abbrev pub IsRanked : List String → Type 0
  IsRanked [] = Unit
  IsRanked (b ∷ bs) =
      ((v : String) → contains v (next b) ≡ true → contains v bs ≡ true) × IsRanked bs

  -- A name and a further walk come back to the name.
  abbrev pub Circuit : String → List String → Type 0
  Circuit v [] = ⊥
  Circuit v (w ∷ r) = Walk v (w ∷ r) v

  IsRanked-closed :
      (bs : List String)
      → IsRanked bs
      → (u v : String) → contains u bs ≡ true
      → contains v (next u) ≡ true
      → contains v bs ≡ true
  IsRanked-closed [] h u v m e = cc
  IsRanked-closed (b ∷ bs) h u v m e = elim (Bool-cases (str_eq b u)) [
    | inl own ↦ ground (arith, h.0 v (rw ((eq_iff b u).0 own) e))
    | inr other ↦ ground (arith, IsRanked-closed bs h.1 u v (rw other at m) e)
  ]

  pub IsRanked-Walk :
      (bs : List String)
      → IsRanked bs
      → (u : String) (p : List String) (v : String) → contains u bs ≡ true
      → Walk u p v
      → contains v bs ≡ true
  IsRanked-Walk bs h u [] v m w = rw (← w) m
  IsRanked-Walk bs h u (y ∷ r) v m w = IsRanked-Walk bs h y r v (IsRanked-closed bs h u y m w.0) w.1

  pub IsRanked-Circuit :
      (bs : List String)
      → IsRanked bs
      → (v : String) (r : List String) → contains v bs ≡ true
      → ¬ Circuit v r
  IsRanked-Circuit [] h v r m c = cc
  IsRanked-Circuit (b ∷ bs) h v [] m c = c
  IsRanked-Circuit (b ∷ bs) h v (w ∷ r) m c = elim (Bool-cases (contains v bs)) [
    | inl behind ↦ IsRanked-Circuit bs h.1 v (w ∷ r) behind c
    | inr first ↦
        let same : b ≡ v = ground (arith, eq_iff b v) in
        let there = h.0 w (rw same c.0) in
        absurd (ground (arith, IsRanked-Walk bs h.1 w r v there c.1))
  ]

pub drop_last-concat : (p : List String) (u : String) → drop_last (p ++ u ∷ []) ≡ p
drop_last-concat [] u = refl
drop_last-concat (x ∷ []) u = refl
drop_last-concat (x ∷ y ∷ r) u = ap (◌∷◌ x) (drop_last-concat (y ∷ r) u)

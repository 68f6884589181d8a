-- ===== src/Middleend/Livelock/Reports.antt =====
-- livelock_analysis_pass.cpp: messages are only added.
use mathlib.Core.Option.{some-injective}
use mathlib.Core.Path.{subst}
use mathlib.Core.List.{append_assoc, append-nil}
use fsmc.Common.{
  ℕ, zero, suc, ◌≡◌, refl, sym, ◌∙◌, ap, inl, inr, Bool, true, false, ◌||◌, String, List, [], ◌∷◌,
  ◌++◌, Option, some, Option-cases, Bool-cases,
}
use fsmc.Ir.Model.{StateNode, FsmIr}
use fsmc.Middleend.Livelock.{Search, enter, leave, report_cycle, scan, dfs, zero_adj, search_all}
use fsmc.Middleend.Livelock.Steps.{
  Color-cases, scan-nil, search_all-nil, scan-gray, scan-black, scan-found, scan-passed,
  scan-stopped, dfs-found, dfs-passed, dfs-stopped, search_all-fresh, search_all-seen,
  search_all-stopped,
}

-- The second list of messages begins with the first.
abbrev pub Grows : Search → Search → Type 0
Grows s t = (more : List (List String)) × (t.reports ≡ s.reports ++ more)

Grows-refl : (s : Search) → Grows s s
Grows-refl s = ([], sym (append-nil s.reports))

Grows-trans : (s t u : Search) → Grows s t → Grows t u → Grows s u
Grows-trans s t u (xs, e) (ys, k) =
    (xs ++ ys, k ∙ ap (λ r. r ++ ys) e ∙ append_assoc s.reports xs ys)

Grows-of :
    (s : Search) {b found : Bool} {t t' : Search}
    → Grows s t
    → ◌≡◌ {A = Option (Bool × Search)} (some (b, t)) (some (found, t'))
    → Grows s t'
Grows-of s {b} {found} {t} {t'} g e =
    subst (λ (p : Bool × Search). Grows s p.1) (some-injective (b, t) (found, t') e) g

module _ (ir : FsmIr) where
  abbrev AllGrow : (String → Search → Option (Bool × Search)) → Type 0
  AllGrow call =
      (v : String) (s : Search) (found : Bool) (t : Search) → call v s ≡ some (found, t) → Grows s t

  module _ (call : String → Search → Option (Bool × Search)) (grow : AllGrow call) where
    scan-Grows :
        (vs : List String) (s : Search) (found : Bool) (t : Search)
        → scan ir call vs s ≡ some (found, t)
        → Grows s t
    scan-Grows [] s found t h = Grows-of s {b = false} (Grows-refl s) (sym (scan-nil ir call s) ∙ h)
    scan-Grows (v ∷ vs) s found t h = elim (Color-cases (s.color v)) [
      | inl w ↦ elim (Option-cases (call v s)) [
        | inl stuck ↦ absurd (cc (scan-stopped ir call v vs s w stuck))
        | inr ((b, s'), e) ↦ elim (Bool-cases b) [
          | inl hit ↦
              Grows-of s {b = true} (grow v s b s' e)
                (sym (scan-found ir call v vs s s' w (rw hit at e)) ∙ h)
          | inr miss ↦
              Grows-trans s s' t (grow v s b s' e) (
                scan-Grows vs s' found t (sym (scan-passed ir call v vs s s' w (rw miss at e)) ∙ h))
        ]
      ]
      | inr (inl g) ↦
          let one : Grows s (report_cycle ir v s) = unfold report_cycle in (_, refl) in
          Grows-of s {b = true} one (sym (scan-gray ir call v vs s g) ∙ h)
      | inr (inr b) ↦ scan-Grows vs s found t (sym (scan-black ir call v vs s b) ∙ h)
    ]

  dfs-Grows : (fuel : ℕ) → AllGrow (dfs ir fuel)
  unfolding enter leave
  dfs-Grows zero u s found t h = unfold dfs in cc
  dfs-Grows (suc fuel) u s found t h =
      elim (Option-cases (scan ir (dfs ir fuel) (zero_adj ir u) (enter u s))) [
        | inl stuck ↦ absurd (cc (dfs-stopped ir fuel u s stuck))
        | inr ((b, s'), e) ↦
            let g = scan-Grows (dfs ir fuel) (dfs-Grows fuel) (zero_adj ir u) (enter u s) b s' e in
            elim (Bool-cases b) [
              | inl hit ↦
                  Grows-of s {b = true} {t = s'} (g.0, g.1)
                    (sym (dfs-found ir fuel u s s' (rw hit at e)) ∙ h)
              | inr miss ↦
                  Grows-of s {b = false} {t = leave u s'} (g.0, g.1)
                    (sym (dfs-passed ir fuel u s s' (rw miss at e)) ∙ h)
            ]
      ]

  pub search_all-Grows :
      (fuel : ℕ) (xs : List StateNode) (has : Bool) (s : Search) (found : Bool) (t : Search)
      → search_all ir fuel xs has s ≡ some (found, t)
      → Grows s t
  search_all-Grows fuel [] has s found t h =
      Grows-of s {b = has} (Grows-refl s) (sym (search_all-nil ir fuel has s) ∙ h)
  search_all-Grows fuel (x ∷ xs) has s found t h = elim (Color-cases (s.color x.id)) [
    | inl w ↦ elim (Option-cases (dfs ir fuel x.id s)) [
      | inl stuck ↦ absurd (cc (search_all-stopped ir fuel x xs has s w stuck))
      | inr ((more, s'), e) ↦ Grows-trans s s' t (dfs-Grows fuel x.id s more s' e) (
          search_all-Grows fuel xs (has || more) s' found t
            (sym (search_all-fresh ir fuel x xs has s more s' w e) ∙ h))
    ]
    | inr other ↦
        search_all-Grows fuel xs has s found t (sym (search_all-seen ir fuel x xs has s other) ∙ h)
  ]

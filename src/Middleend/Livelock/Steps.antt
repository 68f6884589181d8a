-- ===== src/Middleend/Livelock/Steps.antt =====
-- livelock_analysis_pass.cpp: what each step of the search computes to.
use fsmc.Common.{
  ℕ, suc, ◌≡◌, ◌⊎◌, refl, inl, inr, Bool, true, false, ◌||◌, String, List, [], ◌∷◌, Option, none,
  some,
}
use fsmc.Ir.Model.{StateNode, FsmIr}
use fsmc.Middleend.Livelock.{
  Color, white, gray, black, Search, enter, leave, report_cycle, scan, dfs, zero_adj, search_all,
}

pub Color-cases : (c : Color) → (c ≡ white) ⊎ (c ≡ gray) ⊎ (c ≡ black)
Color-cases white = inl refl
Color-cases gray = inr (inl refl)
Color-cases black = inr (inr refl)

module _ (ir : FsmIr) (call : String → Search → Option (Bool × Search)) (v : String)
    (vs : List String) (s : Search) where
  pub scan-gray : s.color v ≡ gray → scan ir call (v ∷ vs) s ≡ some (true, report_cycle ir v s)
  unfolding scan
  scan-gray g = rw (g, scan) refl

  pub scan-black : s.color v ≡ black → scan ir call (v ∷ vs) s ≡ scan ir call vs s
  unfolding scan
  scan-black b = rw (b, scan) refl

  pub scan-found :
      (s' : Search)
      → s.color v ≡ white
      → call v s ≡ some (true, s')
      → scan ir call (v ∷ vs) s ≡ some (true, s')
  unfolding scan
  scan-found s' w c = rw (w, scan) (rw c refl)

  pub scan-passed :
      (s' : Search)
      → s.color v ≡ white
      → call v s ≡ some (false, s')
      → scan ir call (v ∷ vs) s ≡ scan ir call vs s'
  unfolding scan
  scan-passed s' w c = rw (w, scan) (rw c refl)

  pub scan-stopped : s.color v ≡ white → call v s ≡ none → scan ir call (v ∷ vs) s ≡ none
  unfolding scan
  scan-stopped w c = rw (w, scan) (rw c refl)

pub dfs-stopped :
    (ir : FsmIr) (fuel : ℕ) (u : String) (s : Search)
    → scan ir (dfs ir fuel) (zero_adj ir u) (enter u s) ≡ none
    → dfs ir (suc fuel) u s ≡ none
unfolding dfs
dfs-stopped ir fuel u s e = rw (e, dfs) refl

module _ (ir : FsmIr) (fuel : ℕ) (u : String) (s s' : Search) where
  pub dfs-found :
      scan ir (dfs ir fuel) (zero_adj ir u) (enter u s) ≡ some (true, s')
      → dfs ir (suc fuel) u s ≡ some (true, s')
  unfolding dfs
  dfs-found e = rw (e, dfs) refl

  pub dfs-passed :
      scan ir (dfs ir fuel) (zero_adj ir u) (enter u s) ≡ some (false, s')
      → dfs ir (suc fuel) u s ≡ some (false, leave u s')
  unfolding dfs
  dfs-passed e = rw (e, dfs) refl

module _ (ir : FsmIr) (fuel : ℕ) (x : StateNode) (xs : List StateNode) (found : Bool)
    (s : Search) where
  pub search_all-fresh :
      (more : Bool) (s' : Search)
      → s.color x.id ≡ white
      → dfs ir fuel x.id s ≡ some (more, s')
      → search_all ir fuel (x ∷ xs) found s ≡ search_all ir fuel xs (found || more) s'
  unfolding search_all
  search_all-fresh more s' w e = rw (w, search_all) (rw e refl)

  pub search_all-stopped :
      s.color x.id ≡ white → dfs ir fuel x.id s ≡ none → search_all ir fuel (x ∷ xs) found s ≡ none
  unfolding search_all
  search_all-stopped w e = rw (w, search_all) (rw e refl)

  pub search_all-seen :
      (s.color x.id ≡ gray) ⊎ (s.color x.id ≡ black)
      → search_all ir fuel (x ∷ xs) found s ≡ search_all ir fuel xs found s
  unfolding search_all
  search_all-seen (inl g) = rw (g, search_all) refl
  search_all-seen (inr b) = rw (b, search_all) refl

pub scan-nil :
    (ir : FsmIr) (call : String → Search → Option (Bool × Search)) (s : Search)
    → scan ir call [] s ≡ some (false, s)
unfolding scan
scan-nil ir call s = refl

pub search_all-nil :
    (ir : FsmIr) (fuel : ℕ) (found : Bool) (s : Search)
    → search_all ir fuel [] found s ≡ some (found, s)
unfolding search_all
search_all-nil ir fuel found s = refl

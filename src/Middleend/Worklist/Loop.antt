-- ===== src/Middleend/Worklist/Loop.antt =====
-- The worklist loop: what a round adds, and that the loop ends.
use fsmc.Common.{
  ℕ, zero, suc, ◌+◌, ◌≤◌, ◌≡◌, refl, ap, ◌⊎◌, inl, inr, true, not, ◌&&◌, ◌||◌, String, eq_iff, List,
  [], ◌∷◌, some, arith, length, length-append, contains, contains-append, unseen, unseen-cons,
  unseen-le-length,
}
use fsmc.Middleend.Worklist.{Search, visit, visit_all, expand, loop, start}

pub reached-visit_all :
    (s : Search) (vs : List String) (w : String)
    → contains w (visit_all s vs).reached ≡ (contains w s.reached || contains w vs)
unfolding visit_all
reached-visit_all s [] w = ground arith
reached-visit_all s (v ∷ vs) w =
    ground (arith, reached-visit_all (visit s v) vs w, eq_iff v w, eq_iff w v)

pub queue-visit_all :
    (s : Search) (vs : List String) (w : String)
    → contains w (visit_all s vs).queue
      ≡ (contains w s.queue || (contains w vs && not (contains w s.reached)))
unfolding visit_all
queue-visit_all s [] w = ground arith
queue-visit_all s (v ∷ vs) w =
    ground (arith, queue-visit_all (visit s v) vs w, contains-append w s.queue (v ∷ []), eq_iff v w)

abbrev pub AllIn : List String → List String → Type 0
AllIn [] names = Unit
AllIn (v ∷ vs) names = (contains v names ≡ true) × AllIn vs names

-- The work left: names not reached, and names queued.
abbrev pub work : List String → Search → ℕ
work names s = unseen names s.reached + length s.queue

work-visit :
    (names : List String) (s : Search) (v : String)
    → contains v names ≡ true
    → work names (visit s v) ≤ work names s
unfolding visit
work-visit names s v h =
    ground (arith, unseen-cons names s.reached v h, length-append s.queue (v ∷ []))

work-visit_all :
    (names : List String) (s : Search) (vs : List String)
    → AllIn vs names
    → work names (visit_all s vs) ≤ work names s
unfolding visit_all
work-visit_all names s [] h = omega arith
work-visit_all names s (v ∷ vs) h =
    let here = work-visit names s v h.0 in
    let later = work-visit_all names (visit s v) vs h.1 in omega arith

pub List-cases {ℓ} :
    {A : Type ℓ} (xs : List A) → (xs ≡ []) ⊎ ((x : A) × (rest : List A) × (xs ≡ x ∷ rest))
List-cases [] = inl refl
List-cases (x ∷ xs) = inr (x, xs, refl)

module _ (successors : String → List String) (names : List String)
    (closed : (u : String) → AllIn (successors u) names) where
  -- A round takes one name off the queue, and queues only names that it reaches.
  pub loop_ends :
      (fuel : ℕ) (s : Search)
      → work names s ≤ fuel
      → (t : Search) × (loop successors fuel s ≡ some t)
  unfolding loop expand
  loop_ends zero s h = (s, ground arith)
  loop_ends (suc fuel) s h = elim (List-cases s.queue) [
    | inl e ↦ (s, simp (e, loop))
    | inr (u, rest, e) ↦
        let less = work-visit_all names (record s { queue = rest }) (successors u) (closed u) in
        let (t, ends) = loop_ends fuel (expand successors s u rest) (omega (arith, ap length e)) in
        (t, rw (e, loop) ends)
  ]

  pub start_ends :
      (root : String)
      → (t : Search) × (loop successors (length names + 1) (start successors root) ≡ some t)
  unfolding start
  start_ends root =
      loop_ends (length names + 1) _ (omega (arith, unseen-le-length names (root ∷ [])))

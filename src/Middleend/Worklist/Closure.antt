-- ===== src/Middleend/Worklist/Closure.antt =====
-- The worklist loop reaches exactly the names that successors lead to from the root.
use mathlib.Core.Option.{some-injective, none-ne-some}
use fsmc.Common.{
  ℕ, zero, suc, ◌≡◌, ap, ◌↔◌, ◌⊎◌, inl, inr, true, String, eq_iff, List, [], ◌∷◌, some, arith,
  contains, or_split,
}
use fsmc.Middleend.Worklist.{Search, expand, loop, start}
use fsmc.Middleend.Worklist.Loop.{reached-visit_all, queue-visit_all, List-cases}

module _ (successors : String → List String) (root : String) where
  -- The names that a chain of successors leads to.
  pub data Reach : String → Type 0 where
    here : Reach root
    next : {u v : String} → Reach u → contains v (successors u) ≡ true → Reach v

  record Inv (s : Search) : Type 0 where
    source : contains root s.reached ≡ true
    queued : (v : String) → contains v s.queue ≡ true → contains v s.reached ≡ true
    sound : (v : String) → contains v s.reached ≡ true → Reach v
    complete :
        (u v : String)
        → contains u s.reached ≡ true
        → contains v (successors u) ≡ true
        → (contains u s.queue ≡ true) ⊎ (contains v s.reached ≡ true)

  start-Inv : Inv (start successors root)
  unfolding start
  start-Inv = record {
    source = ground (arith, eq_iff root root);
    queued = λ v q. q;
    sound = λ v m. let e : root ≡ v = ground (arith, eq_iff root v) in rw (← e) here;
    complete = λ u v m e. inl m;
  }

  expand-Inv :
      (s : Search) (u : String) (rest : List String)
      → s.queue ≡ u ∷ rest
      → Inv s
      → Inv (expand successors s u rest)
  unfolding expand
  expand-Inv s u rest e h =
      let s' = record s { queue = rest } in
      let flags = λ (w : String). reached-visit_all s' (successors u) w in
      let line = λ (w : String). queue-visit_all s' (successors u) w in
      let before = λ (w : String). ap (contains w) e in
      let own = h.queued u (ground (arith, before u, eq_iff u u)) in
      record {
        source = ground (arith, flags root, h.source);
        queued = λ v q. ground (arith, flags v, line v, before v, h.queued v);
        sound = λ v m.
            elim (or_split (contains v s.reached) (contains v (successors u))
              (ground (arith, flags v))) [
                | inl old ↦ h.sound v old
                | inr new ↦ next (h.sound u own) new
              ];
        complete = λ x v m edge.
            ground (arith, flags x, flags v, line x, before x, h.complete x v, eq_iff u x);
      }

  loop-Inv :
      (fuel : ℕ) (s t : Search) → Inv s → loop successors fuel s ≡ some t → Inv t × (t.queue ≡ [])
  unfolding loop
  loop-Inv zero s t v h = elim (List-cases s.queue) [
    | inl e ↦
        let same : s ≡ t = some-injective s t (simp (e, loop) at h) in
        (rw (← same) v, rw (← same) e)
    | inr (u, rest, e) ↦ absurd (none-ne-some t (rw (e, loop) at h))
  ]
  loop-Inv (suc fuel) s t v h = elim (List-cases s.queue) [
    | inl e ↦
        let same : s ≡ t = some-injective s t (simp (e, loop) at h) in
        (rw (← same) v, rw (← same) e)
    | inr (u, rest, e) ↦
        loop-Inv fuel (expand successors s u rest) t (expand-Inv s u rest e v) (rw (e, loop) at h)
  ]

  -- Nothing is queued at the end, so the names reached are closed under successors.
  closed_end :
      (t : Search) → Inv t → t.queue ≡ [] → {v : String} → Reach v → contains v t.reached ≡ true
  closed_end t v e here = v.source
  closed_end t v e (next {u} {v = w} r edge) = elim (v.complete u w (closed_end t v e r) edge) [
    | inl waiting ↦ cc (ap (contains u) e)
    | inr m ↦ m
  ]

  pub loop-Reach :
      (fuel : ℕ) (t : Search)
      → loop successors fuel (start successors root) ≡ some t
      → (v : String) → (contains v t.reached ≡ true) ↔ Reach v
  loop-Reach fuel t h v =
      let (inv, empty) = loop-Inv fuel (start successors root) t start-Inv h in
      (inv.sound v, closed_end t inv empty)

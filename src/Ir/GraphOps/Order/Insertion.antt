-- ===== src/Ir/GraphOps/Order/Insertion.antt =====
-- fsm_graph_ops.cpp: the sort, for any comparison that is a strict weak order on the elements.
use fsmc.Common.{
  ◌≡◌, refl, ◌∙◌, inl, inr, Bool, true, false, List, [], ◌∷◌, keep_if, Bool-cases, arith,
}
use fsmc.Ir.GraphOps.Order.{insert_sorted, stable_sort}

module _ {ℓ} {A : Type ℓ} where
  abbrev pub All : (A → Type 0) → List A → Type 0
  All P [] = Unit
  All P (x ∷ xs) = P x × All P xs

  -- Every earlier element stands in the relation to every later one.
  abbrev pub Ordered : (A → A → Type 0) → List A → Type 0
  Ordered R [] = Unit
  Ordered R (x ∷ xs) = All (R x) xs × Ordered R xs

  pub All-mono : {P Q : A → Type 0} (xs : List A) → ((x : A) → P x → Q x) → All P xs → All Q xs
  All-mono [] h k = tt
  All-mono (x ∷ xs) h k = (h x k.0, All-mono xs h k.1)

  module _ (less : A → A → Bool) where
    pub All-insert_sorted :
        (P : A → Type 0) (x : A) (xs : List A) → P x → All P xs → All P (insert_sorted less x xs)
    unfolding insert_sorted
    All-insert_sorted P x [] p h = (p, tt)
    All-insert_sorted P x (y ∷ ys) p h = elim (Bool-cases (less y x)) [
      | inl past ↦ rw past (h.0, All-insert_sorted P x ys p h.1)
      | inr here ↦ rw here (p, h)
    ]

    pub All-stable_sort : (P : A → Type 0) (xs : List A) → All P xs → All P (stable_sort less xs)
    unfolding stable_sort
    All-stable_sort P [] h = tt
    All-stable_sort P (x ∷ xs) h =
        All-insert_sorted P x (stable_sort less xs) h.0 (All-stable_sort P xs h.1)

    -- The order that the sort is to respect, on the elements that belong.
    module _ (Belongs : A → Type 0) (R : A → A → Type 0)
        (less-R : (a b : A) → Belongs a → Belongs b → less a b ≡ true → R a b)
        (not-less-R : (a b : A) → Belongs a → Belongs b → less a b ≡ false → R b a)
        (trans : (a b c : A) → R a b → R b c → R a c) where
      pub insert_sorted-Ordered :
          (x : A) (xs : List A)
          → Belongs x
          → All Belongs xs
          → Ordered R xs
          → Ordered R (insert_sorted less x xs)
      unfolding insert_sorted
      insert_sorted-Ordered x [] bx b o = (tt, tt)
      insert_sorted-Ordered x (y ∷ ys) bx b o = elim (Bool-cases (less y x)) [
        | inl past ↦ rw past (
          All-insert_sorted (R y) x ys (less-R y x b.0 bx past) o.0,
          insert_sorted-Ordered x ys bx b.1 o.1,
        )
        | inr here ↦
            let first : R x y = not-less-R y x b.0 bx here in
            rw here ((first, All-mono ys (λ z r. trans x y z first r) o.0), o)
      ]

      pub stable_sort-Ordered : (xs : List A) → All Belongs xs → Ordered R (stable_sort less xs)
      unfolding stable_sort
      stable_sort-Ordered [] b = tt
      stable_sort-Ordered (x ∷ xs) b =
          insert_sorted-Ordered x (stable_sort less xs) b.0 (All-stable_sort Belongs xs b.1)
            (stable_sort-Ordered xs b.1)

    -- A class of elements of which none is less than another.
    module _ (test : A → Bool)
        (level : (a b : A) → test a ≡ true → test b ≡ true → less a b ≡ false) where
      keep_if-insert_sorted :
          (x : A) (xs : List A) → keep_if test (insert_sorted less x xs) ≡ keep_if test (x ∷ xs)
      unfolding insert_sorted
      keep_if-insert_sorted x [] = refl
      keep_if-insert_sorted x (y ∷ ys) = ground (arith, level y x, keep_if-insert_sorted x ys)

      -- The sort keeps the elements of the class in their order.
      pub keep_if-stable_sort : (xs : List A) → keep_if test (stable_sort less xs) ≡ keep_if test xs
      unfolding stable_sort
      keep_if-stable_sort [] = refl
      keep_if-stable_sort (x ∷ xs) =
          keep_if-insert_sorted x (stable_sort less xs) ∙ ground (arith, keep_if-stable_sort xs)

-- ===== src/Runtime/StaticVector/Slots.antt =====
-- The first slots of an array under writes, and under the loop of static_vector::erase.
use fsmc.Common.{
  ℕ, zero, suc, ◌+◌, ◌≤◌, ◌<◌, ◌≡◌, refl, ap, ◌∙◌, List, [], ◌∷◌, ◌++◌, none, some, length, get_or,
  get_elem?, set, take, length-set, arith,
}
use fsmc.Runtime.StaticVector.{shift}

module _ {ℓ} {A : Type ℓ} where
  -- The list without its element at `i`, and the list without its last element.
  abbrev pub remove_at : List A → ℕ → List A
  remove_at [] i = []
  remove_at (x ∷ xs) zero = xs
  remove_at (x ∷ xs) (suc i) = x ∷ remove_at xs i

  abbrev pub drop_last : List A → List A
  drop_last [] = []
  drop_last (x ∷ []) = []
  drop_last (x ∷ y ∷ ys) = x ∷ drop_last (y ∷ ys)

  pub length-take : (n : ℕ) (xs : List A) → n ≤ length xs → length (take n xs) ≡ n
  length-take zero xs h = refl
  length-take (suc n) [] h = absurd (omega arith)
  length-take (suc n) (x ∷ xs) h = ap suc (length-take n xs (omega arith))

  pub take-set_end :
      (n : ℕ) (xs : List A) (a : A)
      → n < length xs
      → take (suc n) (set xs n a) ≡ take n xs ++ a ∷ []
  take-set_end n [] a h = absurd (omega arith)
  take-set_end zero (x ∷ xs) a h = refl
  take-set_end (suc n) (x ∷ xs) a h = ap (◌∷◌ x) (take-set_end n xs a (omega arith))

  pub take-set_beyond : (n i : ℕ) (xs : List A) (a : A) → n ≤ i → take n (set xs i a) ≡ take n xs
  take-set_beyond zero i xs a h = refl
  take-set_beyond (suc n) i [] a h = refl
  take-set_beyond (suc n) zero (x ∷ xs) a h = absurd (omega arith)
  take-set_beyond (suc n) (suc i) (x ∷ xs) a h = ap (◌∷◌ x) (take-set_beyond n i xs a (omega arith))

  pub drop_last-take :
      (n : ℕ) (xs : List A) → suc n ≤ length xs → drop_last (take (suc n) xs) ≡ take n xs
  drop_last-take n [] h = absurd (omega arith)
  drop_last-take zero (x ∷ xs) h = refl
  drop_last-take (suc n) (x ∷ []) h = absurd (omega arith)
  drop_last-take (suc n) (x ∷ y ∷ ys) h = ap (◌∷◌ x) (drop_last-take n (y ∷ ys) (omega arith))

module _ {ℓ} {A : Type ℓ} (default : A) where
  pub shift-cons :
      (n i : ℕ) (x : A) (xs : List A) → shift default n (suc i) (x ∷ xs) ≡ x ∷ shift default n i xs
  unfolding shift
  shift-cons zero i x xs = refl
  shift-cons (suc n) i x xs = shift-cons n (suc i) x (set xs i (get_or xs (suc i) default))

  pub shift_front :
      (n : ℕ) (x : A) (xs : List A)
      → n ≤ length xs
      → take n (shift default n 0 (x ∷ xs)) ≡ take n xs
  unfolding shift
  shift_front zero x xs h = refl
  shift_front (suc n) x [] h = absurd (omega arith)
  shift_front (suc n) x (y ∷ ys) h =
      rw (shift-cons n 0 y (y ∷ ys)) (ap (◌∷◌ y) (shift_front n y ys (omega arith)))

  -- What the loop of erase leaves in the first slots.
  pub take-shift :
      (i n : ℕ) (xs : List A)
      → i + n < length xs
      → take (i + n) (shift default n i xs) ≡ remove_at (take (suc (i + n)) xs) i
  take-shift i n [] h = absurd (omega arith)
  take-shift zero n (x ∷ xs) h =
      let e : zero + n ≡ n = omega arith in rw e (shift_front n x xs (omega arith))
  take-shift (suc i) n (x ∷ xs) h =
      let e : suc i + n ≡ suc (i + n) = omega arith in
      rw (e, shift-cons n i x xs) (ap (◌∷◌ x) (take-shift i n xs (omega arith)))

  pub length-shift : (n i : ℕ) (xs : List A) → length (shift default n i xs) ≡ length xs
  unfolding shift
  length-shift zero i xs = refl
  length-shift (suc n) i xs = length-shift n (suc i) (set xs i _) ∙ length-set xs i _

module _ {ℓ} {A : Type ℓ} where
  pub remove_at_beyond : (xs : List A) (i : ℕ) → length xs ≤ i → remove_at xs i ≡ xs
  remove_at_beyond [] i h = refl
  remove_at_beyond (x ∷ xs) zero h = absurd (omega arith)
  remove_at_beyond (x ∷ xs) (suc i) h = ap (◌∷◌ x) (remove_at_beyond xs i (omega arith))

  pub get_elem?-take :
      (n i : ℕ) (xs : List A) (d : A)
      → n ≤ length xs
      → i < n
      → get_elem? (take n xs) i ≡ some (get_or xs i d)
  get_elem?-take zero i xs d h k = absurd (omega arith)
  get_elem?-take (suc n) i [] d h k = absurd (omega arith)
  get_elem?-take (suc n) zero (x ∷ xs) d h k = refl
  get_elem?-take (suc n) (suc i) (x ∷ xs) d h k =
      get_elem?-take n i xs d (omega arith) (omega arith)

  pub get_elem?_beyond : (xs : List A) (i : ℕ) → length xs ≤ i → get_elem? xs i ≡ none
  get_elem?_beyond [] i h = refl
  get_elem?_beyond (x ∷ xs) zero h = absurd (omega arith)
  get_elem?_beyond (x ∷ xs) (suc i) h = get_elem?_beyond xs i (omega arith)

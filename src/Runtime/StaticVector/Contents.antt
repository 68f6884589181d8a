-- ===== src/Runtime/StaticVector/Contents.antt =====
-- static_vector.hpp: the elements in use, as a list.
use fsmc.Common.{
  ℕ, suc, ◌+◌, ◌-◌, ◌≤◌, ◌<◌, ◌≡◌, refl, ap, ◌∙◌, sym, inl, inr, List, [], ◌∷◌, ◌++◌, some, ◌==◌,
  ltb, if◌then◌else◌, length, get_or, get_elem?, not, take, length-set, length-replicate,
  Bool-cases, arith,
}
use fsmc.Runtime.StaticVector.{StaticVector, clear, push_back, initial, pop_back, at, shift, erase}
use fsmc.Runtime.StaticVector.Slots.{
  remove_at, drop_last, length-take, take-set_end, take-set_beyond, drop_last-take, take-shift,
  length-shift, remove_at_beyond, get_elem?-take, get_elem?_beyond,
}

pub record Inv {ℓ} {A : Type ℓ} (capacity : ℕ) (v : StaticVector A) : Type 0 where
  pub slots : length v.items ≡ capacity
  pub fits : v.size ≤ capacity

module _ {ℓ} {A : Type ℓ} where
  pub contents : StaticVector A → List A
  contents v = take v.size v.items

  pub length-contents :
      (capacity : ℕ) (v : StaticVector A) → Inv capacity v → length (contents v) ≡ v.size
  unfolding contents
  length-contents capacity v h = length-take v.size v.items (omega arith)

  pub contents-push_back :
      (capacity : ℕ) (v : StaticVector A) (value : A)
      → Inv capacity v
      → contents (push_back capacity v value).0
        ≡ (if length (contents v) == capacity then contents v else contents v ++ value ∷ [])
  unfolding push_back contents
  contents-push_back capacity v value h =
      rw (length-take v.size v.items (omega arith)) (elim (Bool-cases (v.size == capacity)) [
        | inl is_full ↦ rw is_full
        | inr room ↦
            let more : v.size + 1 ≡ suc v.size = omega arith in
            rw (room, more) (take-set_end v.size v.items value (ground arith))
      ])

  push_back_flag :
      (capacity : ℕ) (v : StaticVector A) (value : A)
      → Inv capacity v
      → (push_back capacity v value).1 ≡ not (length (contents v) == capacity)
  unfolding push_back contents
  push_back_flag capacity v value h =
      rw (length-take v.size v.items (omega arith))
        (elim (Bool-cases (v.size == capacity)) [ inl is_full ↦ rw is_full | inr room ↦ rw room ])

  contents-clear : (v : StaticVector A) → contents (clear v) ≡ []
  unfolding clear contents
  contents-clear v = refl

  pub push_back-Inv :
      (capacity : ℕ) (v : StaticVector A) (value : A)
      → Inv capacity v
      → Inv capacity (push_back capacity v value).0
  unfolding push_back
  push_back-Inv capacity v value h = ground (arith, length-set v.items v.size value)

module _ {ℓ} {A : Type ℓ} (default : A) (capacity : ℕ) where
  pub initial-Inv : Inv capacity (initial default capacity)
  unfolding initial
  initial-Inv = record { slots = length-replicate capacity default; fits = omega arith }

  pub contents-pop_back :
      (v : StaticVector A) → Inv capacity v → contents (pop_back default v) ≡ drop_last (contents v)
  unfolding pop_back contents
  contents-pop_back v h = elim (Bool-cases (ltb 0 v.size)) [
    | inl some_item ↦
        let one_more : v.size ≡ suc (v.size - 1) = ground arith in
        rw some_item (
          take-set_beyond (v.size - 1) (v.size - 1) v.items default (omega arith)
          ∙ sym (
              ap (λ n. drop_last (take n v.items)) one_more
              ∙ drop_last-take (v.size - 1) v.items (ground arith)))
    | inr none_left ↦ let nothing : v.size ≡ 0 = ground arith in rw (none_left, nothing)
  ]

  pub pop_back-Inv : (v : StaticVector A) → Inv capacity v → Inv capacity (pop_back default v)
  unfolding pop_back
  pop_back-Inv v h = ground (arith, length-set v.items (v.size - 1) default)

  pub contents-erase :
      (v : StaticVector A) (idx : ℕ)
      → Inv capacity v
      → contents (erase default v idx).0 ≡ remove_at (contents v) idx
  unfolding erase contents
  contents-erase v idx h = elim (Bool-cases (ltb idx v.size)) [
    | inl inside ↦
        let rounds = v.size - 1 - idx in
        let last : v.size - 1 ≡ idx + rounds = ground arith in
        let one_more : suc (idx + rounds) ≡ v.size = ground arith in
        let moved = shift default rounds idx v.items in
        rw inside (
          take-set_beyond (v.size - 1) (v.size - 1) moved default (omega arith)
          ∙ (ap (λ n. take n moved) last
              ∙ (take-shift default idx rounds v.items (ground arith)
                  ∙ ap (λ n. remove_at (take n v.items) idx) one_more)))
    | inr past ↦
        let beyond : v.size ≤ idx = ground arith in
        let n = length-take v.size v.items (omega arith) in
        rw past (sym (remove_at_beyond (take v.size v.items) idx (omega arith)))
  ]

  pub erase-Inv :
      (v : StaticVector A) (idx : ℕ) → Inv capacity v → Inv capacity (erase default v idx).0
  unfolding erase
  erase-Inv v idx h = ground (
    arith,
    length-shift default (v.size - 1 - idx) idx v.items,
    length-set (shift default (v.size - 1 - idx) idx v.items) (v.size - 1) default,
  )

  pub get_elem?-contents :
      (v : StaticVector A) (index : ℕ)
      → Inv capacity v
      → index < v.size
      → get_elem? (contents v) index ≡ some (get_or v.items index default)
  unfolding contents
  get_elem?-contents v index h inside =
      get_elem?-take v.size index v.items default (omega arith) inside

  pub at-contents :
      (v : StaticVector A) (index : ℕ)
      → Inv capacity v
      → at default v index ≡ get_elem? (contents v) index
  unfolding at contents
  at-contents v index h = elim (Bool-cases (ltb index v.size)) [
    | inl inside ↦
        rw inside (sym (get_elem?-take v.size index v.items default (omega arith) (ground arith)))
    | inr past ↦
        let n = length-take v.size v.items (omega arith) in
        let beyond : v.size ≤ index = ground arith in
        rw past (sym (get_elem?_beyond (take v.size v.items) index (omega arith)))
  ]

  -- A vector's operations act on its elements as on a list with a bound: push_back appends where
  -- there is room and reports whether there was, pop_back takes the last one, erase the one at the
  -- position, and an access finds the element at its index or fails past the end.
  pub contents_refines :
      (v : StaticVector A) (value : A) (i : ℕ)
      → Inv capacity v
      → (contents (push_back capacity v value).0
          ≡ (if length (contents v) == capacity then contents v else contents v ++ value ∷ []))
        × ((push_back capacity v value).1 ≡ not (length (contents v) == capacity))
        × (contents (pop_back default v) ≡ drop_last (contents v))
        × (contents (erase default v i).0 ≡ remove_at (contents v) i)
        × (at default v i ≡ get_elem? (contents v) i)
        × (contents (clear v) ≡ [])
  contents_refines v value i h = (
    contents-push_back capacity v value h,
    push_back_flag capacity v value h,
    contents-pop_back v h,
    contents-erase v i h,
    at-contents v i h,
    contents-clear v,
  )

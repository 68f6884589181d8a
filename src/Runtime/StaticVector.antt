-- ===== src/Runtime/StaticVector.antt =====
-- static_vector.hpp. The template's Capacity is a parameter, and so is the value-initialised element
-- T{}. An access past the end stops the program at its assertion, which `none` stands for; a build
-- without assertions reads a stale element there. The overloads by copy and by move are one function.
pub mod Slots
pub mod Contents
mod Examples
use fsmc.Common.{
  ℕ, zero, suc, ◌+◌, ◌-◌, Bool, true, false, List, [], ◌∷◌, Option, none, some, ◌==◌, ltb,
  if◌then◌else◌, get_or, set, replicate,
}

pub record StaticVector {ℓ} (A : Type ℓ) : Type ℓ where
  pub items : List A
  pub size : ℕ

module _ {ℓ} {A : Type ℓ} where
  unfoldable pub empty : StaticVector A → Bool
  empty v = v.size == 0

  unfoldable pub full : ℕ → StaticVector A → Bool
  full capacity v = v.size == capacity

  unfoldable pub clear : StaticVector A → StaticVector A
  clear v = record v { size = 0 }

  unfoldable pub push_back : ℕ → StaticVector A → A → StaticVector A × Bool
  unfolding full
  push_back capacity v value =
      if full capacity v
      then (v, false)
      else (record { items = set v.items v.size value; size = v.size + 1 }, true)

module _ {ℓ} {A : Type ℓ} (default : A) where
  unfoldable pub initial : ℕ → StaticVector A
  initial capacity = record { items = replicate capacity default; size = 0 }

  unfoldable pub pop_back : StaticVector A → StaticVector A
  pop_back v =
      if ltb 0 v.size
      then record { items = set v.items (v.size - 1) default; size = v.size - 1 }
      else v

  -- operator[], front and back.
  unfoldable pub at : StaticVector A → ℕ → Option A
  at v index = if ltb index v.size then some (get_or v.items index default) else none

  unfoldable pub front : StaticVector A → Option A
  front v = if ltb 0 v.size then some (get_or v.items 0 default) else none

  unfoldable pub back : StaticVector A → Option A
  back v = if ltb 0 v.size then some (get_or v.items (v.size - 1) default) else none

  -- `for (i = idx; i + 1 < size_; ++i) data_[i] = std::move(data_[i + 1]);` on the rounds left.
  unfoldable pub shift : ℕ → ℕ → List A → List A
  shift zero i items = items
  shift (suc n) i items = shift n (suc i) (set items i (get_or items (suc i) default))

  -- The vector without the element at `idx`, and the iterator that is returned.
  unfoldable pub erase : StaticVector A → ℕ → StaticVector A × ℕ
  unfolding shift
  erase v idx =
      if ltb idx v.size
      then (
        record {
          items = set (shift (v.size - 1 - idx) idx v.items) (v.size - 1) default;
          size = v.size - 1;
        },
        idx,
      )
      else (v, v.size)

  -- The copy constructor and copy assignment write the elements in use over those of the target.
  unfoldable pub copy_items : ℕ → ℕ → List A → List A → List A
  copy_items zero i source target = target
  copy_items (suc n) i source target =
      copy_items n (suc i) source (set target i (get_or source i default))

  unfoldable pub assign : StaticVector A → StaticVector A → StaticVector A
  unfolding copy_items
  assign target source = record {
    items = copy_items source.size 0 source.items target.items;
    size = source.size;
  }

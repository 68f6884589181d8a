-- ===== src/Runtime/StaticVector/Examples.antt =====
-- A vector with an element in use and stale ones behind it, and an instance of the theorem on it.
use fsmc.Common.{ℕ, ◌≡◌, refl, not, [], ◌∷◌, ◌++◌, ◌==◌, if◌then◌else◌, length, get_elem?, arith}
use fsmc.Runtime.StaticVector.{StaticVector, push_back, pop_back, erase, at, clear}
use fsmc.Runtime.StaticVector.Slots.{remove_at, drop_last}
use fsmc.Runtime.StaticVector.Contents.{contents, contents_refines}

abbrev three : StaticVector ℕ
three = record { items = 5 ∷ 6 ∷ 7 ∷ 8 ∷ []; size = 3 }

contents_refines_example :
    (contents (push_back 4 three 9).0
      ≡ (if length (contents three) == 4 then contents three else contents three ++ 9 ∷ []))
    × ((push_back 4 three 9).1 ≡ not (length (contents three) == 4))
    × (contents (pop_back 0 three) ≡ drop_last (contents three))
    × (contents (erase 0 three 1).0 ≡ remove_at (contents three) 1)
    × (at 0 three 1 ≡ get_elem? (contents three) 1)
    × (contents (clear three) ≡ [])
contents_refines_example =
    contents_refines 0 4 three 9 1 (record { slots = refl; fits = omega arith })

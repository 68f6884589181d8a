-- ===== src/Middleend/GuardSimplification/Shape/Idempotent.antt =====
-- guard_simplification_pass.cpp: a simplified guard has the simplified shape, and stays as it is.
use mathlib.Core.Path.{ap₂}
use fsmc.Common.{
  ◌≡◌, refl, ◌∙◌, inl, inr, Bool, true, ◌&&◌, String, str_eq, eq_iff, arith, Bool-cases, and_intro,
  and_left, and_right,
}
use fsmc.Ir.Guard.{
  GuardOp, none, not_op, and_op, or_op, GuardAstNode, node, Children, nil, cons, compound,
}
use fsmc.Middleend.GuardSimplification.{
  is_literal, negate, flatten, finish, clean, combine, simplify_node, simplify_children,
}
use fsmc.Middleend.GuardSimplification.Shape.{
  is_constant, at_least_two, negatable, operands, distinct, is_simplified, all_simplified, IsClean,
  is_nil,
}
use fsmc.Middleend.GuardSimplification.Shape.Operands.{flatten_again}
use fsmc.Middleend.GuardSimplification.Shape.Loop.{
  Junction, and_Junction, or_Junction, flatten-shape, clean-shape, clean_again,
}

four_parts :
    (a b c d : Bool) → (a && b && c && d) ≡ true → (a ≡ true) × (b ≡ true) × (c ≡ true) × (d ≡ true)
four_parts a b c d h = ground arith

negate-shape : (c : GuardAstNode) → is_simplified c ≡ true → is_simplified (negate c) ≡ true
unfolding negate is_simplified is_constant is_literal
negate-shape (node not_op e (cons g gs)) h =
    (four_parts (str_eq e "") (is_nil gs) (negatable g) (is_simplified g) h).3
negate-shape (node not_op e nil) h = refl
negate-shape (node none e cs) h = elim (Bool-cases (str_eq e "true")) [
  | inl t ↦ rw t
  | inr t ↦ elim (Bool-cases (str_eq e "false")) [
    | inl f ↦ rw (t, f)
    | inr f ↦ rw (t, f) (rw (t, f, is_constant, is_literal))
  ]
]
negate-shape (node and_op e cs) h = h
negate-shape (node or_op e cs) h = h

negate-negatable : (c : GuardAstNode) → negatable c ≡ true → negate c ≡ compound not_op (cons c nil)
unfolding negate negatable is_constant is_literal
negate-negatable (node not_op e (cons g gs)) h = cc
negate-negatable (node not_op e nil) h = refl
negate-negatable (node none e cs) h = ground arith
negate-negatable (node and_op e cs) h = refl
negate-negatable (node or_op e cs) h = refl

nil_of_is_nil : (cs : Children) → is_nil cs ≡ true → cs ≡ nil
nil_of_is_nil nil h = refl
nil_of_is_nil (cons c cs) h = cc

bare : (e : String) → str_eq e "" ≡ true → e ≡ ""
bare e h = (eq_iff e "").0 h

five_parts :
    (a b c d e : Bool)
    → (a && b && c && d && e) ≡ true
    → (a ≡ true) × (b ≡ true) × (c ≡ true) × (d ≡ true) × (e ≡ true)
five_parts a b c d e h = ground arith

finish-compound :
    (o : GuardOp) (neutral : String) (cs : Children)
    → at_least_two cs ≡ true
    → finish o neutral cs ≡ compound o cs
unfolding finish
finish-compound o neutral nil h = cc
finish-compound o neutral (cons c nil) h = cc
finish-compound o neutral (cons c (cons d ds)) h = refl

IsClean-nil : (o : GuardOp) → IsClean o nil
unfolding operands distinct is_simplified
IsClean-nil o = record { are_operands = refl; are_distinct = refl; are_simplified = refl }

module _ (o : GuardOp) (absorbing neutral : String) (j : Junction o absorbing neutral) where
  junction-shape :
      (cs : Children)
      → all_simplified cs ≡ true
      → is_simplified (clean o absorbing neutral (flatten o cs) nil) ≡ true
  junction-shape cs h =
      let (simple, apart) = flatten-shape o absorbing neutral j cs h in
      clean-shape o absorbing neutral j (flatten o cs) nil (IsClean-nil o) simple apart

  junction_again :
      (cs : Children)
      → at_least_two cs ≡ true
      → operands o cs ≡ true
      → distinct nil cs ≡ true
      → clean o absorbing neutral (flatten o cs) nil ≡ compound o cs
  junction_again cs two kinds once =
      rw (flatten_again o cs kinds)
        (clean_again o absorbing neutral j cs nil kinds once ∙ finish-compound o neutral cs two)

mutual
  unfolding simplify_node combine is_simplified

  simplify-shape : (g : GuardAstNode) → is_simplified (simplify_node g) ≡ true
  simplify-shape (node none e cs) = refl
  simplify-shape (node not_op e nil) = refl
  simplify-shape (node not_op e (cons c cs)) = negate-shape (simplify_node c) (simplify-shape c)
  simplify-shape (node and_op e cs) =
      junction-shape and_op "false" "true" and_Junction (simplify_children cs)
        (simplify_children-shape cs)
  simplify-shape (node or_op e cs) =
      junction-shape or_op "true" "false" or_Junction (simplify_children cs)
        (simplify_children-shape cs)

  simplify_children-shape : (cs : Children) → all_simplified (simplify_children cs) ≡ true
  simplify_children-shape nil = refl
  simplify_children-shape (cons c cs) = and_intro (simplify-shape c) (simplify_children-shape cs)

mutual
  unfolding simplify_node combine is_simplified

  simplify_fixed : (g : GuardAstNode) → is_simplified g ≡ true → simplify_node g ≡ g
  simplify_fixed (node none e cs) h = refl
  simplify_fixed (node not_op e nil) h = refl
  simplify_fixed (node not_op e (cons c cs)) h =
      let (plain, single, proper, inside) =
        four_parts (str_eq e "") (is_nil cs) (negatable c) (is_simplified c) h in
      rw (simplify_fixed c inside, bare e plain, nil_of_is_nil cs single)
        (negate-negatable c proper)
  simplify_fixed (node and_op e cs) h =
      let (plain, two, kinds, once, inside) =
        five_parts (str_eq e "") (at_least_two cs) (operands and_op cs) (distinct nil cs)
          (all_simplified cs) h in
      rw (simplify_children_fixed cs inside, bare e plain)
        (junction_again and_op "false" "true" and_Junction cs two kinds once)
  simplify_fixed (node or_op e cs) h =
      let (plain, two, kinds, once, inside) =
        five_parts (str_eq e "") (at_least_two cs) (operands or_op cs) (distinct nil cs)
          (all_simplified cs) h in
      rw (simplify_children_fixed cs inside, bare e plain)
        (junction_again or_op "true" "false" or_Junction cs two kinds once)

  simplify_children_fixed : (cs : Children) → all_simplified cs ≡ true → simplify_children cs ≡ cs
  simplify_children_fixed nil h = refl
  simplify_children_fixed (cons c cs) h =
      let here = and_left (is_simplified c) (all_simplified cs) h in
      let later = and_right (is_simplified c) (all_simplified cs) h in
      ap₂ cons (simplify_fixed c here) (simplify_children_fixed cs later)

-- A simplified guard has no constant below its root, no And below an And and no Or below an Or, and
-- below a negation no negation of an operand; a negation with no operand, which the tree allows, may
-- stand below a negation. A conjunction or disjunction in it has at least two operands, all different.
pub simplify_node-IsSimplified : (g : GuardAstNode) → is_simplified (simplify_node g) ≡ true
simplify_node-IsSimplified g = simplify-shape g

-- The pass is idempotent: it leaves a simplified guard as it is.
pub simplify_node_idem : (g : GuardAstNode) → simplify_node (simplify_node g) ≡ simplify_node g
simplify_node_idem g = simplify_fixed (simplify_node g) (simplify_node-IsSimplified g)

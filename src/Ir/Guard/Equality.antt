-- ===== src/Ir/Guard/Equality.antt =====
-- operator== of guard.hpp decides equality of trees.
use fsmc.Common.{◌≡◌, refl, ◌↔◌, true, eq_iff, arith}
use fsmc.Ir.Guard.{GuardOp, op_eq, GuardAstNode, node, Children, nil, cons, node_eq, children_eq}

op_eq_sound : (o o' : GuardOp) → op_eq o o' ≡ true → o ≡ o'
op_eq_sound o o' h = ground arith

op_eq_refl : (o : GuardOp) → op_eq o o ≡ true
op_eq_refl o = ground arith

mutual
  unfolding node_eq children_eq

  node_eq_sound : (a b : GuardAstNode) → node_eq a b ≡ true → a ≡ b
  node_eq_sound (node o e cs) (node o' e' cs') h =
      ground (arith, op_eq_sound o o', eq_iff e e', children_eq_sound cs cs')

  children_eq_sound : (a b : Children) → children_eq a b ≡ true → a ≡ b
  children_eq_sound nil nil h = refl
  children_eq_sound nil (cons c cs) h = ground arith
  children_eq_sound (cons c cs) nil h = ground arith
  children_eq_sound (cons c cs) (cons c' cs') h =
      ground (arith, node_eq_sound c c', children_eq_sound cs cs')

mutual
  unfolding node_eq children_eq

  node_eq_self : (a : GuardAstNode) → node_eq a a ≡ true
  node_eq_self (node o e cs) = ground (arith, op_eq_refl o, eq_iff e e, children_eq_self cs)

  children_eq_self : (a : Children) → children_eq a a ≡ true
  children_eq_self nil = refl
  children_eq_self (cons c cs) = ground (arith, node_eq_self c, children_eq_self cs)

pub node_eq_iff : (a b : GuardAstNode) → (node_eq a b ≡ true) ↔ (a ≡ b)
node_eq_iff a b = (node_eq_sound a b, λ e. rw (← e) (node_eq_self a))

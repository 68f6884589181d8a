-- ===== src/Ir/Guard.antt =====
-- guard.hpp and guard.cpp: the tree of a guard predicate.
pub mod Equality
pub mod Printing
use Prim.Native.String.{◌++◌ as str_append}
use mathlib.Core.Bool.{not}
use fsmc.Common.{Bool, true, false, ◌&&◌, ◌||◌, String, str_eq, List, [], ◌∷◌, if◌then◌else◌}

pub data GuardOp : Type 0 where
  none not_op and_op or_op : GuardOp

mutual
  pub data GuardAstNode : Type 0 where
    node : GuardOp → String → Children → GuardAstNode

  pub data Children : Type 0 where
    nil : Children
    cons : GuardAstNode → Children → Children

abbrev pub op : GuardAstNode → GuardOp
op (node o e cs) = o

abbrev pub expression : GuardAstNode → String
expression (node o e cs) = e

abbrev pub children : GuardAstNode → Children
children (node o e cs) = cs

-- The two constructors of the class.
abbrev pub atom : String → GuardAstNode
atom e = node none e nil

abbrev pub compound : GuardOp → Children → GuardAstNode
compound o cs = node o "" cs

abbrev pub op_eq : GuardOp → GuardOp → Bool
op_eq none none = true
op_eq not_op not_op = true
op_eq and_op and_op = true
op_eq or_op or_op = true
op_eq _ _ = false

-- operator==, which compares the vectors of children element by element.
unfoldable mutual
  pub node_eq : GuardAstNode → GuardAstNode → Bool
  node_eq (node o e cs) (node o' e' cs') = op_eq o o' && str_eq e e' && children_eq cs cs'

  pub children_eq : Children → Children → Bool
  children_eq nil nil = true
  children_eq nil (cons c cs) = false
  children_eq (cons c cs) nil = false
  children_eq (cons c cs) (cons c' cs') = node_eq c c' && children_eq cs cs'

-- What a guard means once each atomic predicate has a value: the operators of to_cpp, `!`, `&&` and
-- `||`. A negation reads its first child, or its expression where it has none.
module _ (value : String → Bool) where
  unfoldable mutual
    pub eval : GuardAstNode → Bool
    eval (node none e cs) = value e
    eval (node not_op e nil) = not (value e)
    eval (node not_op e (cons c cs)) = not (eval c)
    eval (node and_op e cs) = eval_and cs
    eval (node or_op e cs) = eval_or cs

    pub eval_and : Children → Bool
    eval_and nil = true
    eval_and (cons c cs) = eval c && eval_and cs

    pub eval_or : Children → Bool
    eval_or nil = false
    eval_or (cons c cs) = eval c || eval_or cs

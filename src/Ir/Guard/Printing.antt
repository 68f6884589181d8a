-- ===== src/Ir/Guard/Printing.antt =====
-- guard.cpp: the texts of a guard. The source writes the function three times; the copies differ in
-- the texts of the operators alone.
use Prim.Native.String.{◌++◌ as str_append}
use mathlib.Core.Bool.{not}
use fsmc.Common.{Bool, ◌&&◌, String, str_eq, List, [], ◌∷◌, ◌++◌, if◌then◌else◌}
use fsmc.Ir.Guard.{
  GuardOp, none, not_op, and_op, or_op, GuardAstNode, node, Children, nil, cons, op, op_eq,
}

pub record Dialect : Type 0 where
  pub negation : String
  pub conjunction : String
  pub disjunction : String

abbrev pub bracket_if : Bool → String → String
bracket_if b s = if b then str_append "(" (str_append s ")") else s

module _ (d : Dialect) where
  unfoldable mutual
    pub print : GuardAstNode → String
    print (node none e cs) = e
    print (node not_op e nil) = str_append d.negation e
    print (node not_op e (cons c cs)) =
        str_append d.negation (bracket_if (not (op_eq (op c) none)) (print c))
    print (node and_op e cs) = print_operands and_op d.conjunction cs
    print (node or_op e cs) = print_operands or_op d.disjunction cs

    -- A disjunction below a conjunction is bracketed.
    pub print_operands : GuardOp → String → Children → String
    print_operands o separator nil = ""
    print_operands o separator (cons c cs) =
        str_append (bracket_if (op_eq (op c) or_op && op_eq o and_op) (print c))
          (print_rest o separator cs)

    pub print_rest : GuardOp → String → Children → String
    print_rest o separator nil = ""
    print_rest o separator (cons c cs) = str_append separator (
        str_append (bracket_if (op_eq (op c) or_op && op_eq o and_op) (print c))
          (print_rest o separator cs))

unfoldable pub to_cpp : GuardAstNode → String
to_cpp = print (record { negation = "!"; conjunction = " && "; disjunction = " || " })

unfoldable pub to_sysml : GuardAstNode → String
to_sysml = print (record { negation = "not "; conjunction = " and "; disjunction = " or " })

unfoldable pub to_smv : GuardAstNode → String
to_smv = print (record { negation = "!"; conjunction = " & "; disjunction = " | " })

-- The names that the guard needs values of.
abbrev is_named : String → Bool
is_named e =
    not (str_eq e "")
    && not (str_eq e "else")
    && not (str_eq e "otherwise")
    && not (str_eq e "default")

unfoldable mutual
  pub collect_atomic_guards : GuardAstNode → List String → List String
  collect_atomic_guards (node none e cs) out = if is_named e then out ++ e ∷ [] else out
  collect_atomic_guards (node not_op e cs) out = collect_all cs out
  collect_atomic_guards (node and_op e cs) out = collect_all cs out
  collect_atomic_guards (node or_op e cs) out = collect_all cs out

  pub collect_all : Children → List String → List String
  collect_all nil out = out
  collect_all (cons c cs) out = collect_all cs (collect_atomic_guards c out)

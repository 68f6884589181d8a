-- ===== src/Frontend/GuardParser/Reading/Trees.antt =====
-- guard_parser.cpp: the parser reads the tokens of a guard as its formula.
use fsmc.Common.{not, List, [], ◌∷◌, ◌++◌}
use fsmc.Ir.Guard.{
  none as no_op, not_op, and_op, or_op, GuardAstNode, node, Children, nil, cons, op, op_eq,
}
use fsmc.Frontend.GuardParser.Formulas.{
  Piece, atom_piece, negated, more, fold, disjoined, conjuncts, all_conjuncts, disjuncts,
  all_disjuncts, bracketed_if, whole, IsPrintable, AllPrintable, disjuncts-IsNonempty,
  all_conjuncts-IsNonempty, all_disjuncts-IsNonempty,
}
use fsmc.Frontend.GuardParser.Reading.{
  ReadsUnary, ReadsAnd, ReadsOr, All, atom-ReadsUnary, negated-ReadsUnary, bracketed-ReadsUnary,
}
use fsmc.Frontend.GuardParser.Reading.Chains.{conjoined-ReadsAnd, disjoined-ReadsOr}

pub All-append : (P : Piece → Type 0) (ps qs : List Piece) → All P ps → All P qs → All P (ps ++ qs)
All-append P [] qs h k = k
All-append P (p ∷ ps) qs h k = (h.0, All-append P ps qs h.1 k)

-- What stands behind a negation: an atom is not bracketed.
abbrev under_not : GuardAstNode → Piece
under_not c = bracketed_if (not (op_eq (op c) no_op)) (disjoined (disjuncts c))

operand-ReadsUnary :
    (c : GuardAstNode)
    → IsPrintable c
    → ReadsOr (disjoined (disjuncts c))
    → ReadsUnary (under_not c)
unfolding disjuncts more fold
operand-ReadsUnary (node no_op e cs) h r = atom-ReadsUnary e
operand-ReadsUnary (node not_op e nil) h r =
    bracketed-ReadsUnary (disjoined (disjuncts (node not_op e nil))) r
operand-ReadsUnary (node not_op e (cons c cs)) h r =
    bracketed-ReadsUnary (disjoined (disjuncts (node not_op e (cons c cs)))) r
operand-ReadsUnary (node and_op e cs) h r =
    bracketed-ReadsUnary (disjoined (disjuncts (node and_op e cs))) r
operand-ReadsUnary (node or_op e cs) h r =
    bracketed-ReadsUnary (disjoined (disjuncts (node or_op e cs))) r

mutual
  unfolding conjuncts all_conjuncts disjuncts all_disjuncts IsPrintable AllPrintable

  conjuncts-Read : (g : GuardAstNode) → IsPrintable g → All ReadsUnary (conjuncts g)
  conjuncts-Read (node no_op e cs) h = (atom-ReadsUnary e, tt)
  conjuncts-Read (node not_op e nil) h = (negated-ReadsUnary (atom_piece e) (atom-ReadsUnary e), tt)
  conjuncts-Read (node not_op e (cons c cs)) h = (
    negated-ReadsUnary (under_not c) (
        operand-ReadsUnary c h
          (disjoined-ReadsOr (disjuncts c) (disjuncts-IsNonempty c h) (disjuncts-Read c h))),
    tt,
  )
  conjuncts-Read (node and_op e cs) h = all_conjuncts-Read cs h.1
  conjuncts-Read (node or_op e cs) h = (
    bracketed-ReadsUnary (disjoined (all_disjuncts cs)) (
        disjoined-ReadsOr (all_disjuncts cs) (all_disjuncts-IsNonempty cs h.0 h.1)
          (all_disjuncts-Read cs h.1)),
    tt,
  )

  all_conjuncts-Read : (cs : Children) → AllPrintable cs → All ReadsUnary (all_conjuncts cs)
  all_conjuncts-Read nil h = tt
  all_conjuncts-Read (cons c cs) h =
      All-append ReadsUnary (conjuncts c) (all_conjuncts cs) (conjuncts-Read c h.0)
        (all_conjuncts-Read cs h.1)

  disjuncts-Read : (g : GuardAstNode) → IsPrintable g → All ReadsAnd (disjuncts g)
  disjuncts-Read (node no_op e cs) h =
      (conjoined-ReadsAnd (atom_piece e ∷ []) tt (atom-ReadsUnary e, tt), tt)
  disjuncts-Read (node not_op e nil) h = (
    conjoined-ReadsAnd (negated (atom_piece e) ∷ []) tt
        (negated-ReadsUnary (atom_piece e) (atom-ReadsUnary e), tt),
    tt,
  )
  disjuncts-Read (node not_op e (cons c cs)) h = (
    conjoined-ReadsAnd (negated (under_not c) ∷ []) tt (
      negated-ReadsUnary (under_not c) (
          operand-ReadsUnary c h
            (disjoined-ReadsOr (disjuncts c) (disjuncts-IsNonempty c h) (disjuncts-Read c h))),
      tt,
    ),
    tt,
  )
  disjuncts-Read (node and_op e cs) h = (
    conjoined-ReadsAnd (all_conjuncts cs) (all_conjuncts-IsNonempty cs h.0 h.1)
        (all_conjuncts-Read cs h.1),
    tt,
  )
  disjuncts-Read (node or_op e cs) h = all_disjuncts-Read cs h.1

  all_disjuncts-Read : (cs : Children) → AllPrintable cs → All ReadsAnd (all_disjuncts cs)
  all_disjuncts-Read nil h = tt
  all_disjuncts-Read (cons c cs) h =
      All-append ReadsAnd (disjuncts c) (all_disjuncts cs) (disjuncts-Read c h.0)
        (all_disjuncts-Read cs h.1)

-- The parser reads the tokens of a printable guard as its formula.
pub whole-ReadsOr : (g : GuardAstNode) → IsPrintable g → ReadsOr (whole g)
unfolding whole
whole-ReadsOr g h = disjoined-ReadsOr (disjuncts g) (disjuncts-IsNonempty g h) (disjuncts-Read g h)

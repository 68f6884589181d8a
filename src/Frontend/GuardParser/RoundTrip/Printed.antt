-- ===== src/Frontend/GuardParser/RoundTrip/Printed.antt =====
-- The tokens of a printed guard.
use mathlib.Core.List.{append-nil}
use fsmc.Common.{
  ℕ, ◌≡◌, refl, sym, ◌∙◌, ap, Bool, true, false, not, ◌&&◌, String, List, [], ◌∷◌, ◌++◌, codes,
}
use fsmc.Ir.Guard.{none, not_op, and_op, or_op, GuardAstNode, node, Children, nil, cons, op, op_eq}
use fsmc.Ir.Guard.Printing.{bracket_if, print, print_operands, print_rest}
use fsmc.Frontend.GuardParser.{and_sign, or_sign, not_sign, Token, sign}
use fsmc.Frontend.GuardParser.Formulas.{
  conjunction, disjunction, atom_piece, bracketed_if, more, conjoined, disjoined, conjuncts,
  all_conjuncts, disjuncts, all_disjuncts, IsName, IsFilled, IsPrintable, AllPrintable,
  conjuncts-IsNonempty, disjuncts-IsNonempty,
}
use fsmc.Frontend.GuardParser.Lexing.{Lexes, ends_name, Lexing, name-Lexing, and-Lexes, or-Lexes}
use fsmc.Frontend.GuardParser.RoundTrip.Pieces.{
  cpp, Lexing-eq, Lexing-negated, Lexing-bracketed, operand_then, further_cons,
}

-- As an operand of a conjunction a guard gives the same tokens, a disjunction in brackets.
conjunct_tokens :
    (c : GuardAstNode)
    → (bracketed_if (op_eq (op c) or_op && true) (disjoined (disjuncts c))).tokens
      ≡ (conjoined (conjuncts c)).tokens
unfolding disjuncts conjuncts more
conjunct_tokens (node none e cs) = refl
conjunct_tokens (node not_op e nil) = refl
conjunct_tokens (node not_op e (cons c cs)) = append-nil _
conjunct_tokens (node and_op e cs) = append-nil _
conjunct_tokens (node or_op e cs) = sym (append-nil _)

unbracketed : (b : Bool) (s : String) → bracket_if (b && false) s ≡ s
unbracketed true s = refl
unbracketed false s = refl

name_tokens :
    (e : String)
    → IsName e
    → Lexing (codes e) (disjoined (conjoined (atom_piece e ∷ []) ∷ [])).tokens
unfolding more
name_tokens e h = name-Lexing e h

conjunct-Lexing :
    (c : GuardAstNode)
    → Lexing (codes (print cpp c)) (disjoined (disjuncts c)).tokens
    → Lexing
        (codes (bracket_if (op_eq (op c) or_op && true) (print cpp c)))
        (conjoined (conjuncts c)).tokens
conjunct-Lexing c l =
    Lexing-eq refl (conjunct_tokens c)
      (Lexing-bracketed (op_eq (op c) or_op && true) (print cpp c) (disjoined (disjuncts c)) l)

disjunct-Lexing :
    (c : GuardAstNode)
    → Lexing (codes (print cpp c)) (disjoined (disjuncts c)).tokens
    → Lexing
        (codes (bracket_if (op_eq (op c) or_op && false) (print cpp c)))
        (disjoined (disjuncts c)).tokens
disjunct-Lexing c l = Lexing-eq (ap codes (unbracketed (op_eq (op c) or_op) (print cpp c))) refl l

and_lexes :
    (rest : List ℕ) (us : List Token)
    → Lexes rest us
    → Lexes (codes " && " ++ rest) (sign and_sign "&&" ∷ us)
and_lexes rest us l = and-Lexes l

and_ends : (rest : List ℕ) → ends_name (codes " && " ++ rest) ≡ true
and_ends rest = refl

or_lexes :
    (rest : List ℕ) (us : List Token)
    → Lexes rest us
    → Lexes (codes " || " ++ rest) (sign or_sign "||" ∷ us)
or_lexes rest us l = or-Lexes l

or_ends : (rest : List ℕ) → ends_name (codes " || " ++ rest) ≡ true
or_ends rest = refl

mutual
  unfolding print print_operands print_rest disjuncts conjuncts all_conjuncts all_disjuncts
      IsPrintable AllPrintable more

  pub print-Lexing :
      (g : GuardAstNode)
      → IsPrintable g
      → Lexing (codes (print cpp g)) (disjoined (disjuncts g)).tokens
  print-Lexing (node none e cs) h = name_tokens e h
  print-Lexing (node not_op e nil) h =
      Lexing-negated e (disjoined (conjoined (atom_piece e ∷ []) ∷ [])).tokens (name_tokens e h)
  print-Lexing (node not_op e (cons c cs)) h =
      let operand_piece = bracketed_if (not (op_eq (op c) none)) (disjoined (disjuncts c)) in
      Lexing-eq {ts = sign not_sign "!" ∷ operand_piece.tokens} refl
        (sym (append-nil _) ∙ sym (append-nil _))
        (Lexing-negated (bracket_if (not (op_eq (op c) none)) (print cpp c)) operand_piece.tokens (
          Lexing-bracketed (not (op_eq (op c) none)) (print cpp c) (disjoined (disjuncts c))
            (print-Lexing c h)))
  print-Lexing (node and_op e cs) h =
      Lexing-eq {ts = (conjoined (all_conjuncts cs)).tokens} refl (sym (append-nil _))
        (conjuncts-Lexing cs h.0 h.1)
  print-Lexing (node or_op e cs) h = disjuncts-Lexing cs h.0 h.1

  conjuncts-Lexing :
      (cs : Children)
      → IsFilled cs
      → AllPrintable cs
      → Lexing (codes (print_operands cpp and_op " && " cs)) (conjoined (all_conjuncts cs)).tokens
  conjuncts-Lexing nil f h = absurd f
  conjuncts-Lexing (cons c cs) f h =
      operand_then and_op " && " (sign and_sign "&&") conjunction and_lexes and_ends c cs
        (conjuncts c) (all_conjuncts cs) (conjuncts-IsNonempty c h.0)
        (conjunct-Lexing c (print-Lexing c h.0)) (further_conjuncts-Lexing cs h.1)

  further_conjuncts-Lexing :
      (cs : Children)
      → AllPrintable cs
      → Lexing
          (codes (print_rest cpp and_op " && " cs))
          (more (sign and_sign "&&") (all_conjuncts cs))
  further_conjuncts-Lexing nil h = λ rest us e r. r
  further_conjuncts-Lexing (cons c cs) h =
      further_cons and_op " && " (sign and_sign "&&") conjunction and_lexes and_ends c cs
        (conjuncts c) (all_conjuncts cs) (conjuncts-IsNonempty c h.0)
        (conjunct-Lexing c (print-Lexing c h.0)) (further_conjuncts-Lexing cs h.1)

  disjuncts-Lexing :
      (cs : Children)
      → IsFilled cs
      → AllPrintable cs
      → Lexing (codes (print_operands cpp or_op " || " cs)) (disjoined (all_disjuncts cs)).tokens
  disjuncts-Lexing nil f h = absurd f
  disjuncts-Lexing (cons c cs) f h =
      operand_then or_op " || " (sign or_sign "||") disjunction or_lexes or_ends c cs (disjuncts c)
        (all_disjuncts cs) (disjuncts-IsNonempty c h.0) (disjunct-Lexing c (print-Lexing c h.0))
        (further_disjuncts-Lexing cs h.1)

  further_disjuncts-Lexing :
      (cs : Children)
      → AllPrintable cs
      → Lexing
          (codes (print_rest cpp or_op " || " cs))
          (more (sign or_sign "||") (all_disjuncts cs))
  further_disjuncts-Lexing nil h = λ rest us e r. r
  further_disjuncts-Lexing (cons c cs) h =
      further_cons or_op " || " (sign or_sign "||") disjunction or_lexes or_ends c cs (disjuncts c)
        (all_disjuncts cs) (disjuncts-IsNonempty c h.0) (disjunct-Lexing c (print-Lexing c h.0))
        (further_disjuncts-Lexing cs h.1)

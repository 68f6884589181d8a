-- ===== src/Frontend/GuardParser/RoundTrip.antt =====
-- A printed guard is read back as a predicate of the same meaning.
pub mod Pieces
pub mod Printed
use Prim.Native.String.{◌++◌ as str_append}
use mathlib.Core.List.{append_assoc, append-nil}
use fsmc.Common.{
  ℕ, ◌+◌, ◌≡◌, refl, sym, ◌∙◌, ap, Bool, true, false, not, ◌&&◌, String, List, [], ◌∷◌, ◌++◌, map,
  some, length, codes, codes-append, arith,
}
use fsmc.Ir.Guard.{
  GuardOp, none, not_op, and_op, or_op, GuardAstNode, node, Children, nil, cons, op, op_eq, eval,
}
use fsmc.Ir.Guard.Printing.{Dialect, bracket_if, print, print_operands, print_rest, to_cpp}
use fsmc.Frontend.GuardParser.{
  and_sign, or_sign, not_sign, lparen, rparen, end, Token, sign, parse_expression, parse_fuel,
}
use fsmc.Frontend.GuardParser.Formulas.{
  Formula, conjunction, disjunction, type_text, atoms, meaning, Piece, atom_piece, bracketed_if,
  more, joined, conjoined, disjoined, conjuncts, all_conjuncts, disjuncts, all_disjuncts, whole,
  IsName, IsFilled, IsPrintable, AllPrintable, IsNonempty, conjuncts-IsNonempty,
  disjuncts-IsNonempty,
}
use fsmc.Frontend.GuardParser.Lexing.{
  Lexes, done, tokenize-Lexes, ends_name, Lexing, name-Lexing, and-Lexes, or-Lexes, not-Lexes,
  open-Lexes, close-Lexes,
}
use fsmc.Frontend.GuardParser.Reading.Trees.{whole-ReadsOr}
use fsmc.Frontend.GuardParser.Meaning.{meaning-whole}
use fsmc.Frontend.GuardParser.Written.{whole-IsWritten}
use fsmc.Frontend.GuardParser.Returns.{parse_expression-step}
use fsmc.Frontend.GuardParser.RoundTrip.Pieces.{Lexes-eq}
use fsmc.Frontend.GuardParser.RoundTrip.Printed.{print-Lexing}

-- Let the predicates of a guard be identifiers as sanitize_identifier leaves them, and each
-- conjunction and disjunction have an operand. Its text in the syntax of C++ is tokenized and parsed
-- to the type of a formula that has the guard's value under every valuation of its predicates; the
-- atomic guards are the predicates of the formula, from left to right, each with itself as its
-- expression.
pub parse_expression-to_cpp :
    (g : GuardAstNode)
    → IsPrintable g
    → (f : Formula) × (parse_expression (codes (to_cpp g))
        ≡ some (record {
          cpp_type = type_text f;
          atomic_guards = atoms f;
          atomic_guard_details = map (λ (a : List ℕ). (a, a)) (atoms f);
        }))
      × ((value : String → Bool) → meaning value f ≡ eval value g)
unfolding to_cpp whole
parse_expression-to_cpp g h =
    let text = codes (to_cpp g) in
    let ts = (disjoined (disjuncts g)).tokens ++ sign end "" ∷ [] in
    let lexed : Lexes text ts =
      Lexes-eq (sym (append-nil text)) refl (print-Lexing g h [] (sign end "" ∷ []) refl done) in
    let tokenized = tokenize-Lexes (length text + 1) lexed (omega arith) in
    let parsed = whole-ReadsOr g h (sign end "" ∷ []) [] (parse_fuel ts) (omega arith) refl in
    (
      (whole g).formula,
      parse_expression-step text ts _ _ tokenized parsed ∙ rw (whole-IsWritten g h) refl,
      λ value. meaning-whole value g h,
    )

-- ===== src/Frontend/GuardParser/Reading.antt =====
-- guard_parser.cpp: what it is that the parser reads a piece, for atoms, negations and brackets.
pub mod Chains
pub mod Trees
use mathlib.Core.List.{append_assoc, append-nil, map-append}
use fsmc.Common.{
  ℕ, zero, suc, ◌+◌, ◌*◌, ◌≤◌, ◌≡◌, refl, sym, ◌∙◌, ap, Bool, true, false, not, ◌||◌, ◌&&◌, String,
  List, [], ◌∷◌, ◌++◌, map, some, if◌then◌else◌, length, length-append, codes, not-true, arith,
}
use fsmc.Ir.Guard.{
  GuardOp, none as no_op, not_op, and_op, or_op, GuardAstNode, node, Children, nil, cons, op, op_eq,
}
use fsmc.Frontend.GuardParser.{
  TokenType, ident, and_sign, or_sign, not_sign, lparen, rparen, end, Token, sign, Parsing, type_at,
  current, rest_of, advance, is_type, binary_type, negated_type, Parsed, then_parse, keep_atom,
  close, parse_or, or_loop, parse_and, and_loop, parse_unary, parse_primary,
}
use fsmc.Frontend.GuardParser.Formulas.{
  Formula, atom, negation, conjunction, disjunction, type_text, atoms, Piece, ident_of, atom_piece,
  negated, bracketed, more, fold, conjoined, disjoined, IsNonempty, conjuncts, all_conjuncts,
  disjuncts, all_disjuncts, bracketed_if, whole, IsPrintable, AllPrintable, disjuncts-IsNonempty,
  all_conjuncts-IsNonempty, all_disjuncts-IsNonempty,
}

-- The parser before these tokens; the text of an atom is the identifier made of it.
abbrev pub at : List Token → List (List ℕ) → Parsing
at ts seen = record {
  tokens = ts;
  atomic = seen;
  atomic_details = map (λ (a : List ℕ). (a, a)) seen;
}

abbrev pub Read : Formula → List Token → List (List ℕ) → Parsed
Read f rest seen = some (type_text f, at rest (seen ++ atoms f))

-- With fuel, `parse` reads the piece and leaves what follows, if that begins with a token that ends
-- the piece.
abbrev pub Reads : (ℕ → Parsing → Parsed) → ℕ → (TokenType → Bool) → Piece → Type 0
Reads parse least ends p =
    (rest : List Token) (seen : List (List ℕ)) (f : ℕ)
    → 4 * length (p.tokens ++ rest) + least ≤ f
    → ends (type_at rest) ≡ true
    → parse f (at (p.tokens ++ rest) seen) ≡ Read p.formula rest seen

abbrev pub anything : TokenType → Bool
anything t = true

abbrev pub ends_and : TokenType → Bool
ends_and t = not (is_type and_sign t)

abbrev pub ends_or : TokenType → Bool
ends_or t = not (is_type and_sign t) && not (is_type or_sign t)

abbrev pub ReadsUnary : Piece → Type 0
ReadsUnary = Reads parse_unary 2 anything

abbrev pub ReadsAnd : Piece → Type 0
ReadsAnd = Reads parse_and 3 ends_and

abbrev pub ReadsOr : Piece → Type 0
ReadsOr = Reads parse_or 4 ends_or

abbrev pub All : (Piece → Type 0) → List Piece → Type 0
All P [] = Unit
All P (p ∷ ps) = P p × All P ps

-- Fuel above a bound is a successor.
spend {ℓ} : {n : ℕ} (P : ℕ → Type ℓ) → ((f : ℕ) → n ≤ f → P (suc f)) → (f : ℕ) → suc n ≤ f → P f
spend P k zero h = absurd (omega arith)
spend P k (suc f) h = k f (omega arith)

pub atom-ReadsUnary : (e : String) → ReadsUnary (atom_piece e)
unfolding parse_unary parse_primary type_text atoms
atom-ReadsUnary e rest seen zero h k = absurd (omega arith)
atom-ReadsUnary e rest seen (suc zero) h k = absurd (omega arith)
atom-ReadsUnary e rest seen (suc (suc f)) h k = rw map-append refl

pub negated-ReadsUnary : (p : Piece) → ReadsUnary p → ReadsUnary (negated p)
unfolding parse_unary type_text atoms
negated-ReadsUnary p r rest seen zero h k = absurd (omega arith)
negated-ReadsUnary p r rest seen (suc f) h k =
    ap (λ o. then_parse o (λ sub p'. some (negated_type sub, p')))
      (r rest seen f (omega arith) refl)

pub bracketed-ReadsUnary : (p : Piece) → ReadsOr p → ReadsUnary (bracketed p)
unfolding parse_unary parse_primary
bracketed-ReadsUnary p r rest seen zero h k = absurd (omega arith)
bracketed-ReadsUnary p r rest seen (suc zero) h k = absurd (omega arith)
bracketed-ReadsUnary p r rest seen (suc (suc f)) h k =
    let close_sign = sign rparen ")" in
    let same = append_assoc p.tokens (close_sign ∷ []) rest in
    ap (λ ts. then_parse (parse_or f (at ts seen)) (λ t p'. some (t, close p'))) same
    ∙ ap (λ o. then_parse o (λ t p'. some (t, close p')))
        (r (close_sign ∷ rest) seen f (omega (arith, ap length same)) refl)

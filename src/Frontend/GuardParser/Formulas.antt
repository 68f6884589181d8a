-- ===== src/Frontend/GuardParser/Formulas.antt =====
-- The binary formula that a guard comes to be when its text is read, with the tokens of that text: a
-- conjunction among the operands of another is no operand of its own, and so for disjunctions.
use fsmc.Common.{
  ℕ, ◌≡◌, Bool, false, not, ◌||◌, ◌&&◌, String, List, [], ◌∷◌, ◌++◌, if◌then◌else◌, codes,
}
use fsmc.Ir.Guard.{none, not_op, and_op, or_op, GuardAstNode, node, Children, nil, cons, op, op_eq}
use fsmc.Frontend.Identifier.{is_nil}
use fsmc.Frontend.Identifier.Valid.{IsIdentifier}
use fsmc.Frontend.GuardParser.{
  ident, and_sign, or_sign, not_sign, lparen, rparen, Token, sign, binary_type, negated_type,
}

pub data Formula : Type 0 where
  atom : String → Formula
  negation : Formula → Formula
  conjunction : Formula → Formula → Formula
  disjunction : Formula → Formula → Formula

unfoldable pub type_text : Formula → List ℕ
type_text (atom e) = codes e
type_text (negation f) = negated_type (type_text f)
type_text (conjunction f g) = binary_type "fsm::and_<" (type_text f) (type_text g)
type_text (disjunction f g) = binary_type "fsm::or_<" (type_text f) (type_text g)

-- The atoms, from left to right.
unfoldable pub atoms : Formula → List (List ℕ)
atoms (atom e) = codes e ∷ []
atoms (negation f) = atoms f
atoms (conjunction f g) = atoms f ++ atoms g
atoms (disjunction f g) = atoms f ++ atoms g

unfoldable pub meaning : (String → Bool) → Formula → Bool
meaning value (atom e) = value e
meaning value (negation f) = not (meaning value f)
meaning value (conjunction f g) = meaning value f && meaning value g
meaning value (disjunction f g) = meaning value f || meaning value g

-- Tokens, and the formula that they are read as.
pub record Piece : Type 0 where
  pub tokens : List Token
  pub formula : Formula

abbrev pub ident_of : String → Token
ident_of e = record { type = ident; value = codes e; raw_expr = codes e }

abbrev pub atom_piece : String → Piece
atom_piece e = record { tokens = ident_of e ∷ []; formula = atom e }

abbrev pub negated : Piece → Piece
negated p = record { tokens = sign not_sign "!" ∷ p.tokens; formula = negation p.formula }

abbrev pub bracketed : Piece → Piece
bracketed p = record {
  tokens = sign lparen "(" ∷ (p.tokens ++ sign rparen ")" ∷ []);
  formula = p.formula;
}

abbrev pub bracketed_if : Bool → Piece → Piece
bracketed_if b p = if b then bracketed p else p

-- Further operands, each behind its sign.
unfoldable pub more : Token → List Piece → List Token
more t [] = []
more t (p ∷ ps) = t ∷ (p.tokens ++ more t ps)

-- Operands are taken in from the left.
unfoldable pub fold : (Formula → Formula → Formula) → Formula → List Piece → Formula
fold join f [] = f
fold join f (p ∷ ps) = fold join (join f p.formula) ps

abbrev pub joined : Token → (Formula → Formula → Formula) → List Piece → Piece
joined t join [] = record { tokens = []; formula = atom "" }
joined t join (p ∷ ps) = record { tokens = p.tokens ++ more t ps; formula = fold join p.formula ps }

abbrev pub conjoined : List Piece → Piece
conjoined = joined (sign and_sign "&&") conjunction

abbrev pub disjoined : List Piece → Piece
disjoined = joined (sign or_sign "||") disjunction

unfoldable mutual
  -- The operands that the guard is, or gives, in a conjunction.
  pub conjuncts : GuardAstNode → List Piece
  conjuncts (node none e cs) = atom_piece e ∷ []
  conjuncts (node not_op e nil) = negated (atom_piece e) ∷ []
  conjuncts (node not_op e (cons c cs)) =
      negated (bracketed_if (not (op_eq (op c) none)) (disjoined (disjuncts c))) ∷ []
  conjuncts (node and_op e cs) = all_conjuncts cs
  conjuncts (node or_op e cs) = bracketed (disjoined (all_disjuncts cs)) ∷ []

  pub all_conjuncts : Children → List Piece
  all_conjuncts nil = []
  all_conjuncts (cons c cs) = conjuncts c ++ all_conjuncts cs

  -- The operands that it is, or gives, in a disjunction.
  pub disjuncts : GuardAstNode → List Piece
  disjuncts (node none e cs) = conjoined (atom_piece e ∷ []) ∷ []
  disjuncts (node not_op e nil) = conjoined (negated (atom_piece e) ∷ []) ∷ []
  disjuncts (node not_op e (cons c cs)) =
      conjoined (negated (bracketed_if (not (op_eq (op c) none)) (disjoined (disjuncts c))) ∷ [])
      ∷ []
  disjuncts (node and_op e cs) = conjoined (all_conjuncts cs) ∷ []
  disjuncts (node or_op e cs) = all_disjuncts cs

  pub all_disjuncts : Children → List Piece
  all_disjuncts nil = []
  all_disjuncts (cons c cs) = disjuncts c ++ all_disjuncts cs

-- The whole guard.
unfoldable pub whole : GuardAstNode → Piece
whole g = disjoined (disjuncts g)

-- The predicates are identifiers, and a conjunction or disjunction has an operand.
pub record IsName (e : String) : Type 0 where
  pub valid : IsIdentifier (codes e)
  pub written : is_nil (codes e) ≡ false

abbrev pub IsFilled : Children → Type 0
IsFilled nil = ⊥
IsFilled (cons c cs) = Unit

unfoldable mutual
  pub IsPrintable : GuardAstNode → Type 0
  IsPrintable (node none e cs) = IsName e
  IsPrintable (node not_op e nil) = IsName e
  IsPrintable (node not_op e (cons c cs)) = IsPrintable c
  IsPrintable (node and_op e cs) = IsFilled cs × AllPrintable cs
  IsPrintable (node or_op e cs) = IsFilled cs × AllPrintable cs

  pub AllPrintable : Children → Type 0
  AllPrintable nil = Unit
  AllPrintable (cons c cs) = IsPrintable c × AllPrintable cs

abbrev pub IsNonempty : List Piece → Type 0
IsNonempty [] = ⊥
IsNonempty (p ∷ ps) = Unit

IsNonempty-append : (ps qs : List Piece) → IsNonempty ps → IsNonempty (ps ++ qs)
IsNonempty-append [] qs h = absurd h
IsNonempty-append (p ∷ ps) qs h = tt

mutual
  unfolding conjuncts all_conjuncts disjuncts all_disjuncts IsPrintable AllPrintable

  pub conjuncts-IsNonempty : (g : GuardAstNode) → IsPrintable g → IsNonempty (conjuncts g)
  conjuncts-IsNonempty (node none e cs) h = tt
  conjuncts-IsNonempty (node not_op e nil) h = tt
  conjuncts-IsNonempty (node not_op e (cons c cs)) h = tt
  conjuncts-IsNonempty (node and_op e cs) h = all_conjuncts-IsNonempty cs h.0 h.1
  conjuncts-IsNonempty (node or_op e cs) h = tt

  pub all_conjuncts-IsNonempty :
      (cs : Children) → IsFilled cs → AllPrintable cs → IsNonempty (all_conjuncts cs)
  all_conjuncts-IsNonempty nil f h = f
  all_conjuncts-IsNonempty (cons c cs) f h =
      IsNonempty-append (conjuncts c) (all_conjuncts cs) (conjuncts-IsNonempty c h.0)

  pub disjuncts-IsNonempty : (g : GuardAstNode) → IsPrintable g → IsNonempty (disjuncts g)
  disjuncts-IsNonempty (node none e cs) h = tt
  disjuncts-IsNonempty (node not_op e nil) h = tt
  disjuncts-IsNonempty (node not_op e (cons c cs)) h = tt
  disjuncts-IsNonempty (node and_op e cs) h = tt
  disjuncts-IsNonempty (node or_op e cs) h = all_disjuncts-IsNonempty cs h.0 h.1

  pub all_disjuncts-IsNonempty :
      (cs : Children) → IsFilled cs → AllPrintable cs → IsNonempty (all_disjuncts cs)
  all_disjuncts-IsNonempty nil f h = f
  all_disjuncts-IsNonempty (cons c cs) f h =
      IsNonempty-append (disjuncts c) (all_disjuncts cs) (disjuncts-IsNonempty c h.0)

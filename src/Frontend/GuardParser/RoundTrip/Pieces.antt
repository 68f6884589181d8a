-- ===== src/Frontend/GuardParser/RoundTrip/Pieces.antt =====
-- The tokens of the pieces that the printing of a guard joins.
use Prim.Native.String.{◌++◌ as str_append}
use mathlib.Core.List.{append_assoc}
use fsmc.Common.{
  ℕ, ◌≡◌, refl, sym, ◌∙◌, ap, Bool, true, false, ◌&&◌, String, List, [], ◌∷◌, ◌++◌, codes,
  codes-append,
}
use fsmc.Ir.Guard.{GuardOp, and_op, or_op, GuardAstNode, Children, nil, cons, op, op_eq}
use fsmc.Ir.Guard.Printing.{Dialect, bracket_if, print, print_rest}
use fsmc.Frontend.GuardParser.{not_sign, lparen, rparen, Token, sign}
use fsmc.Frontend.GuardParser.Formulas.{Formula, Piece, bracketed_if, more, joined, IsNonempty}
use fsmc.Frontend.GuardParser.Lexing.{Lexes, ends_name, Lexing, not-Lexes, open-Lexes, close-Lexes}

abbrev pub cpp : Dialect
cpp = record { negation = "!"; conjunction = " && "; disjunction = " || " }

pub Lexing-eq :
    {text text' : List ℕ} {ts ts' : List Token}
    → text' ≡ text
    → ts ≡ ts'
    → Lexing text ts
    → Lexing text' ts'
Lexing-eq e k l = rw e (rw (← k) l)

pub Lexes-eq :
    {text text' : List ℕ} {ts ts' : List Token}
    → text' ≡ text
    → ts ≡ ts'
    → Lexes text ts
    → Lexes text' ts'
Lexes-eq e k l = rw e (rw (← k) l)

pub Lexing-negated :
    (s : String) (ts : List Token)
    → Lexing (codes s) ts
    → Lexing (codes (str_append "!" s)) (sign not_sign "!" ∷ ts)
Lexing-negated s ts l rest us h r =
    Lexes-eq (ap (λ a. a ++ rest) (codes-append "!" s)) refl (not-Lexes (l rest us h r))

pub Lexing-bracketed :
    (b : Bool) (s : String) (p : Piece)
    → Lexing (codes s) p.tokens
    → Lexing (codes (bracket_if b s)) (bracketed_if b p).tokens
Lexing-bracketed false s p l rest us h r = l rest us h r
Lexing-bracketed true s p l rest us h r =
    Lexes-eq
      (ap (λ a. a ++ rest)
          (codes-append "(" (str_append s ")") ∙ ap (λ a. codes "(" ++ a) (codes-append s ")"))
        ∙ append_assoc (codes "(") (codes s ++ codes ")") rest
        ∙ ap (λ a. codes "(" ++ a) (append_assoc (codes s) (codes ")") rest))
      (ap (◌∷◌ (sign lparen "(")) (sym (append_assoc p.tokens (sign rparen ")" ∷ []) us)))
      (open-Lexes (l (codes ")" ++ rest) (sign rparen ")" ∷ us) refl (close-Lexes r)))

more-append : (t : Token) (ps qs : List Piece) → more t (ps ++ qs) ≡ more t ps ++ more t qs
unfolding more
more-append t [] qs = refl
more-append t (p ∷ ps) qs = ap (◌∷◌ t) (
    ap (λ a. p.tokens ++ a) (more-append t ps qs)
    ∙ sym (append_assoc p.tokens (more t ps) (more t qs)))

-- The printed operands of a conjunction or disjunction with this separator.
module _ (o : GuardOp) (separator : String) (t : Token) (join : Formula → Formula → Formula)
    (lexes : (rest : List ℕ) (us : List Token)
      → Lexes rest us
      → Lexes (codes separator ++ rest) (t ∷ us))
    (ends : (rest : List ℕ) → ends_name (codes separator ++ rest) ≡ true) where
  abbrev pub operand : GuardAstNode → String
  operand c = bracket_if (op_eq (op c) or_op && op_eq o and_op) (print cpp c)

  abbrev further : Children → List ℕ
  further cs = codes (print_rest cpp o separator cs)

  ends-further :
      (cs : Children) (rest : List ℕ)
      → ends_name rest ≡ true
      → ends_name (further cs ++ rest) ≡ true
  unfolding print_rest
  ends-further nil rest h = h
  ends-further (cons c cs) rest h =
      ap ends_name (
        ap (λ a. a ++ rest)
          (codes-append separator (str_append (operand c) (print_rest cpp o separator cs)))
        ∙ append_assoc (codes separator) _ rest)
      ∙ ends _

  pub operand_then :
      (c : GuardAstNode) (cs : Children) (ps qs : List Piece)
      → IsNonempty ps
      → Lexing (codes (operand c)) (joined t join ps).tokens
      → Lexing (further cs) (more t qs)
      → Lexing
          (codes (str_append (operand c) (print_rest cpp o separator cs)))
          (joined t join (ps ++ qs)).tokens
  operand_then c cs [] qs n l k rest us h r = absurd n
  operand_then c cs (p ∷ ps) qs n l k rest us h r =
      Lexes-eq
        (ap (λ a. a ++ rest) (codes-append (operand c) (print_rest cpp o separator cs))
          ∙ append_assoc (codes (operand c)) (further cs) rest)
        (sym (append_assoc (p.tokens ++ more t ps) (more t qs) us)
          ∙ ap (λ a. a ++ us)
              (append_assoc p.tokens (more t ps) (more t qs)
                ∙ ap (λ a. p.tokens ++ a) (sym (more-append t ps qs))))
        (l (further cs ++ rest) (more t qs ++ us) (ends-further cs rest h) (k rest us h r))

  pub further_cons :
      (c : GuardAstNode) (cs : Children) (ps qs : List Piece)
      → IsNonempty ps
      → Lexing (codes (operand c)) (joined t join ps).tokens
      → Lexing (further cs) (more t qs)
      → Lexing (further (cons c cs)) (more t (ps ++ qs))
  unfolding print_rest more
  further_cons c cs [] qs n l k rest us h r = absurd n
  further_cons c cs (p ∷ ps) qs n l k rest us h r =
      Lexes-eq
        (ap (λ a. a ++ rest)
            (codes-append separator (str_append (operand c) (print_rest cpp o separator cs)))
          ∙ append_assoc (codes separator)
              (codes (str_append (operand c) (print_rest cpp o separator cs))) rest)
        refl
        (lexes (codes (str_append (operand c) (print_rest cpp o separator cs)) ++ rest) _
          (operand_then c cs (p ∷ ps) qs n l k rest us h r))

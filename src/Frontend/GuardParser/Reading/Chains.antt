-- ===== src/Frontend/GuardParser/Reading/Chains.antt =====
-- guard_parser.cpp: the parser reads operands joined by one sign as one formula.
use mathlib.Core.List.{append_assoc}
use fsmc.Common.{
  ℕ, zero, suc, ◌+◌, ◌*◌, ◌≤◌, ◌≡◌, refl, ◌∙◌, ap, true, false, String, List, [], ◌∷◌, ◌++◌, some,
  length, length-append, not-true, arith,
}
use fsmc.Frontend.GuardParser.{
  and_sign, or_sign, Token, sign, Parsing, type_at, current, is_type, binary_type, then_parse,
  parse_or, or_loop, parse_and, and_loop, parse_unary,
}
use fsmc.Frontend.GuardParser.Formulas.{
  Formula, conjunction, disjunction, type_text, atoms, Piece, more, fold, conjoined, disjoined,
  IsNonempty,
}
use fsmc.Frontend.GuardParser.Reading.{
  at, Read, ends_and, ends_or, ReadsUnary, ReadsAnd, ReadsOr, All,
}

and_loop-more :
    (f : ℕ) (left right : List ℕ) (t : String) (ts : List Token) (seen : List (List ℕ))
    (p' : Parsing)
    → parse_unary f (at ts seen) ≡ some (right, p')
    → and_loop (suc f) left (at (sign and_sign t ∷ ts) seen)
      ≡ and_loop f (binary_type "fsm::and_<" left right) p'
unfolding and_loop
and_loop-more f left right t ts seen p' e =
    ap (λ o. then_parse o (λ right p'. and_loop f (binary_type "fsm::and_<" left right) p')) e

and_loop-stop :
    (f : ℕ) (left : List ℕ) (p : Parsing)
    → is_type and_sign (current p) ≡ false
    → and_loop (suc f) left p ≡ some (left, p)
unfolding and_loop
and_loop-stop f left p h = rw (h, and_loop) refl

-- The loop of a conjunction, after its first operands were read as `left`.
and_loop-Reads :
    (left : Formula) (ps : List Piece)
    → All ReadsUnary ps
    → (rest : List Token) (seen : List (List ℕ)) (f : ℕ)
    → 4 * length (more (sign and_sign "&&") ps ++ rest) + 1 ≤ f
    → ends_and (type_at rest) ≡ true
    → and_loop f (type_text left) (at (more (sign and_sign "&&") ps ++ rest) (seen ++ atoms left))
      ≡ Read (fold conjunction left ps) rest seen
unfolding more fold type_text atoms
and_loop-Reads left ps all rest seen zero h k = absurd (omega arith)
and_loop-Reads left [] all rest seen (suc f) h k =
    and_loop-stop f (type_text left) (at rest (seen ++ atoms left)) (not-true _ k)
and_loop-Reads left (p ∷ ps) all rest seen (suc f) h k =
    let further = more (sign and_sign "&&") ps in
    let same = append_assoc p.tokens further rest in
    let fuel : 4 * length (p.tokens ++ (further ++ rest)) + 4 ≤ f = omega (arith, ap length same) in
    ap (λ ts. and_loop (suc f) (type_text left) (at (sign and_sign "&&" ∷ ts) (seen ++ atoms left)))
      same
    ∙ and_loop-more f (type_text left) (type_text p.formula) "&&" _ (seen ++ atoms left) _
        (all.0 (further ++ rest) (seen ++ atoms left) f (omega arith) refl)
    ∙ ap (λ a. and_loop f (type_text (conjunction left p.formula)) (at (further ++ rest) a))
        (append_assoc seen (atoms left) (atoms p.formula))
    ∙ and_loop-Reads (conjunction left p.formula) ps all.1 rest seen f
        (omega (arith, length-append p.tokens (further ++ rest))) k

pub conjoined-ReadsAnd :
    (ps : List Piece) → IsNonempty ps → All ReadsUnary ps → ReadsAnd (conjoined ps)
unfolding parse_and
conjoined-ReadsAnd [] n all rest seen f h k = absurd n
conjoined-ReadsAnd (p ∷ ps) n all rest seen zero h k = absurd (omega arith)
conjoined-ReadsAnd (p ∷ ps) n all rest seen (suc f) h k =
    let further = more (sign and_sign "&&") ps in
    let same = append_assoc p.tokens further rest in
    let fuel : 4 * length (p.tokens ++ (further ++ rest)) + 2 ≤ f = omega (arith, ap length same) in
    ap (λ ts. then_parse (parse_unary f (at ts seen)) (and_loop f)) same
    ∙ ap (λ o. then_parse o (and_loop f)) (all.0 (further ++ rest) seen f fuel refl)
    ∙ and_loop-Reads p.formula ps all.1 rest seen f
        (omega (arith, length-append p.tokens (further ++ rest))) k

or_loop-more :
    (f : ℕ) (left right : List ℕ) (t : String) (ts : List Token) (seen : List (List ℕ))
    (p' : Parsing)
    → parse_and f (at ts seen) ≡ some (right, p')
    → or_loop (suc f) left (at (sign or_sign t ∷ ts) seen)
      ≡ or_loop f (binary_type "fsm::or_<" left right) p'
unfolding or_loop
or_loop-more f left right t ts seen p' e =
    ap (λ o. then_parse o (λ right p'. or_loop f (binary_type "fsm::or_<" left right) p')) e

or_loop-stop :
    (f : ℕ) (left : List ℕ) (p : Parsing)
    → is_type or_sign (current p) ≡ false
    → or_loop (suc f) left p ≡ some (left, p)
unfolding or_loop
or_loop-stop f left p h = rw (h, or_loop) refl

-- What stands behind an operand of a disjunction ends it.
ends_operand :
    (ps : List Piece) (rest : List Token)
    → ends_or (type_at rest) ≡ true
    → ends_and (type_at (more (sign or_sign "||") ps ++ rest)) ≡ true
unfolding more
ends_operand [] rest k = ground arith
ends_operand (p ∷ ps) rest k = refl

or_loop-Reads :
    (left : Formula) (ps : List Piece)
    → All ReadsAnd ps
    → (rest : List Token) (seen : List (List ℕ)) (f : ℕ)
    → 4 * length (more (sign or_sign "||") ps ++ rest) + 1 ≤ f
    → ends_or (type_at rest) ≡ true
    → or_loop f (type_text left) (at (more (sign or_sign "||") ps ++ rest) (seen ++ atoms left))
      ≡ Read (fold disjunction left ps) rest seen
unfolding more fold type_text atoms
or_loop-Reads left ps all rest seen zero h k = absurd (omega arith)
or_loop-Reads left [] all rest seen (suc f) h k =
    or_loop-stop f (type_text left) (at rest (seen ++ atoms left)) (ground arith)
or_loop-Reads left (p ∷ ps) all rest seen (suc f) h k =
    let further = more (sign or_sign "||") ps in
    let same = append_assoc p.tokens further rest in
    let fuel : 4 * length (p.tokens ++ (further ++ rest)) + 4 ≤ f = omega (arith, ap length same) in
    ap (λ ts. or_loop (suc f) (type_text left) (at (sign or_sign "||" ∷ ts) (seen ++ atoms left)))
      same
    ∙ or_loop-more f (type_text left) (type_text p.formula) "||" _ (seen ++ atoms left) _
        (all.0 (further ++ rest) (seen ++ atoms left) f (omega arith) (ends_operand ps rest k))
    ∙ ap (λ a. or_loop f (type_text (disjunction left p.formula)) (at (further ++ rest) a))
        (append_assoc seen (atoms left) (atoms p.formula))
    ∙ or_loop-Reads (disjunction left p.formula) ps all.1 rest seen f
        (omega (arith, length-append p.tokens (further ++ rest))) k

pub disjoined-ReadsOr : (ps : List Piece) → IsNonempty ps → All ReadsAnd ps → ReadsOr (disjoined ps)
unfolding parse_or
disjoined-ReadsOr [] n all rest seen f h k = absurd n
disjoined-ReadsOr (p ∷ ps) n all rest seen zero h k = absurd (omega arith)
disjoined-ReadsOr (p ∷ ps) n all rest seen (suc f) h k =
    let further = more (sign or_sign "||") ps in
    let same = append_assoc p.tokens further rest in
    let fuel : 4 * length (p.tokens ++ (further ++ rest)) + 3 ≤ f = omega (arith, ap length same) in
    ap (λ ts. then_parse (parse_and f (at ts seen)) (or_loop f)) same
    ∙ ap (λ o. then_parse o (or_loop f))
        (all.0 (further ++ rest) seen f fuel (ends_operand ps rest k))
    ∙ or_loop-Reads p.formula ps all.1 rest seen f
        (omega (arith, length-append p.tokens (further ++ rest))) k

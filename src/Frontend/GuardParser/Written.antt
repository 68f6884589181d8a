-- ===== src/Frontend/GuardParser/Written.antt =====
-- The type that is made of a printable guard is not empty, so that the parser does not fall back.
use fsmc.Common.{◌≡◌, refl, false, List, [], ◌∷◌}
use fsmc.Ir.Guard.{none, not_op, and_op, or_op, GuardAstNode, node, Children, nil, cons}
use fsmc.Frontend.Identifier.{is_nil}
use fsmc.Frontend.GuardParser.Formulas.{
  Formula, conjunction, disjunction, type_text, Piece, fold, conjoined, disjoined, conjuncts,
  all_conjuncts, disjuncts, all_disjuncts, whole, IsPrintable, AllPrintable, IsNonempty,
  disjuncts-IsNonempty, all_conjuncts-IsNonempty, all_disjuncts-IsNonempty,
}
use fsmc.Frontend.GuardParser.Reading.{All}
use fsmc.Frontend.GuardParser.Reading.Trees.{All-append}

abbrev IsWritten : Formula → Type 0
IsWritten f = is_nil (type_text f) ≡ false

abbrev AreWritten : List Piece → Type 0
AreWritten = All (λ p. IsWritten p.formula)

fold-IsWritten :
    (join : Formula → Formula → Formula)
    → ((f g : Formula) → IsWritten (join f g))
    → (f : Formula) (ps : List Piece) → IsWritten f
    → IsWritten (fold join f ps)
unfolding fold
fold-IsWritten join h f [] w = w
fold-IsWritten join h f (p ∷ ps) w = fold-IsWritten join h (join f p.formula) ps (h f p.formula)

conjoined-IsWritten :
    (ps : List Piece) → IsNonempty ps → AreWritten ps → IsWritten (conjoined ps).formula
unfolding type_text
conjoined-IsWritten [] n w = absurd n
conjoined-IsWritten (p ∷ ps) n w = fold-IsWritten conjunction (λ f g. refl) p.formula ps w.0

disjoined-IsWritten :
    (ps : List Piece) → IsNonempty ps → AreWritten ps → IsWritten (disjoined ps).formula
unfolding type_text
disjoined-IsWritten [] n w = absurd n
disjoined-IsWritten (p ∷ ps) n w = fold-IsWritten disjunction (λ f g. refl) p.formula ps w.0

mutual
  unfolding conjuncts all_conjuncts disjuncts all_disjuncts IsPrintable AllPrintable type_text fold

  conjuncts-AreWritten : (g : GuardAstNode) → IsPrintable g → AreWritten (conjuncts g)
  conjuncts-AreWritten (node none e cs) h = (h.written, tt)
  conjuncts-AreWritten (node not_op e nil) h = (refl, tt)
  conjuncts-AreWritten (node not_op e (cons c cs)) h = (refl, tt)
  conjuncts-AreWritten (node and_op e cs) h = all_conjuncts-AreWritten cs h.1
  conjuncts-AreWritten (node or_op e cs) h = (
    disjoined-IsWritten (all_disjuncts cs) (all_disjuncts-IsNonempty cs h.0 h.1)
        (all_disjuncts-AreWritten cs h.1),
    tt,
  )

  all_conjuncts-AreWritten : (cs : Children) → AllPrintable cs → AreWritten (all_conjuncts cs)
  all_conjuncts-AreWritten nil h = tt
  all_conjuncts-AreWritten (cons c cs) h =
      All-append (λ p. IsWritten p.formula) (conjuncts c) (all_conjuncts cs)
        (conjuncts-AreWritten c h.0) (all_conjuncts-AreWritten cs h.1)

  disjuncts-AreWritten : (g : GuardAstNode) → IsPrintable g → AreWritten (disjuncts g)
  disjuncts-AreWritten (node none e cs) h = (h.written, tt)
  disjuncts-AreWritten (node not_op e nil) h = (refl, tt)
  disjuncts-AreWritten (node not_op e (cons c cs)) h = (refl, tt)
  disjuncts-AreWritten (node and_op e cs) h = (
    conjoined-IsWritten (all_conjuncts cs) (all_conjuncts-IsNonempty cs h.0 h.1)
        (all_conjuncts-AreWritten cs h.1),
    tt,
  )
  disjuncts-AreWritten (node or_op e cs) h = all_disjuncts-AreWritten cs h.1

  all_disjuncts-AreWritten : (cs : Children) → AllPrintable cs → AreWritten (all_disjuncts cs)
  all_disjuncts-AreWritten nil h = tt
  all_disjuncts-AreWritten (cons c cs) h =
      All-append (λ p. IsWritten p.formula) (disjuncts c) (all_disjuncts cs)
        (disjuncts-AreWritten c h.0) (all_disjuncts-AreWritten cs h.1)

pub whole-IsWritten :
    (g : GuardAstNode) → IsPrintable g → is_nil (type_text (whole g).formula) ≡ false
unfolding whole
whole-IsWritten g h =
    disjoined-IsWritten (disjuncts g) (disjuncts-IsNonempty g h) (disjuncts-AreWritten g h)

-- ===== src/Frontend/GuardParser/Meaning.antt =====
-- The formula of a printable guard means what the guard means.
use fsmc.Common.{
  ◌≡◌, refl, ◌∙◌, ap, Bool, true, false, not, ◌||◌, ◌&&◌, String, List, [], ◌∷◌, ◌++◌, arith,
}
use fsmc.Ir.Guard.{
  none, not_op, and_op, or_op, GuardAstNode, node, Children, nil, cons, op, op_eq, eval, eval_and,
  eval_or,
}
use fsmc.Frontend.GuardParser.Formulas.{
  Formula, conjunction, disjunction, meaning, Piece, atom_piece, negated, bracketed_if, fold,
  conjoined, disjoined, conjuncts, all_conjuncts, disjuncts, all_disjuncts, whole, IsPrintable,
  AllPrintable, IsNonempty, disjuncts-IsNonempty, all_conjuncts-IsNonempty,
  all_disjuncts-IsNonempty,
}

module _ (value : String → Bool) where
  abbrev all_hold : List Piece → Bool
  all_hold [] = true
  all_hold (p ∷ ps) = meaning value p.formula && all_hold ps

  abbrev any_holds : List Piece → Bool
  any_holds [] = false
  any_holds (p ∷ ps) = meaning value p.formula || any_holds ps

  all_hold-append : (ps qs : List Piece) → all_hold (ps ++ qs) ≡ (all_hold ps && all_hold qs)
  all_hold-append [] qs = refl
  all_hold-append (p ∷ ps) qs = ground (arith, all_hold-append ps qs)

  any_holds-append : (ps qs : List Piece) → any_holds (ps ++ qs) ≡ (any_holds ps || any_holds qs)
  any_holds-append [] qs = refl
  any_holds-append (p ∷ ps) qs = ground (arith, any_holds-append ps qs)

  fold-conjunction :
      (f : Formula) (ps : List Piece)
      → meaning value (fold conjunction f ps) ≡ (meaning value f && all_hold ps)
  unfolding fold meaning
  fold-conjunction f [] = ground arith
  fold-conjunction f (p ∷ ps) = ground (arith, fold-conjunction (conjunction f p.formula) ps)

  fold-disjunction :
      (f : Formula) (ps : List Piece)
      → meaning value (fold disjunction f ps) ≡ (meaning value f || any_holds ps)
  unfolding fold meaning
  fold-disjunction f [] = ground arith
  fold-disjunction f (p ∷ ps) = ground (arith, fold-disjunction (disjunction f p.formula) ps)

  conjoined_holds :
      (ps : List Piece) → IsNonempty ps → meaning value (conjoined ps).formula ≡ all_hold ps
  conjoined_holds [] h = absurd h
  conjoined_holds (p ∷ ps) h = fold-conjunction p.formula ps

  disjoined_holds :
      (ps : List Piece) → IsNonempty ps → meaning value (disjoined ps).formula ≡ any_holds ps
  disjoined_holds [] h = absurd h
  disjoined_holds (p ∷ ps) h = fold-disjunction p.formula ps

  bracketed_if_formula : (b : Bool) (p : Piece) → (bracketed_if b p).formula ≡ p.formula
  bracketed_if_formula true p = refl
  bracketed_if_formula false p = refl

  or_false : (b : Bool) → (b || false) ≡ b
  or_false b = ground arith

  and_true : (b : Bool) → (b && true) ≡ b
  and_true b = ground arith

  negated_holds :
      (b : Bool) (ps : List Piece) {v : Bool}
      → IsNonempty ps
      → any_holds ps ≡ v
      → all_hold (negated (bracketed_if b (disjoined ps)) ∷ []) ≡ not v
  unfolding meaning
  negated_holds b ps h e =
      and_true _
      ∙ ap (λ f. not (meaning value f)) (bracketed_if_formula b (disjoined ps))
      ∙ ap not (disjoined_holds ps h ∙ e)

  mutual
    unfolding conjuncts all_conjuncts disjuncts all_disjuncts IsPrintable AllPrintable eval eval_and
        eval_or meaning

    conjuncts_hold : (g : GuardAstNode) → IsPrintable g → all_hold (conjuncts g) ≡ eval value g
    conjuncts_hold (node none e cs) h = and_true (value e)
    conjuncts_hold (node not_op e nil) h = and_true (not (value e))
    conjuncts_hold (node not_op e (cons c cs)) h =
        negated_holds _ (disjuncts c) (disjuncts-IsNonempty c h) (disjuncts_hold c h)
    conjuncts_hold (node and_op e cs) h = all_conjuncts_hold cs h.1
    conjuncts_hold (node or_op e cs) h =
        and_true _
        ∙ disjoined_holds (all_disjuncts cs) (all_disjuncts-IsNonempty cs h.0 h.1)
        ∙ all_disjuncts_hold cs h.1

    all_conjuncts_hold :
        (cs : Children) → AllPrintable cs → all_hold (all_conjuncts cs) ≡ eval_and value cs
    all_conjuncts_hold nil h = refl
    all_conjuncts_hold (cons c cs) h =
        all_hold-append (conjuncts c) (all_conjuncts cs)
        ∙ rw (conjuncts_hold c h.0, all_conjuncts_hold cs h.1) refl

    disjuncts_hold : (g : GuardAstNode) → IsPrintable g → any_holds (disjuncts g) ≡ eval value g
    disjuncts_hold (node none e cs) h =
        or_false _ ∙ conjoined_holds (atom_piece e ∷ []) tt ∙ and_true _
    disjuncts_hold (node not_op e nil) h =
        or_false _ ∙ conjoined_holds (negated (atom_piece e) ∷ []) tt ∙ and_true _
    disjuncts_hold (node not_op e (cons c cs)) h =
        or_false _
        ∙ conjoined_holds
            (negated (bracketed_if (not (op_eq (op c) none)) (disjoined (disjuncts c))) ∷ []) tt
        ∙ negated_holds _ (disjuncts c) (disjuncts-IsNonempty c h) (disjuncts_hold c h)
    disjuncts_hold (node and_op e cs) h =
        or_false _
        ∙ conjoined_holds (all_conjuncts cs) (all_conjuncts-IsNonempty cs h.0 h.1)
        ∙ all_conjuncts_hold cs h.1
    disjuncts_hold (node or_op e cs) h = all_disjuncts_hold cs h.1

    all_disjuncts_hold :
        (cs : Children) → AllPrintable cs → any_holds (all_disjuncts cs) ≡ eval_or value cs
    all_disjuncts_hold nil h = refl
    all_disjuncts_hold (cons c cs) h =
        any_holds-append (disjuncts c) (all_disjuncts cs)
        ∙ rw (disjuncts_hold c h.0, all_disjuncts_hold cs h.1) refl

  -- The formula that is read means what the guard means.
  pub meaning-whole :
      (g : GuardAstNode) → IsPrintable g → meaning value (whole g).formula ≡ eval value g
  unfolding whole
  meaning-whole g h = disjoined_holds (disjuncts g) (disjuncts-IsNonempty g h) ∙ disjuncts_hold g h

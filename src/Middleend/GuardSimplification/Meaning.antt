-- ===== src/Middleend/GuardSimplification/Meaning.antt =====
-- guard_simplification_pass.cpp: a simplified guard means what the guard meant.
use fsmc.Common.{
  ◌≡◌, refl, sym, ◌∙◌, inl, inr, Bool, true, false, not, ◌&&◌, ◌||◌, String, eq_iff, arith,
  Bool-cases,
}
use fsmc.Ir.Guard.{
  GuardOp, none, not_op, and_op, or_op, GuardAstNode, node, Children, nil, cons, node_eq, eval,
  eval_and, eval_or,
}
use fsmc.Ir.Guard.Equality.{node_eq_iff}
use fsmc.Middleend.GuardSimplification.{
  append, is_literal, contains, negate, flatten, finish, keep, clean, combine, simplify_node,
  simplify_children,
}

or_again : (a b : Bool) → ((a || b) || a) ≡ (a || b)
or_again a b = ground arith

or_later : (a b c : Bool) → (b || c) ≡ b → ((a || b) || c) ≡ (a || b)
or_later a b c h = ground arith

module _ (value : String → Bool) where
  -- The words `true` and `false` mean what they say.
  pub record Literals : Type 0 where
    pub value_true : value "true" ≡ true
    pub value_false : value "false" ≡ false

  eval_and-append :
      (cs ds : Children) → eval_and value (append cs ds) ≡ (eval_and value cs && eval_and value ds)
  unfolding eval_and
  eval_and-append nil ds = refl
  eval_and-append (cons c cs) ds = ground (arith, eval_and-append cs ds)

  eval_or-append :
      (cs ds : Children) → eval_or value (append cs ds) ≡ (eval_or value cs || eval_or value ds)
  unfolding eval_or
  eval_or-append nil ds = refl
  eval_or-append (cons c cs) ds = ground (arith, eval_or-append cs ds)

  eval_and-flatten : (cs : Children) → eval_and value (flatten and_op cs) ≡ eval_and value cs
  unfolding flatten eval eval_and
  eval_and-flatten nil = refl
  eval_and-flatten (cons (node o e ds) cs) =
      ground (arith, eval_and-append ds (flatten and_op cs), eval_and-flatten cs)

  eval_or-flatten : (cs : Children) → eval_or value (flatten or_op cs) ≡ eval_or value cs
  unfolding flatten eval eval_or
  eval_or-flatten nil = refl
  eval_or-flatten (cons (node o e ds) cs) =
      ground (arith, eval_or-append ds (flatten or_op cs), eval_or-flatten cs)

  eval-negate : (c : GuardAstNode) → Literals → eval value (negate c) ≡ not (eval value c)
  unfolding negate eval
  eval-negate (node not_op e (cons g gs)) l = ground arith
  eval-negate (node not_op e nil) l = refl
  eval-negate (node none e cs) l = ground (arith, eq_iff e "true", eq_iff e "false")
  eval-negate (node and_op e cs) l = refl
  eval-negate (node or_op e cs) l = refl

  -- A literal is its text.
  is_literal_value :
      (text : String) (c : GuardAstNode) → is_literal text c ≡ true → eval value c ≡ value text
  unfolding is_literal eval
  is_literal_value text (node none e cs) h = ground (arith, eq_iff e text)
  is_literal_value text (node not_op e cs) h = ground arith
  is_literal_value text (node and_op e cs) h = ground arith
  is_literal_value text (node or_op e cs) h = ground arith

  contains_and :
      (cs : Children) (c : GuardAstNode)
      → contains cs c ≡ true
      → (eval_and value cs && eval value c) ≡ eval_and value cs
  unfolding contains eval_and
  contains_and nil c h = ground arith
  contains_and (cons d ds) c h = ground (arith, node_eq_iff d c, contains_and ds c)

  contains_or :
      (cs : Children) (c : GuardAstNode)
      → contains cs c ≡ true
      → (eval_or value cs || eval value c) ≡ eval_or value cs
  unfolding contains eval_or
  contains_or nil c h = ground arith
  contains_or (cons d ds) c h = elim (Bool-cases (node_eq d c)) [
    | inl same ↦ rw ((node_eq_iff d c).0 same) (or_again (eval value c) (eval_or value ds))
    | inr other ↦ or_later (eval value d) _ _ (contains_or ds c (rw other at h))
  ]

  finish_and : (cs : Children) → Literals → eval value (finish and_op "true" cs) ≡ eval_and value cs
  unfolding finish eval eval_and
  finish_and nil l = l.value_true
  finish_and (cons c nil) l = ground arith
  finish_and (cons c (cons d ds)) l = refl

  finish_or : (cs : Children) → Literals → eval value (finish or_op "false" cs) ≡ eval_or value cs
  unfolding finish eval eval_or
  finish_or nil l = l.value_false
  finish_or (cons c nil) l = ground arith
  finish_or (cons c (cons d ds)) l = refl

  eval_and-keep :
      (cleaned : Children) (item : GuardAstNode)
      → Literals
      → eval_and value (keep "true" cleaned item) ≡ (eval_and value cleaned && eval value item)
  unfolding keep eval_and
  eval_and-keep cleaned item l = elim (Bool-cases (is_literal "true" item)) [
    | inl dropped ↦
        let same = is_literal_value "true" item dropped ∙ l.value_true in
        ground (arith, dropped, same)
    | inr other ↦ elim (Bool-cases (contains cleaned item)) [
      | inl there ↦ rw (other, there) (sym (contains_and cleaned item there))
      | inr fresh ↦ rw (other, fresh, eval_and-append cleaned (cons item nil)) (ground arith)
    ]
  ]

  clean_and :
      (items cleaned : Children)
      → Literals
      → eval value (clean and_op "false" "true" items cleaned)
        ≡ (eval_and value cleaned && eval_and value items)
  unfolding clean eval_and
  clean_and nil cleaned l = ground (arith, finish_and cleaned)
  clean_and (cons item items) cleaned l = elim (Bool-cases (is_literal "false" item)) [
    | inl decides ↦
        let item_value = is_literal_value "false" item decides ∙ l.value_false in
        rw (decides, item_value) (ground (arith, l))
    | inr goes_on ↦
        rw (goes_on, clean_and items (keep "true" cleaned item) l, eval_and-keep cleaned item l)
          (ground arith)
  ]

  eval_or-keep :
      (cleaned : Children) (item : GuardAstNode)
      → Literals
      → eval_or value (keep "false" cleaned item) ≡ (eval_or value cleaned || eval value item)
  unfolding keep eval_or
  eval_or-keep cleaned item l = elim (Bool-cases (is_literal "false" item)) [
    | inl dropped ↦
        let same = is_literal_value "false" item dropped ∙ l.value_false in
        ground (arith, dropped, same)
    | inr other ↦ elim (Bool-cases (contains cleaned item)) [
      | inl there ↦ rw (other, there) (sym (contains_or cleaned item there))
      | inr fresh ↦ rw (other, fresh, eval_or-append cleaned (cons item nil)) (ground arith)
    ]
  ]

  clean_or :
      (items cleaned : Children)
      → Literals
      → eval value (clean or_op "true" "false" items cleaned)
        ≡ (eval_or value cleaned || eval_or value items)
  unfolding clean eval_or
  clean_or nil cleaned l = ground (arith, finish_or cleaned)
  clean_or (cons item items) cleaned l = elim (Bool-cases (is_literal "true" item)) [
    | inl decides ↦
        let item_value = is_literal_value "true" item decides ∙ l.value_true in
        rw (decides, item_value) (ground (arith, l))
    | inr goes_on ↦
        rw (goes_on, clean_or items (keep "false" cleaned item) l, eval_or-keep cleaned item l)
          (ground arith)
  ]

  -- Children that mean the same, one by one.
  abbrev Agree : Children → Children → Type 0
  Agree nil nil = Unit
  Agree nil (cons d ds) = ⊥
  Agree (cons c cs) nil = ⊥
  Agree (cons c cs) (cons d ds) = (eval value c ≡ eval value d) × Agree cs ds

  Agree-eval_and : (cs ds : Children) → Agree cs ds → eval_and value cs ≡ eval_and value ds
  unfolding eval_and
  Agree-eval_and nil nil h = refl
  Agree-eval_and nil (cons d ds) h = absurd h
  Agree-eval_and (cons c cs) nil h = absurd h
  Agree-eval_and (cons c cs) (cons d ds) h = rw (h.0, Agree-eval_and cs ds h.1)

  Agree-eval_or : (cs ds : Children) → Agree cs ds → eval_or value cs ≡ eval_or value ds
  unfolding eval_or
  Agree-eval_or nil nil h = refl
  Agree-eval_or nil (cons d ds) h = absurd h
  Agree-eval_or (cons c cs) nil h = absurd h
  Agree-eval_or (cons c cs) (cons d ds) h = rw (h.0, Agree-eval_or cs ds h.1)

  eval-combine :
      (o : GuardOp) (e : String) (cs simplified : Children)
      → Agree simplified cs
      → Literals
      → eval value (combine o e cs simplified) ≡ eval value (node o e cs)
  unfolding combine eval
  eval-combine none e cs simplified h l = refl
  eval-combine not_op e nil nil h l = refl
  eval-combine not_op e (cons c cs) nil h l = absurd h
  eval-combine not_op e nil (cons d ds) h l = absurd h
  eval-combine not_op e (cons c cs) (cons d ds) h l = rw (eval-negate d l, h.0)
  eval-combine and_op e cs simplified h l =
      clean_and (flatten and_op simplified) nil l
      ∙ (eval_and-flatten simplified ∙ Agree-eval_and simplified cs h)
  eval-combine or_op e cs simplified h l =
      clean_or (flatten or_op simplified) nil l
      ∙ (eval_or-flatten simplified ∙ Agree-eval_or simplified cs h)

module _ (value : String → Bool) (l : Literals value) where
  mutual
    unfolding simplify_node simplify_children

    eval-simplify : (g : GuardAstNode) → eval value (simplify_node g) ≡ eval value g
    eval-simplify (node o e cs) =
        eval-combine value o e cs (simplify_children cs) (simplify_children-Agree cs) l

    simplify_children-Agree : (cs : Children) → Agree value (simplify_children cs) cs
    simplify_children-Agree nil = tt
    simplify_children-Agree (cons c cs) = (eval-simplify c, simplify_children-Agree cs)

-- Under every valuation of the atomic predicates that reads the words `true` and `false` as they
-- are, the simplified guard has the value of the guard.
pub eval-simplify_node :
    (value : String → Bool) (g : GuardAstNode)
    → Literals value
    → eval value (simplify_node g) ≡ eval value g
eval-simplify_node value g l = eval-simplify value l g

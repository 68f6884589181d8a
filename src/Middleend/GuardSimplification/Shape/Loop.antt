-- ===== src/Middleend/GuardSimplification/Shape/Loop.antt =====
-- guard_simplification_pass.cpp: the loop over the flattened operands keeps each operand once.
use fsmc.Common.{
  ◌≡◌, refl, sym, ap, ◌∙◌, inl, inr, true, false, ◌||◌, String, str_eq, Bool-cases, and_intro,
}
use fsmc.Ir.Guard.{
  GuardOp, none, not_op, and_op, or_op, GuardAstNode, node, Children, nil, cons, op, children,
  compound, op_eq,
}
use fsmc.Middleend.GuardSimplification.{
  append, push_back, is_literal, contains, flatten, finish, keep, clean,
}
use fsmc.Middleend.GuardSimplification.Shape.{
  is_constant, at_least_two, operands, distinct, is_simplified, all_simplified, IsClean, foreign,
}
use fsmc.Middleend.GuardSimplification.Shape.Operands.{
  append_assoc, append-nil, operands-append, distinct-push_back, foreign_of_operands, built_from,
  or_swap, simplified_head, simplified_tail, simplified_cons, simplified_append, foreign_join,
  foreign_head, foreign_cons, simplified_nil, foreign_nil, one_operand, operands_head,
  distinct_head, both_false, neither, simplified_atom,
}

-- The operator, its two constants, and what makes a compound node of it simplified.
pub record Junction (o : GuardOp) (absorbing neutral : String) : Type 0 where
  pub covers : (c : GuardAstNode) → is_constant c ≡ (is_literal absorbing c || is_literal neutral c)
  pub built :
      (cs : Children) → IsClean o cs → at_least_two cs ≡ true → is_simplified (compound o cs) ≡ true
  pub taken :
      (c : GuardAstNode) → op_eq (op c) o ≡ true → is_simplified c ≡ true → IsClean o (children c)

and_taken :
    (c : GuardAstNode)
    → op_eq (op c) and_op ≡ true
    → is_simplified c ≡ true
    → IsClean and_op (children c)
unfolding is_simplified
and_taken (node none e cs) p h = cc
and_taken (node not_op e cs) p h = cc
and_taken (node and_op e cs) p h = built_from and_op (str_eq e "") cs h
and_taken (node or_op e cs) p h = cc

pub and_Junction : Junction and_op "false" "true"
unfolding is_constant is_simplified
and_Junction = record {
  covers = λ c. or_swap (is_literal "true" c) (is_literal "false" c);
  built = λ cs h two.
      and_intro (and_intro (and_intro two h.are_operands) h.are_distinct) h.are_simplified;
  taken = and_taken;
}

or_taken :
    (c : GuardAstNode)
    → op_eq (op c) or_op ≡ true
    → is_simplified c ≡ true
    → IsClean or_op (children c)
unfolding is_simplified
or_taken (node none e cs) p h = cc
or_taken (node not_op e cs) p h = cc
or_taken (node and_op e cs) p h = cc
or_taken (node or_op e cs) p h = built_from or_op (str_eq e "") cs h

pub or_Junction : Junction or_op "true" "false"
unfolding is_constant is_simplified
or_Junction = record {
  covers = λ c. refl;
  built = λ cs h two.
      and_intro (and_intro (and_intro two h.are_operands) h.are_distinct) h.are_simplified;
  taken = or_taken;
}

module _ (o : GuardOp) (absorbing neutral : String) (j : Junction o absorbing neutral) where
  pub flatten-shape :
      (cs : Children)
      → all_simplified cs ≡ true
      → (all_simplified (flatten o cs) ≡ true) × (foreign o (flatten o cs) ≡ true)
  unfolding flatten
  flatten-shape nil h = (simplified_nil, foreign_nil o)
  flatten-shape (cons c cs) h =
      let (simple, apart) = flatten-shape cs (simplified_tail c cs h) in
      elim (Bool-cases (op_eq (op c) o)) [
        | inl same ↦
            let own = j.taken c same (simplified_head c cs h) in
            rw same (
              simplified_append (children c) _ own.are_simplified simple,
              foreign_join o (children c) _ (foreign_of_operands o (children c) own.are_operands)
                  apart,
            )
        | inr other ↦
            rw other
              (simplified_cons c _ (simplified_head c cs h) simple, foreign_cons o c _ other apart)
      ]

  finish-shape : (cs : Children) → IsClean o cs → is_simplified (finish o neutral cs) ≡ true
  unfolding finish
  finish-shape nil h = simplified_atom neutral
  finish-shape (cons c nil) h = simplified_head c nil h.are_simplified
  finish-shape (cons c (cons d ds)) h = j.built _ h refl

  operands-push_back :
      (cleaned : Children) (item : GuardAstNode)
      → operands o cleaned ≡ true
      → op_eq (op item) o ≡ false
      → is_constant item ≡ false
      → operands o (push_back cleaned item) ≡ true
  operands-push_back cleaned item h k other =
      rw operands-append (and_intro h (one_operand o item k other))

  keep-IsClean :
      (cleaned : Children) (item : GuardAstNode)
      → IsClean o cleaned
      → is_simplified item ≡ true
      → op_eq (op item) o ≡ false
      → is_literal absorbing item ≡ false
      → IsClean o (keep neutral cleaned item)
  unfolding keep
  keep-IsClean cleaned item h simple other goes_on =
      elim (Bool-cases (is_literal neutral item || contains cleaned item)) [
        | inl skipped ↦ rw skipped h
        | inr new ↦
            let (no_literal, fresh) = both_false (is_literal neutral item) _ new in
            let constant =
              neither _ (is_literal absorbing item) _ (j.covers item) goes_on (rw no_literal) in
            rw new (record {
              are_operands = operands-push_back cleaned item h.are_operands other constant;
              are_distinct =
                  rw (distinct-push_back nil cleaned item) (and_intro h.are_distinct (rw fresh));
              are_simplified =
                  simplified_append cleaned _ h.are_simplified
                    (simplified_cons item nil simple simplified_nil);
            })
      ]

  pub clean-shape :
      (items cleaned : Children)
      → IsClean o cleaned
      → all_simplified items ≡ true
      → foreign o items ≡ true
      → is_simplified (clean o absorbing neutral items cleaned) ≡ true
  unfolding clean
  clean-shape nil cleaned h simple other = finish-shape cleaned h
  clean-shape (cons item items) cleaned h simple other =
      let (apart, later) = foreign_head o item items other in
      elim (Bool-cases (is_literal absorbing item)) [
        | inl decides ↦ rw decides (simplified_atom absorbing)
        | inr goes_on ↦
            let kept =
              keep-IsClean cleaned item h (simplified_head item items simple) apart goes_on in
            rw goes_on (
              clean-shape items (keep neutral cleaned item) kept (simplified_tail item items simple)
                later)
      ]

  -- On operands that are clean already the loop drops none.
  pub clean_again :
      (items cleaned : Children)
      → operands o items ≡ true
      → distinct cleaned items ≡ true
      → clean o absorbing neutral items cleaned ≡ finish o neutral (append cleaned items)
  unfolding clean keep
  clean_again nil cleaned h d = rw append-nil
  clean_again (cons item items) cleaned h d =
      let (ordinary, later) = operands_head o item items h in
      let (fresh, apart) = distinct_head cleaned item items d in
      let (goes_on, stays) =
        both_false (is_literal absorbing item) (is_literal neutral item)
          (sym (j.covers item) ∙ ordinary) in
      rw (goes_on, stays, fresh)
        (clean_again items (push_back cleaned item) later apart
          ∙ ap (finish o neutral) (append_assoc cleaned (cons item nil) items))

-- ===== src/Middleend/GuardSimplification/Shape/Operands.antt =====
-- The conditions on the operands of a simplified guard, under append and one by one.
use fsmc.Common.{
  ◌≡◌, refl, ap, Bool, true, false, not, ◌&&◌, ◌||◌, String, arith, and_intro, and_left, and_right,
}
use fsmc.Ir.Guard.{GuardOp, GuardAstNode, Children, nil, cons, op, atom, op_eq}
use fsmc.Middleend.GuardSimplification.{append, push_back, contains, flatten}
use fsmc.Middleend.GuardSimplification.Shape.{
  is_constant, at_least_two, operands, distinct, is_simplified, all_simplified, IsClean, foreign,
}

pub append_assoc : (a b c : Children) → append (append a b) c ≡ append a (append b c)
append_assoc nil b c = refl
append_assoc (cons x a) b c = ap (cons x) (append_assoc a b c)

pub append-nil : (a : Children) → append a nil ≡ a
append-nil nil = refl
append-nil (cons x a) = ap (cons x) (append-nil a)

pub operands-append :
    (o : GuardOp) (a b : Children) → operands o (append a b) ≡ (operands o a && operands o b)
unfolding operands
operands-append o nil b = refl
operands-append o (cons c a) b = ground (arith, operands-append o a b)

pub all_simplified-append :
    (a b : Children) → all_simplified (append a b) ≡ (all_simplified a && all_simplified b)
unfolding all_simplified
all_simplified-append nil b = refl
all_simplified-append (cons c a) b = ground (arith, all_simplified-append a b)

pub distinct-push_back :
    (seen cs : Children) (c : GuardAstNode)
    → distinct seen (push_back cs c) ≡ (distinct seen cs && not (contains (append seen cs) c))
unfolding distinct
distinct-push_back seen nil c = rw append-nil (ground arith)
distinct-push_back seen (cons d ds) c =
    let shift = append_assoc seen (cons d nil) ds in
    rw (distinct-push_back (push_back seen d) ds c, shift) (ground arith)

pub foreign-append :
    (o : GuardOp) (a b : Children) → foreign o (append a b) ≡ (foreign o a && foreign o b)
unfolding foreign
foreign-append o nil b = refl
foreign-append o (cons c a) b = ground (arith, foreign-append o a b)

pub foreign_of_operands : (o : GuardOp) (cs : Children) → operands o cs ≡ true → foreign o cs ≡ true
unfolding operands foreign
foreign_of_operands o nil h = refl
foreign_of_operands o (cons c cs) h = ground (arith, foreign_of_operands o cs)

pub flatten_again : (o : GuardOp) (cs : Children) → operands o cs ≡ true → flatten o cs ≡ cs
unfolding flatten operands
flatten_again o nil h = refl
flatten_again o (cons c cs) h = ground (arith, flatten_again o cs)

pub last_three :
    (a b c d e : Bool) → (a && b && c && d && e) ≡ true → (c ≡ true) × (d ≡ true) × (e ≡ true)
last_three a b c d e h = ground arith

-- The conditions on a compound node, in the order in which `is_simplified` tests them.
pub built_from :
    (o : GuardOp) (bare : Bool) (cs : Children)
    → (bare && at_least_two cs && operands o cs && distinct nil cs && all_simplified cs) ≡ true
    → IsClean o cs
built_from o bare cs h =
    let (kinds, once, inside) =
      last_three bare (at_least_two cs) (operands o cs) (distinct nil cs) (all_simplified cs) h in
    record { are_operands = kinds; are_distinct = once; are_simplified = inside }

pub or_swap : (a b : Bool) → (a || b) ≡ (b || a)
or_swap a b = ground arith

pub simplified_head :
    (c : GuardAstNode) (cs : Children) → all_simplified (cons c cs) ≡ true → is_simplified c ≡ true
unfolding all_simplified
simplified_head c cs h = and_left (is_simplified c) _ h

pub simplified_tail :
    (c : GuardAstNode) (cs : Children)
    → all_simplified (cons c cs) ≡ true
    → all_simplified cs ≡ true
unfolding all_simplified
simplified_tail c cs h = and_right (is_simplified c) _ h

pub simplified_cons :
    (c : GuardAstNode) (cs : Children)
    → is_simplified c ≡ true
    → all_simplified cs ≡ true
    → all_simplified (cons c cs) ≡ true
unfolding all_simplified
simplified_cons c cs h k = and_intro h k

pub simplified_append :
    (a b : Children)
    → all_simplified a ≡ true
    → all_simplified b ≡ true
    → all_simplified (append a b) ≡ true
simplified_append a b h k = rw all_simplified-append (and_intro h k)

pub foreign_join :
    (o : GuardOp) (a b : Children)
    → foreign o a ≡ true
    → foreign o b ≡ true
    → foreign o (append a b) ≡ true
foreign_join o a b h k = rw foreign-append (and_intro h k)

pub foreign_head :
    (o : GuardOp) (c : GuardAstNode) (cs : Children)
    → foreign o (cons c cs) ≡ true
    → (op_eq (op c) o ≡ false) × (foreign o cs ≡ true)
unfolding foreign
foreign_head o c cs h = ground arith

pub foreign_cons :
    (o : GuardOp) (c : GuardAstNode) (cs : Children)
    → op_eq (op c) o ≡ false
    → foreign o cs ≡ true
    → foreign o (cons c cs) ≡ true
unfolding foreign
foreign_cons o c cs h k = ground arith

pub simplified_nil : all_simplified nil ≡ true
unfolding all_simplified
simplified_nil = refl

pub foreign_nil : (o : GuardOp) → foreign o nil ≡ true
unfolding foreign
foreign_nil o = refl

pub one_operand :
    (o : GuardOp) (c : GuardAstNode)
    → op_eq (op c) o ≡ false
    → is_constant c ≡ false
    → operands o (cons c nil) ≡ true
unfolding operands
one_operand o c h k = ground arith

pub operands_head :
    (o : GuardOp) (c : GuardAstNode) (cs : Children)
    → operands o (cons c cs) ≡ true
    → (is_constant c ≡ false) × (operands o cs ≡ true)
unfolding operands
operands_head o c cs h = ground arith

pub distinct_head :
    (seen : Children) (c : GuardAstNode) (cs : Children)
    → distinct seen (cons c cs) ≡ true
    → (contains seen c ≡ false) × (distinct (push_back seen c) cs ≡ true)
unfolding distinct
distinct_head seen c cs h = ground arith

pub both_false : (a b : Bool) → (a || b) ≡ false → (a ≡ false) × (b ≡ false)
both_false a b h = ground arith

pub neither : (a b c : Bool) → a ≡ (b || c) → b ≡ false → (c || false) ≡ false → a ≡ false
neither a b c e h k = ground arith

pub simplified_atom : (e : String) → is_simplified (atom e) ≡ true
unfolding is_simplified
simplified_atom e = refl

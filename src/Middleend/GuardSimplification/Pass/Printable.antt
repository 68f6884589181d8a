-- ===== src/Middleend/GuardSimplification/Pass/Printable.antt =====
-- guard_simplification_pass.cpp: a guard that can be read back stays one.
use fsmc.Common.{◌≡◌, refl, inl, inr, true, ◌||◌, String, str_eq, Bool-cases}
use fsmc.Ir.Guard.{
  GuardOp, none, not_op, and_op, or_op, GuardAstNode, node, Children, nil, cons, op, children,
  compound, op_eq,
}
use fsmc.Frontend.GuardParser.Formulas.{IsName, IsPrintable, AllPrintable}
use fsmc.Middleend.GuardSimplification.{
  append, is_literal, contains, negate, flatten, finish, keep, clean, combine, simplify_node,
  simplify_children,
}

true_IsName : IsName "true"
true_IsName = record {
  valid = record { words = refl; start = refl; ending = refl };
  written = refl;
}

false_IsName : IsName "false"
false_IsName = record {
  valid = record { words = refl; start = refl; ending = refl };
  written = refl;
}

negate-IsPrintable : (c : GuardAstNode) → IsPrintable c → IsPrintable (negate c)
unfolding negate IsPrintable AllPrintable
negate-IsPrintable (node not_op e (cons g gs)) h = h
negate-IsPrintable (node not_op e nil) h = h
negate-IsPrintable (node none e cs) h = elim (Bool-cases (str_eq e "true")) [
  | inl yes_ ↦ rw yes_ false_IsName
  | inr no_ ↦ elim (Bool-cases (str_eq e "false")) [
    | inl yes_ ↦ rw (no_, yes_) true_IsName
    | inr other ↦ rw (no_, other) h
  ]
]
negate-IsPrintable (node and_op e cs) h = h
negate-IsPrintable (node or_op e cs) h = h

append-AllPrintable :
    (cs ds : Children) → AllPrintable cs → AllPrintable ds → AllPrintable (append cs ds)
unfolding AllPrintable
append-AllPrintable nil ds h k = k
append-AllPrintable (cons c cs) ds h k = (h.0, append-AllPrintable cs ds h.1 k)

-- The connectives, whose operands are taken in.
abbrev IsConnective : GuardOp → Type 0
IsConnective and_op = Unit
IsConnective or_op = Unit
IsConnective _ = ⊥

children-AllPrintable :
    (o : GuardOp)
    → IsConnective o
    → (c : GuardAstNode) → op_eq (op c) o ≡ true
    → IsPrintable c
    → AllPrintable (children c)
unfolding IsPrintable
children-AllPrintable o k (node and_op e cs) same h = h.1
children-AllPrintable o k (node or_op e cs) same h = h.1
children-AllPrintable and_op k (node none e cs) same h = cc
children-AllPrintable or_op k (node none e cs) same h = cc
children-AllPrintable and_op k (node not_op e cs) same h = cc
children-AllPrintable or_op k (node not_op e cs) same h = cc
children-AllPrintable none k (node none e cs) same h = absurd k
children-AllPrintable not_op k (node none e cs) same h = absurd k
children-AllPrintable none k (node not_op e cs) same h = absurd k
children-AllPrintable not_op k (node not_op e cs) same h = absurd k

flatten-AllPrintable :
    (o : GuardOp) → IsConnective o → (cs : Children) → AllPrintable cs → AllPrintable (flatten o cs)
unfolding flatten AllPrintable IsPrintable
flatten-AllPrintable o k nil h = tt
flatten-AllPrintable o k (cons c cs) h = elim (Bool-cases (op_eq (op c) o)) [
  | inl same ↦ rw same (
      append-AllPrintable (children c) (flatten o cs) (children-AllPrintable o k c same h.0)
        (flatten-AllPrintable o k cs h.1))
  | inr other ↦ rw other (h.0, flatten-AllPrintable o k cs h.1)
]

compound-IsPrintable :
    (o : GuardOp)
    → IsConnective o
    → (c : GuardAstNode) (cs : Children) → AllPrintable (cons c cs)
    → IsPrintable (compound o (cons c cs))
unfolding IsPrintable
compound-IsPrintable and_op k c cs h = (tt, h)
compound-IsPrintable or_op k c cs h = (tt, h)
compound-IsPrintable none k c cs h = absurd k
compound-IsPrintable not_op k c cs h = absurd k

finish-IsPrintable :
    (o : GuardOp)
    → IsConnective o
    → (neutral : String) → IsName neutral
    → (cs : Children) → AllPrintable cs
    → IsPrintable (finish o neutral cs)
unfolding finish AllPrintable IsPrintable
finish-IsPrintable o k neutral n nil h = n
finish-IsPrintable o k neutral n (cons c nil) h = h.0
finish-IsPrintable o k neutral n (cons c (cons d ds)) h = compound-IsPrintable o k c (cons d ds) h

keep-AllPrintable :
    (neutral : String) (cleaned : Children) (item : GuardAstNode)
    → AllPrintable cleaned
    → IsPrintable item
    → AllPrintable (keep neutral cleaned item)
unfolding keep AllPrintable
keep-AllPrintable neutral cleaned item h k =
    elim (Bool-cases (is_literal neutral item || contains cleaned item)) [
      | inl skipped ↦ rw skipped h
      | inr kept ↦ rw kept (append-AllPrintable cleaned (cons item nil) h (k, tt))
    ]

clean-IsPrintable :
    (o : GuardOp)
    → IsConnective o
    → (absorbing neutral : String) → IsName absorbing
    → IsName neutral
    → (items cleaned : Children) → AllPrintable items
    → AllPrintable cleaned
    → IsPrintable (clean o absorbing neutral items cleaned)
unfolding clean AllPrintable
clean-IsPrintable o k a n ha hn nil cleaned h hc = finish-IsPrintable o k n hn cleaned hc
clean-IsPrintable o k a n ha hn (cons item items) cleaned h hc =
    elim (Bool-cases (is_literal a item)) [
      | inl hit ↦ rw hit (unfold IsPrintable in ha)
      | inr miss ↦ rw miss (
          clean-IsPrintable o k a n ha hn items (keep n cleaned item) h.1
            (keep-AllPrintable n cleaned item hc h.0))
    ]

mutual
  unfolding simplify_node simplify_children combine IsPrintable AllPrintable

  pub simplify_node-IsPrintable : (g : GuardAstNode) → IsPrintable g → IsPrintable (simplify_node g)
  simplify_node-IsPrintable (node none e cs) h = h
  simplify_node-IsPrintable (node not_op e nil) h = h
  simplify_node-IsPrintable (node not_op e (cons c cs)) h =
      negate-IsPrintable (simplify_node c) (simplify_node-IsPrintable c h)
  simplify_node-IsPrintable (node and_op e cs) h =
      clean-IsPrintable and_op tt "false" "true" false_IsName true_IsName
        (flatten and_op (simplify_children cs)) nil
        (flatten-AllPrintable and_op tt (simplify_children cs)
          (simplify_children-AllPrintable cs h.1))
        tt
  simplify_node-IsPrintable (node or_op e cs) h =
      clean-IsPrintable or_op tt "true" "false" true_IsName false_IsName
        (flatten or_op (simplify_children cs)) nil
        (flatten-AllPrintable or_op tt (simplify_children cs)
          (simplify_children-AllPrintable cs h.1))
        tt

  pub simplify_children-AllPrintable :
      (cs : Children) → AllPrintable cs → AllPrintable (simplify_children cs)
  simplify_children-AllPrintable nil h = tt
  simplify_children-AllPrintable (cons c cs) h =
      (simplify_node-IsPrintable c h.0, simplify_children-AllPrintable cs h.1)

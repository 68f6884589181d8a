-- ===== src/Middleend/GuardSimplification/Pass/ReadBack.antt =====
-- guard_simplification_pass.cpp, run: the pass is idempotent, and the guard parser reads the texts
-- that it writes.
use fsmc.Common.{
  ℕ, zero, suc, ◌≡◌, refl, ◌∙◌, ap, sym, Bool, String, str_eq, List, [], ◌∷◌, map, Option, none,
  some, Option-cases, inl, inr, get_elem?, if◌then◌else◌, codes,
}
use fsmc.Ir.Guard.{GuardAstNode, eval}
use fsmc.Ir.Guard.Printing.{to_cpp}
use fsmc.Ir.Model.{TransitionEdge, FsmIr}
use fsmc.Frontend.GuardParser.{parse_expression}
use fsmc.Frontend.GuardParser.Formulas.{Formula, type_text, atoms, meaning, IsPrintable}
use fsmc.Frontend.GuardParser.RoundTrip.{parse_expression-to_cpp}
use fsmc.Middleend.GuardSimplification.{simplify_node}
use fsmc.Middleend.GuardSimplification.Meaning.{Literals, eval-simplify_node}
use fsmc.Middleend.GuardSimplification.Shape.Idempotent.{simplify_node_idem}
use fsmc.Middleend.GuardSimplification.Pass.{simplify_edge, warnings, run}
use fsmc.Middleend.GuardSimplification.Pass.Printable.{simplify_node-IsPrintable}

-- simplify_edge, with the guard tree apart.
abbrev simplify_with : TransitionEdge → Option GuardAstNode → TransitionEdge
simplify_with t tree = elim tree [
  | none ↦ t
  | some g ↦ record t {
    guard_ast = some (simplify_node g);
    guard = some (to_cpp (simplify_node g));
  }
]

simplify_edge-some :
    (t : TransitionEdge) (g : GuardAstNode)
    → t.guard_ast ≡ some g
    → simplify_edge t
      ≡ record t { guard_ast = some (simplify_node g); guard = some (to_cpp (simplify_node g)) }
unfolding simplify_edge
simplify_edge-some t g e = ap (simplify_with t) e

simplify_edge-none : (t : TransitionEdge) → t.guard_ast ≡ none → simplify_edge t ≡ t
unfolding simplify_edge
simplify_edge-none t e = ap (simplify_with t) e

warnings-some :
    (t : TransitionEdge) (ts : List TransitionEdge) (g : GuardAstNode)
    → t.guard_ast ≡ some g
    → warnings (t ∷ ts) ≡ (
        if str_eq (to_cpp (simplify_node g)) "false"
        then (t.source, t.target) ∷ warnings ts
        else warnings ts)
unfolding warnings
warnings-some t ts g e = rw (e, warnings) refl

warnings-none :
    (t : TransitionEdge) (ts : List TransitionEdge)
    → t.guard_ast ≡ none
    → warnings (t ∷ ts) ≡ warnings ts
unfolding warnings
warnings-none t ts e = rw (e, warnings) refl

-- The guard of a transition as the pass leaves it.
abbrev simplified : TransitionEdge → GuardAstNode → TransitionEdge
simplified t g = record t {
  guard_ast = some (simplify_node g);
  guard = some (to_cpp (simplify_node g));
}

simplify_edge_twice : (t : TransitionEdge) → simplify_edge (simplify_edge t) ≡ simplify_edge t
simplify_edge_twice t = elim (Option-cases t.guard_ast) [
  | inl bare ↦ ap simplify_edge (simplify_edge-none t bare)
  | inr (g, e) ↦
      ap simplify_edge (simplify_edge-some t g e)
      ∙ simplify_edge-some (simplified t g) (simplify_node g) refl
      ∙ ap (λ (n : GuardAstNode). record t { guard_ast = some n; guard = some (to_cpp n) })
          (simplify_node_idem g)
      ∙ sym (simplify_edge-some t g e)
]

map_twice :
    (ts : List TransitionEdge) → map simplify_edge (map simplify_edge ts) ≡ map simplify_edge ts
map_twice [] = refl
map_twice (t ∷ ts) = rw (simplify_edge_twice t, map_twice ts) refl

warnings_twice : (ts : List TransitionEdge) → warnings (map simplify_edge ts) ≡ warnings ts
warnings_twice [] = refl
warnings_twice (t ∷ ts) = elim (Option-cases t.guard_ast) [
  | inl bare ↦
      warnings-none (simplify_edge t) (map simplify_edge ts)
        (ap (λ (x : TransitionEdge). x.guard_ast) (simplify_edge-none t bare) ∙ bare)
      ∙ warnings_twice ts
      ∙ sym (warnings-none t ts bare)
  | inr (g, e) ↦
      ap (λ (x : TransitionEdge). warnings (x ∷ map simplify_edge ts)) (simplify_edge-some t g e)
      ∙ warnings-some (simplified t g) (map simplify_edge ts) (simplify_node g) refl
      ∙ rw (simplify_node_idem g, warnings_twice ts) refl
      ∙ sym (warnings-some t ts g e)
]

-- A second run of the pass changes nothing, and gives the same warnings.
pub run_idempotent : (ir : FsmIr) → run (run ir).0 ≡ run ir
unfolding run
run_idempotent ir = rw (map_twice ir.transitions, warnings_twice ir.transitions) refl

get_elem?-map :
    (ts : List TransitionEdge) (i : ℕ) (t : TransitionEdge)
    → get_elem? ts i ≡ some t
    → get_elem? (map simplify_edge ts) i ≡ some (simplify_edge t)
get_elem?-map [] i t h = cc
get_elem?-map (x ∷ ts) zero t h = cc
get_elem?-map (x ∷ ts) (suc i) t h = get_elem?-map ts i t h

-- Let the guard tree of a transition have identifiers as its predicates, and an operand below each
-- conjunction and disjunction. Then the pass leaves at the transition's place one with a guard text
-- that the guard parser reads as a formula which, under every valuation that reads the words `true`
-- and `false` as they are, has the value of the guard that was there before.
pub run-parse_expression :
    (ir : FsmIr) (i : ℕ) (t : TransitionEdge) (g : GuardAstNode)
    → get_elem? ir.transitions i ≡ some t
    → t.guard_ast ≡ some g
    → IsPrintable g
    → (t' : TransitionEdge) × (text : String) × (f : Formula) × (get_elem? (run ir).0.transitions i
        ≡ some t')
      × (t'.guard ≡ some text)
      × (parse_expression (codes text)
          ≡ some (record {
            cpp_type = type_text f;
            atomic_guards = atoms f;
            atomic_guard_details = map (λ (a : List ℕ). (a, a)) (atoms f);
          }))
      × ((value : String → Bool) → Literals value → meaning value f ≡ eval value g)
unfolding run
run-parse_expression ir i t g h e p =
    let (f, parsed, same) =
      parse_expression-to_cpp (simplify_node g) (simplify_node-IsPrintable g p) in
    (
      simplify_edge t,
      to_cpp (simplify_node g),
      f,
      get_elem?-map ir.transitions i t h,
      ap (λ (x : TransitionEdge). x.guard) (simplify_edge-some t g e),
      parsed,
      λ value l. same value ∙ eval-simplify_node value g l,
    )

-- ===== src/Frontend/GuardParser/Examples.antt =====
-- Texts and guards, and instances of the theorems about identifiers and the guard parser.
use fsmc.Common.{◌≡◌, refl, Bool, String, List, ℕ, [], ◌∷◌, map, some, codes}
use fsmc.Ir.Guard.{not_op, and_op, or_op, GuardAstNode, nil, cons, atom, compound, eval}
use fsmc.Ir.Guard.Printing.{to_cpp, print, print_operands, print_rest}
use fsmc.Frontend.Identifier.{
  sanitize_identifier, sanitize_loop, sanitize_round, add_word, strip, strip_from, protect, trim,
  trim_front, trim_back,
}
use fsmc.Frontend.Identifier.Valid.{
  IsIdentifier, sanitize_identifier-IsIdentifier, sanitize_identifier_idempotent,
}
use fsmc.Frontend.GuardParser.{
  take_operand, next_token, tokenize, parse_or, or_loop, parse_and, and_loop, parse_unary,
  parse_primary, ParsedGuardResult, parse_expression,
}
use fsmc.Frontend.GuardParser.Returns.{parse_expression_returns}
use fsmc.Frontend.GuardParser.Formulas.{
  Formula, type_text, atoms, meaning, IsName, IsPrintable, AllPrintable,
}
use fsmc.Frontend.GuardParser.RoundTrip.{parse_expression-to_cpp}

sanitized : sanitize_identifier (codes "2 speed<=max!") ≡ codes "_2_speed_lte_max"
unfolding sanitize_identifier sanitize_loop sanitize_round add_word strip strip_from protect
sanitized = refl

-- ready && (hot || !(cold && dry))
abbrev mixed : GuardAstNode
mixed = compound and_op (
    cons (atom "ready") (
      cons
        (compound or_op (
          cons (atom "hot") (
            cons
              (compound not_op
                (cons (compound and_op (cons (atom "cold") (cons (atom "dry") nil))) nil))
              nil)))
        nil))

printed : to_cpp mixed ≡ "ready && (hot || !(cold && dry))"
unfolding to_cpp print print_operands print_rest
printed = refl

parsed :
    parse_expression (codes "ready && (hot || !(cold && dry))")
    ≡ some (record {
      cpp_type = codes "fsm::and_<ready, fsm::or_<hot, fsm::not_<fsm::and_<cold, dry>>>>";
      atomic_guards = map codes ("ready" ∷ "hot" ∷ "cold" ∷ "dry" ∷ []);
      atomic_guard_details =
          map (λ (e : String). (codes e, codes e)) ("ready" ∷ "hot" ∷ "cold" ∷ "dry" ∷ []);
    })
unfolding parse_expression tokenize next_token take_operand parse_or or_loop parse_and and_loop
    parse_unary parse_primary sanitize_identifier sanitize_loop sanitize_round strip strip_from
    protect trim trim_front trim_back
parsed = refl

mixed-IsPrintable : IsPrintable mixed
unfolding IsPrintable AllPrintable
mixed-IsPrintable = (tt, (ready, ((tt, (hot, ((tt, (cold, (dry, tt))), tt))), tt)))
  where
    ready : IsName "ready"
    ready = record { valid = record { words = refl; start = refl; ending = refl }; written = refl }

    hot : IsName "hot"
    hot = record { valid = record { words = refl; start = refl; ending = refl }; written = refl }

    cold : IsName "cold"
    cold = record { valid = record { words = refl; start = refl; ending = refl }; written = refl }

    dry : IsName "dry"
    dry = record { valid = record { words = refl; start = refl; ending = refl }; written = refl }

parse_expression-to_cpp_example :
    (f : Formula) × (parse_expression (codes (to_cpp mixed))
      ≡ some (record {
        cpp_type = type_text f;
        atomic_guards = atoms f;
        atomic_guard_details = map (λ (a : List ℕ). (a, a)) (atoms f);
      }))
    × ((value : String → Bool) → meaning value f ≡ eval value mixed)
parse_expression-to_cpp_example = parse_expression-to_cpp mixed mixed-IsPrintable

parse_expression_returns_example :
    (r : ParsedGuardResult) × (parse_expression (codes "a) && (b") ≡ some r)
parse_expression_returns_example = parse_expression_returns (codes "a) && (b")

sanitize_identifier-IsIdentifier_example :
    IsIdentifier (sanitize_identifier (codes "2 speed<=max!"))
sanitize_identifier-IsIdentifier_example = sanitize_identifier-IsIdentifier (codes "2 speed<=max!")

sanitize_identifier_idempotent_example :
    sanitize_identifier (sanitize_identifier (codes "2 speed<=max!"))
    ≡ sanitize_identifier (codes "2 speed<=max!")
sanitize_identifier_idempotent_example = sanitize_identifier_idempotent (codes "2 speed<=max!")

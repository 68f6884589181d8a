-- ===== src/Frontend/GuardParser/Returns.antt =====
-- guard_parser.cpp: the tokenizer and the parser end within their fuel, on every text.
use fsmc.Common.{
  ℕ, zero, suc, ◌+◌, ◌*◌, ◌≤◌, ◌<◌, ◌≡◌, refl, ◌∙◌, ap, Bool, true, false, List, [], ◌∷◌, some,
  if◌then◌else◌, length, arith,
}
use fsmc.Frontend.Identifier.{tail}
use fsmc.Frontend.GuardParser.{
  TokenType, and_sign, or_sign, not_sign, lparen, rparen, Token, deeper, take_operand, next_token,
  push, push_front, tokenize, Parsing, type_at, rest_of, advance, is_type, binary_type, Parsed,
  then_parse, keep_atom, close, parse_or, or_loop, parse_and, and_loop, parse_unary, parse_primary,
  ParsedGuardResult, result_of, start, parse_fuel, parse_expression,
}

length-take_operand : (depth : ℕ) (cs : List ℕ) → length (take_operand depth cs).1 ≤ length cs
unfolding take_operand
length-take_operand depth [] = omega arith
length-take_operand depth (c ∷ cs) = ground (arith, length-take_operand (deeper depth c) cs)

-- A round of the tokenizer reads a character at least.
pub length-next_token : (c : ℕ) (cs : List ℕ) → length (next_token c cs).1 ≤ length cs
unfolding next_token take_operand
length-next_token c cs = ground (arith, length-take_operand (deeper 0 c) cs, length-tail cs)
  where
    length-tail : (cs : List ℕ) → length (tail cs) ≤ length cs
    length-tail [] = omega arith
    length-tail (c ∷ cs) = omega arith

pub tokenize_returns :
    (fuel : ℕ) (text : List ℕ)
    → length text < fuel
    → (ts : List Token) × (tokenize fuel text ≡ some ts)
unfolding tokenize
tokenize_returns zero text h = elim h [ ]
tokenize_returns (suc fuel) [] h = (_, refl)
tokenize_returns (suc fuel) (c ∷ cs) h =
    let le = length-next_token c cs in
    let (ts, e) = tokenize_returns fuel (next_token c cs).1 (omega arith) in
    (push (next_token c cs).0 ts, ap (push_front (next_token c cs).0) e)

-- The parser returns, with at most so many tokens left.
abbrev pub Returned : Parsed → ℕ → Type 0
Returned o n = (t : List ℕ) × (p : Parsing) × (o ≡ some (t, p)) × (length p.tokens ≤ n)

then_parse-Returned :
    (o : Parsed) (k : List ℕ → Parsing → Parsed) (n m : ℕ)
    → Returned o n
    → ((t : List ℕ) (p : Parsing) → length p.tokens ≤ n → Returned (k t p) m)
    → Returned (then_parse o k) m
then_parse-Returned o k n m (t, p, e, le) h =
    let (t', p', e', le') = h t p le in (t', p', ap (λ r. then_parse r k) e ∙ e', le')

shorter :
    (t : TokenType) (ts : List Token)
    → is_type t (type_at ts) ≡ true
    → suc (length (rest_of ts)) ≡ length ts
shorter t [] h = ground arith
shorter t (x ∷ ts) h = refl

weaken : (o : Parsed) (n m : ℕ) → Returned o n → n ≤ m → Returned o m
weaken o n m (t, p, e, le) h = (t, p, e, omega arith)

keep_atom-Returned : (p : Parsing) → Returned (keep_atom p.tokens p) (length p.tokens)
keep_atom-Returned p = kept p.tokens refl
  where
    kept : (ts : List Token) → p.tokens ≡ ts → Returned (keep_atom ts p) (length ts)
    kept [] e = ([], p, refl, rw e (omega arith))
    kept (t ∷ ts) e = (_, _, refl, omega arith)

length-close : (p : Parsing) → length (close p).tokens ≤ length p.tokens
length-close p = ground (arith, shorter rparen p.tokens)

-- A branch of the parser.
branch :
    (b : Bool) (x y : Parsed) (n : ℕ)
    → (b ≡ true → Returned x n)
    → (b ≡ false → Returned y n)
    → Returned (if b then x else y) n
branch true x y n h k = h refl
branch false x y n h k = k refl

mutual
  unfolding parse_or or_loop parse_and and_loop parse_unary parse_primary

  parse_or_returns :
      (f : ℕ) (p : Parsing)
      → 4 * length p.tokens + 4 ≤ f
      → Returned (parse_or f p) (length p.tokens)
  parse_or_returns zero p h = absurd (omega arith)
  parse_or_returns (suc f) p h =
      then_parse-Returned (parse_and f p) (or_loop f) _ _ (parse_and_returns f p (omega arith))
        (λ t p' le. weaken _ _ _ (or_loop_returns f t p' (omega arith)) le)

  or_loop_returns :
      (f : ℕ) (left : List ℕ) (p : Parsing)
      → 4 * length p.tokens + 1 ≤ f
      → Returned (or_loop f left p) (length p.tokens)
  or_loop_returns zero left p h = absurd (omega arith)
  or_loop_returns (suc f) left p h =
      branch _ _ _ _
        (λ more.
          let less = shorter or_sign p.tokens more in
          then_parse-Returned (parse_and f (advance p)) _ _ _
            (parse_and_returns f (advance p) (omega arith))
            (λ t p' le.
              weaken _ _ _ (or_loop_returns f (binary_type "fsm::or_<" left t) p' (omega arith))
                (omega arith)))
        (λ stop. (left, p, refl, omega arith))

  parse_and_returns :
      (f : ℕ) (p : Parsing)
      → 4 * length p.tokens + 3 ≤ f
      → Returned (parse_and f p) (length p.tokens)
  parse_and_returns zero p h = absurd (omega arith)
  parse_and_returns (suc f) p h =
      then_parse-Returned (parse_unary f p) (and_loop f) _ _ (parse_unary_returns f p (omega arith))
        (λ t p' le. weaken _ _ _ (and_loop_returns f t p' (omega arith)) le)

  and_loop_returns :
      (f : ℕ) (left : List ℕ) (p : Parsing)
      → 4 * length p.tokens + 1 ≤ f
      → Returned (and_loop f left p) (length p.tokens)
  and_loop_returns zero left p h = absurd (omega arith)
  and_loop_returns (suc f) left p h =
      branch _ _ _ _
        (λ more.
          let less = shorter and_sign p.tokens more in
          then_parse-Returned (parse_unary f (advance p)) _ _ _
            (parse_unary_returns f (advance p) (omega arith))
            (λ t p' le.
              weaken _ _ _ (and_loop_returns f (binary_type "fsm::and_<" left t) p' (omega arith))
                (omega arith)))
        (λ stop. (left, p, refl, omega arith))

  parse_unary_returns :
      (f : ℕ) (p : Parsing)
      → 4 * length p.tokens + 2 ≤ f
      → Returned (parse_unary f p) (length p.tokens)
  parse_unary_returns zero p h = absurd (omega arith)
  parse_unary_returns (suc f) p h =
      branch _ _ _ _
        (λ more.
          let less = shorter not_sign p.tokens more in
          then_parse-Returned (parse_unary f (advance p)) _ _ _
            (parse_unary_returns f (advance p) (omega arith))
            (λ t p' le. (_, p', refl, omega arith)))
        (λ other. parse_primary_returns f p (omega arith))

  parse_primary_returns :
      (f : ℕ) (p : Parsing)
      → 4 * length p.tokens + 1 ≤ f
      → Returned (parse_primary f p) (length p.tokens)
  parse_primary_returns zero p h = absurd (omega arith)
  parse_primary_returns (suc f) p h =
      branch _ _ _ _
        (λ opened.
          let less = shorter lparen p.tokens opened in
          then_parse-Returned (parse_or f (advance p)) _ _ _
            (parse_or_returns f (advance p) (omega arith))
            (λ t p' le. (t, close p', refl, omega (arith, length-close p'))))
        (λ other.
          branch _ _ _ _ (λ named. keep_atom-Returned p) (λ nothing. ([], p, refl, omega arith)))

pub parse_expression-step :
    (src : List ℕ) (ts : List Token) (cpp_type : List ℕ) (p : Parsing)
    → tokenize (length src + 1) src ≡ some ts
    → parse_or (parse_fuel ts) (start ts) ≡ some (cpp_type, p)
    → parse_expression src ≡ some (result_of src cpp_type p)
unfolding parse_expression
parse_expression-step src ts cpp_type p e k = rw (e, parse_expression) (rw k refl)

-- On every text the tokenizer and the parser return.
pub parse_expression_returns :
    (src : List ℕ) → (r : ParsedGuardResult) × (parse_expression src ≡ some r)
parse_expression_returns src =
    let (ts, e) = tokenize_returns (length src + 1) src (omega arith) in
    let (cpp_type, p, k, le) = parse_or_returns (parse_fuel ts) (start ts) (omega arith) in
    (result_of src cpp_type p, parse_expression-step src ts cpp_type p e k)

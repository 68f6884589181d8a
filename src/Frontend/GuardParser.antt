-- ===== src/Frontend/GuardParser.antt =====
-- guard_parser.cpp, the class GuardTokenizerAndParser: the tokens of a guard expression, and its
-- recursive descent to the C++ type of the predicate.
pub mod Returns
pub mod Lexing
pub mod Formulas
pub mod Meaning
pub mod Reading
pub mod Written
pub mod RoundTrip
mod Examples
use fsmc.Common.{
  ℕ, zero, suc, ◌+◌, ◌-◌, ◌*◌, Bool, true, false, not, ◌||◌, ◌&&◌, String, List, [], ◌∷◌, ◌++◌,
  Option, none, some, if◌then◌else◌, ◌==◌, leb, length, codes,
}
use fsmc.Frontend.Identifier.{is_nil, next_is, tail, trim, sanitize_identifier}

pub data TokenType : Type 0 where
  ident and_sign or_sign not_sign lparen rparen end : TokenType

pub record Token : Type 0 where
  pub type : TokenType
  pub value : List ℕ
  pub raw_expr : List ℕ

abbrev pub sign : TokenType → String → Token
sign t s = record { type = t; value = codes s; raw_expr = codes s }

-- std::isspace
abbrev pub is_space : ℕ → Bool
is_space c = c == 32 || (leb 9 c && leb c 13)

-- The character ends an operand, `depth` brackets deep in it. The first character of an operand is
-- no bracket, so that the break for one at its start is not taken.
abbrev pub stops : ℕ → ℕ → Bool
stops depth c = depth == 0 && (c == b')' || (c == b'&' || c == b'|'))

abbrev pub deeper : ℕ → ℕ → ℕ
deeper depth c = if c == b'(' then suc depth else if c == b')' then depth - 1 else depth

-- The loop over an operand: its text, and what is left.
pub take_operand : ℕ → List ℕ → List ℕ × List ℕ
take_operand depth [] = ([], [])
take_operand depth (c ∷ cs) =
    let (taken, left) = take_operand (deeper depth c) cs in
    if stops depth c then ([], c ∷ cs) else (c ∷ taken, left)

abbrev pub ident_token : List ℕ → Option Token
ident_token taken =
    let raw = trim taken in
    let name = sanitize_identifier raw in
    if is_nil name then none else some (record { type = ident; value = name; raw_expr = raw })

-- A sign that may be written once or twice.
abbrev pub once_or_twice : TokenType → ℕ → String → String → List ℕ → Option Token × List ℕ
once_or_twice t c twice once cs =
    if next_is c cs then (some (sign t twice), tail cs) else (some (sign t once), cs)

-- One round of the tokenizer at the character `c`: the token that it pushes, if it pushes one, and
-- what is left.
pub next_token : ℕ → List ℕ → Option Token × List ℕ
next_token c cs =
    if is_space c
    then (none, cs)
    else if c == b'&'
    then once_or_twice and_sign b'&' "&&" "&" cs
    else if c == b'|'
    then once_or_twice or_sign b'|' "||" "|" cs
    else if c == b'!'
    then (some (sign not_sign "!"), cs)
    else if c == b'('
    then (some (sign lparen "("), cs)
    else if c == b')'
    then (some (sign rparen ")"), cs)
    else (let (taken, left) = take_operand 0 (c ∷ cs) in (ident_token taken, left))

abbrev pub push : Option Token → List Token → List Token
push none ts = ts
push (some t) ts = t ∷ ts

abbrev pub push_front : Option Token → Option (List Token) → Option (List Token)
push_front t none = none
push_front t (some ts) = some (push t ts)

-- `tokenize`, with fuel; `none` means that the fuel ran out.
pub tokenize : ℕ → List ℕ → Option (List Token)
tokenize zero text = none
tokenize (suc fuel) [] = some (sign end "" ∷ [])
tokenize (suc fuel) (c ∷ cs) = let (t, left) = next_token c cs in push_front t (tokenize fuel left)

-- The tokens from the current one on, and the two vectors that the parser fills.
pub record Parsing : Type 0 where
  pub tokens : List Token
  pub atomic : List (List ℕ)
  pub atomic_details : List (List ℕ × List ℕ)

abbrev pub type_at : List Token → TokenType
type_at [] = end
type_at (t ∷ ts) = t.type

abbrev pub current : Parsing → TokenType
current p = type_at p.tokens

abbrev pub rest_of : List Token → List Token
rest_of [] = []
rest_of (t ∷ ts) = ts

abbrev pub advance : Parsing → Parsing
advance p = record p { tokens = rest_of p.tokens }

abbrev pub is_type : TokenType → TokenType → Bool
is_type and_sign and_sign = true
is_type or_sign or_sign = true
is_type not_sign not_sign = true
is_type lparen lparen = true
is_type rparen rparen = true
is_type ident ident = true
is_type _ _ = false

abbrev pub binary_type : String → List ℕ → List ℕ → List ℕ
binary_type name left right = codes name ++ (left ++ (codes ", " ++ (right ++ codes ">")))

abbrev pub negated_type : List ℕ → List ℕ
negated_type sub = codes "fsm::not_<" ++ (sub ++ codes ">")

abbrev pub Parsed : Type 0
Parsed = Option (List ℕ × Parsing)

abbrev pub then_parse : Parsed → (List ℕ → Parsing → Parsed) → Parsed
then_parse none k = none
then_parse (some (t, p)) k = k t p

abbrev pub keep_atom : List Token → Parsing → Parsed
keep_atom [] p = some ([], p)
keep_atom (t ∷ ts) p = some (
  t.value,
  record {
    tokens = ts;
    atomic = p.atomic ++ t.value ∷ [];
    atomic_details = p.atomic_details ++ (t.value, t.raw_expr) ∷ [];
  },
)

abbrev pub close : Parsing → Parsing
close p = if is_type rparen (current p) then advance p else p

-- The parser, with fuel; `none` means that the fuel ran out.
mutual
  pub parse_or : ℕ → Parsing → Parsed
  parse_or zero p = none
  parse_or (suc f) p = then_parse (parse_and f p) (or_loop f)

  pub or_loop : ℕ → List ℕ → Parsing → Parsed
  or_loop zero left p = none
  or_loop (suc f) left p =
      let more =
        then_parse (parse_and f (advance p))
          (λ right p'. or_loop f (binary_type "fsm::or_<" left right) p') in
      if is_type or_sign (current p) then more else some (left, p)

  pub parse_and : ℕ → Parsing → Parsed
  parse_and zero p = none
  parse_and (suc f) p = then_parse (parse_unary f p) (and_loop f)

  pub and_loop : ℕ → List ℕ → Parsing → Parsed
  and_loop zero left p = none
  and_loop (suc f) left p =
      let more =
        then_parse (parse_unary f (advance p))
          (λ right p'. and_loop f (binary_type "fsm::and_<" left right) p') in
      if is_type and_sign (current p) then more else some (left, p)

  pub parse_unary : ℕ → Parsing → Parsed
  parse_unary zero p = none
  parse_unary (suc f) p =
      let negated =
        then_parse (parse_unary f (advance p)) (λ sub p'. some (negated_type sub, p')) in
      if is_type not_sign (current p) then negated else parse_primary f p

  pub parse_primary : ℕ → Parsing → Parsed
  parse_primary zero p = none
  parse_primary (suc f) p =
      let inner = then_parse (parse_or f (advance p)) (λ t p'. some (t, close p')) in
      if is_type lparen (current p)
      then inner
      else if is_type ident (current p)
      then keep_atom p.tokens p
      else some ([], p)

pub record ParsedGuardResult : Type 0 where
  pub cpp_type : List ℕ
  pub atomic_guards : List (List ℕ)
  pub atomic_guard_details : List (List ℕ × List ℕ)

abbrev pub fallback : List ℕ → ParsedGuardResult
fallback src =
    let name = sanitize_identifier src in
    record { cpp_type = name; atomic_guards = name ∷ []; atomic_guard_details = (name, src) ∷ [] }

abbrev pub result_of : List ℕ → List ℕ → Parsing → ParsedGuardResult
result_of src cpp_type p = if is_nil cpp_type then fallback src else record {
  cpp_type = cpp_type;
  atomic_guards = p.atomic;
  atomic_guard_details = p.atomic_details;
}

abbrev pub start : List Token → Parsing
start ts = record { tokens = ts; atomic = []; atomic_details = [] }

-- The fuel that is enough for this many tokens.
abbrev pub parse_fuel : List Token → ℕ
parse_fuel ts = 4 * length ts + 5

-- The constructor and parse_expression.
pub parse_expression : List ℕ → Option ParsedGuardResult
parse_expression src = elim (tokenize (length src + 1) src) [
  | none ↦ none
  | some ts ↦ elim (parse_or (parse_fuel ts) (start ts)) [
    | none ↦ none
    | some (cpp_type, p) ↦ some (result_of src cpp_type p)
  ]
]

-- ===== src/Frontend/GuardParser/Lexing.antt =====
-- guard_parser.cpp: what the tokenizer makes of names, signs and brackets, for any fuel.
use mathlib.Core.Path.{subst, ap₂}
use fsmc.Common.{
  ℕ, zero, suc, ◌<◌, ◌≡◌, refl, sym, ◌∙◌, ap, inl, inr, Bool, true, false, ◌||◌, ◌&&◌, String, List,
  [], ◌∷◌, ◌++◌, Option, some, ◌==◌, length, codes, Bool-cases, arith,
}
use fsmc.Frontend.Identifier.{is_nil, next_is, is_word, trim, trim_front, trim_back}
use fsmc.Frontend.Identifier.Valid.{all_words, sanitize_identifier_same}
use fsmc.Frontend.GuardParser.{
  and_sign, or_sign, not_sign, lparen, rparen, end, Token, sign, take_operand, ident_token,
  next_token, push, push_front, tokenize,
}
use fsmc.Frontend.GuardParser.Returns.{length-next_token}
use fsmc.Frontend.GuardParser.Formulas.{IsName, ident_of}

-- The tokens of a text.
pub data Lexes : List ℕ → List Token → Type 0 where
  done : Lexes [] (sign end "" ∷ [])
  round :
      {c : ℕ} {cs : List ℕ} {ts us : List Token}
      → push (next_token c cs).0 ts ≡ us
      → Lexes (next_token c cs).1 ts
      → Lexes (c ∷ cs) us

pub tokenize-Lexes :
    (f : ℕ) {text : List ℕ} {ts : List Token}
    → Lexes text ts
    → length text < f
    → tokenize f text ≡ some ts
unfolding tokenize
tokenize-Lexes zero l h = absurd (omega arith)
tokenize-Lexes (suc f) done h = refl
tokenize-Lexes (suc f) (round {c} {cs} {ts} {us} e l) h =
    ap (push_front (next_token c cs).0) (tokenize-Lexes f l (omega (arith, length-next_token c cs)))
    ∙ ap some e

-- A blank is passed over.
Lexes-blank :
    {text : List ℕ} {us : List Token} → Lexes text us → (q : List ℕ) → text ≡ 32 ∷ q → Lexes q us
unfolding next_token
Lexes-blank done q e = cc
Lexes-blank (round {c} {cs} {ts} {us} k l) q e =
    let first : c ≡ 32 = cc in
    let behind : cs ≡ q = cc in
    let tokens : push (next_token 32 q).0 ts ≡ us =
      ap₂ (λ a b. push (next_token a b).0 ts) (sym first) (sym behind) ∙ k in
    let rest : Lexes (next_token 32 q).1 ts =
      subst (λ a. Lexes a ts) (ap₂ (λ a b. (next_token a b).1) first behind) l in
    subst (Lexes q) tokens rest

-- What may stand behind a name: the end, a closing bracket, or a blank and a sign.
abbrev pub ends_name : List ℕ → Bool
ends_name [] = true
ends_name (c ∷ cs) = c == b')' || (c == 32 && (next_is b'&' cs || next_is b'|' cs))

-- The text gives these tokens, whatever follows that may follow a name.
abbrev pub Lexing : List ℕ → List Token → Type 0
Lexing text ts =
    (rest : List ℕ) (us : List Token)
    → ends_name rest ≡ true
    → Lexes rest us
    → Lexes (text ++ rest) (ts ++ us)

take_operand-words :
    (s rest : List ℕ)
    → all_words s ≡ true
    → take_operand 0 (s ++ rest) ≡ (s ++ (take_operand 0 rest).0, (take_operand 0 rest).1)
unfolding take_operand
take_operand-words [] rest h = refl
take_operand-words (c ∷ cs) rest h = ground (arith, take_operand-words cs rest)

trim_back-words : (s b : List ℕ) → all_words s ≡ true → trim_back b ≡ [] → trim_back (s ++ b) ≡ s
unfolding trim_back
trim_back-words [] b h k = k
trim_back-words (c ∷ cs) b h k = ground (arith, trim_back-words cs b)

trim-words :
    (s b : List ℕ) → all_words s ≡ true → is_nil s ≡ false → trim_back b ≡ [] → trim (s ++ b) ≡ s
unfolding trim trim_front
trim-words [] b h n k = cc
trim-words (c ∷ cs) b h n k = ground (arith, trim_back-words (c ∷ cs) b)

-- A name and a blank, or none, is the token of the name.
ident_token-name :
    (e : String) (b : List ℕ)
    → IsName e
    → trim_back b ≡ []
    → ident_token (codes e ++ b) ≡ some (ident_of e)
ident_token-name e b n k =
    rw
      (
        trim-words (codes e) b n.valid.words n.written k,
        sanitize_identifier_same (codes e) n.valid,
        n.written,
      )
      refl

closing_operand :
    (c : ℕ) (cs : List ℕ) → (c == b')') ≡ true → take_operand 0 (c ∷ cs) ≡ ([], c ∷ cs)
unfolding take_operand
closing_operand c cs h = ground arith

blank_operand :
    (c : ℕ) (cs : List ℕ)
    → c ≡ 32
    → (next_is b'&' cs || next_is b'|' cs) ≡ true
    → take_operand 0 (c ∷ cs) ≡ (c ∷ [], cs)
unfolding take_operand
blank_operand c [] e h = cc
blank_operand c (d ∷ ds) e h = ground arith

-- What an operand takes of what stands behind a name is blank, and no token is lost by it.
after_name :
    (rest : List ℕ) (us : List Token)
    → ends_name rest ≡ true
    → Lexes rest us
    → (trim_back (take_operand 0 rest).0 ≡ []) × Lexes (take_operand 0 rest).1 us
unfolding take_operand trim_back
after_name [] us h l = (refl, l)
after_name (c ∷ cs) us h l = elim (Bool-cases (c == b')')) [
  | inl closing ↦
      subst (λ (p : List ℕ × List ℕ). (trim_back p.0 ≡ []) × Lexes p.1 us)
        (sym (closing_operand c cs closing)) (refl, l)
  | inr other ↦
      let space : c ≡ 32 = ground arith in
      let trimmed : trim_back (c ∷ []) ≡ [] = ground arith in
      subst (λ (p : List ℕ × List ℕ). (trim_back p.0 ≡ []) × Lexes p.1 us)
        (sym (blank_operand c cs space (ground arith)))
        (trimmed, Lexes-blank l cs (ap (λ a. a ∷ cs) space))
]

next_token-name :
    (c : ℕ) (cs : List ℕ)
    → is_word c ≡ true
    → next_token c cs ≡ (ident_token (take_operand 0 (c ∷ cs)).0, (take_operand 0 (c ∷ cs)).1)
unfolding next_token
next_token-name c cs h = ground arith

-- One round, by its result.
step :
    (c : ℕ) (cs : List ℕ) (t : Option Token) (left : List ℕ) (us : List Token)
    → next_token c cs ≡ (t, left)
    → Lexes left us
    → Lexes (c ∷ cs) (push t us)
step c cs t left us e l =
    round (ap (λ p. push p.0 us) e) (subst (λ (p : Option Token × List ℕ). Lexes p.1 us) (sym e) l)

-- A name.
pub name-Lexing : (e : String) → IsName e → Lexing (codes e) (ident_of e ∷ [])
name-Lexing e n rest us h l = spelled (codes e) refl n.valid.words n.written
  where
    spelled :
        (s : List ℕ)
        → codes e ≡ s
        → all_words s ≡ true
        → is_nil s ≡ false
        → Lexes (s ++ rest) (ident_of e ∷ us)
    spelled [] same w k = cc
    spelled (c ∷ cs) same w k =
        let taken = (take_operand 0 rest).0 in
        let left = (take_operand 0 rest).1 in
        let (trimmed, behind) = after_name rest us h l in
        let token : ident_token ((c ∷ cs) ++ taken) ≡ some (ident_of e) =
          subst (λ s. ident_token (s ++ taken) ≡ some (ident_of e)) same
            (ident_token-name e taken n trimmed) in
        step c (cs ++ rest) (some (ident_of e)) left us
          (next_token-name c (cs ++ rest) (ground arith)
            ∙ ap (λ (p : List ℕ × List ℕ). (ident_token p.0, p.1))
                (take_operand-words (c ∷ cs) rest w)
            ∙ ap (λ t. (t, left)) token)
          behind

-- The signs and the brackets.
pub and-Lexes :
    {rest : List ℕ} {us : List Token}
    → Lexes rest us
    → Lexes (codes " && " ++ rest) (sign and_sign "&&" ∷ us)
unfolding next_token
and-Lexes l = round refl (round refl (round refl l))

pub or-Lexes :
    {rest : List ℕ} {us : List Token}
    → Lexes rest us
    → Lexes (codes " || " ++ rest) (sign or_sign "||" ∷ us)
unfolding next_token
or-Lexes l = round refl (round refl (round refl l))

pub not-Lexes :
    {rest : List ℕ} {us : List Token}
    → Lexes rest us
    → Lexes (codes "!" ++ rest) (sign not_sign "!" ∷ us)
unfolding next_token
not-Lexes l = round refl l

pub open-Lexes :
    {rest : List ℕ} {us : List Token}
    → Lexes rest us
    → Lexes (codes "(" ++ rest) (sign lparen "(" ∷ us)
unfolding next_token
open-Lexes l = round refl l

pub close-Lexes :
    {rest : List ℕ} {us : List Token}
    → Lexes rest us
    → Lexes (codes ")" ++ rest) (sign rparen ")" ∷ us)
unfolding next_token
close-Lexes l = round refl l

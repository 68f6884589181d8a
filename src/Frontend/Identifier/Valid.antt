-- ===== src/Frontend/Identifier/Valid.antt =====
-- parser_interface.cpp: what sanitize_identifier makes is an identifier, and identifiers stay.
use mathlib.Core.List.{append_assoc, append-nil}
use fsmc.Common.{
  ℕ, ◌≡◌, refl, sym, ◌∙◌, ap, inl, inr, Bool, true, false, not, ◌&&◌, String, List, [], ◌∷◌, ◌++◌,
  if◌then◌else◌, ◌==◌, codes, Bool-cases, not-true, arith,
}
use fsmc.Frontend.Identifier.{
  is_word, last_is, is_nil, next_is, add_word, sanitize_round, takes_two, sanitize_loop, strip_from,
  strip, first_is_digit, protect, sanitize_identifier,
}

abbrev pub all_words : List ℕ → Bool
all_words [] = true
all_words (c ∷ cs) = is_word c && all_words cs

-- The text does not end in an underscore, unless that is all of it.
abbrev pub is_settled : List ℕ → Bool
is_settled [] = true
is_settled (c ∷ []) = true
is_settled (c ∷ d ∷ cs) = not (last_is b'_' (d ∷ cs))

all_words-append : (xs ys : List ℕ) → all_words (xs ++ ys) ≡ (all_words xs && all_words ys)
all_words-append [] ys = refl
all_words-append (x ∷ xs) ys = ground (arith, all_words-append xs ys)

add_word-all_words :
    (result : List ℕ) (word : String)
    → all_words result ≡ true
    → all_words (codes word) ≡ true
    → all_words (add_word result word) ≡ true
unfolding add_word
add_word-all_words result word h k =
    elim (Bool-cases (not (is_nil result) && not (last_is b'_' result))) [
      | inl apart ↦
          rw
            (
              apart,
              all_words-append (result ++ b'_' ∷ []) (codes word),
              all_words-append result (b'_' ∷ []),
              h,
              k,
            )
            refl
      | inr close ↦ rw (close, all_words-append result (codes word), h, k) refl
    ]

sanitize_round-all_words :
    (c : ℕ) (cs result : List ℕ)
    → all_words result ≡ true
    → all_words (sanitize_round c cs result) ≡ true
unfolding sanitize_round
sanitize_round-all_words c cs result h = ground (
  arith,
  less "lte_" "lt_" refl refl,
  less "gte_" "gt_" refl refl,
  add_word-all_words result "eq_" h refl,
  add_word-all_words result "neq_" h refl,
  all_words-append result (c ∷ []),
  all_words-append result (b'_' ∷ []),
)
  where
    less :
        (w w' : String)
        → all_words (codes w) ≡ true
        → all_words (codes w') ≡ true
        → all_words (add_word result (if next_is b'=' cs then w else w')) ≡ true
    less w w' k k' = elim (Bool-cases (next_is b'=' cs)) [
      | inl wide ↦ rw wide (add_word-all_words result w h k)
      | inr narrow ↦ rw narrow (add_word-all_words result w' h k')
    ]

sanitize_loop-all_words :
    (skip : Bool) (cs result : List ℕ)
    → all_words result ≡ true
    → all_words (sanitize_loop skip cs result) ≡ true
unfolding sanitize_loop
sanitize_loop-all_words skip [] result h = h
sanitize_loop-all_words true (c ∷ cs) result h = sanitize_loop-all_words false cs result h
sanitize_loop-all_words false (c ∷ cs) result h =
    sanitize_loop-all_words (takes_two c cs) cs (sanitize_round c cs result)
      (sanitize_round-all_words c cs result h)

strip_from-all_words : (cs : List ℕ) → all_words cs ≡ true → all_words (strip_from cs) ≡ true
unfolding strip_from
strip_from-all_words [] h = refl
strip_from-all_words (c ∷ cs) h = ground (arith, strip_from-all_words cs)

strip_from-last : (cs : List ℕ) → last_is b'_' (strip_from cs) ≡ false
unfolding strip_from
strip_from-last [] = refl
strip_from-last (c ∷ cs) = last_of (strip_from cs) (strip_from-last cs)
  where
    last_of :
        (rest : List ℕ)
        → last_is b'_' rest ≡ false
        → last_is b'_' (if is_nil rest && c == b'_' then [] else c ∷ rest) ≡ false
    last_of [] h = ground arith
    last_of (d ∷ ds) h = h

strip-is_settled : (cs : List ℕ) → is_settled (strip cs) ≡ true
unfolding strip
strip-is_settled [] = refl
strip-is_settled (c ∷ cs) = settled (strip_from cs) (strip_from-last cs)
  where
    settled : (rest : List ℕ) → last_is b'_' rest ≡ false → is_settled (c ∷ rest) ≡ true
    settled [] h = refl
    settled (d ∷ ds) h = rw h

strip-all_words : (cs : List ℕ) → all_words cs ≡ true → all_words (strip cs) ≡ true
unfolding strip
strip-all_words [] h = refl
strip-all_words (c ∷ cs) h = ground (arith, strip_from-all_words cs)

-- Word characters, the first no digit, the last no underscore unless it is the only one.
pub record IsIdentifier (s : List ℕ) : Type 0 where
  pub words : all_words s ≡ true
  pub start : first_is_digit s ≡ false
  pub ending : is_settled s ≡ true

protect-IsIdentifier :
    (s : List ℕ) → all_words s ≡ true → is_settled s ≡ true → IsIdentifier (protect s)
unfolding protect
protect-IsIdentifier [] h k = record { words = refl; start = refl; ending = refl }
protect-IsIdentifier (c ∷ []) h k = ground arith
protect-IsIdentifier (c ∷ d ∷ cs) h k = ground arith

takes_word : (c : ℕ) (cs : List ℕ) → is_word c ≡ true → takes_two c cs ≡ false
takes_word c cs h = ground arith

round_word :
    (c : ℕ) (cs result : List ℕ) → is_word c ≡ true → sanitize_round c cs result ≡ result ++ c ∷ []
unfolding sanitize_round
round_word c cs result h = ground arith

-- The loop copies word characters.
sanitize_loop-words :
    (cs result : List ℕ) → all_words cs ≡ true → sanitize_loop false cs result ≡ result ++ cs
unfolding sanitize_loop
sanitize_loop-words [] result h = sym (append-nil result)
sanitize_loop-words (c ∷ cs) result h =
    rw (takes_word c cs (ground arith), round_word c cs result (ground arith))
      (sanitize_loop-words cs (result ++ c ∷ []) (ground arith) ∙ append_assoc result (c ∷ []) cs)

strip_from-same : (cs : List ℕ) → last_is b'_' cs ≡ false → strip_from cs ≡ cs
unfolding strip_from
strip_from-same [] h = refl
strip_from-same (c ∷ []) h = ground arith
strip_from-same (c ∷ d ∷ cs) h = ground (arith, strip_from-same (d ∷ cs) h)

-- Whatever the text is, the result of sanitize_identifier holds letters, digits and underscores
-- alone, does not begin with a digit, and does not end in an underscore unless that is all of it.
pub sanitize_identifier-IsIdentifier : (s : List ℕ) → IsIdentifier (sanitize_identifier s)
unfolding sanitize_identifier
sanitize_identifier-IsIdentifier s =
    let kept = sanitize_loop-all_words false s [] refl in
    protect-IsIdentifier (strip (sanitize_loop false s []))
      (strip-all_words (sanitize_loop false s []) kept)
      (strip-is_settled (sanitize_loop false s []))

strip-same : (s : List ℕ) → is_settled s ≡ true → strip s ≡ s
unfolding strip
strip-same [] h = refl
strip-same (c ∷ []) h = ap (◌∷◌ c) (strip_from-same [] refl)
strip-same (c ∷ d ∷ cs) h =
    ap (◌∷◌ c) (strip_from-same (d ∷ cs) (not-true (last_is b'_' (d ∷ cs)) h))

protect-same : (s : List ℕ) → first_is_digit s ≡ false → protect s ≡ s
unfolding protect
protect-same s h = rw h refl

-- An identifier stays as it is.
pub sanitize_identifier_same : (s : List ℕ) → IsIdentifier s → sanitize_identifier s ≡ s
unfolding sanitize_identifier
sanitize_identifier_same s v =
    ap (λ r. protect (strip r)) (sanitize_loop-words s [] v.words)
    ∙ ap protect (strip-same s v.ending)
    ∙ protect-same s v.start

-- Applied to an identifier that it has made, sanitize_identifier changes nothing.
pub sanitize_identifier_idempotent :
    (s : List ℕ) → sanitize_identifier (sanitize_identifier s) ≡ sanitize_identifier s
sanitize_identifier_idempotent s =
    sanitize_identifier_same (sanitize_identifier s) (sanitize_identifier-IsIdentifier s)

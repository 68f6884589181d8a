-- ===== src/Frontend/Identifier.antt =====
-- parser_interface.cpp: identifiers made from arbitrary text; parser_interface.hpp: trim.
pub mod Valid
use fsmc.Common.{
  ℕ, suc, ◌-◌, Bool, true, false, not, ◌||◌, ◌&&◌, String, List, [], ◌∷◌, ◌++◌, if◌then◌else◌, ◌==◌,
  leb, codes,
}

abbrev pub is_digit : ℕ → Bool
is_digit c = leb b'0' c && leb c b'9'

-- The characters that are copied.
abbrev pub is_word : ℕ → Bool
is_word c = (leb b'a' c && leb c b'z') || ((leb b'A' c && leb c b'Z') || (is_digit c || c == b'_'))

abbrev pub last_is : ℕ → List ℕ → Bool
last_is k [] = false
last_is k (c ∷ []) = c == k
last_is k (c ∷ d ∷ cs) = last_is k (d ∷ cs)

abbrev pub is_nil : List ℕ → Bool
is_nil [] = true
is_nil (c ∷ cs) = false

-- `str[i + 1] == '='`
abbrev pub next_is : ℕ → List ℕ → Bool
next_is k [] = false
next_is k (c ∷ cs) = c == k

abbrev pub tail : List ℕ → List ℕ
tail [] = []
tail (c ∷ cs) = cs

-- A word for an operator, after a separating underscore.
unfoldable pub add_word : List ℕ → String → List ℕ
add_word result word =
    (if not (is_nil result) && not (last_is b'_' result) then result ++ b'_' ∷ [] else result)
    ++ codes word

abbrev pub is_separator : ℕ → Bool
is_separator c = c == b' ' || (c == b'-' || c == b'.')

-- The round of the loop at the character `c`, with `cs` behind it: the new result.
unfoldable pub sanitize_round : ℕ → List ℕ → List ℕ → List ℕ
sanitize_round c cs result =
    if c == b'<'
    then add_word result (if next_is b'=' cs then "lte_" else "lt_")
    else if c == b'>'
    then add_word result (if next_is b'=' cs then "gte_" else "gt_")
    else if c == b'=' && next_is b'=' cs
    then add_word result "eq_"
    else if c == b'!' && next_is b'=' cs
    then add_word result "neq_"
    else if is_word c
    then result ++ c ∷ []
    else if is_separator c && (is_nil result || not (last_is b'_' result))
    then result ++ b'_' ∷ []
    else result

-- The round reads the character behind as well.
abbrev pub takes_two : ℕ → List ℕ → Bool
takes_two c cs = (c == b'<' || (c == b'>' || (c == b'=' || c == b'!'))) && next_is b'=' cs

-- The loop. `skip` says that the character was read by the round before.
unfoldable pub sanitize_loop : Bool → List ℕ → List ℕ → List ℕ
sanitize_loop skip [] result = result
sanitize_loop skip (c ∷ cs) result =
    sanitize_loop (if skip then false else takes_two c cs) cs
      (if skip then result else sanitize_round c cs result)

abbrev pub drop_last : List ℕ → List ℕ
drop_last [] = []
drop_last (c ∷ []) = []
drop_last (c ∷ d ∷ cs) = c ∷ drop_last (d ∷ cs)

-- `while (result.size() > 1 && result.back() == '_')`: what is left from a character on, which stays
-- if it is the first.
unfoldable pub strip_from : List ℕ → List ℕ
strip_from [] = []
strip_from (c ∷ cs) = let rest = strip_from cs in if is_nil rest && c == b'_' then [] else c ∷ rest

unfoldable pub strip : List ℕ → List ℕ
strip [] = []
strip (c ∷ cs) = c ∷ strip_from cs

abbrev pub first_is_digit : List ℕ → Bool
first_is_digit [] = false
first_is_digit (c ∷ cs) = is_digit c

unfoldable pub protect : List ℕ → List ℕ
protect result = if first_is_digit result then b'_' ∷ result else result

unfoldable pub sanitize_identifier : List ℕ → List ℕ
sanitize_identifier str = protect (strip (sanitize_loop false str []))

-- trim

abbrev pub is_blank : ℕ → Bool
is_blank c = c == 32 || (c == 9 || (c == 13 || c == 10))

unfoldable pub trim_front : List ℕ → List ℕ
trim_front [] = []
trim_front (c ∷ cs) = if is_blank c then trim_front cs else c ∷ cs

unfoldable pub trim_back : List ℕ → List ℕ
trim_back [] = []
trim_back (c ∷ cs) = let rest = trim_back cs in if is_nil rest && is_blank c then [] else c ∷ rest

unfoldable pub trim : List ℕ → List ℕ
unfolding trim_front trim_back
trim str = trim_back (trim_front str)

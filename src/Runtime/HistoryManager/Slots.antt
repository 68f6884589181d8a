-- ===== src/Runtime/HistoryManager/Slots.antt =====
-- detail/history_manager.hpp: the slots in use under one recording.
use fsmc.Common.{
  ℕ, zero, suc, ◌<◌, ◌≡◌, refl, ap, inl, inr, Bool, true, false, String, str_eq, eq_iff, List, [],
  ◌∷◌, ◌++◌, Option, none, some, if◌then◌else◌, length, set, contains, Bool-cases, arith,
}
use fsmc.Runtime.HistoryManager.{HistoryEntry, cons_option, overwrite, find_entry}

-- The parents of the first entries.
abbrev pub parents : ℕ → List HistoryEntry → List String
parents zero es = []
parents (suc n) [] = []
parents (suc n) (e ∷ es) = e.parent ∷ parents n es

if_same :
    (b : Bool) (x y z : String) → (if b then x else z) ≡ (if b then x else (if b then y else z))
if_same b x y z = ground arith

-- What the loop of record_history has done.
pub record Overwritten (parent substate : String) (n : ℕ) (es fs : List HistoryEntry) : Type 0 where
  pub slots : length fs ≡ length es
  pub same_parents : parents n fs ≡ parents n es
  pub present : contains parent (parents n es) ≡ true
  pub latest :
      (q : String) → find_entry n fs q ≡ (if str_eq parent q then substate else find_entry n es q)

abbrev pub Result : String → String → ℕ → List HistoryEntry → Option (List HistoryEntry) → Type 0
Result parent substate n es none = contains parent (parents n es) ≡ false
Result parent substate n es (some fs) = Overwritten parent substate n es fs

module _ (parent substate : String) where
  Result-hit :
      (n : ℕ) (e : HistoryEntry) (es : List HistoryEntry)
      → str_eq e.parent parent ≡ true
      → Overwritten parent substate (suc n) (e ∷ es) (record e { substate = substate } ∷ es)
  unfolding find_entry
  Result-hit n e es hit =
      let same = (eq_iff e.parent parent).0 hit in
      record {
        slots = refl;
        same_parents = refl;
        present = rw hit;
        latest = λ q. rw same (if_same (str_eq parent q) substate e.substate (find_entry n es q));
      }

  Result-miss :
      (n : ℕ) (e : HistoryEntry) (es : List HistoryEntry) (o : Option (List HistoryEntry))
      → str_eq e.parent parent ≡ false
      → Result parent substate n es o
      → Result parent substate (suc n) (e ∷ es) (cons_option e o)
  unfolding cons_option find_entry
  Result-miss n e es none miss r = rw (miss, r)
  Result-miss n e es (some fs) miss r = record {
    slots = ap suc r.slots;
    same_parents = ap (◌∷◌ e.parent) r.same_parents;
    present = rw (miss, r.present);
    latest =
        λ q. ground (arith, r.latest q, eq_iff parent q, eq_iff e.parent q, eq_iff e.parent parent);
  }

  pub overwrite-Result :
      (n : ℕ) (es : List HistoryEntry)
      → Result parent substate n es (overwrite n es parent substate)
  unfolding overwrite
  overwrite-Result zero es = refl
  overwrite-Result (suc n) [] = refl
  overwrite-Result (suc n) (e ∷ es) = elim (Bool-cases (str_eq e.parent parent)) [
    | inl hit ↦ rw hit (Result-hit n e es hit)
    | inr miss ↦
        rw miss (Result-miss n e es (overwrite n es parent substate) miss (overwrite-Result n es))
  ]

pub find_entry-set :
    (n : ℕ) (es : List HistoryEntry) (e : HistoryEntry) (q : String)
    → n < length es
    → contains e.parent (parents n es) ≡ false
    → find_entry (suc n) (set es n e) q
      ≡ (if str_eq e.parent q then e.substate else find_entry n es q)
unfolding find_entry
find_entry-set n [] e q h k = absurd (omega arith)
find_entry-set zero (x ∷ es) e q h k = refl
find_entry-set (suc n) (x ∷ es) e q h k =
    ground (
      arith,
      find_entry-set n es e q,
      eq_iff x.parent q,
      eq_iff e.parent q,
      eq_iff x.parent e.parent,
    )

pub parents-set :
    (n : ℕ) (es : List HistoryEntry) (e : HistoryEntry)
    → n < length es
    → parents (suc n) (set es n e) ≡ parents n es ++ e.parent ∷ []
parents-set n [] e h = absurd (omega arith)
parents-set zero (x ∷ es) e h = refl
parents-set (suc n) (x ∷ es) e h = ap (◌∷◌ x.parent) (parents-set n es e (omega arith))

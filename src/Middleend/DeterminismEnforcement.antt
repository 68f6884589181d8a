-- ===== src/Middleend/DeterminismEnforcement.antt =====
-- determinism_enforcement_pass.cpp, run: the warnings on transitions that compete, and the order of
-- the transition table.
pub mod OrderedMap
pub mod Warnings
pub mod Canonical
mod Examples
use fsmc.Common.{
  ℕ, suc, ◌+◌, Bool, true, false, not, ◌&&◌, ◌||◌, String, str_eq, text_lt, List, [], ◌∷◌, ◌++◌,
  length, Option, none, some, if◌then◌else◌, ltb, ◌==◌, keep_if,
}
use fsmc.Ir.Model.{TransitionEdge, FsmIr, is_empty}
use fsmc.Ir.GraphOps.Order.{rank, stable_sort}

-- operator[] of a std::map, and a write to the value that it refers to: the map is the list of its
-- entries in the order of the keys.
unfoldable pub update :
    {K V : Type 0} → (K → K → Bool) → K → (Option V → V) → List (K × V) → List (K × V)
update less k f [] = (k, f none) ∷ []
update less k f ((j, v) ∷ m) =
    if less j k
    then (j, v) ∷ update less k f m
    else if less k j
    then (k, f none) ∷ (j, v) ∷ m
    else (j, f (some v)) ∷ m

-- A loop that writes to the entry of each element's key.
unfoldable pub fill :
    {K V T : Type 0}
    → (K → K → Bool)
    → (T → K)
    → (T → Option V → V)
    → List T
    → List (K × V)
    → List (K × V)
fill less key add [] m = m
fill less key add (t ∷ ts) m = fill less key add ts (update less (key t) (add t) m)

-- A loop over a map, with the keys of the entries that pass a test.
unfoldable pub keys_where : {K V : Type 0} → (V → Bool) → List (K × V) → List K
keys_where test [] = []
keys_where test ((k, v) ∷ m) = if test v then k ∷ keys_where test m else keys_where test m

-- The order of std::pair.
unfoldable pub key_lt : String × String → String × String → Bool
key_lt a b = text_lt a.0 b.0 || (not (text_lt b.0 a.0) && text_lt a.1 b.1)

unfoldable pub key : TransitionEdge → String × String
key t = (t.source, t.event)

unfoldable pub push_back : TransitionEdge → Option (List TransitionEdge) → List TransitionEdge
push_back t none = t ∷ []
push_back t (some ts) = ts ++ t ∷ []

unfoldable pub groups : FsmIr → List ((String × String) × List TransitionEdge)
groups ir = fill key_lt key push_back ir.transitions []

unfoldable pub is_unconditional : TransitionEdge → Bool
is_unconditional t = elim t.guard [ none ↦ true | some text ↦ is_empty text ]

unfoldable pub increment : TransitionEdge → Option ℕ → ℕ
increment t none = 1
increment t (some n) = suc n

unfoldable pub priority_counts : List TransitionEdge → List (ℕ × ℕ)
priority_counts ts = fill ltb (λ (t : TransitionEdge). t.priority) increment ts []

abbrev pub is_nil : {A : Type 0} → List A → Bool
is_nil [] = true
is_nil (x ∷ xs) = false

unfoldable pub has_priority_tie : List TransitionEdge → Bool
has_priority_tie ts = not (is_nil (keys_where (ltb 1) (priority_counts ts)))

-- The body of the loop over the groups: whether it reports.
unfoldable pub is_reported : List TransitionEdge → Bool
is_reported ts =
    if ltb 1 (length ts)
    then if ltb 1 (length (keep_if is_unconditional ts)) then has_priority_tie ts else false
    else false

-- The comparison of the sort.
unfoldable pub precedes : TransitionEdge → TransitionEdge → Bool
precedes a b =
    if not (str_eq a.source b.source)
    then text_lt a.source b.source
    else if not (str_eq a.event b.event)
    then text_lt a.event b.event
    else if not (rank a == rank b)
    then ltb (rank a) (rank b)
    else text_lt a.target b.target

-- The machine, and the source and the event that each warning names.
unfoldable pub run : FsmIr → FsmIr × List (String × String)
run ir = (
  record ir { transitions = stable_sort precedes ir.transitions },
  keys_where is_reported (groups ir),
)

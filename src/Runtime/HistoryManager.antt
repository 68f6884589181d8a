-- ===== src/Runtime/HistoryManager.antt =====
-- detail/history_manager.hpp: which substate a composite state was left in, for machines with
-- history states. (Without them the class keeps nothing and answers with the empty text.)
pub mod Slots
pub mod Latest
mod Examples
use fsmc.Common.{
  ℕ, zero, suc, Bool, true, false, ◌||◌, String, str_eq, List, [], ◌∷◌, Option, none, some,
  if◌then◌else◌,
}
use fsmc.Runtime.StaticVector
use fsmc.Runtime.StaticVector.{StaticVector, push_back}

pub record HistoryEntry : Type 0 where
  pub parent : String
  pub substate : String

abbrev blank : HistoryEntry
blank = record { parent = ""; substate = "" }

unfoldable pub initial : ℕ → StaticVector HistoryEntry
initial capacity = StaticVector.initial blank capacity

cons_option : HistoryEntry → Option (List HistoryEntry) → Option (List HistoryEntry)
cons_option e none = none
cons_option e (some es) = some (e ∷ es)

-- The loop of record_history over the first `n` slots: the array with the entry of the parent
-- overwritten, or `none` where there is no such entry.
unfoldable pub overwrite : ℕ → List HistoryEntry → String → String → Option (List HistoryEntry)
unfolding cons_option
overwrite zero es parent substate = none
overwrite (suc n) [] parent substate = none
overwrite (suc n) (e ∷ es) parent substate =
    if str_eq e.parent parent
    then some (record e { substate = substate } ∷ es)
    else cons_option e (overwrite n es parent substate)

-- A parent that has no entry yet gets one, if the vector has room.
unfoldable pub write :
    ℕ
    → StaticVector HistoryEntry
    → String
    → String
    → Option (List HistoryEntry)
    → StaticVector HistoryEntry
write capacity v parent substate (some items) = record v { items = items }
write capacity v parent substate none =
    (push_back capacity v (record { parent = parent; substate = substate })).0

unfoldable pub record_history :
    ℕ → StaticVector HistoryEntry → String → String → StaticVector HistoryEntry
unfolding overwrite write
record_history capacity v parent substate =
    if str_eq parent "" || str_eq substate ""
    then v
    else write capacity v parent substate (overwrite v.size v.items parent substate)

-- The loop of get_history over the first `n` slots.
unfoldable pub find_entry : ℕ → List HistoryEntry → String → String
find_entry zero es parent = ""
find_entry (suc n) [] parent = ""
find_entry (suc n) (e ∷ es) parent =
    if str_eq e.parent parent then e.substate else find_entry n es parent

unfoldable pub get_history : StaticVector HistoryEntry → String → String
unfolding find_entry
get_history v parent = find_entry v.size v.items parent

unfoldable pub clear_history : StaticVector HistoryEntry → StaticVector HistoryEntry
clear_history v = StaticVector.clear v

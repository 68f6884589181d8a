-- ===== src/Runtime/HistoryManager/Examples.antt =====
-- Recordings of two composite states, and an instance of the theorem about them.
use fsmc.Common.{◌≡◌, refl, String, List, [], ◌∷◌, arith}
use fsmc.Runtime.HistoryManager.{initial, get_history}
use fsmc.Runtime.HistoryManager.Latest.{record_all, last_recorded, get_history-last}

abbrev declared : List String
declared = "On" ∷ "Off" ∷ []

abbrev calls : List (String × String)
calls = ("On", "Fast") ∷ ("Off", "Cold") ∷ ("On", "") ∷ ("On", "Slow") ∷ []

get_history-last_example :
    get_history (record_all 2 declared (initial 2) calls) "On"
    ≡ last_recorded 2 declared "On" "" calls
get_history-last_example =
    get_history-last 2 declared calls "On" (omega arith) (refl, (refl, (refl, (refl, tt))))

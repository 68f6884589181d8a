-- ===== src/Runtime/HistoryManager/Latest.antt =====
-- detail/history_manager.hpp: a composite state's history is the substate that was recorded last,
-- and the records never run out of room.
use fsmc.Common.{
  ℕ, suc, ◌+◌, ◌≤◌, ◌<◌, ◌≡◌, refl, ap, ◌∙◌, inl, inr, Bool, true, false, ◌||◌, String, str_eq,
  List, [], ◌∷◌, ◌++◌, Option, none, some, if◌then◌else◌, length, set, length-set, contains, unseen,
  unseen-cons, unseen-concat, unseen-le-length, Bool-cases, arith,
}
use fsmc.Runtime.StaticVector
use fsmc.Runtime.StaticVector.{StaticVector, push_back}
use fsmc.Runtime.StaticVector.Contents.{Inv, initial-Inv}
use fsmc.Runtime.HistoryManager.{
  HistoryEntry, initial, overwrite, write, record_history, get_history,
}
use fsmc.Runtime.HistoryManager.Slots.{
  parents, Result, overwrite-Result, find_entry-set, parents-set,
}

module _ (capacity : ℕ) (declared : List String) where
  -- The composite states of the machine are declared, and the records are of some of them, one each.
  pub record Holds (v : StaticVector HistoryEntry) : Type 0 where
    pub vector : Inv capacity v
    pub spare : unseen declared (parents v.size v.items) + v.size ≤ length declared

  fresh_room :
      (v : StaticVector HistoryEntry) (parent : String)
      → length declared ≤ capacity
      → contains parent declared ≡ true
      → contains parent (parents v.size v.items) ≡ false
      → Holds v
      → (v.size < capacity)
        × (unseen declared (parents v.size v.items ++ parent ∷ []) + suc v.size ≤ length declared)
  fresh_room v parent room known fresh h =
      let less = unseen-cons declared (parents v.size v.items) parent known fresh in
      let same = unseen-concat declared (parents v.size v.items) parent in
      (omega arith, omega arith)

  appended :
      (v : StaticVector HistoryEntry) (parent substate : String)
      → v.size < capacity
      → write capacity v parent substate none ≡ record {
        items = set v.items v.size (record { parent = parent; substate = substate });
        size = suc v.size;
      }
  unfolding write push_back
  appended v parent substate h = ground arith

  write-Holds :
      (v : StaticVector HistoryEntry) (parent substate : String) (o : Option (List HistoryEntry))
      → length declared ≤ capacity
      → contains parent declared ≡ true
      → Result parent substate v.size v.items o
      → Holds v
      → Holds (write capacity v parent substate o)
  unfolding write
  write-Holds v parent substate (some items) room known r h = record {
    vector = record { slots = r.slots ∙ h.vector.slots; fits = h.vector.fits };
    spare = rw r.same_parents h.spare;
  }
  write-Holds v parent substate none room known fresh h =
      let (fits, spare) = fresh_room v parent room known fresh h in
      let e : HistoryEntry = record { parent = parent; substate = substate } in
      rw (appended v parent substate fits) (record {
        vector = record { slots = length-set v.items v.size e ∙ h.vector.slots; fits = fits };
        spare = rw (parents-set v.size v.items e (omega arith)) spare;
      })

  write-get :
      (v : StaticVector HistoryEntry) (parent substate q : String) (o : Option (List HistoryEntry))
      → length declared ≤ capacity
      → contains parent declared ≡ true
      → Result parent substate v.size v.items o
      → Holds v
      → get_history (write capacity v parent substate o) q
        ≡ (if str_eq parent q then substate else get_history v q)
  unfolding write get_history
  write-get v parent substate q (some items) room known r h = r.latest q
  write-get v parent substate q none room known fresh h =
      let (fits, spare) = fresh_room v parent room known fresh h in
      rw (appended v parent substate fits) (
        find_entry-set v.size v.items (record { parent = parent; substate = substate }) q
          (omega arith) fresh)

  -- Nothing is recorded for an empty name.
  abbrev skips : String → String → Bool
  skips parent substate = str_eq parent "" || str_eq substate ""

  record_history-Holds :
      (v : StaticVector HistoryEntry) (parent substate : String)
      → length declared ≤ capacity
      → contains parent declared ≡ true
      → Holds v
      → Holds (record_history capacity v parent substate)
  unfolding record_history
  record_history-Holds v parent substate room known h = elim (Bool-cases (skips parent substate)) [
    | inl none_named ↦ rw none_named h
    | inr named ↦ rw named (
        write-Holds v parent substate (overwrite v.size v.items parent substate) room known
          (overwrite-Result parent substate v.size v.items) h)
  ]

  get_history-record_history :
      (v : StaticVector HistoryEntry) (parent substate q : String)
      → length declared ≤ capacity
      → contains parent declared ≡ true
      → Holds v
      → get_history (record_history capacity v parent substate) q ≡ (
          if skips parent substate
          then get_history v q
          else if str_eq parent q
          then substate
          else get_history v q)
  unfolding record_history
  get_history-record_history v parent substate q room known h =
      elim (Bool-cases (skips parent substate)) [
        | inl none_named ↦ rw none_named
        | inr named ↦ rw named (
            write-get v parent substate q (overwrite v.size v.items parent substate) room known
              (overwrite-Result parent substate v.size v.items) h)
      ]

  -- A sequence of recordings, and what the last one for `q` says.
  pub record_all : StaticVector HistoryEntry → List (String × String) → StaticVector HistoryEntry
  record_all v [] = v
  record_all v ((parent, substate) ∷ rest) =
      record_all (record_history capacity v parent substate) rest

  pub last_recorded : String → String → List (String × String) → String
  last_recorded q so_far [] = so_far
  last_recorded q so_far ((parent, substate) ∷ rest) =
      last_recorded q
        (if skips parent substate then so_far else if str_eq parent q then substate else so_far)
        rest

  abbrev pub AllDeclared : List (String × String) → Type 0
  AllDeclared [] = Unit
  AllDeclared ((parent, substate) ∷ rest) = (contains parent declared ≡ true) × AllDeclared rest

  get-record_all :
      (v : StaticVector HistoryEntry) (calls : List (String × String)) (q : String)
      → length declared ≤ capacity
      → AllDeclared calls
      → Holds v
      → get_history (record_all v calls) q ≡ last_recorded q (get_history v q) calls
  unfolding record_all last_recorded
  get-record_all v [] q room known h = refl
  get-record_all v ((parent, substate) ∷ rest) q room known h =
      get-record_all (record_history capacity v parent substate) rest q room known.1
        (record_history-Holds v parent substate room known.0 h)
      ∙ ap (λ s. last_recorded q s rest)
          (get_history-record_history v parent substate q room known.0 h)

  initial-Holds : Holds (initial capacity)
  unfolding initial StaticVector.initial
  initial-Holds = record {
    vector = initial-Inv _ capacity;
    spare = omega (arith, unseen-le-length declared []);
  }

  -- After any recordings of declared composite states, on a vector with a place for each declared
  -- state, the history of a state is the substate that was recorded for it last, or the empty text.
  pub get_history-last :
      (calls : List (String × String)) (q : String)
      → length declared ≤ capacity
      → AllDeclared calls
      → get_history (record_all (initial capacity) calls) q ≡ last_recorded q "" calls
  unfolding get_history initial StaticVector.initial
  get_history-last calls q room known =
      get-record_all (initial capacity) calls q room known initial-Holds

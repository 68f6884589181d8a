-- ===== src/Runtime/DeterministicTimer/Entries.antt =====
-- deterministic_timer.hpp: the entries as a map from timers to their settings.
use fsmc.Common.{
  ℕ, ◌≡◌, refl, ◌∙◌, inl, inr, Bool, true, false, ◌||◌, List, [], ◌∷◌, Option, none, some, ◌==◌,
  if◌then◌else◌, Bool-cases, arith,
}
use fsmc.Runtime.DeterministicTimer.{
  TimerEntry, is_timer, is_free, update_first, cons_option, is_timer_active,
}

-- The active entry of a timer.
abbrev pub find_timer : ℕ → List TimerEntry → Option TimerEntry
find_timer timer_id [] = none
find_timer timer_id (entry ∷ entries) =
    if is_timer timer_id entry then some entry else find_timer timer_id entries

abbrev pub is_some : Option TimerEntry → Bool
is_some none = false
is_some (some entry) = true

pub absent_split :
    (b : Bool) (entry : TimerEntry) (o : Option TimerEntry)
    → (if b then some entry else o) ≡ none
    → (b ≡ false) × (o ≡ none)
absent_split true entry o h = cc
absent_split false entry o h = (refl, h)

-- No timer has two active entries.
abbrev pub Unique : List TimerEntry → Type 0
Unique [] = Unit
Unique (entry ∷ entries) =
    (entry.active ≡ true → find_timer entry.timer_id entries ≡ none) × Unique entries

pub is_timer_active-find :
    (q : ℕ) (entries : List TimerEntry) → is_timer_active q entries ≡ is_some (find_timer q entries)
unfolding is_timer_active
is_timer_active-find q [] = refl
is_timer_active-find q (entry ∷ entries) = ground (arith, is_timer_active-find q entries)

abbrev pub has_free : List TimerEntry → Bool
has_free [] = false
has_free (entry ∷ entries) = is_free entry || has_free entries

-- What a loop that changes the active entry of a timer, and keeps it, does to the map.
pub record Changed (timer_id : ℕ) (change : TimerEntry → TimerEntry)
    (entries changed : List TimerEntry) : Type 0 where
  pub was : TimerEntry
  pub found : find_timer timer_id entries ≡ some was
  pub here : is_timer timer_id was ≡ true
  pub now : find_timer timer_id changed ≡ some (change was)
  pub others : (q : ℕ) → (timer_id == q) ≡ false → find_timer q changed ≡ find_timer q entries
  pub unique : Unique entries → Unique changed

abbrev pub Update :
    ℕ → (TimerEntry → TimerEntry) → List TimerEntry → Option (List TimerEntry) → Type 0
Update timer_id change entries none = find_timer timer_id entries ≡ none
Update timer_id change entries (some changed) = Changed timer_id change entries changed

module _ (timer_id : ℕ) (change : TimerEntry → TimerEntry)
    (keeps_id : (e : TimerEntry) → (change e).timer_id ≡ e.timer_id)
    (keeps_active : (e : TimerEntry) → (change e).active ≡ e.active) where
  Update-hit :
      (entry : TimerEntry) (entries : List TimerEntry)
      → is_timer timer_id entry ≡ true
      → Changed timer_id change (entry ∷ entries) (change entry ∷ entries)
  Update-hit entry entries hit = record {
    was = entry;
    found = rw hit refl;
    here = hit;
    now = rw (keeps_id entry, keeps_active entry, hit) refl;
    others = λ q other. rw (keeps_id entry, keeps_active entry) ground (arith, other, hit);
    unique = λ u. (rw (keeps_id entry, keeps_active entry) u.0, u.1);
  }

  Update-miss :
      (entry : TimerEntry) (entries : List TimerEntry) (o : Option (List TimerEntry))
      → is_timer timer_id entry ≡ false
      → Update timer_id change entries o
      → Update timer_id change (entry ∷ entries) (cons_option entry o)
  unfolding cons_option
  Update-miss entry entries none miss r = rw (miss, r) refl
  Update-miss entry entries (some changed) miss r = record {
    was = r.was;
    found = rw miss r.found;
    here = r.here;
    now = rw miss r.now;
    others = λ q other. rw (r.others q other) refl;
    unique = λ u.
        (λ active. r.others entry.timer_id ground (arith, active, miss) ∙ u.0 active, r.unique u.1);
  }

  pub update_first-Update :
      (entries : List TimerEntry)
      → Update timer_id change entries (update_first (is_timer timer_id) change entries)
  unfolding update_first
  update_first-Update [] = refl
  update_first-Update (entry ∷ entries) = elim (Bool-cases (is_timer timer_id entry)) [
    | inl hit ↦ rw hit (Update-hit entry entries hit)
    | inr miss ↦ rw miss (Update-miss entry entries _ miss (update_first-Update entries))
  ]

module _ (armed : TimerEntry) (is_active : armed.active ≡ true) where
  armed_here : is_timer armed.timer_id armed ≡ true
  armed_here = ground (arith, is_active)

  -- What a loop that overwrites the first free entry does to the map.
  pub record Occupied (entries changed : List TimerEntry) : Type 0 where
    pub free : has_free entries ≡ true
    pub now :
        find_timer armed.timer_id entries ≡ none → find_timer armed.timer_id changed ≡ some armed
    pub others :
        (q : ℕ) → (armed.timer_id == q) ≡ false → find_timer q changed ≡ find_timer q entries
    pub unique : find_timer armed.timer_id entries ≡ none → Unique entries → Unique changed

  abbrev pub Occupation : List TimerEntry → Option (List TimerEntry) → Type 0
  Occupation entries none = has_free entries ≡ false
  Occupation entries (some changed) = Occupied entries changed

  free_hit :
      (entry : TimerEntry) (entries : List TimerEntry)
      → is_free entry ≡ true
      → Occupied (entry ∷ entries) (armed ∷ entries)
  free_hit entry entries free =
      let idle : entry.active ≡ false = ground arith in
      record {
        free = rw idle refl;
        now = λ absent. rw armed_here refl;
        others = λ q other. rw (idle, is_active, other) refl;
        unique = λ absent u. (λ active. rw idle at absent, u.1);
      }

  free_miss :
      (entry : TimerEntry) (entries : List TimerEntry) (o : Option (List TimerEntry))
      → is_free entry ≡ false
      → Occupation entries o
      → Occupation (entry ∷ entries) (cons_option entry o)
  unfolding cons_option
  free_miss entry entries none busy r = rw (busy, r) refl
  free_miss entry entries (some changed) busy r = record {
    free = rw (busy, r.free) refl;
    now = λ absent.
        let (miss, gone) =
          absent_split (is_timer armed.timer_id entry) entry (find_timer armed.timer_id entries)
            absent in
        rw miss (r.now gone);
    others = λ q other. rw (r.others q other) refl;
    unique = λ absent u.
        let (miss, gone) =
          absent_split (is_timer armed.timer_id entry) entry (find_timer armed.timer_id entries)
            absent in
        (
          λ active. r.others entry.timer_id ground (arith, active, miss) ∙ u.0 active,
          r.unique gone u.1,
        );
  }

  pub update_first-Occupation :
      (entries : List TimerEntry)
      → Occupation entries (update_first is_free (λ entry. armed) entries)
  unfolding update_first
  update_first-Occupation [] = refl
  update_first-Occupation (entry ∷ entries) = elim (Bool-cases (is_free entry)) [
    | inl free ↦ rw free (free_hit entry entries free)
    | inr busy ↦ rw busy (free_miss entry entries _ busy (update_first-Occupation entries))
  ]

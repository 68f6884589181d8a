-- ===== src/Runtime/TransitionExecutor/Lifecycle/Common.antt =====
-- The parents that two states share: of two chains of parents that meet, the part from the first
-- meeting on is the same.
use mathlib.Core.List.{Memᴰ}
use mathlib.Core.List.Memᴰ
use fsmc.Common.{
  ◌<◌, ◌≡◌, refl, ap, ◌∙◌, sym, inl, inr, Bool, true, false, List, [], ◌∷◌, ◌++◌, if◌then◌else◌,
  length, length-append, Bool-cases, arith,
}
use fsmc.Runtime.StateType.{StateType, top, sub, ancestors}
use fsmc.Runtime.TransitionExecutor.Steps.{until}

-- What `until` leaves out.
abbrev pub since : (StateType → Bool) → List StateType → List StateType
since test [] = []
since test (s ∷ ss) = if test s then s ∷ ss else since test ss

pub until-since :
    (test : StateType → Bool) (ss : List StateType) → until test ss ++ since test ss ≡ ss
until-since test [] = refl
until-since test (s ∷ ss) = elim (Bool-cases (test s)) [
  | inl stop ↦ rw stop
  | inr go ↦ rw go (ap (◌∷◌ s) (until-since test ss))
]

-- Where a list is cut by a test.
pub data Cut (test : StateType → Bool) (ss : List StateType) : Type 0 where
  uncut : ((a : StateType) → Memᴰ a ss → test a ≡ false) → since test ss ≡ [] → Cut test ss
  cut :
      (before : List StateType) (a : StateType) (behind : List StateType)
      → ss ≡ before ++ a ∷ behind
      → ((b : StateType) → Memᴰ b before → test b ≡ false)
      → test a ≡ true
      → since test ss ≡ a ∷ behind
      → Cut test ss

pub since-Cut : (test : StateType → Bool) (ss : List StateType) → Cut test ss
since-Cut test [] = uncut (λ a m. absurd (Memᴰ.not-nil m)) refl
since-Cut test (s ∷ ss) = elim (Bool-cases (test s)) [
  | inl stop ↦ cut [] s ss refl (λ b m. absurd (Memᴰ.not-nil m)) stop (rw stop refl)
  | inr go ↦ longer go (since-Cut test ss)
]
  where
    first :
        {rest : List StateType}
        → test s ≡ false
        → ((a : StateType) → Memᴰ a rest → test a ≡ false)
        → (b : StateType) → Memᴰ b (s ∷ rest)
        → test b ≡ false
    first go h b m = elim (Memᴰ.cases_cons m) [ inl e ↦ rw e go | inr later ↦ h b later ]

    longer : test s ≡ false → Cut test ss → Cut test (s ∷ ss)
    longer go (uncut h e) = uncut (first go h) (rw go e)
    longer go (cut before a behind e h stop r) =
        cut (s ∷ before) a behind (ap (◌∷◌ s) e) (first go h) stop (rw go r)

pub since_of_cut :
    (test : StateType → Bool) (before : List StateType) (a : StateType) (behind : List StateType)
    → ((b : StateType) → Memᴰ b before → test b ≡ false)
    → test a ≡ true
    → since test (before ++ a ∷ behind) ≡ a ∷ behind
since_of_cut test [] a behind h stop = rw stop refl
since_of_cut test (b ∷ before) a behind h stop =
    rw (h b (Memᴰ.head refl)) (since_of_cut test before a behind (λ c m. h c (Memᴰ.tail m)) stop)

pub since_of_uncut :
    (test : StateType → Bool) (ss : List StateType)
    → ((a : StateType) → Memᴰ a ss → test a ≡ false)
    → since test ss ≡ []
since_of_uncut test [] h = refl
since_of_uncut test (s ∷ ss) h =
    rw (h s (Memᴰ.head refl)) (since_of_uncut test ss (λ a m. h a (Memᴰ.tail m)))

-- A parent's own parents follow it.
pub behind-ancestors :
    (s : StateType) (before : List StateType) (a : StateType) (behind : List StateType)
    → ancestors s ≡ before ++ a ∷ behind
    → behind ≡ ancestors a
behind-ancestors (top t) [] a behind e = cc
behind-ancestors (top t) (b ∷ before) a behind e = cc
behind-ancestors (sub t parent) [] a behind e =
    let same : parent ≡ a = cc in
    let rest : ancestors parent ≡ behind = cc in rw (← same) (sym rest)
behind-ancestors (sub t parent) (b ∷ before) a behind e =
    let rest : ancestors parent ≡ before ++ a ∷ behind = cc in
    behind-ancestors parent before a behind rest

pub find_ancestor :
    (s a : StateType)
    → Memᴰ a (ancestors s)
    → (before : List StateType) × (ancestors s ≡ before ++ a ∷ ancestors a)
find_ancestor (top t) a m = absurd (Memᴰ.not-nil m)
find_ancestor (sub t parent) a m = elim (Memᴰ.cases_cons m) [
  | inl e ↦ ([], rw e refl)
  | inr later ↦
      let (before, e) = find_ancestor parent a later in (parent ∷ before, ap (◌∷◌ parent) e)
]

-- A state that stands before a parent in a chain has more parents than that.
pub deeper_before :
    (s : StateType) (before : List StateType) (a b : StateType)
    → ancestors s ≡ before ++ a ∷ ancestors a
    → Memᴰ b before
    → length (ancestors a) < length (ancestors b)
deeper_before s [] a b e m = absurd (Memᴰ.not-nil m)
deeper_before (top t) (x ∷ before) a b e m = cc
deeper_before (sub t parent) (x ∷ before) a b e m =
    let rest : ancestors parent ≡ before ++ a ∷ ancestors a = cc in
    let same : parent ≡ x = cc in
    elim (Memᴰ.cases_cons m) [
      | inl here ↦
          let n = ap length rest ∙ length-append before (a ∷ ancestors a) in
          rw (here, ← same) (omega arith)
      | inr later ↦ deeper_before parent before a b rest later
    ]

pub ancestor_shallower :
    (s a : StateType) → Memᴰ a (ancestors s) → length (ancestors a) < length (ancestors s)
ancestor_shallower s a m =
    let (before, e) = find_ancestor s a m in
    let n = ap length e ∙ length-append before (a ∷ ancestors a) in omega arith

-- ===== src/Middleend/DeterminismEnforcement/Warnings.antt =====
-- determinism_enforcement_pass.cpp: the states and the events that run reports.
use fsmc.Common.{
  ℕ, suc, ◌+◌, ◌⊎◌, ltb→lt, lt→ltb, ◌≤◌, ◌<◌, ◌≡◌, ◌↔◌, refl, sym, ap, ◌∙◌, Bool, true, false, not,
  ◌&&◌, String, str_eq, eq_iff, text_lt, text_lt_irrefl, text_lt_trans, text_lt_total, List, [],
  ◌∷◌, ◌++◌, length, none, some, ltb, ◌==◌, keep_if, Bool-cases, inl, inr, arith,
}
use mathlib.Core.List.{Memᴰ, append_assoc, append-nil}
use mathlib.Core.List.Memᴰ
use fsmc.Ir.Model.{TransitionEdge, FsmIr}
use fsmc.Middleend.DeterminismEnforcement.{
  fill, keys_where, key_lt, key, push_back, groups, is_unconditional, increment, priority_counts,
  is_nil, has_priority_tie, is_reported, run,
}
use fsmc.Middleend.DeterminismEnforcement.OrderedMap.{IsOrder, accumulate, keys_where-fill}

abbrev same_key : String × String → String × String → Bool
same_key a b = str_eq a.0 b.0 && str_eq a.1 b.1

-- The first components ascend, or they are one and the second components do.
abbrev Ascend : String × String → String × String → Type 0
Ascend a b = (text_lt a.0 b.0 ≡ true) ⊎ ((a.0 ≡ b.0) × (text_lt a.1 b.1 ≡ true))

key_lt-Ascend : (a b : String × String) → key_lt a b ≡ true → Ascend a b
unfolding key_lt
key_lt-Ascend a b h = elim (Bool-cases (text_lt a.0 b.0)) [
  | inl first ↦ inl first
  | inr level ↦ inr (text_lt_total a.0 b.0 level (ground arith), ground arith)
]

Ascend-key_lt : (a b : String × String) → Ascend a b → key_lt a b ≡ true
unfolding key_lt
Ascend-key_lt a b (inl h) = rw h refl
Ascend-key_lt a b (inr h) = rw (h.0, text_lt_irrefl b.0, h.1) refl

Ascend-trans : (a b c : String × String) → Ascend a b → Ascend b c → Ascend a c
Ascend-trans a b c (inl h) (inl k) = inl (text_lt_trans a.0 b.0 c.0 h k)
Ascend-trans a b c (inl h) (inr k) = inl (rw k.0 at h)
Ascend-trans a b c (inr h) (inl k) = inl (rw (← h.0) at k)
Ascend-trans a b c (inr h) (inr k) = inr (h.0 ∙ k.0, text_lt_trans a.1 b.1 c.1 h.1 k.1)

key_lt_trans : (a b c : String × String) → key_lt a b ≡ true → key_lt b c ≡ true → key_lt a c ≡ true
key_lt_trans a b c h k =
    Ascend-key_lt a c (Ascend-trans a b c (key_lt-Ascend a b h) (key_lt-Ascend b c k))

key_lt_total : (a b : String × String) → key_lt a b ≡ false → key_lt b a ≡ false → a ≡ b
unfolding key_lt
key_lt_total a b h k =
    let first : a.0 ≡ b.0 = text_lt_total a.0 b.0 (ground arith) (ground arith) in
    let second : a.1 ≡ b.1 =
      text_lt_total a.1 b.1 (ground (arith, text_lt_irrefl a.0)) (ground arith) in
    λ i. (first i, second i)

same_key_iff : (a b : String × String) → (same_key a b ≡ true) ↔ (a ≡ b)
same_key_iff a b = (
  λ h.
      let first : a.0 ≡ b.0 = (eq_iff a.0 b.0).0 (ground arith) in
      let second : a.1 ≡ b.1 = (eq_iff a.1 b.1).0 (ground arith) in λ i. (first i, second i),
  λ e.
      let first : str_eq a.0 b.0 ≡ true = (eq_iff a.0 b.0).1 (ap (λ x. x.0) e) in
      let second : str_eq a.1 b.1 ≡ true = (eq_iff a.1 b.1).1 (ap (λ x. x.1) e) in
      rw (first, second) refl,
)

key_lt-IsOrder : IsOrder key_lt same_key
unfolding key_lt
key_lt-IsOrder = record {
  irrefl = λ a. ground (arith, text_lt_irrefl a.0, text_lt_irrefl a.1);
  trans = key_lt_trans;
  total = key_lt_total;
  same_iff = λ a b. same_key_iff a b;
}

ltb-IsOrder : IsOrder ltb ◌==◌
ltb-IsOrder = record {
  irrefl = λ a. ground arith;
  trans = λ a b c h k. ground arith;
  total = λ a b h k. ground arith;
  same_iff = λ a b. ground arith;
}

accumulate-push_back :
    (ts g : List TransitionEdge) → accumulate push_back ts (some g) ≡ some (g ++ ts)
unfolding push_back
accumulate-push_back [] g = ap some (sym (append-nil g))
accumulate-push_back (t ∷ ts) g =
    accumulate-push_back ts (g ++ t ∷ []) ∙ ap some (append_assoc g (t ∷ []) ts)

accumulate-increment :
    (ts : List TransitionEdge) (n : ℕ) → accumulate increment ts (some n) ≡ some (n + length ts)
unfolding increment
accumulate-increment [] n = ap some (omega arith)
accumulate-increment (t ∷ ts) n = accumulate-increment ts (suc n) ∙ ap some (omega arith)

length-keep_if :
    (test : TransitionEdge → Bool) (ts : List TransitionEdge) → length (keep_if test ts) ≤ length ts
length-keep_if test [] = omega arith
length-keep_if test (t ∷ ts) = ground (arith, length-keep_if test ts)

Memᴰ_of_not_nil : {K : Type 0} (ks : List K) → not (is_nil ks) ≡ true → (k : K) × Memᴰ k ks
Memᴰ_of_not_nil [] h = cc
Memᴰ_of_not_nil (k ∷ ks) h = (k, Memᴰ.head refl)

not_nil_of_Memᴰ : {K : Type 0} (k : K) (ks : List K) → Memᴰ k ks → not (is_nil ks) ≡ true
not_nil_of_Memᴰ k [] m = absurd (Memᴰ.not-nil m)
not_nil_of_Memᴰ k (j ∷ ks) m = refl

-- How many of the transitions pass a test.
abbrev pub count : (TransitionEdge → Bool) → List TransitionEdge → ℕ
count test ts = length (keep_if test ts)

abbrev pub at_priority : ℕ → TransitionEdge → Bool
at_priority p t = t.priority == p

-- The count of a list that is counted in a map.
counted : (ts : List TransitionEdge) (n : ℕ) → accumulate increment ts none ≡ some n → length ts ≡ n
unfolding increment
counted [] n h = cc
counted (t ∷ ts) n h =
    let joined : 1 + length ts ≡ n = cc (sym (accumulate-increment ts 1) ∙ h) in omega arith

counts_two :
    (ts : List TransitionEdge) → 1 < length ts → accumulate increment ts none ≡ some (length ts)
unfolding increment
counts_two [] h = absurd (omega arith)
counts_two (t ∷ ts) h = accumulate-increment ts 1 ∙ ap some (omega arith)

has_priority_tie_iff :
    (ts : List TransitionEdge)
    → (has_priority_tie ts ≡ true) ↔ ((p : ℕ) × (1 < count (at_priority p) ts))
unfolding has_priority_tie priority_counts
has_priority_tie_iff ts =
    let keys = keys_where (ltb 1) (fill ltb (λ (t : TransitionEdge). t.priority) increment ts []) in
    let at_key = λ (p : ℕ).
      keys_where-fill ltb-IsOrder (λ (t : TransitionEdge). t.priority) increment (ltb 1) p ts in
    (
      λ h.
          let (p, m) = Memᴰ_of_not_nil keys h in
          let (n, found, two) = (at_key p).0 m in
          let size : count (at_priority p) ts ≡ n = counted (keep_if (at_priority p) ts) n found in
          (p, omega (arith, size, ltb→lt 1 n two)),
      λ h.
          let (p, two) = h in
          not_nil_of_Memᴰ p keys (
            (at_key p).1 (
              count (at_priority p) ts,
              counts_two (keep_if (at_priority p) ts) two,
              lt→ltb 1 (count (at_priority p) ts) two,
            )),
    )

gathered : (ts g : List TransitionEdge) → accumulate push_back ts none ≡ some g → ts ≡ g
unfolding push_back
gathered [] g h = cc
gathered (t ∷ ts) g h = cc (sym (accumulate-push_back ts (t ∷ [])) ∙ h)

gathers_two : (ts : List TransitionEdge) → 1 < length ts → accumulate push_back ts none ≡ some ts
unfolding push_back
gathers_two [] h = absurd (omega arith)
gathers_two (t ∷ ts) h = accumulate-push_back ts (t ∷ [])

-- The transitions that compete: those of a source and an event.
abbrev pub rivals : FsmIr → String → String → List TransitionEdge
rivals ir src evt =
    keep_if (λ (t : TransitionEdge). str_eq t.source src && str_eq t.event evt) ir.transitions

-- Two of the transitions have no guard, and two, the same or others, have one priority.
abbrev pub Conflict : List TransitionEdge → Type 0
Conflict ts = (1 < count is_unconditional ts) × ((p : ℕ) × (1 < count (at_priority p) ts))

is_reported_iff : (ts : List TransitionEdge) → (is_reported ts ≡ true) ↔ Conflict ts
unfolding is_reported
is_reported_iff ts = (
  λ h. (ground arith, (has_priority_tie_iff ts).0 (ground arith)),
  λ h. ground (arith, h.0, (has_priority_tie_iff ts).1 h.1, length-keep_if is_unconditional ts),
)

-- The pass reports a state and an event exactly when two of the transitions from that state on that event have
-- no guard, and two of them have the same priority.
pub run-Conflict :
    (ir : FsmIr) (src evt : String) → Memᴰ (src, evt) (run ir).1 ↔ Conflict (rivals ir src evt)
unfolding run groups key
run-Conflict ir src evt =
    let here = keys_where-fill key_lt-IsOrder key push_back is_reported (src, evt) ir.transitions in
    let ts = rivals ir src evt in
    (
      λ m.
          let (g, found, reported) = here.0 m in
          (is_reported_iff ts).0 (ap is_reported (gathered ts g found) ∙ reported),
      λ c.
          let two : 1 < length ts = omega (arith, c.0, length-keep_if is_unconditional ts) in
          here.1 (ts, gathers_two ts two, (is_reported_iff ts).1 c),
    )

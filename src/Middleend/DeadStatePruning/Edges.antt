-- ===== src/Middleend/DeadStatePruning/Edges.antt =====
-- dead_state_pruning_pass.cpp: what the search follows, as a relation, and that a round follows it.
use mathlib.Core.List.{Memᴰ}
use mathlib.Core.List.Memᴰ
use fsmc.Common.{
  ◌≡◌, refl, inl, inr, ◌≢◌, true, false, not, ◌&&◌, String, str_eq, eq_iff, List, [], ◌∷◌, some,
  contains, Bool-cases, or_split, arith,
}
use fsmc.Ir.Model.{StateNode, TransitionEdge, FsmIr, is_empty, find_state}
use fsmc.Middleend.DeadStatePruning.{is_static_false, substates, unless_empty, targets}

pub record IsChild (s : StateNode) (u v : String) : Type 0 where
  pub below : s.parent_state ≡ u
  pub called : s.name ≡ v

pub record Fires (t : TransitionEdge) (u v : String) : Type 0 where
  pub leaves : t.source ≡ u
  pub live : is_static_false t ≡ false
  pub enters : t.target ≡ v
  pub named : v ≢ ""

abbrev pub Found {ℓ κ} : {A : Type ℓ} → (A → Type κ) → List A → Type (ℓ ⊔ κ)
Found {A} P xs = (a : A) × Memᴰ a xs × P a

-- `v` is a child of `u`, its parent, its initial sub-state, or the target of a transition of `u` whose
-- guard is not the text `false`. The further targets of a transition, target_ids, do not count.
pub data Edge (ir : FsmIr) (u v : String) : Type 0 where
  to_child : Found (λ s. IsChild s u v) ir.states → Edge ir u v
  to_parent : (s : StateNode) → find_state ir u ≡ some s → s.parent_state ≡ v → v ≢ "" → Edge ir u v
  to_initial :
      (s : StateNode) → find_state ir u ≡ some s → s.initial_sub_state ≡ v → v ≢ "" → Edge ir u v
  by_transition : Found (λ t. Fires t u v) ir.transitions → Edge ir u v

later {ℓ κ} : {A : Type ℓ} {P : A → Type κ} {x : A} {xs : List A} → Found P xs → Found P (x ∷ xs)
later (a, m, p) = (a, Memᴰ.tail m, p)

IsChild-of :
    (s : StateNode) (u v : String)
    → str_eq s.parent_state u ≡ true
    → str_eq s.name v ≡ true
    → IsChild s u v
IsChild-of s u v h k = record { below = (eq_iff _ _).0 h; called = (eq_iff _ _).0 k }

pub substates_sound :
    (ss : List StateNode) (u v : String)
    → contains v (substates ss u) ≡ true
    → Found (λ s. IsChild s u v) ss
unfolding substates
substates_sound [] u v h = cc
substates_sound (s ∷ ss) u v h = elim (Bool-cases (str_eq s.parent_state u)) [
  | inl mine ↦ elim (or_split (str_eq s.name v) _ (rw mine at h)) [
    | inl same ↦ (s, Memᴰ.head refl, IsChild-of s u v mine same)
    | inr rest ↦ later (substates_sound ss u v rest)
  ]
  | inr other ↦ later (substates_sound ss u v (rw other at h))
]

pub substates_complete :
    (ss : List StateNode) (s : StateNode) (u v : String)
    → Memᴰ s ss
    → IsChild s u v
    → contains v (substates ss u) ≡ true
unfolding substates
substates_complete [] s u v m c = absurd (Memᴰ.not-nil m)
substates_complete (x ∷ ss) s u v m c = elim (Memᴰ.cases_cons m) [
  | inl e ↦
      let mine : str_eq x.parent_state u ≡ true = (eq_iff _ _).1 (rw (← e) c.below) in
      let same : str_eq x.name v ≡ true = (eq_iff _ _).1 (rw (← e) c.called) in rw (mine, same)
  | inr rest ↦ ground (arith, substates_complete ss s u v rest c)
]

Fires-of :
    (t : TransitionEdge) (u v : String)
    → (str_eq t.source u && not (is_static_false t) && not (is_empty t.target)) ≡ true
    → str_eq t.target v ≡ true
    → Fires t u v
Fires-of t u v h k = record {
  leaves = ground (arith, eq_iff t.source u);
  live = ground arith;
  enters = (eq_iff _ _).0 k;
  named = λ e. ground (arith, eq_iff t.target v, eq_iff t.target "");
}

Fires-test :
    (t : TransitionEdge) (u v : String)
    → Fires t u v
    → ((str_eq t.source u && not (is_static_false t) && not (is_empty t.target)) ≡ true)
      × (str_eq t.target v ≡ true)
Fires-test t u v f =
    ground (arith, eq_iff t.source u, eq_iff t.target v, eq_iff t.target "", f.named)

pub targets_sound :
    (ts : List TransitionEdge) (u v : String)
    → contains v (targets ts u) ≡ true
    → Found (λ t. Fires t u v) ts
unfolding targets
targets_sound [] u v h = cc
targets_sound (t ∷ ts) u v h =
    elim (Bool-cases (str_eq t.source u && not (is_static_false t) && not (is_empty t.target))) [
      | inl mine ↦ elim (or_split (str_eq t.target v) _ (rw mine at h)) [
        | inl hit ↦ (t, Memᴰ.head refl, Fires-of t u v mine hit)
        | inr rest ↦ later (targets_sound ts u v rest)
      ]
      | inr other ↦ later (targets_sound ts u v (rw other at h))
    ]

pub targets_complete :
    (ts : List TransitionEdge) (t : TransitionEdge) (u v : String)
    → Memᴰ t ts
    → Fires t u v
    → contains v (targets ts u) ≡ true
unfolding targets
targets_complete [] t u v m f = absurd (Memᴰ.not-nil m)
targets_complete (x ∷ ts) t u v m f = elim (Memᴰ.cases_cons m) [
  | inl e ↦ let (mine, hit) = Fires-test x u v (rw (← e) f) in rw (mine, hit)
  | inr rest ↦ ground (arith, targets_complete ts t u v rest f)
]

pub unless_empty_sound : (s v : String) → contains v (unless_empty s) ≡ true → (s ≡ v) × (v ≢ "")
unless_empty_sound s v h =
    (ground (arith, eq_iff s v), λ e. ground (arith, eq_iff s v, eq_iff s ""))

pub unless_empty_complete : (s v : String) → s ≡ v → v ≢ "" → contains v (unless_empty s) ≡ true
unless_empty_complete s v e h = ground (arith, eq_iff s v, eq_iff s "")

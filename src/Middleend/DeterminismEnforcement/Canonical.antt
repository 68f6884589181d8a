-- ===== src/Middleend/DeterminismEnforcement/Canonical.antt =====
-- determinism_enforcement_pass.cpp: the canonical order of the transition table.
use fsmc.Common.{
  ◌<◌, ◌≡◌, ◌⊎◌, sym, ◌∙◌, Bool, true, false, ◌&&◌, String, str_eq, eq_iff, text_lt, text_lt_irrefl,
  text_lt_trans, text_lt_total, List, [], ◌∷◌, ◌==◌, keep_if, Bool-cases, inl, inr, arith,
}
use fsmc.Ir.Model.{TransitionEdge, FsmIr}
use fsmc.Ir.GraphOps.Order.{rank}
use fsmc.Ir.GraphOps.Order.Insertion.{All, Ordered, stable_sort-Ordered, keep_if-stable_sort}
use fsmc.Middleend.DeterminismEnforcement.{precedes, run}

-- An order by a key first, and by `rest` where the keys are one.
abbrev pub Then : {A K : Type 0} → (A → K) → (K → K → Type 0) → (A → A → Type 0) → A → A → Type 0
Then k less rest a b = less (k a) (k b) ⊎ ((k a ≡ k b) × rest a b)

Then-trans :
    {A K : Type 0} (k : A → K) (less : K → K → Type 0) (rest : A → A → Type 0)
    → ((x y z : K) → less x y → less y z → less x z)
    → ((x y z : A) → rest x y → rest y z → rest x z)
    → (a b c : A) → Then k less rest a b
    → Then k less rest b c
    → Then k less rest a c
Then-trans k less rest t r a b c (inl h) (inl h') = inl (t (k a) (k b) (k c) h h')
Then-trans k less rest t r a b c (inl h) (inr h') = inl (rw h'.0 at h)
Then-trans k less rest t r a b c (inr h) (inl h') = inl (rw (← h.0) at h')
Then-trans k less rest t r a b c (inr h) (inr h') = inr (h.0 ∙ h'.0, r a b c h.1 h'.1)

abbrev pub TextLt : String → String → Type 0
TextLt s t = text_lt s t ≡ true

abbrev pub TargetLe : TransitionEdge → TransitionEdge → Type 0
TargetLe a b = text_lt b.target a.target ≡ false

abbrev pub ByRank : TransitionEdge → TransitionEdge → Type 0
ByRank = Then rank ◌<◌ TargetLe

abbrev pub ByEvent : TransitionEdge → TransitionEdge → Type 0
ByEvent = Then (λ (t : TransitionEdge). t.event) TextLt ByRank

-- By the source, the event, the priority (0 last) and the target, in this order.
abbrev pub Canonical : TransitionEdge → TransitionEdge → Type 0
Canonical = Then (λ (t : TransitionEdge). t.source) TextLt ByEvent

text_lt_asymm : (s t : String) → text_lt s t ≡ true → text_lt t s ≡ false
text_lt_asymm s t h = ground (arith, text_lt_trans s t s h, text_lt_irrefl s)

text_lt_reverse : (s t : String) → str_eq s t ≡ false → text_lt s t ≡ false → text_lt t s ≡ true
text_lt_reverse s t other h = elim (Bool-cases (text_lt t s)) [
  | inl below ↦ below
  | inr level ↦ ground (arith, (eq_iff s t).1 (text_lt_total s t h level))
]

-- What equals one text equals each other, and is not below it.
text_eq_common :
    (s t u : String)
    → str_eq s u ≡ true
    → str_eq t u ≡ true
    → (str_eq s t ≡ true) × (text_lt s t ≡ false)
text_eq_common s t u h k =
    let same : s ≡ t = (eq_iff s u).0 h ∙ sym ((eq_iff t u).0 k) in
    ((eq_iff s t).1 same, rw same (text_lt_irrefl t))

text_lt_negative :
    (s t u : String) → text_lt t s ≡ false → text_lt u t ≡ false → text_lt u s ≡ false
text_lt_negative s t u h k = elim (Bool-cases (text_lt u s)) [
  | inl below ↦ elim (Bool-cases (text_lt s t)) [
    | inl up ↦ absurd (ground (arith, text_lt_trans u s t below up))
    | inr level ↦ absurd (ground (arith, rw (text_lt_total s t level h) at below))
  ]
  | inr other ↦ other
]

Canonical-trans : (a b c : TransitionEdge) → Canonical a b → Canonical b c → Canonical a c
Canonical-trans =
    Then-trans (λ (t : TransitionEdge). t.source) TextLt ByEvent text_lt_trans
      (Then-trans (λ (t : TransitionEdge). t.event) TextLt ByRank text_lt_trans
        (Then-trans rank ◌<◌ TargetLe (λ x y z h k. omega arith)
          (λ a b c. text_lt_negative a.target b.target c.target)))

precedes-Canonical : (a b : TransitionEdge) → precedes a b ≡ true → Canonical a b
unfolding precedes
precedes-Canonical a b h = elim (Bool-cases (str_eq a.source b.source)) [
  | inr other ↦ inl (ground arith)
  | inl source ↦ inr (
    (eq_iff a.source b.source).0 source,
    elim (Bool-cases (str_eq a.event b.event)) [
      | inr other ↦ inl (ground arith)
      | inl event ↦ inr (
        (eq_iff a.event b.event).0 event,
        elim (Bool-cases (rank a == rank b)) [
          | inr other ↦ inl (ground arith)
          | inl level ↦ inr (ground arith, text_lt_asymm a.target b.target (ground arith))
        ],
      )
    ],
  )
]

not_precedes-Canonical : (a b : TransitionEdge) → precedes a b ≡ false → Canonical b a
unfolding precedes
not_precedes-Canonical a b h = elim (Bool-cases (str_eq a.source b.source)) [
  | inr other ↦ inl (text_lt_reverse a.source b.source other (ground arith))
  | inl source ↦ inr (
    sym ((eq_iff a.source b.source).0 source),
    elim (Bool-cases (str_eq a.event b.event)) [
      | inr other ↦ inl (text_lt_reverse a.event b.event other (ground arith))
      | inl event ↦ inr (
        sym ((eq_iff a.event b.event).0 event),
        elim (Bool-cases (rank a == rank b)) [
          | inr other ↦ inl (ground arith)
          | inl level ↦ inr (ground arith, ground arith)
        ],
      )
    ],
  )
]

-- The transitions that the comparison does not tell from `k`.
abbrev pub is_alike : TransitionEdge → TransitionEdge → Bool
is_alike k t =
    str_eq t.source k.source
    && str_eq t.event k.event
    && (rank t == rank k)
    && str_eq t.target k.target

alike_precedes :
    (k a b : TransitionEdge) → is_alike k a ≡ true → is_alike k b ≡ true → precedes a b ≡ false
unfolding precedes
alike_precedes k a b h h' = ground (
  arith,
  text_eq_common a.source b.source k.source,
  text_eq_common a.event b.event k.event,
  text_eq_common a.target b.target k.target,
)

all : (ts : List TransitionEdge) → All (λ t. Unit) ts
all [] = tt
all (t ∷ ts) = (tt, all ts)

-- After the pass, the table is in the order of the sources, the events, the priorities (1 first and 0 last) and the
-- targets; and transitions that agree in all four are those of the machine, in the same order.
pub run-Canonical :
    (ir : FsmIr)
    → Ordered Canonical (run ir).0.transitions
      × ((k : TransitionEdge)
          → keep_if (is_alike k) (run ir).0.transitions ≡ keep_if (is_alike k) ir.transitions)
unfolding run
run-Canonical ir = (
  stable_sort-Ordered precedes (λ t. Unit) Canonical (λ a b x y. precedes-Canonical a b)
      (λ a b x y. not_precedes-Canonical a b) Canonical-trans ir.transitions (all ir.transitions),
  λ k. keep_if-stable_sort precedes (is_alike k) (alike_precedes k) ir.transitions,
)

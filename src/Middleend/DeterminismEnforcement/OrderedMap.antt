-- ===== src/Middleend/DeterminismEnforcement/OrderedMap.antt =====
-- The map of determinism_enforcement_pass.cpp: what a key holds after a loop that fills the map.
use fsmc.Common.{
  ◌≡◌, ◌↔◌, refl, sym, ap, ◌∙◌, inl, inr, Bool, true, false, List, [], ◌∷◌, Option, none, some,
  if◌then◌else◌, keep_if, Bool-cases, arith,
}
use mathlib.Core.Path.{subst}
use mathlib.Core.List.{Memᴰ}
use mathlib.Core.List.Memᴰ
use fsmc.Ir.GraphOps.Order.Insertion.{All, Ordered, All-mono}
use fsmc.Middleend.DeterminismEnforcement.{update, fill, keys_where}

-- A strict total order, and a test whether two keys are the same.
pub record IsOrder {K : Type 0} (less same : K → K → Bool) : Type 0 where
  pub irrefl : (a : K) → less a a ≡ false
  pub trans : (a b c : K) → less a b ≡ true → less b c ≡ true → less a c ≡ true
  pub total : (a b : K) → less a b ≡ false → less b a ≡ false → a ≡ b
  pub same_iff : (a b : K) → (same a b ≡ true) ↔ (a ≡ b)

-- The value of a key.
abbrev pub value : {K V : Type 0} → (K → K → Bool) → K → List (K × V) → Option V
value same k [] = none
value same k ((j, v) ∷ m) = if same j k then some v else value same k m

-- The value after the writes of some elements to it.
abbrev pub accumulate : {V T : Type 0} → (T → Option V → V) → List T → Option V → Option V
accumulate add [] o = o
accumulate add (t ∷ ts) o = accumulate add ts (some (add t o))

apart :
    {K : Type 0} {less same : K → K → Bool} (order : IsOrder less same) (i j k : K)
    → less i k ≡ true
    → same i j ≡ true
    → same k j ≡ false
apart {K} {less} {same} order i j k h e = elim (Bool-cases (same k j)) [
  | inl e' ↦
      let level : i ≡ k = (order.same_iff i j).0 e ∙ sym ((order.same_iff k j).0 e') in
      absurd (ground (arith, order.irrefl k, rw level at h))
  | inr other ↦ other
]

module _ {K V : Type 0} {less same : K → K → Bool} (order : IsOrder less same) where
  -- The keys ascend.
  abbrev Ascends : List (K × V) → Type 0
  Ascends = Ordered (λ a b. less a.0 b.0 ≡ true)

  abbrev Above : K → List (K × V) → Type 0
  Above k = All (λ b. less k b.0 ≡ true)

  Above-update :
      (j k : K) (f : Option V → V) (m : List (K × V))
      → less j k ≡ true
      → Above j m
      → Above j (update less k f m)
  unfolding update
  Above-update j k f [] h a = (h, tt)
  Above-update j k f ((i, v) ∷ m) h a = elim (Bool-cases (less i k)) [
    | inl past ↦ rw past (a.0, Above-update j k f m h a.1)
    | inr stop ↦ elim (Bool-cases (less k i)) [
      | inl before ↦ rw (stop, before) (h, a)
      | inr same_ ↦ rw (stop, same_) a
    ]
  ]

  Above-mono : (j k : K) (m : List (K × V)) → less j k ≡ true → Above k m → Above j m
  Above-mono j k m h = All-mono m (λ b. order.trans j k b.0 h)

  update-Ascends :
      (k : K) (f : Option V → V) (m : List (K × V)) → Ascends m → Ascends (update less k f m)
  unfolding update
  update-Ascends k f [] a = (tt, tt)
  update-Ascends k f ((i, v) ∷ m) a = elim (Bool-cases (less i k)) [
    | inl past ↦ rw past (Above-update i k f m past a.0, update-Ascends k f m a.1)
    | inr stop ↦ elim (Bool-cases (less k i)) [
      | inl before ↦ rw (stop, before) ((before, Above-mono k i m before a.0), a)
      | inr same_ ↦ rw (stop, same_) a
    ]
  ]

  -- A key below all is not there.
  value-Above : (k : K) (m : List (K × V)) → Above k m → value same k m ≡ none
  value-Above k [] a = refl
  value-Above k ((i, v) ∷ m) a = elim (Bool-cases (same i k)) [
    | inl e ↦ absurd (ground (arith, order.irrefl k, (order.same_iff i k).0 e, a.0))
    | inr other ↦ rw other (value-Above k m a.1)
  ]

  value-update :
      (j k : K) (f : Option V → V) (m : List (K × V))
      → Ascends m
      → value same j (update less k f m)
        ≡ (if same k j then some (f (value same j m)) else value same j m)
  unfolding update
  value-update j k f [] a = refl
  value-update j k f ((i, v) ∷ m) a = elim (Bool-cases (less i k)) [
    | inl past ↦ elim (Bool-cases (same i j)) [
      | inl e ↦ rw (past, e, apart order i j k past e) refl
      | inr other ↦ rw (past, other) (value-update j k f m a.1)
    ]
    | inr stop ↦ elim (Bool-cases (less k i)) [
      | inl before ↦ elim (Bool-cases (same k j)) [
        | inl e ↦
            let level : k ≡ j = (order.same_iff k j).0 e in
            let below : Above j ((i, v) ∷ m) =
              subst (λ x. Above x ((i, v) ∷ m)) level (before, Above-mono k i m before a.0) in
            let absent : value same j ((i, v) ∷ m) ≡ none = value-Above j ((i, v) ∷ m) below in
            rw (stop, before, e, absent) refl
        | inr other ↦ rw (stop, before, other) refl
      ]
      | inr level ↦
          let e : i ≡ k = order.total i k stop level in
          elim (Bool-cases (same k j)) [
            | inl hit ↦ let hit_i : same i j ≡ true = rw e hit in rw (stop, level, hit, hit_i) refl
            | inr miss ↦
                let miss_i : same i j ≡ false = rw e miss in rw (stop, level, miss, miss_i) refl
          ]
    ]
  ]

  -- The keys that keys_where gives are those whose value passes the test.
  value_at :
      (test : V → Bool) (k : K) (m : List (K × V))
      → Ascends m
      → Memᴰ k (keys_where test m)
      → (v : V) × (value same k m ≡ some v) × (test v ≡ true)
  unfolding keys_where
  value_at test k [] a h = absurd (Memᴰ.not-nil h)
  value_at test k ((i, v) ∷ m) a h = elim (Bool-cases (test v)) [
    | inl passed ↦ elim (Memᴰ.cases_cons (rw passed at h)) [
      | inl e ↦
          let here : same i k ≡ true = (order.same_iff i k).1 (sym e) in (v, rw here refl, passed)
      | inr rest ↦ later (value_at test k m a.1 rest)
    ]
    | inr failed ↦ later (value_at test k m a.1 (rw failed at h))
  ]
    where
      later :
          (v' : V) × (value same k m ≡ some v') × (test v' ≡ true)
          → (v' : V) × (value same k ((i, v) ∷ m) ≡ some v') × (test v' ≡ true)
      later (v', found, passed) = elim (Bool-cases (same i k)) [
        | inl e ↦
            let below : Above k m = subst (λ x. Above x m) ((order.same_iff i k).0 e) a.0 in
            absurd (cc (found, value-Above k m below))
        | inr other ↦ (v', rw other found, passed)
      ]

  key_at :
      (test : V → Bool) (k : K) (v : V) (m : List (K × V))
      → value same k m ≡ some v
      → test v ≡ true
      → Memᴰ k (keys_where test m)
  unfolding keys_where
  key_at test k v [] h t = cc
  key_at test k v ((i, v') ∷ m) h t = elim (Bool-cases (same i k)) [
    | inl e ↦
        let same_value : v' ≡ v = cc (rw e at h) in
        let passed : test v' ≡ true = ap test same_value ∙ t in
        rw passed (Memᴰ.head (sym ((order.same_iff i k).0 e)))
    | inr other ↦ elim (Bool-cases (test v')) [
      | inl passed ↦ rw passed (Memᴰ.tail (key_at test k v m (rw other at h) t))
      | inr failed ↦ rw failed (key_at test k v m (rw other at h) t)
    ]
  ]

  module _ {T : Type 0} (key : T → K) (add : T → Option V → V) where
    pub fill-Ascends :
        (ts : List T) (m : List (K × V)) → Ascends m → Ascends (fill less key add ts m)
    unfolding fill
    fill-Ascends [] m a = a
    fill-Ascends (t ∷ ts) m a =
        fill-Ascends ts (update less (key t) (add t) m) (update-Ascends (key t) (add t) m a)

    value-fill :
        (j : K) (ts : List T) (m : List (K × V))
        → Ascends m
        → value same j (fill less key add ts m)
          ≡ accumulate add (keep_if (λ t. same (key t) j) ts) (value same j m)
    unfolding fill
    value-fill j [] m a = refl
    value-fill j (t ∷ ts) m a = elim (Bool-cases (same (key t) j)) [
      | inl e ↦ rw e (
          value-fill j ts (update less (key t) (add t) m) (update-Ascends (key t) (add t) m a)
          ∙ ap (accumulate add (keep_if (λ x. same (key x) j) ts))
              (value-update j (key t) (add t) m a ∙ rw e refl))
      | inr other ↦ rw other (
          value-fill j ts (update less (key t) (add t) m) (update-Ascends (key t) (add t) m a)
          ∙ ap (accumulate add (keep_if (λ x. same (key x) j) ts))
              (value-update j (key t) (add t) m a ∙ rw other refl))
    ]

    -- After the loop on an empty map, the keys that pass a test are those where the elements with that key
    -- gather to a value that passes it.
    pub keys_where-fill :
        (test : V → Bool) (k : K) (ts : List T)
        → Memᴰ k (keys_where test (fill less key add ts [])) ↔ (
            (v : V) × (accumulate add (keep_if (λ t. same (key t) k) ts) none ≡ some v)
            × (test v ≡ true))
    keys_where-fill test k ts =
        let whole = value-fill k ts [] tt in
        (
          λ h.
              let (v, found, passed) =
                value_at test k (fill less key add ts []) (fill-Ascends ts [] tt) h in
              (v, sym whole ∙ found, passed),
          λ h.
              let (v, found, passed) = h in
              key_at test k v (fill less key add ts []) (whole ∙ found) passed,
        )

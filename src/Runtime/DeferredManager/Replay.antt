-- ===== src/Runtime/DeferredManager/Replay.antt =====
-- detail/deferred_manager.hpp: one pass over the queue, as a pass over the list of its events.
use fsmc.Common.{
  ℕ, suc, ◌+◌, ◌≤◌, zero, ◌==◌, ◌≡◌, refl, ap, ◌∙◌, sym, inl, inr, Bool, true, false, List, [], ◌∷◌,
  ◌++◌, Option, none, some, length, length-append, get_or, get_elem?, Bool-cases, arith,
}
use fsmc.Runtime.StaticVector.{StaticVector, erase}
use fsmc.Runtime.StaticVector.Slots.{remove_at}
use fsmc.Runtime.StaticVector.Contents.{
  Inv, contents, length-contents, contents-erase, erase-Inv, get_elem?-contents,
}
use fsmc.Runtime.DeferredManager.{DeferredManager, Pass, scan, leaving}

module _ {ℓ} {A : Type ℓ} where
  get_elem?_middle : (xs ys : List A) (a : A) → get_elem? (xs ++ a ∷ ys) (length xs) ≡ some a
  get_elem?_middle [] ys a = refl
  get_elem?_middle (x ∷ xs) ys a = get_elem?_middle xs ys a

  remove_at_middle : (xs ys : List A) (a : A) → remove_at (xs ++ a ∷ ys) (length xs) ≡ xs ++ ys
  remove_at_middle [] ys a = refl
  remove_at_middle (x ∷ xs) ys a = ap (◌∷◌ x) (remove_at_middle xs ys a)

  pub append_cons : (xs ys : List A) (a : A) → (xs ++ a ∷ []) ++ ys ≡ xs ++ a ∷ ys
  append_cons [] ys a = refl
  append_cons (x ∷ xs) ys a = ap (◌∷◌ x) (append_cons xs ys a)

some-injective {ℓ} : {A : Type ℓ} (d a b : A) → some a ≡ some b → a ≡ b
some-injective {A = A} d a b e = ap value e
  where
    value : Option A → A
    value none = d
    value (some x) = x

module _ {E M : Type 0} (dispatch : M → E → M × Bool) where
  -- Every event is offered in turn, and none is handled.
  abbrev pub Refused : M → List E → M → Type 0
  Refused m [] m' = m ≡ m'
  Refused m (e ∷ es) m' = ((dispatch m e).1 ≡ false) × Refused (dispatch m e).0 es m'

module _ {E M : Type 0} (default : E) (dispatch : M → E → M × Bool) where
  -- What a pass over the events `es`, which stand behind `before`, comes to.
  pub data Scanned (m : M) (before es : List E) (p : Pass default (leaving dispatch)) : Type 0 where
    refused :
        p.handled ≡ false
        → Refused dispatch m es p.machine
        → contents p.deferred.queue ≡ before ++ es
        → Scanned m before es p
    took :
        (passed : List E) (e : E) (behind : List E) (m' : M)
        → p.handled ≡ true
        → es ≡ passed ++ e ∷ behind
        → Refused dispatch m passed m'
        → dispatch m' e ≡ (p.machine, true)
        → contents p.deferred.queue ≡ before ++ (passed ++ behind)
        → Scanned m before es p

  slot :
      (capacity : ℕ) (v : StaticVector E) (before es : List E) (e : E)
      → Inv capacity v
      → contents v ≡ before ++ e ∷ es
      → get_or v.items (length before) default ≡ e
  slot capacity v before es e h c =
      let n = length-contents capacity v h in
      let l : length (contents v) ≡ length before + suc (length es) =
        ap length c ∙ length-append before (e ∷ es) in
      some-injective default _ e (
        sym (get_elem?-contents default capacity v (length before) h (omega arith))
        ∙ ap (λ xs. get_elem? xs (length before)) c
        ∙ get_elem?_middle before es e)

  passed_over :
      (m : M) (before es : List E) (e : E) (p : Pass default (leaving dispatch))
      → (dispatch m e).1 ≡ false
      → Scanned (dispatch m e).0 (before ++ e ∷ []) es p
      → Scanned m before (e ∷ es) p
  passed_over m before es e p miss (refused none_handled all_refused c) =
      refused none_handled (miss, all_refused) (c ∙ append_cons before es e)
  passed_over m before es e p miss (took passed x behind m' handled split all_refused hit c) =
      took (e ∷ passed) x behind m' handled (ap (◌∷◌ e) split) (miss, all_refused) hit
        (c ∙ append_cons before (passed ++ behind) e)

  taken :
      (capacity : ℕ) (d : DeferredManager E) (before es : List E) (e : E) (m : M)
      → Inv capacity d.queue
      → contents d.queue ≡ before ++ e ∷ es
      → (dispatch m e).1 ≡ true
      → Scanned m before (e ∷ es) (record {
        machine = (dispatch m e).0;
        deferred = record d { queue = (erase default d.queue (length before)).0 };
        handled = true;
      })
  taken capacity d before es e m h c hit =
      took [] e es m refl refl refl (ap (λ b. ((dispatch m e).0, b)) hit) (
        contents-erase default capacity d.queue (length before) h
        ∙ ap (λ xs. remove_at xs (length before)) c
        ∙ remove_at_middle before es e)

  -- A pass that ends, and what it comes to.
  pub record Ends (capacity : ℕ) (m : M) (before es : List E)
      (result : Option (Pass default (leaving dispatch))) : Type 0 where
    pub pass : Pass default (leaving dispatch)
    pub returns : result ≡ some pass
    pub scanned : Scanned m before es pass
    pub valid : Inv capacity pass.deferred.queue

  at_end :
      (capacity : ℕ) (d : DeferredManager E) (before es : List E)
      → Inv capacity d.queue
      → contents d.queue ≡ before ++ es
      → d.queue.size ≡ length before + length es
  at_end capacity d before es h c =
      sym (length-contents capacity d.queue h) ∙ ap length c ∙ length-append before es

  pub scan-Ends :
      (capacity : ℕ) (d : DeferredManager E) (es before : List E) (m : M) (fuel : ℕ)
      → length es ≤ fuel
      → Inv capacity d.queue
      → contents d.queue ≡ before ++ es
      → Ends capacity m before es (scan default (leaving dispatch) fuel (length before) m d)
  unfolding scan
  scan-Ends capacity d [] before m zero room h c =
      let n = at_end capacity d before [] h c in
      let over : (length before == d.queue.size) ≡ true = ground (arith, n) in
      rw over record { pass = _; returns = refl; scanned = refused refl refl c; valid = h }
  scan-Ends capacity d [] before m (suc fuel) room h c =
      let n = at_end capacity d before [] h c in
      let over : (length before == d.queue.size) ≡ true = ground (arith, n) in
      rw over record { pass = _; returns = refl; scanned = refused refl refl c; valid = h }
  scan-Ends capacity d (e ∷ es) before m zero room h c = absurd (omega arith)
  scan-Ends capacity d (e ∷ es) before m (suc fuel) room h c =
      let n = at_end capacity d before (e ∷ es) h c in
      let more : (length before == d.queue.size) ≡ false = ground (arith, n) in
      elim (Bool-cases (dispatch m e).1) [
        | inl hit ↦
            rw (more, slot capacity d.queue before es e h c, hit)
              record {
                pass = _;
                returns = refl;
                scanned = taken capacity d before es e m h c hit;
                valid = erase-Inv default capacity d.queue (length before) h;
              }
        | inr miss ↦
            let next : suc (length before) ≡ length (before ++ e ∷ []) =
              omega (arith, length-append before (e ∷ [])) in
            let r =
              scan-Ends capacity d es (before ++ e ∷ []) (dispatch m e).0 fuel (omega arith) h
                (c ∙ sym (append_cons before es e)) in
            rw (more, slot capacity d.queue before es e h c, miss, next)
              record {
                pass = r.pass;
                returns = r.returns;
                scanned = passed_over m before es e r.pass miss r.scanned;
                valid = r.valid;
              }
      ]

-- ===== src/Runtime/DeferredManager/Quiescence.antt =====
-- detail/deferred_manager.hpp: the replay ends, and what it does to the queue.
use fsmc.Common.{
  ℕ, zero, suc, ◌<◌, ◌≡◌, refl, ◌∙◌, inl, inr, Bool, true, false, List, [], ◌∷◌, ◌++◌, Option, some,
  ◌==◌, length, length-append, nil_of_length, Bool-cases, arith,
}
use fsmc.Runtime.StaticVector.{StaticVector, empty}
use fsmc.Runtime.StaticVector.Contents.{Inv, contents, length-contents}
use fsmc.Runtime.DeferredManager.{DeferredManager, Pass, replay, process_deferred_queue, leaving}
use fsmc.Runtime.DeferredManager.Replay.{Refused, Scanned, refused, took, scan-Ends}

module _ {E M : Type 0} (dispatch : M → E → M × Bool) where
  -- What a replay of events in their order promises: the first one that the machine handles is taken
  -- out and the replay starts again at the front, until the machine refuses all that are left.
  pub data Replayed : M → List E → M → List E → Type 0 where
    settles : (m : M) (es : List E) (m' : M) → Refused dispatch m es m' → Replayed m es m' es
    takes :
        (m : M) (passed : List E) (e : E) (behind : List E) (m' m'' : M) (n : M) (left : List E)
        → Refused dispatch m passed m'
        → dispatch m' e ≡ (m'', true)
        → Replayed m'' (passed ++ behind) n left
        → Replayed m (passed ++ e ∷ behind) n left

module _ {E M : Type 0} (default : E) (dispatch : M → E → M × Bool) (capacity : ℕ) where
  -- A replay's result, with what it promises of it.
  pub record Returns (result : Option (M × DeferredManager E)) (m : M) (es : List E) : Type 0 where
    pub machine : M
    pub deferred : DeferredManager E
    pub returns : result ≡ some (machine, deferred)
    pub valid : Inv capacity deferred.queue
    pub replayed : Replayed dispatch m es machine (contents deferred.queue)

  ended :
      (m : M) (d : DeferredManager E)
      → Inv capacity d.queue
      → contents d.queue ≡ []
      → Returns (some (m, d)) m (contents d.queue)
  ended m d h nothing = record {
    machine = m;
    deferred = d;
    returns = refl;
    valid = h;
    replayed = settles m (contents d.queue) m (rw nothing refl);
  }

  replay_stops :
      (fuel : ℕ) (m : M) (d : DeferredManager E)
      → replay default (leaving dispatch) fuel m d false ≡ some (m, d)
  unfolding replay
  replay_stops zero m d = refl
  replay_stops (suc fuel) m d = refl

  shorter :
      (passed behind : List E) (e : E) → length (passed ++ behind) < length (passed ++ e ∷ behind)
  shorter passed behind e =
      omega (arith, length-append passed behind, length-append passed (e ∷ behind))

  -- A round of the loop, and the rest of it.
  after_pass :
      (fuel : ℕ)
      → ((d : DeferredManager E) (m : M)
          → Inv capacity d.queue
          → d.queue.size < fuel
          → Returns (replay default (leaving dispatch) fuel m d true) m (contents d.queue))
      → (m : M) (es : List E) (p : Pass default (leaving dispatch)) → Inv capacity p.deferred.queue
      → length es < suc fuel
      → Scanned default dispatch m [] es p
      → Returns (replay default (leaving dispatch) fuel p.machine p.deferred p.handled) m es
  after_pass fuel rounds m es p h room (refused none_handled all_refused c) = record {
    machine = p.machine;
    deferred = p.deferred;
    returns = rw none_handled (replay_stops fuel p.machine p.deferred);
    valid = h;
    replayed = rw c (settles m es p.machine all_refused);
  }
  after_pass fuel rounds m es p h room (took passed e behind m' handled split all_refused hit c) =
      let n = length-contents capacity p.deferred.queue h in
      let l : length (contents p.deferred.queue) < length es =
        rw (c, split) (shorter passed behind e) in
      let r = rounds p.deferred p.machine h (omega arith) in
      record {
        machine = r.machine;
        deferred = r.deferred;
        returns = rw handled r.returns;
        valid = r.valid;
        replayed = rw split (
            takes m passed e behind m' p.machine r.machine (contents r.deferred.queue) all_refused
              hit (rw c at r.replayed));
      }

  no_events : (v : StaticVector E) → Inv capacity v → v.size ≡ 0 → contents v ≡ []
  no_events v h e = nil_of_length (contents v) (length-contents capacity v h ∙ e)

  -- The loop returns on more fuel than there are events.
  replay-Returns :
      (fuel : ℕ) (d : DeferredManager E) (m : M)
      → Inv capacity d.queue
      → d.queue.size < fuel
      → Returns (replay default (leaving dispatch) fuel m d true) m (contents d.queue)
  unfolding replay empty
  replay-Returns zero d m h room = absurd (omega arith)
  replay-Returns (suc fuel) d m h room = elim (Bool-cases (d.queue.size == 0)) [
    | inl nothing ↦ rw nothing (ended m d h (no_events d.queue h (ground arith)))
    | inr something ↦
        let n = length-contents capacity d.queue h in
        let e =
          scan-Ends default dispatch capacity d (contents d.queue) [] m (suc fuel) (omega arith) h
            refl in
        rw (something, e.returns)
          (after_pass fuel (replay-Returns fuel) m (contents d.queue) e.pass e.valid (omega arith)
            e.scanned)
  ]

  -- What process_deferred_queue returns, and what it promises of it.
  pub record Processed (result : Option (M × DeferredManager E)) (m : M) (d : DeferredManager E)
      : Type 0 where
    pub machine : M
    pub after : DeferredManager E
    pub returns : result ≡ some (machine, after)
    pub valid : Inv capacity after.queue
    pub idle : after.is_replaying ≡ false
    pub replayed : Replayed dispatch m (contents d.queue) machine (contents after.queue)

  -- Outside a replay, for a machine whose actions leave the deferred events alone, on more fuel than there
  -- are deferred events, process_deferred_queue returns: the first event that the machine handles is taken
  -- out, and the rest are offered again in their order, until the machine refuses all that are left; a
  -- replay is no longer under way then.
  pub process_deferred_queue-Processed :
      (fuel : ℕ) (m : M) (d : DeferredManager E)
      → d.queue.size < fuel
      → Inv capacity d.queue
      → d.is_replaying ≡ false
      → Processed (process_deferred_queue default (leaving dispatch) fuel m d) m d
  unfolding process_deferred_queue empty
  process_deferred_queue-Processed fuel m d room h idle = elim (Bool-cases (d.queue.size == 0)) [
    | inl nothing ↦ rw nothing record {
      machine = m;
      after = d;
      returns = refl;
      valid = h;
      idle = idle;
      replayed = settles m (contents d.queue) m (rw (no_events d.queue h (ground arith)) refl);
    }
    | inr something ↦
        let r = replay-Returns fuel (record d { is_replaying = true }) m h room in
        rw (something, idle, r.returns)
          record {
            machine = r.machine;
            after = record r.deferred { is_replaying = false };
            returns = refl;
            valid = r.valid;
            idle = refl;
            replayed = r.replayed;
          }
  ]

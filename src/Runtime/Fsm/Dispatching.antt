-- ===== src/Runtime/Fsm/Dispatching.antt =====
-- fsm.hpp: dispatch and step return, and what becomes of the event and of the deferred events.
use fsmc.Common.{
  ◌+◌, arith, ◌≡◌, refl, inl, inr, false, [], ◌∷◌, ◌++◌, Option, some, ◌==◌, if◌then◌else◌, length,
  Bool-cases,
}
use fsmc.Runtime.StaticVector.Contents.{Inv, contents, contents-push_back, push_back-Inv}
use fsmc.Runtime.TransitionExecutor.{
  DispatchStatus, success, deferred, guard_rejected, unhandled, TransitionTrace,
}
use fsmc.Runtime.DeferredManager.{DeferredManager, defer_event}
use fsmc.Runtime.DeferredManager.Quiescence.{Replayed, process_deferred_queue-Processed}
use fsmc.Runtime.Fsm.{
  Machine, dispatch_direct_ports, is_deferred_event, redispatch, Dispatched, replayed, settle,
  dispatch,
}

module _ {E M : Type 0} (fsm : Machine E M) where
  -- The deferred events of a machine at rest.
  pub record AtRest (d : DeferredManager E) : Type 0 where
    pub vector : Inv fsm.deferred_capacity d.queue
    pub idle : d.is_replaying ≡ false

  -- What becomes of the deferred events, by the status of the direct dispatch, which left `m`.
  pub Fate : E → M → DeferredManager E → DispatchStatus → Dispatched fsm → Type 0
  Fate event m d success r =
      (r.result.status ≡ success)
      × Replayed (redispatch fsm) m (contents d.queue) r.machine (contents r.deferred.queue)
  Fate event m d unhandled r =
      if is_deferred_event fsm.deferred_events (fsm.current_state m) (fsm.event_type event)
      then (r.result.status ≡ deferred)
        × (contents r.deferred.queue ≡ (
            if length (contents d.queue) == fsm.deferred_capacity
            then contents d.queue
            else contents d.queue ++ event ∷ []))
      else (r.result.status ≡ unhandled) × (r.deferred ≡ d)
  Fate event m d guard_rejected r = (r.result.status ≡ guard_rejected) × (r.deferred ≡ d)
  Fate event m d deferred r = (r.result.status ≡ deferred) × (r.deferred ≡ d)

  pub record Served (event : E) (m : M) (d : DeferredManager E) (status : DispatchStatus)
      (result : Option (Dispatched fsm)) : Type 0 where
    pub served : Dispatched fsm
    pub returns : result ≡ some served
    pub at_rest : AtRest served.deferred
    pub fate : Fate event m d status served

  settle-Served :
      (event : E) (m : M) (d : DeferredManager E) (status : DispatchStatus)
      (trace : Option TransitionTrace)
      → AtRest d
      → Served event m d status (settle fsm event m d status trace)
  unfolding settle replayed Fate defer_event
  settle-Served event m d success trace h =
      let p =
        process_deferred_queue-Processed fsm.blank_event (redispatch fsm) fsm.deferred_capacity
          (d.queue.size + 1) m d (omega arith) h.vector h.idle in
      rw p.returns record {
        served = record {
          machine = p.machine;
          deferred = p.after;
          result = record { status = success; trace = trace };
        };
        returns = refl;
        at_rest = record { vector = p.valid; idle = p.idle };
        fate = (refl, p.replayed);
      }
  settle-Served event m d unhandled trace h =
      elim (Bool-cases
        (is_deferred_event fsm.deferred_events (fsm.current_state m) (fsm.event_type event))) [
          | inl defers ↦ rw defers record {
            served = _;
            returns = refl;
            at_rest = record {
              vector = push_back-Inv fsm.deferred_capacity d.queue event h.vector;
              idle = h.idle;
            };
            fate =
                rw defers (refl, contents-push_back fsm.deferred_capacity d.queue event h.vector);
          }
          | inr drops ↦
              rw drops
                record { served = _; returns = refl; at_rest = h; fate = rw drops (refl, refl) }
        ]
  settle-Served event m d guard_rejected trace h = record {
    served = _;
    returns = refl;
    at_rest = h;
    fate = (refl, refl);
  }
  settle-Served event m d deferred trace h = record {
    served = _;
    returns = refl;
    at_rest = h;
    fate = (refl, refl);
  }

  -- From deferred events at rest, dispatch returns, with the deferred events at rest. Where the event
  -- is taken, the deferred events are replayed in their order until the machine refuses all that are
  -- left. Where no row is for it and the current state defers it, it is reported as deferred, and put
  -- behind the deferred events if there is room; if there is none, it is lost. Else the deferred events
  -- stay as they are.
  pub dispatch-Served :
      (m : M) (d : DeferredManager E) (event : E)
      → AtRest d
      → Served event
          (dispatch_direct_ports fsm m event).0
          d
          (dispatch_direct_ports fsm m event).1.status
          (dispatch fsm m d event)
  unfolding dispatch
  dispatch-Served m d event h =
      settle-Served event (dispatch_direct_ports fsm m event).0 d
        (dispatch_direct_ports fsm m event).1.status (dispatch_direct_ports fsm m event).1.trace h

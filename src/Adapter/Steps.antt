-- ===== src/Adapter/Steps.antt =====
-- src/Adapter/AdapterEngine.cpp: the adapter's thread beside a consumer that pops events and a caller
-- that requests the stop, in any order.
use nqbook.Prelude.{Bool, true, List, [], ◌∷◌, ◌++◌, some, ◌≡◌, if◌then◌else◌}
use nqbook.Prelude.Int.{ℤ, eqb_ℤ}
use nqbook.Abi.{Mbo}
use nqbook.Nlib.SingleQueue.{SingleQueue}
use nqbook.Adapter.{
  Phase, running, polling, pushing, blocked, gave_up, finished, Adapters, AdapterEngine, next_event,
  thread_step,
}

module _ (A : Adapters) (Q : SingleQueue Mbo) where
  -- the engine, whether the stop is requested, the events that the adapter has returned, and those
  -- that the consumer has popped
  pub record World : Type 0 where
    pub engine : AdapterEngine A Q
    pub stop : Bool
    pub returned : List Mbo
    pub taken : List Mbo

  abbrev pub event_of : ℤ → Mbo → List Mbo
  event_of rc m = if eqb_ℤ rc next_event then m ∷ [] else []

  -- what the next step of the thread gets of the adapter
  unfoldable pub new_events : AdapterEngine A Q → Phase → List Mbo
  new_events e running = []
  new_events e polling = event_of (A.next e.adapter).0 (A.next e.adapter).1
  new_events e (pushing m stalled) = []
  new_events e (blocked m stalled) = []
  new_events e (gave_up m) = []
  new_events e finished = []

  abbrev pub advance_thread : World → World
  advance_thread w = record w {
    engine = thread_step A Q w.stop w.engine w.engine.phase;
    returned = w.returned ++ new_events w.engine w.engine.phase;
  }

  pub data Step : World → World → Type 0 where
    thread : (w : World) → Step w (advance_thread w)
    pop :
        (w : World) (m : Mbo) (q : Q.Queue)
        → Q.try_pop w.engine.queue ≡ some (m, q)
        → Step w (record w { engine = record w.engine { queue = q }; taken = w.taken ++ m ∷ [] })
    request_stop : (w : World) → Step w (record w { stop = true })

  pub data Reach (w : World) : World → Type 0 where
    here : Reach w w
    next : {v u : World} → Reach w v → Step v u → Reach w u

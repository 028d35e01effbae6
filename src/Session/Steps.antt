-- ===== src/Session/Steps.antt =====
-- src/Session.cpp: Run beside the thread of the adapter and a caller that asks for the stop, in any
-- order.
use nqbook.Prelude.{ℕ, true, some, ◌≡◌}
use nqbook.Abi.{Mbo}
use nqbook.Nlib.{Nlib}
use nqbook.Nlib.SingleQueue.{SingleQueue}
use nqbook.Feature.Double.{Double}
use nqbook.Feature.Instances.{Instances}
use nqbook.Feature.PipelineTable.{Setup}
use nqbook.Adapter.{Adapters}
use nqbook.Adapter.Steps.{advance_thread}
use nqbook.Session.{Session, session_round}

module _ {nlib : Nlib} {D : Double} (P : Instances nlib D) (A : Adapters) (Q : SingleQueue Mbo)
    (c : Setup P) (batch : ℕ) where
  pub data SessionStep : Session P A Q → Session P A Q → Type 0 where
    adapter_acts :
        (s : Session P A Q) → SessionStep s (record s { world = advance_thread A Q s.world })
    run_acts :
        (s s' : Session P A Q) → session_round P A Q c batch s s.phase ≡ some s' → SessionStep s s'
    ask_stop : (s : Session P A Q) → SessionStep s (record s { stop = true })

  pub data SessionReach (s : Session P A Q) : Session P A Q → Type 0 where
    at_start : SessionReach s s
    later : {v u : Session P A Q} → SessionReach s v → SessionStep v u → SessionReach s u

-- ===== src/Session.antt =====
-- include/Session.h and src/Session.cpp: the thread of Session::Run, which takes the adapter's events
-- to the table until the adapter has ended or the run is interrupted. A step reads or writes one
-- thing that the adapter's thread or the caller sees; Apply stands with the try_pop before it, since
-- it reads of them only the instrument of its event, which does not change any more. The writer is
-- left out.
pub mod Steps
pub mod InStep
pub mod Rounds
pub mod Complete
pub mod Ending
use nqbook.Prelude.{
  ℕ, zero, suc, ◌+◌, ◌%◌, ◌^◌, Bool, true, false, ◌||◌, List, [], ◌∷◌, ◌++◌, Option, none, some,
  ◌>>=◌, ltb, if◌then◌else◌,
}
use nqbook.Prelude.Int.{ℤ, pos}
use nqbook.Abi.{Mbo}
use nqbook.Nlib.{Nlib}
use nqbook.Nlib.SingleQueue.{SingleQueue}
use nqbook.Feature.Double.{Double}
use nqbook.Feature.Instances.{Instances}
use nqbook.Feature.PipelineTable.{Table, Setup, new_table, table_apply, table_close}
use nqbook.Adapter.{
  Phase, running, polling, pushing, blocked, gave_up, finished, Adapters, AdapterEngine,
  find_instrument,
}
use nqbook.Adapter.Steps.{World}
use nqbook.Adapter.Order.{start}

-- where Run stands: in Consume behind `n` events, behind a Consume of `n` events, before the tests of
-- Ended, of the queue and of the stop, before the request to stop, in the join, in the last Consume
-- behind `n` events, before Close, and behind it
pub data RunPhase : Type 0 where
  consuming : ℕ → RunPhase
  consumed : ℕ → RunPhase
  checking_end checking_empty checking_stop : RunPhase
  stopping joining : RunPhase
  draining : ℕ → RunPhase
  closing done : RunPhase

-- The adapter's thread has returned.
unfoldable pub has_returned : Phase → Bool
has_returned running = false
has_returned polling = false
has_returned (pushing m stalled) = false
has_returned (blocked m stalled) = false
has_returned (gave_up m) = true
has_returned finished = true

module _ {nlib : Nlib} {D : Double} (P : Instances nlib D) (A : Adapters)
    (Q : SingleQueue Mbo) where
  -- Session, with what Run keeps of its result; `stop` is the flag of the caller, and the world that
  -- of the adapter, with its stop token
  pub record Session : Type 0 where
    pub world : World A Q
    pub table : Table P
    pub stop : Bool
    pub phase : RunPhase
    pub total : ℕ
    pub interrupted : Bool
    pub status : ℤ

  -- Session::Session and the beginning of Run
  unfoldable pub new_session : A.Instance → ℕ → ℕ → Session
  new_session a queue_capacity slots = record {
    world = start A Q a queue_capacity;
    table = new_table P slots;
    stop = false;
    phase = consuming 0;
    total = 0;
    interrupted = false;
    status = pos 0;
  }

  -- the table asks the adapter for instruments
  unfoldable pub setup_of : Setup P → AdapterEngine A Q → Setup P
  setup_of c e = record c { resolver = find_instrument A Q e }

  -- the world behind the try_pop of `m`
  abbrev pub popped_world : World A Q → Mbo → Q.Queue → World A Q
  popped_world w m q = record w {
    engine = record w.engine { queue = q };
    taken = w.taken ++ m ∷ [];
  }

  -- the body of the loop of PipelineTable::Consume behind `n` events, on what try_pop returns; it
  -- goes on in the phase `more`, and `after` is where Run stands behind Consume
  unfoldable pub consume_round :
      Setup P → Session → ℕ → RunPhase → RunPhase → Option (Mbo × Q.Queue) → Option Session
  consume_round c s n more after none =
      some (record s { total = (s.total + n) % 2 ^ 64; phase = after })
  consume_round c s n more after (some (m, q)) = do
    (filled, t) ← table_apply P (setup_of c s.world.engine) s.table m
    some (record s { world = popped_world s.world m q; table = t; phase = more })

  unfoldable pub interrupt : Session → Session
  interrupt s = record s { interrupted = true; phase = stopping }

  -- a step of Run; `none` is an access out of range in the table
  unfoldable pub session_round : Setup P → ℕ → Session → RunPhase → Option Session
  session_round c batch s (consuming n) =
      if ltb n batch
      then consume_round c s n (consuming (suc n)) (consumed n) (Q.try_pop s.world.engine.queue)
      else some (record s { total = (s.total + n) % 2 ^ 64; phase = consumed n })
  session_round c batch s (consumed zero) = some (record s { phase = checking_end })
  session_round c batch s (consumed (suc n)) =
      some (if s.stop then interrupt s else record s { phase = consuming 0 })
  session_round c batch s checking_end =
      some (record s { phase = if s.world.engine.ended then checking_empty else checking_stop })
  session_round c batch s checking_empty =
      some
        (record s { phase = if Q.is_empty s.world.engine.queue then stopping else checking_stop })
  session_round c batch s checking_stop =
      some (if s.stop then interrupt s else record s { phase = consuming 0 })
  session_round c batch s stopping =
      some (record s { world = record s.world { stop = true }; phase = joining })
  session_round c batch s joining = some (
      if has_returned s.world.engine.phase
      then record s { phase = if s.interrupted then closing else draining 0 }
      else s)
  session_round c batch s (draining n) =
      consume_round c s n (draining (suc n)) closing (Q.try_pop s.world.engine.queue)
  session_round c batch s closing = do
    t ← table_close P s.table
    some (record s {
      table = t;
      status = if s.world.engine.ended then s.world.engine.status else pos 0;
      phase = done;
    })
  session_round c batch s done = some s

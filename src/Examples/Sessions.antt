-- ===== src/Examples/Sessions.antt =====
-- The theorems on Session::Run, in a run of one order: the adapter gives it and ends, and Run takes it
-- to the table in batches of eight.
use nqbook.Prelude.{ℕ, zero, suc, ◌%◌, ◌^◌, ◌≡◌, refl, true, List, [], some, arith, length}
use nqbook.Prelude.Int.{pos}
use nqbook.Abi.{Mbo, bid, add}
use nqbook.Orderbook.Entries.{Entry}
use nqbook.Orderbook.Book.{inc64}
use nqbook.Orderbook.Priority.{react}
use nqbook.Feature.PipelineTable.{Table, Setup, new_table, table_apply, table_close}
use nqbook.Feature.Resolving.{columns}
use nqbook.Feature.TableApply.{route, table_apply-TableOk}
use nqbook.Feature.TableRun.{TableOk}
use nqbook.Feature.TableFeed.{new_table-TableOk, table_close-TableOk}
use nqbook.Adapter.{thread_step, run_round, push_round, discover, seen_before, new_adapter_engine}
use nqbook.Adapter.Steps.{new_events, advance_thread}
use nqbook.Session.{
  consuming, consumed, checking_end, checking_empty, stopping, joining, draining, closing, done,
  has_returned, Session, new_session, session_round, consume_round, setup_of, popped_world,
}
use nqbook.Session.Steps.{SessionReach, at_start, later, adapter_acts, run_acts}
use nqbook.Session.InStep.{Small, books_of}
use nqbook.Session.Complete.{done_complete, session_round-returns}
use nqbook.Session.Ending.{rounds, rounds-done}
use nqbook.Examples.Books.{event}
use nqbook.Examples.Pipelines.{counter}
use nqbook.Examples.Tables.{setup, checked}
use nqbook.Examples.AdapterThreads.{adapters, queue}

abbrev Run : Type 0
Run = Session counter adapters queue

abbrev begun : Run
begun = new_session counter adapters queue 1 4 1

abbrev Reached : Run → Type 0
Reached s = SessionReach counter adapters queue setup 8 begun s

small : Small adapters queue
small zero event = cc
small (suc n) event = omega arith

-- the adapter's thread acts
abbrev fed : Run → Run
fed s = record s { world = advance_thread adapters queue s.world }

-- the order is in the queue
abbrev queued : Run
queued = fed (fed (fed begun))

queued-Reached : Reached queued
queued-Reached =
    later (later (later at_start (adapter_acts begun)) (adapter_acts (fed begun)))
      (adapter_acts (fed (fed begun)))

abbrev order : Mbo
order = event add 1 bid 100 10

abbrev nothing : ℕ → List Entry
nothing i = []

session_round-returns_example :
    (s' : Run) × (session_round counter adapters queue setup 8 queued queued.phase ≡ some s')
session_round-returns_example =
    session_round-returns counter adapters queue setup 8 1 4 1 checked small queued-Reached

-- the setup of the table in that session
abbrev setup_there : Setup counter
setup_there = setup_of counter adapters queue setup queued.world.engine

applied :
    (t : Table counter) × (table_apply counter setup_there (new_table counter 1) order
      ≡ some ((react (nothing order.instrument) order).0, t))
    × TableOk counter (columns counter setup_there) t (route nothing order)
    × (t.stats.events ≡ inc64 (new_table counter 1).stats.events)
    × (t.stats.last_ts ≡ order.ts)
unfolding setup_of
applied =
    table_apply-TableOk counter setup_there (new_table counter 1) nothing order checked
      (omega arith) (new_table-TableOk counter setup_there 1)

-- the order is in the table
abbrev taken : Run
taken = record queued {
  world = popped_world counter adapters queue queued.world order (record { bound = 4; held = [] });
  table = applied.0;
  phase = consuming 1;
}

taken-Reached : Reached taken
unfolding applied new_session new_adapter_engine thread_step run_round push_round discover
    seen_before new_events session_round consume_round
taken-Reached = later queued-Reached (run_acts queued taken (rw applied.1 refl))

-- the adapter has ended
abbrev ended : Run
ended = fed (fed taken)

ended-Reached : Reached ended
ended-Reached = later (later taken-Reached (adapter_acts taken)) (adapter_acts (fed taken))

rounds-done_example :
    (n : ℕ) × (s' : Run) × (rounds counter adapters queue setup 8 n ended ≡ some s')
    × (s'.phase ≡ done)
unfolding new_session new_adapter_engine thread_step run_round push_round discover seen_before
rounds-done_example =
    rounds-done counter adapters queue setup 8 1 4 1 (omega arith) checked small ended-Reached refl

-- Run leaves its loop
abbrev left : Run
left = record ended { total = 1; phase = stopping }

left-Reached : Reached left
unfolding new_session new_adapter_engine thread_step run_round push_round discover seen_before
    session_round consume_round
left-Reached =
    let emptied : Run = record ended { total = 1; phase = consumed 1 } in
    let again : Run = record emptied { phase = consuming 0 } in
    let idle : Run = record emptied { phase = consumed 0 } in
    let asking : Run = record emptied { phase = checking_end } in
    let empty : Run = record emptied { phase = checking_empty } in
    later
      (later
        (later
          (later
            (later (later ended-Reached (run_acts ended emptied refl))
              (run_acts emptied again refl))
            (run_acts again idle refl))
          (run_acts idle asking refl))
        (run_acts asking empty refl))
      (run_acts empty left refl)

closed :
    (t : Table counter) × (table_close counter applied.0 ≡ some t)
    × TableOk counter (columns counter setup) t (route nothing order)
unfolding setup_of
closed = table_close-TableOk counter setup applied.0 (route nothing order) applied.2

-- the end of Run
abbrev over : Run
over = record left {
  world = record left.world { stop = true };
  table = closed.0;
  status = pos 0;
  phase = done;
}

over-Reached : Reached over
unfolding new_session new_adapter_engine thread_step run_round push_round discover seen_before
    session_round consume_round has_returned
over-Reached =
    let stopped : Run = record left {
      world = record left.world { stop = true };
      phase = joining;
    } in
    let emptying : Run = record stopped { phase = draining 0 } in
    let all : Run = record stopped { phase = closing } in
    later
      (later
        (later (later left-Reached (run_acts left stopped refl)) (run_acts stopped emptying refl))
        (run_acts emptying all refl))
      (run_acts all over (rw closed.1 refl))

done_complete_example :
    (over.world.engine.ended ≡ true)
    × (over.world.taken ≡ over.world.returned)
    × TableOk counter (columns counter setup) over.table (books_of over.world.returned)
    × (over.total % 2 ^ 64 ≡ length over.world.returned % 2 ^ 64)
unfolding new_session
done_complete_example =
    done_complete counter adapters queue setup 8 1 4 1 checked small over-Reached refl refl

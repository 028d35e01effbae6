-- ===== src/Writer.antt =====
-- include/Writer/WriterEngine.h and src/Writer/WriterEngine.cpp: the queue between the samplers and
-- the file, with the thread that writes. The main thread pushes rows and finishes. A step of a thread
-- reads or writes one thing that the other sees: the queue, or the flags. The queue and the writer
-- are interfaces.
pub mod Steps
pub mod Delivery
pub mod Rounds
pub mod Finishing
pub mod Losing
use nqbook.Prelude.{
  ℕ, suc, Bool, true, false, ◌||◌, List, [], ◌∷◌, Option, none, some, if◌then◌else◌,
}
use nqbook.Prelude.Outcome.{Result, ok, err}
use nqbook.Prelude.Text.{Text, is_nil}
use nqbook.Nlib.SingleQueue.{SingleQueue}
use nqbook.Orderbook.Book.{inc64}
use nqbook.Feature.Instances.{Instrument}

-- what WriterEngine calls of ParquetWriter: an operation may throw, with a message, and leaves the
-- writer as the second component has it
pub record RowWriter (Row : Type 0) : Type 1 where
  pub Writer : Type 0
  pub write : Writer → Row → Result Text (Unit {0}) × Writer
  pub write_instruments : Writer → List Instrument → Result Text (Unit {0}) × Writer
  pub close : Writer → Result Text (Unit {0}) × Writer

-- the main thread: outside, in Push with what `stalled` is, before try_push or behind one that
-- failed, in the join of Finish, behind Finish, or in the destructor
pub data MainPhase (Row : Type 0) : Type 0 where
  ready : MainPhase Row
  pushing : Row → Bool → MainPhase Row
  blocked : Row → Bool → MainPhase Row
  joining : MainPhase Row
  closed : MainPhase Row
  gone : MainPhase Row

-- the writing thread: before try_pop, behind one that found no row, or returned
pub data ThreadPhase : Type 0 where
  popping idle returned : ThreadPhase

module _ {Row : Type 0} (Q : SingleQueue Row) (W : RowWriter Row) where
  pub record WriterEngine : Type 0 where
    pub writer : W.Writer
    pub queue : Q.Queue
    pub draining : Bool
    pub failed : Bool
    pub abort : Bool
    pub stop : Bool
    pub pushed : ℕ
    pub written : ℕ
    pub stalls : ℕ
    pub error : Text
    pub main : MainPhase Row
    pub thread : ThreadPhase

  -- WriterEngine::WriterEngine and Start
  unfoldable pub new_writer_engine : W.Writer → ℕ → WriterEngine
  new_writer_engine w queue_capacity = record {
    writer = w;
    queue = Q.make queue_capacity;
    draining = false;
    failed = false;
    abort = false;
    stop = false;
    pushed = 0;
    written = 0;
    stalls = 0;
    error = [];
    main = ready;
    thread = popping;
  }

  -- the try_push of Push
  unfoldable pub push_round : WriterEngine → Row → Bool → Option Q.Queue → WriterEngine
  push_round e row stalled (some q) = record e { queue = q; pushed = inc64 e.pushed; main = ready }
  push_round e row stalled none = record e { main = blocked row stalled }

  -- the body of the loop of Push
  unfoldable pub blocked_round : WriterEngine → Row → Bool → WriterEngine
  blocked_round e row stalled =
      if e.abort || e.failed then record e { main = ready } else record e {
        stalls = if stalled then e.stalls else inc64 e.stalls;
        main = pushing row true;
      }

  -- Abort
  unfoldable pub abort_writer : WriterEngine → WriterEngine
  abort_writer e = record e { abort = true }

  -- Fail
  unfoldable pub fail : WriterEngine → Text → WriterEngine
  fail e message = record e { error = if is_nil e.error then message else e.error; failed = true }

  -- the `try` of Run
  unfoldable pub store_result : WriterEngine → Result Text (Unit {0}) × W.Writer → WriterEngine
  store_result e (ok u, w) = record e { writer = w; written = inc64 e.written }
  store_result e (err message, w) = fail (record e { writer = w }) message

  -- the loop of Run up to the `continue`, on what try_pop returns
  unfoldable pub run_round : WriterEngine → Option (Row × Q.Queue) → WriterEngine
  run_round e (some (row, q)) =
      if e.failed
      then record e { queue = q }
      else store_result (record e { queue = q }) (W.write e.writer row)
  run_round e none = record e { thread = idle }

  -- the rest of the loop of Run, where there was no row
  unfoldable pub idle_round : WriterEngine → WriterEngine
  idle_round e = record e { thread = if e.draining || e.stop then returned else popping }

  -- Finish, up to the join
  unfoldable pub start_finish : WriterEngine → WriterEngine
  start_finish e = record e { draining = true; main = joining }

  -- the `try` of Finish
  unfoldable pub close_result : WriterEngine → Result Text (Unit {0}) × W.Writer → WriterEngine
  close_result e (ok u, w) = record e { writer = w }
  close_result e (err message, w) = fail (record e { writer = w }) message

  unfoldable pub instruments_result :
      WriterEngine → Result Text (Unit {0}) × W.Writer → WriterEngine
  instruments_result e (ok u, w) = close_result e (W.close w)
  instruments_result e (err message, w) = fail (record e { writer = w }) message

  -- Finish, behind the join
  unfoldable pub end_finish : WriterEngine → List Instrument → WriterEngine
  end_finish e instruments =
      let out = instruments_result e (W.write_instruments e.writer instruments) in
      record (if e.failed then e else out) { main = closed }

  -- the destructor, up to its join
  unfoldable pub destroy_writer : WriterEngine → WriterEngine
  destroy_writer e = record (abort_writer e) { stop = true; main = gone }

-- ===== src/Writer/Steps.antt =====
-- src/Writer/WriterEngine.cpp: the main thread and the writing thread, in any order.
use nqbook.Prelude.{Bool, false, List, [], ◌∷◌, ◌++◌, Option, none, some, ◌≡◌, ◌⊎◌, if◌then◌else◌}
use nqbook.Prelude.Outcome.{Result, ok, err}
use nqbook.Prelude.Text.{Text}
use nqbook.Nlib.SingleQueue.{SingleQueue}
use nqbook.Feature.Instances.{Instrument}
use nqbook.Writer.{
  RowWriter, ready, pushing, blocked, joining, closed, popping, idle, returned, WriterEngine,
  push_round, blocked_round, abort_writer, run_round, idle_round, start_finish, end_finish,
  destroy_writer,
}

module _ {Row : Type 0} (Q : SingleQueue Row) (W : RowWriter Row) where
  -- the engine, the rows that Push has queued, those popped, those that Write has taken, and those
  -- that had been queued when the thread last found the queue empty
  pub record World : Type 0 where
    pub engine : WriterEngine Q W
    pub accepted : List Row
    pub popped : List Row
    pub stored : List Row
    pub polled : List Row

  abbrev pub one_if : Option Q.Queue → Row → List Row
  one_if none row = []
  one_if (some q) row = row ∷ []

  abbrev pub row_of : Option (Row × Q.Queue) → List Row
  row_of none = []
  row_of (some (row, q)) = row ∷ []

  abbrev pub taken_by : Result Text (Unit {0}) → Row → List Row
  taken_by (ok u) row = row ∷ []
  taken_by (err message) row = []

  abbrev pub stored_of : WriterEngine Q W → Option (Row × Q.Queue) → List Row
  stored_of e none = []
  stored_of e (some (row, q)) = if e.failed then [] else taken_by (W.write e.writer row).0 row

  abbrev pub polled_of : World → Option (Row × Q.Queue) → List Row
  polled_of w none = w.accepted
  polled_of w (some (row, q)) = w.polled

  pub data Step : World → World → Type 0 where
    begin_push :
        (w : World) (row : Row)
        → w.engine.main ≡ ready
        → Step w (record w { engine = record w.engine { main = pushing row false } })
    push :
        (w : World) (row : Row) (stalled : Bool)
        → w.engine.main ≡ pushing row stalled
        → Step w (record w {
          engine = push_round Q W w.engine row stalled (Q.try_push w.engine.queue row);
          accepted = w.accepted ++ one_if (Q.try_push w.engine.queue row) row;
        })
    wait :
        (w : World) (row : Row) (stalled : Bool)
        → w.engine.main ≡ blocked row stalled
        → Step w (record w { engine = blocked_round Q W w.engine row stalled })
    write :
        (w : World)
        → w.engine.thread ≡ popping
        → Step w (record w {
          engine = run_round Q W w.engine (Q.try_pop w.engine.queue);
          popped = w.popped ++ row_of (Q.try_pop w.engine.queue);
          stored = w.stored ++ stored_of w.engine (Q.try_pop w.engine.queue);
          polled = polled_of w (Q.try_pop w.engine.queue);
        })
    look_again :
        (w : World)
        → w.engine.thread ≡ idle
        → Step w (record w { engine = idle_round Q W w.engine })
    give_up : (w : World) → Step w (record w { engine = abort_writer Q W w.engine })
    begin_finish :
        (w : World)
        → w.engine.main ≡ ready
        → Step w (record w { engine = start_finish Q W w.engine })
    finish :
        (w : World) (instruments : List Instrument)
        → w.engine.main ≡ joining
        → w.engine.thread ≡ returned
        → Step w (record w { engine = end_finish Q W w.engine instruments })
    destroy :
        (w : World)
        → (w.engine.main ≡ ready) ⊎ (w.engine.main ≡ closed)
        → Step w (record w { engine = destroy_writer Q W w.engine })

  pub data Reach (w : World) : World → Type 0 where
    here : Reach w w
    next : {v u : World} → Reach w v → Step v u → Reach w u

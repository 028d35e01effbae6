-- ===== src/Examples/WriterThreads.antt =====
-- The theorems on the thread of the writer, at a writer that keeps the rows.
use nqbook.Prelude.{ℕ, ◌≡◌, refl, true, false, List, [], ◌∷◌, ◌++◌}
use nqbook.Prelude.Outcome.{ok}
use nqbook.Nlib.SingleQueue.{SingleQueue}
use nqbook.Orderbook.Book.{inc64}
use nqbook.Writer.{
  RowWriter, ready, pushing, joining, closed, idle, returned, new_writer_engine, push_round,
  run_round, idle_round, store_result, start_finish, end_finish, instruments_result, close_result,
}
use nqbook.Writer.Steps.{
  World, Reach, begin_push, push, write, look_again, begin_finish, finish, here, next,
}
use nqbook.Writer.Delivery.{Delivers}
use nqbook.Writer.Finishing.{start, Reach-Delivers, closed-stored}
use nqbook.Writer.Losing.{end_finish_loses}
use nqbook.Examples.Threads.{bounded}

abbrev keeper : RowWriter ℕ
keeper = record {
  Writer = List ℕ;
  write = λ rows row. (ok tt, rows ++ row ∷ []);
  write_instruments = λ rows instruments. (ok tt, rows);
  close = λ rows. (ok tt, rows);
}

abbrev queue : SingleQueue ℕ
queue = bounded ℕ

abbrev begun : World queue keeper
begun = start queue keeper [] 4

-- a run that pushes one row, writes it and finishes
abbrev asked : World queue keeper
asked = record begun { engine = record begun.engine { main = pushing 7 false } }

abbrev pushed : World queue keeper
pushed = record begun {
  engine = record begun.engine {
    queue = record { bound = 4; held = 7 ∷ [] };
    pushed = 1;
    main = ready;
  };
  accepted = 7 ∷ [];
}

abbrev written : World queue keeper
written = record pushed {
  engine = record begun.engine { writer = 7 ∷ []; pushed = 1; written = 1 };
  popped = 7 ∷ [];
  stored = 7 ∷ [];
}

abbrev found : World queue keeper
found = record written { engine = record written.engine { thread = idle }; polled = 7 ∷ [] }

abbrev draining : World queue keeper
draining = record found { engine = record found.engine { draining = true; main = joining } }

abbrev joined : World queue keeper
joined = record draining { engine = record draining.engine { thread = returned } }

abbrev finished : World queue keeper
finished = record joined { engine = record joined.engine { main = closed } }

written_reached : Reach queue keeper begun written
unfolding new_writer_engine push_round inc64 run_round store_result
written_reached =
    next (next (next here (begin_push begun 7 refl)) (push asked 7 false refl)) (write pushed refl)

finished_reached : Reach queue keeper begun finished
unfolding new_writer_engine run_round idle_round start_finish end_finish instruments_result
    close_result
finished_reached =
    next
      (next (next (next written_reached (write written refl)) (begin_finish found refl))
        (look_again draining refl))
      (finish joined [] refl refl)

Reach-Delivers_example : Delivers queue keeper written
Reach-Delivers_example = Reach-Delivers queue keeper [] 4 written_reached

closed-stored_example :
    (finished.stored ≡ finished.polled)
    × (finished.stored ++ finished.engine.queue.held ≡ finished.accepted)
unfolding new_writer_engine
closed-stored_example = closed-stored queue keeper [] 4 finished_reached refl refl

end_finish_loses_example :
    (w : World queue keeper) × Reach queue keeper begun w
    × (w.engine.main ≡ closed)
    × (w.engine.failed ≡ false)
    × (w.accepted ≡ 7 ∷ [])
    × (w.stored ≡ [])
end_finish_loses_example =
    end_finish_loses queue keeper [] 4 7 (record { bound = 4; held = 7 ∷ [] }) refl refl refl

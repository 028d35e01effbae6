-- ===== src/Writer/Losing.antt =====
-- src/Writer/WriterEngine.cpp: the test of `draining_` in Run comes behind a try_pop that found no
-- row, and a row can be pushed between the two.
use nqbook.Prelude.{
  ◌≡◌, refl, Bool, false, [], ◌∷◌, ◌++◌, Option, none, some, subst, Option-cases, inl, inr, ℕ,
}
use nqbook.Prelude.Outcome.{Result, ok, err}
use nqbook.Prelude.Text.{Text}
use nqbook.Nlib.SingleQueue.{SingleQueue}
use nqbook.Writer.{
  RowWriter, pushing, closed, popping, idle, WriterEngine, new_writer_engine, push_round, run_round,
  idle_round, start_finish, close_result, instruments_result, end_finish,
}
use nqbook.Writer.Steps.{
  World, one_if, row_of, stored_of, polled_of, Step, begin_push, push, write, look_again,
  begin_finish, finish, Reach, here, next,
}
use nqbook.Writer.Finishing.{start}

module _ {Row : Type 0} (Q : SingleQueue Row) (W : RowWriter Row) where
  make_empty : (capacity : ℕ) → Q.try_pop (Q.make capacity) ≡ none
  make_empty capacity = elim (Option-cases (Q.try_pop (Q.make capacity))) [
    | inl empty ↦ empty
    | inr (p, found) ↦
        absurd (cc (Q.items-make capacity, Q.items-try_pop (Q.make capacity) p.1 p.0 found))
  ]

  find_none :
      (w : World Q W)
      → w.engine.thread ≡ popping
      → Q.try_pop w.engine.queue ≡ none
      → Step Q W w (record w {
        engine = record w.engine { thread = idle };
        popped = w.popped ++ [];
        stored = w.stored ++ [];
        polled = w.accepted;
      })
  unfolding run_round
  find_none w at empty =
      subst
        (λ (o : Option (Row × Q.Queue)). Step Q W w (record w {
          engine = run_round Q W w.engine o;
          popped = w.popped ++ row_of Q W o;
          stored = w.stored ++ stored_of Q W w.engine o;
          polled = polled_of Q W w o;
        }))
        empty (write w at)

  push_fits :
      (w : World Q W) (row : Row) (stalled : Bool) (q : Q.Queue)
      → w.engine.main ≡ pushing row stalled
      → Q.try_push w.engine.queue row ≡ some q
      → Step Q W w (record w {
        engine = push_round Q W w.engine row stalled (some q);
        accepted = w.accepted ++ row ∷ [];
      })
  push_fits w row stalled q at fits =
      subst
        (λ (o : Option Q.Queue). Step Q W w (record w {
          engine = push_round Q W w.engine row stalled o;
          accepted = w.accepted ++ one_if Q W o row;
        }))
        fits (push w row stalled at)

  close_result-failed :
      (e : WriterEngine Q W) (r : Result Text (Unit {0}) × W.Writer)
      → r.0 ≡ ok tt
      → (close_result Q W e r).failed ≡ e.failed
  unfolding close_result
  close_result-failed e (ok u, w) h = refl
  close_result-failed e (err message, w) h = cc

  instruments_result-failed :
      (e : WriterEngine Q W) (r : Result Text (Unit {0}) × W.Writer)
      → r.0 ≡ ok tt
      → (W.close r.1).0 ≡ ok tt
      → (instruments_result Q W e r).failed ≡ e.failed
  unfolding instruments_result
  instruments_result-failed e (ok u, w) h closes = close_result-failed e (W.close w) closes
  instruments_result-failed e (err message, w) h closes = cc

  -- Whatever the queue and the writer, where the writer closes and the queue takes a row: a row can
  -- be pushed and Finish be called so that Finish returns, no error is kept, and the row is not
  -- written.
  pub end_finish_loses :
      (v : W.Writer) (capacity : ℕ) (row : Row) (q : Q.Queue)
      → Q.try_push (Q.make capacity) row ≡ some q
      → (W.write_instruments v []).0 ≡ ok tt
      → (W.close (W.write_instruments v []).1).0 ≡ ok tt
      → (w : World Q W) × Reach Q W (start Q W v capacity) w
        × (w.engine.main ≡ closed)
        × (w.engine.failed ≡ false)
        × (w.accepted ≡ row ∷ [])
        × (w.stored ≡ [])
  unfolding new_writer_engine push_round start_finish idle_round end_finish
  end_finish_loses v capacity row q fits lists closes =
      let begun : World Q W = start Q W v capacity in
      let found : World Q W = record begun { engine = record begun.engine { thread = idle } } in
      let asked : World Q W = record found {
        engine = record found.engine { main = pushing row false };
      } in
      let pushed : World Q W = record asked {
        engine = push_round Q W asked.engine row false (some q);
        accepted = row ∷ [];
      } in
      let draining : World Q W = record pushed { engine = start_finish Q W pushed.engine } in
      let joined : World Q W = record draining { engine = idle_round Q W draining.engine } in
      (
        record joined { engine = end_finish Q W joined.engine [] },
        next
            (next
              (next
                (next
                  (next (next here (find_none begun refl (make_empty capacity)))
                    (begin_push found row refl))
                  (push_fits asked row false q refl fits))
                (begin_finish pushed refl))
              (look_again draining refl))
            (finish joined [] refl refl),
        refl,
        instruments_result-failed joined.engine (W.write_instruments v []) lists closes,
        refl,
        refl,
      )

-- ===== src/Writer/Finishing.antt =====
-- src/Writer/WriterEngine.cpp: what Finish and the other steps keep.

use nqbook.Prelude.{
  ℕ, ◌≡◌, refl, sym, ap, subst, ◌∙◌, Bool, true, false, List, [], ◌++◌, if◌then◌else◌, arith,
  Bool-cases, inl, inr,
}
use nqbook.Prelude.Outcome.{Result, ok, err}
use nqbook.Prelude.Text.{Text, is_nil}
use nqbook.Nlib.SingleQueue.{SingleQueue}
use nqbook.Feature.Instances.{Instrument}
use nqbook.Writer.{
  RowWriter, pushing, joining, closed, gone, returned, new_writer_engine, abort_writer, fail,
  start_finish, close_result, instruments_result, end_finish, destroy_writer,
}
use nqbook.Writer.Steps.{
  World, Step, begin_push, push, wait, write, look_again, give_up, begin_finish, finish, destroy,
  Reach, here, next,
}
use nqbook.Writer.Delivery.{Drained, Delivers, push-Delivers, main-Delivers, blocked-Delivers}
use nqbook.Writer.Rounds.{write-Delivers, idle-Delivers}

module _ {Row : Type 0} (Q : SingleQueue Row) (W : RowWriter Row) where
  -- an engine that differs in what a closing writer leaves
  closing-Delivers :
      (w : World Q W) (v : W.Writer) (failed : Bool) (message : Text)
      → (failed ≡ false → w.engine.failed ≡ false)
      → w.engine.thread ≡ returned
      → Delivers Q W w
      → Delivers Q W (record w {
        engine = record w.engine { writer = v; failed = failed; error = message; main = closed };
      })
  closing-Delivers w v failed message healthy over k = record {
    queued = k.queued;
    pushed_count = k.pushed_count;
    written_count = k.written_count;
    all_stored = λ h. k.all_stored (healthy h);
    stored_first = k.stored_first;
    drained = k.drained;
    closed_returned = λ h. over;
  }

  close_result-Delivers :
      (w : World Q W) (v : W.Writer) (r : Result Text (Unit {0}) × W.Writer)
      → w.engine.thread ≡ returned
      → Delivers Q W w
      → Delivers Q W (record w {
        engine = record (close_result Q W (record w.engine { writer = v }) r) { main = closed };
      })
  unfolding close_result fail
  close_result-Delivers w v (ok u, x) over k =
      closing-Delivers w x w.engine.failed w.engine.error (λ h. h) over k
  close_result-Delivers w v (err message, x) over k =
      closing-Delivers w x true (if is_nil w.engine.error then message else w.engine.error)
        (λ h. cc) over k

  instruments_result-Delivers :
      (w : World Q W) (r : Result Text (Unit {0}) × W.Writer)
      → w.engine.thread ≡ returned
      → Delivers Q W w
      → Delivers Q W
          (record w { engine = record (instruments_result Q W w.engine r) { main = closed } })
  unfolding instruments_result fail
  instruments_result-Delivers w (ok u, v) over k =
      close_result-Delivers w w.engine.writer (W.close v) over k
  instruments_result-Delivers w (err message, v) over k =
      closing-Delivers w v true (if is_nil w.engine.error then message else w.engine.error)
        (λ h. cc) over k

  finish-Delivers :
      (w : World Q W) (instruments : List Instrument)
      → w.engine.thread ≡ returned
      → Delivers Q W w
      → Delivers Q W (record w { engine = end_finish Q W w.engine instruments })
  unfolding end_finish
  finish-Delivers w instruments over k = elim (Bool-cases w.engine.failed) [
    | inl broken ↦
        rw broken (closing-Delivers w w.engine.writer true w.engine.error (λ h. cc) over k)
    | inr healthy ↦
        simp healthy
          (instruments_result-Delivers w (W.write_instruments w.engine.writer instruments) over k)
  ]

  Step-Delivers : {w v : World Q W} → Step Q W w v → Delivers Q W w → Delivers Q W v
  Step-Delivers (begin_push w row at) k =
      let e = w.engine in
      main-Delivers Q W w (pushing row false) e.stalls e.draining e.abort e.stop (λ h. cc) k
  Step-Delivers (push w row stalled at) k =
      push-Delivers Q W w row stalled (Q.try_push w.engine.queue row) refl k
  Step-Delivers (wait w row stalled at) k = blocked-Delivers Q W w row stalled k
  Step-Delivers (write w working) k = write-Delivers Q W w (Q.try_pop w.engine.queue) refl working k
  Step-Delivers (look_again w at) k = idle-Delivers Q W w at k
  Step-Delivers (give_up w) k =
      unfold abort_writer in
      let e = w.engine in
      main-Delivers Q W w e.main e.stalls e.draining true e.stop k.closed_returned k
  Step-Delivers (begin_finish w at) k =
      unfold start_finish in
      let e = w.engine in main-Delivers Q W w joining e.stalls true e.abort e.stop (λ h. cc) k
  Step-Delivers (finish w instruments at over) k = finish-Delivers w instruments over k
  Step-Delivers (destroy w at) k =
      unfold destroy_writer abort_writer in
      let e = w.engine in main-Delivers Q W w gone e.stalls e.draining true true (λ h. cc) k

  abbrev pub start : W.Writer → ℕ → World Q W
  start v capacity = record {
    engine = new_writer_engine Q W v capacity;
    accepted = [];
    popped = [];
    stored = [];
    polled = [];
  }

  start-Delivers : (v : W.Writer) (capacity : ℕ) → Delivers Q W (start v capacity)
  unfolding new_writer_engine
  start-Delivers v capacity = record {
    queued = Q.items-make capacity;
    pushed_count = omega arith;
    written_count = omega arith;
    all_stored = λ h. refl;
    stored_first = ([], refl);
    drained = λ h. absurd h;
    closed_returned = λ h. cc;
  }

  -- Whatever the scheduler and the callers do, the rows that are popped and queued are in order those
  -- that Push has queued, those that the writer has taken are the first of those popped, and all of
  -- them unless it has failed. The counters count them. A thread that found the queue empty, and has
  -- not tried again or has returned, has popped what had been queued by then.
  pub Reach-Delivers :
      (v : W.Writer) (capacity : ℕ) {w : World Q W}
      → Reach Q W (start v capacity) w
      → Delivers Q W w
  Reach-Delivers v capacity here = start-Delivers v capacity
  Reach-Delivers v capacity (next r s) = Step-Delivers s (Reach-Delivers v capacity r)

  -- Behind Finish, unless the writer has failed, it has taken exactly the rows that had been queued
  -- when the writing thread last found the queue empty, in order, and the rows that Push has queued
  -- are these and those that are still in the queue.
  pub closed-stored :
      (v : W.Writer) (capacity : ℕ) {w : World Q W}
      → Reach Q W (start v capacity) w
      → w.engine.main ≡ closed
      → w.engine.failed ≡ false
      → (w.stored ≡ w.polled) × (w.stored ++ Q.items w.engine.queue ≡ w.accepted)
  closed-stored v capacity {w} r done healthy =
      let k = Reach-Delivers v capacity r in
      (
        k.all_stored healthy ∙ k.drained (subst (Drained Q W) (sym (k.closed_returned done)) tt),
        ap (λ (l : List Row). l ++ Q.items w.engine.queue) (k.all_stored healthy) ∙ k.queued,
      )

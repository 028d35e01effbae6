-- ===== src/Writer/Rounds.antt =====
-- src/Writer/WriterEngine.cpp: what a round of the writing thread keeps.
use mathlib.Core.List.{append-nil, append_assoc}
use nqbook.Prelude.{
  ◌≡◌, sym, ap, subst, ◌∙◌, true, false, List, [], ◌∷◌, ◌++◌, Option, none, some, length-append,
  arith, Bool-cases, inl, inr,
}
use nqbook.Prelude.Outcome.{Result, ok, err}
use nqbook.Prelude.Text.{Text}
use nqbook.Nlib.SingleQueue.{SingleQueue}
use nqbook.Orderbook.Book.{inc64}
use nqbook.Writer.{RowWriter, popping, idle, fail, store_result, run_round, idle_round}
use nqbook.Writer.Steps.{World, row_of, taken_by, stored_of, polled_of}
use nqbook.Writer.Delivery.{Drained, Delivers}

module _ {Row : Type 0} (Q : SingleQueue Row) (W : RowWriter Row) where
  -- a row that the writing thread takes, with what Write makes of it
  store-Delivers :
      (w : World Q W) (row : Row) (q : Q.Queue) (r : Result Text (Unit {0}) × W.Writer)
      → Q.items w.engine.queue ≡ row ∷ Q.items q
      → w.engine.thread ≡ popping
      → w.engine.failed ≡ false
      → Delivers Q W w
      → Delivers Q W (record w {
        engine = store_result Q W (record w.engine { queue = q; failed = false }) r;
        popped = w.popped ++ row ∷ [];
        stored = w.stored ++ taken_by Q W r.0 row;
      })
  unfolding store_result fail inc64
  store-Delivers w row q (ok u, v) first working healthy k = record {
    queued =
        append_assoc w.popped (row ∷ []) (Q.items q) ∙ ap (◌++◌ w.popped) (sym first) ∙ k.queued;
    pushed_count = k.pushed_count;
    written_count = omega (arith, k.written_count, length-append w.stored (row ∷ []));
    all_stored = λ h. ap (λ (l : List Row). l ++ row ∷ []) (k.all_stored healthy);
    stored_first = (
      [],
      append-nil (w.stored ++ row ∷ [])
          ∙ ap (λ (l : List Row). l ++ row ∷ []) (k.all_stored healthy),
    );
    drained = λ h. absurd (subst (Drained Q W) working h);
    closed_returned = k.closed_returned;
  }
  store-Delivers w row q (err message, v) first working healthy k = record {
    queued =
        append_assoc w.popped (row ∷ []) (Q.items q) ∙ ap (◌++◌ w.popped) (sym first) ∙ k.queued;
    pushed_count = k.pushed_count;
    written_count = rw (append-nil w.stored) k.written_count;
    all_stored = λ h. cc;
    stored_first = (
      row ∷ [],
      ap (λ (l : List Row). l ++ row ∷ []) (append-nil w.stored ∙ k.all_stored healthy),
    );
    drained = λ h. absurd (subst (Drained Q W) working h);
    closed_returned = k.closed_returned;
  }

  skip-Delivers :
      (w : World Q W) (row : Row) (q : Q.Queue)
      → Q.items w.engine.queue ≡ row ∷ Q.items q
      → w.engine.thread ≡ popping
      → w.engine.failed ≡ true
      → Delivers Q W w
      → Delivers Q W (record w {
        engine = record w.engine { queue = q; failed = true };
        popped = w.popped ++ row ∷ [];
        stored = w.stored ++ [];
      })
  skip-Delivers w row q first working broken k =
      let (rest, same) = k.stored_first in
      record {
        queued =
            append_assoc w.popped (row ∷ []) (Q.items q)
            ∙ ap (◌++◌ w.popped) (sym first)
            ∙ k.queued;
        pushed_count = k.pushed_count;
        written_count = rw (append-nil w.stored) k.written_count;
        all_stored = λ h. cc;
        stored_first = (
          rest ++ row ∷ [],
          ap (λ (l : List Row). l ++ (rest ++ row ∷ [])) (append-nil w.stored)
              ∙ sym (append_assoc w.stored rest (row ∷ []))
              ∙ ap (λ (l : List Row). l ++ row ∷ []) same,
        );
        drained = λ h. absurd (subst (Drained Q W) working h);
        closed_returned = k.closed_returned;
      }

  pub write-Delivers :
      (w : World Q W) (o : Option (Row × Q.Queue))
      → Q.try_pop w.engine.queue ≡ o
      → w.engine.thread ≡ popping
      → Delivers Q W w
      → Delivers Q W (record w {
        engine = run_round Q W w.engine o;
        popped = w.popped ++ row_of Q W o;
        stored = w.stored ++ stored_of Q W w.engine o;
        polled = polled_of Q W w o;
      })
  unfolding run_round
  write-Delivers w none empty working k = record {
    queued = rw (append-nil w.popped) k.queued;
    pushed_count = k.pushed_count;
    written_count = rw (append-nil w.stored) k.written_count;
    all_stored = λ h. rw (append-nil w.stored, append-nil w.popped) (k.all_stored h);
    stored_first = rw (append-nil w.stored, append-nil w.popped) k.stored_first;
    drained = λ h. ap (◌++◌ w.popped) (sym (Q.try_pop_empty w.engine.queue empty)) ∙ k.queued;
    closed_returned = λ h. absurd (cc (working, k.closed_returned h));
  }
  write-Delivers w (some (row, q)) popped working k =
      let first = Q.items-try_pop w.engine.queue q row popped in
      elim (Bool-cases w.engine.failed) [
        | inl broken ↦ rw broken (skip-Delivers w row q first working broken k)
        | inr healthy ↦
            rw healthy
              (store-Delivers w row q (W.write w.engine.writer row) first working healthy k)
      ]

  pub idle-Delivers :
      (w : World Q W)
      → w.engine.thread ≡ idle
      → Delivers Q W w
      → Delivers Q W (record w { engine = idle_round Q W w.engine })
  unfolding idle_round
  idle-Delivers w at k = record {
    queued = k.queued;
    pushed_count = k.pushed_count;
    written_count = k.written_count;
    all_stored = k.all_stored;
    stored_first = k.stored_first;
    drained = λ h. k.drained (subst (Drained Q W) (sym at) tt);
    closed_returned = λ h. absurd (cc (at, k.closed_returned h));
  }

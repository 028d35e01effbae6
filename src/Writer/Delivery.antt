-- ===== src/Writer/Delivery.antt =====
-- src/Writer/WriterEngine.cpp: the invariant of the two threads, and what Push keeps of it.
use mathlib.Core.List.{append-nil, append_assoc}
use nqbook.Prelude.{
  ℕ, ◌%◌, ◌^◌, ◌≡◌, sym, ap, ◌∙◌, Bool, true, false, ◌||◌, List, [], ◌∷◌, ◌++◌, Option, none, some,
  length, length-append, if◌then◌else◌, arith, Bool-cases, inl, inr,
}
use nqbook.Nlib.SingleQueue.{SingleQueue}
use nqbook.Orderbook.Book.{inc64}
use nqbook.Writer.{
  RowWriter, MainPhase, ready, pushing, closed, ThreadPhase, popping, idle, returned, push_round,
  blocked_round,
}
use nqbook.Writer.Steps.{World, one_if}

module _ {Row : Type 0} (Q : SingleQueue Row) (W : RowWriter Row) where
  -- the thread has found the queue empty and has not tried again
  abbrev pub Drained : ThreadPhase → Type 0
  Drained popping = ⊥
  Drained idle = Unit {0}
  Drained returned = Unit {0}

  pub record Delivers (w : World Q W) : Type 0 where
    pub queued : w.popped ++ Q.items w.engine.queue ≡ w.accepted
    pub pushed_count : w.engine.pushed ≡ length w.accepted % 2 ^ 64
    pub written_count : w.engine.written ≡ length w.stored % 2 ^ 64
    pub all_stored : w.engine.failed ≡ false → w.stored ≡ w.popped
    pub stored_first : (rest : List Row) × (w.stored ++ rest ≡ w.popped)
    pub drained : Drained w.engine.thread → w.popped ≡ w.polled
    pub closed_returned : w.engine.main ≡ closed → w.engine.thread ≡ returned

  pub push-Delivers :
      (w : World Q W) (row : Row) (stalled : Bool) (o : Option Q.Queue)
      → Q.try_push w.engine.queue row ≡ o
      → Delivers w
      → Delivers (record w {
        engine = push_round Q W w.engine row stalled o;
        accepted = w.accepted ++ one_if Q W o row;
      })
  unfolding push_round inc64
  push-Delivers w row stalled (some q) pushed k =
      let grown = Q.items-try_push w.engine.queue q row pushed in
      record {
        queued =
            ap (◌++◌ w.popped) grown
            ∙ sym (append_assoc w.popped (Q.items w.engine.queue) (row ∷ []))
            ∙ ap (λ (l : List Row). l ++ row ∷ []) k.queued;
        pushed_count = omega (arith, k.pushed_count, length-append w.accepted (row ∷ []));
        written_count = k.written_count;
        all_stored = k.all_stored;
        stored_first = k.stored_first;
        drained = k.drained;
        closed_returned = λ h. cc;
      }
  push-Delivers w row stalled none full k = record {
    queued = rw (append-nil w.accepted) k.queued;
    pushed_count = rw (append-nil w.accepted) k.pushed_count;
    written_count = k.written_count;
    all_stored = k.all_stored;
    stored_first = k.stored_first;
    drained = k.drained;
    closed_returned = λ h. cc;
  }

  -- Delivers of an engine that differs in its flags, its stalls and its main thread only
  pub main-Delivers :
      (w : World Q W) (main : MainPhase Row) (stalls : ℕ) (draining abort stop : Bool)
      → (main ≡ closed → w.engine.thread ≡ returned)
      → Delivers w
      → Delivers (record w {
        engine = record w.engine {
          main = main;
          stalls = stalls;
          draining = draining;
          abort = abort;
          stop = stop;
        };
      })
  main-Delivers w main stalls draining abort stop over k = record {
    queued = k.queued;
    pushed_count = k.pushed_count;
    written_count = k.written_count;
    all_stored = k.all_stored;
    stored_first = k.stored_first;
    drained = k.drained;
    closed_returned = over;
  }

  pub blocked-Delivers :
      (w : World Q W) (row : Row) (stalled : Bool)
      → Delivers w
      → Delivers (record w { engine = blocked_round Q W w.engine row stalled })
  unfolding blocked_round
  blocked-Delivers w row stalled k =
      let e = w.engine in
      let stalls = if stalled then e.stalls else inc64 e.stalls in
      elim (Bool-cases (e.abort || e.failed)) [
        | inl dropped ↦
            rw dropped (main-Delivers w ready e.stalls e.draining e.abort e.stop (λ h. cc) k)
        | inr waits ↦
            rw waits
              (main-Delivers w (pushing row true) stalls e.draining e.abort e.stop (λ h. cc) k)
      ]

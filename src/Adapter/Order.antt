-- ===== src/Adapter/Order.antt =====
-- src/Adapter/AdapterEngine.cpp: the events between the adapter and the consumer, in every run.
use mathlib.Core.List.{append-nil, append_assoc}
use nqbook.Prelude.{
  ℕ, ◌≡◌, refl, sym, ap, ◌∙◌, true, false, List, [], ◌∷◌, ◌++◌, none, length, length-append, arith,
}
use nqbook.Abi.{Mbo}
use nqbook.Nlib.SingleQueue.{SingleQueue}
use nqbook.Adapter.{Phase, Adapters, new_adapter_engine, seen_before, lookup_instrument}
use nqbook.Adapter.Steps.{World, Step, thread, pop, request_stop, Reach, here, next}
use nqbook.Adapter.Rounds.{pending, InOrder, thread-InOrder}

module _ (A : Adapters) (Q : SingleQueue Mbo) where
  Step-InOrder : {w v : World A Q} → Step A Q w v → InOrder A Q w → InOrder A Q v
  Step-InOrder (thread w) k = thread-InOrder A Q w w.engine.phase refl k
  Step-InOrder (pop w m q popped) k =
      let first = Q.items-try_pop w.engine.queue q m popped in
      record {
        conserved =
            append_assoc w.taken (m ∷ []) (Q.items q ++ pending w.engine.phase)
            ∙ ap (λ (l : List Mbo). w.taken ++ (l ++ pending w.engine.phase)) (sym first)
            ∙ k.conserved;
        counted = omega (arith, k.counted, ap length first, length-append w.taken (m ∷ []));
        known = k.known;
        asked = k.asked;
        ended_finished = k.ended_finished;
      }
  Step-InOrder (request_stop w) k = record {
    conserved = k.conserved;
    counted = k.counted;
    known = k.known;
    asked = k.asked;
    ended_finished = k.ended_finished;
  }

  -- a new engine, with nothing returned or popped
  abbrev pub start : A.Instance → ℕ → World A Q
  start a capacity = record {
    engine = new_adapter_engine A Q a capacity;
    stop = false;
    returned = [];
    taken = [];
  }

  start-InOrder : (a : A.Instance) (capacity : ℕ) → InOrder A Q (start a capacity)
  unfolding new_adapter_engine seen_before lookup_instrument
  start-InOrder a capacity = record {
    conserved = rw (Q.items-make capacity) refl;
    counted = rw (Q.items-make capacity) (omega arith);
    known = tt;
    asked = λ id. refl;
    ended_finished = λ h. cc;
  }

  -- Whatever the scheduler, the adapter, the consumer and the caller do, the events popped and queued
  -- are in order those that the adapter returned, but for the last one while Push has it or has given
  -- it up. `pushed` counts them, every one has an entry of its instrument, and the thread has
  -- returned where the adapter has ended.
  pub Reach-InOrder :
      (a : A.Instance) (capacity : ℕ) {w : World A Q}
      → Reach A Q (start a capacity) w
      → InOrder A Q w
  Reach-InOrder a capacity here = start-InOrder a capacity
  Reach-InOrder a capacity (next r s) = Step-InOrder s (Reach-InOrder a capacity r)

  -- Once the adapter has ended and the queue is empty, the consumer has popped every event that the
  -- adapter returned, in order.
  pub ended-taken :
      (a : A.Instance) (capacity : ℕ) {w : World A Q}
      → Reach A Q (start a capacity) w
      → w.engine.ended ≡ true
      → Q.try_pop w.engine.queue ≡ none
      → w.taken ≡ w.returned
  ended-taken a capacity {w} r ended empty =
      let k = Reach-InOrder a capacity r in
      let done = k.ended_finished ended in
      let drained = Q.try_pop_empty w.engine.queue empty in
      sym (append-nil w.taken)
      ∙ ap (λ (l : List Mbo). w.taken ++ (l ++ [])) (sym drained)
      ∙ ap (λ (p : Phase). w.taken ++ (Q.items w.engine.queue ++ pending p)) (sym done)
      ∙ k.conserved

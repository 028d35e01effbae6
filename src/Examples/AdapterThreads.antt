-- ===== src/Examples/AdapterThreads.antt =====
-- The theorems on the thread of the adapter, at an adapter of two orders.
use nqbook.Prelude.{ℕ, zero, suc, ◌≡◌, refl, [], ◌∷◌, ◌++◌, none, some}
use nqbook.Prelude.Int.{ℤ, pos}
use nqbook.Abi.{Mbo, bid, add}
use nqbook.Nlib.SingleQueue.{SingleQueue}
use nqbook.Adapter.{
  Adapters, next_event, next_end, thread_step, run_round, push_round, discover, new_adapter_engine,
  seen_before,
}
use nqbook.Adapter.Steps.{World, Reach, advance_thread, thread, pop, here, next}
use nqbook.Adapter.Rounds.{InOrder}
use nqbook.Adapter.Order.{start, Reach-InOrder, ended-taken}
use nqbook.Examples.Books.{event}
use nqbook.Examples.Threads.{Bounded, bounded}

-- an adapter that gives as many orders as its state says
abbrev pub countdown : ℕ → ℤ × Mbo × ℕ
countdown zero = (next_end, event add 1 bid 100 10, 0)
countdown (suc n) = (next_event, event add (suc n) bid 100 10, n)

abbrev pub adapters : Adapters
adapters = record {
  Instance = ℕ;
  next = countdown;
  instrument = λ n id. (some (record { symbol = none; tick_size = pos 1; lot_size = pos 1 }), n);
}

abbrev pub queue : SingleQueue Mbo
queue = bounded Mbo

abbrev begun : World adapters queue
begun = start adapters queue 1 4

-- the world behind three steps: the stop is looked at, the order comes, and it is pushed
abbrev pushed : World adapters queue
pushed =
    advance_thread adapters queue
      (advance_thread adapters queue (advance_thread adapters queue begun))

reached : Reach adapters queue begun pushed
reached =
    next (next (next here (thread begun)) (thread (advance_thread adapters queue begun)))
      (thread (advance_thread adapters queue (advance_thread adapters queue begun)))

Reach-InOrder_example : InOrder adapters queue pushed
Reach-InOrder_example = Reach-InOrder adapters queue 1 4 reached

abbrev drained : Bounded Mbo
drained = record { bound = 4; held = [] }

abbrev popped : World adapters queue
popped = record pushed {
  engine = record pushed.engine { queue = drained };
  taken = pushed.taken ++ event add 1 bid 100 10 ∷ [];
}

abbrev over : World adapters queue
over = advance_thread adapters queue (advance_thread adapters queue popped)

reached_end : Reach adapters queue begun over
unfolding new_adapter_engine thread_step run_round push_round discover seen_before
reached_end =
    next (next (next reached (pop pushed (event add 1 bid 100 10) drained refl)) (thread popped))
      (thread (advance_thread adapters queue popped))

ended-taken_example : over.taken ≡ over.returned
unfolding new_adapter_engine thread_step run_round push_round discover seen_before
ended-taken_example = ended-taken adapters queue 1 4 reached_end refl refl

-- ===== src/Orderbook/Application.antt =====
-- Apply and Consume refine the list of orders in priority, on every event.
use nqbook.Prelude.{
  ℕ, zero, suc, ◌≡◌, refl, ap, ◌∙◌, true, false, List, [], ◌∷◌, some, ◌==◌, if◌then◌else◌, arith,
  Bool-cases, inl, inr, take, length,
}
use nqbook.Prelude.Int.{pos}
use nqbook.Abi.{Mbo, add, cancel, modify, trade, clear}
use nqbook.Nlib.{Nlib}
use nqbook.Orderbook.Memory.{Heap}
use nqbook.Orderbook.Pool.{new_pool}
use nqbook.Orderbook.Book.{Book, Stats, no_stats, new_book}
use nqbook.Orderbook.Feed.{apply, consume}
use nqbook.Orderbook.Entries.{Entry}
use nqbook.Orderbook.Priority.{react}
use nqbook.Orderbook.Counters.{counted, stamped}
use nqbook.Orderbook.Refinement.{Shows}
use nqbook.Orderbook.Emptied.{empty_book-Shows}
use nqbook.Orderbook.Reaction.{Ends, on_order-Ends, on_cancel-Ends, on_modify-Ends}
use nqbook.Orderbook.Trading.{on_trade-Ends, on_clear-Ends}

apart : (a b c : ℕ) → (a == b) ≡ true → (b == c) ≡ false → (a == c) ≡ false
apart a b c e ne = ground arith

module _ {nlib : Nlib} where
  abbrev pub Refines : Book nlib → List Entry → Mbo → Type 0
  Refines b es m =
      Ends (react es m).0 (react es m).1 (counted es m b.stats) (stamped m b.last_ts) (apply b m)

  -- On a book that shows a list of orders, Apply always returns, whatever the event. It fills what
  -- the reaction of the list fills, the new book shows the reaction's list, and the counters and
  -- the time are those of the table.
  pub apply-Refines : (b : Book nlib) (es : List Entry) → Shows b es → (m : Mbo) → Refines b es m
  unfolding apply react counted stamped
  apply-Refines b es v m = elim (Bool-cases (m.action == add)) [
    | inl e ↦
        rw
          (
            e,
            apart m.action add cancel e refl,
            apart m.action add modify e refl,
            apart m.action add trade e refl,
            apart m.action add clear e refl,
          )
          (on_order-Ends b es v m)
    | inr not_add ↦ elim (Bool-cases (m.action == cancel)) [
      | inl e ↦
          rw
            (
              e,
              not_add,
              apart m.action cancel modify e refl,
              apart m.action cancel trade e refl,
              apart m.action cancel clear e refl,
            )
            (on_cancel-Ends b es v m)
      | inr not_cancel ↦ elim (Bool-cases (m.action == modify)) [
        | inl e ↦
            rw
              (
                e,
                not_add,
                not_cancel,
                apart m.action modify trade e refl,
                apart m.action modify clear e refl,
              )
              (on_modify-Ends b es v m)
        | inr not_modify ↦ elim (Bool-cases (m.action == trade)) [
          | inl e ↦
              rw (e, not_add, not_cancel, not_modify, apart m.action trade clear e refl)
                (on_trade-Ends b es v m)
          | inr not_trade ↦ elim (Bool-cases (m.action == clear)) [
            | inl e ↦ rw (e, not_add, not_cancel, not_modify, not_trade) (on_clear-Ends b es v m)
            | inr not_clear ↦
                rw (not_add, not_cancel, not_modify, not_trade, not_clear)
                  (record { book = b; result = refl; shows = v; stats = refl; last_ts = refl })
          ]
        ]
      ]
    ]
  ]

-- the list behind a feed, and the counters behind it
unfoldable pub replay : List Entry → List Mbo → List Entry
replay es [] = es
replay es (m ∷ ms) = replay (react es m).1 ms

unfoldable pub counted_all : List Entry → List Mbo → Stats → Stats
counted_all es [] st = st
counted_all es (m ∷ ms) st = counted_all (react es m).1 ms (counted es m st)

module _ {nlib : Nlib} where
  -- A new book shows no order.
  pub new_book-Shows :
      (h : Heap) (expected_orders : ℕ) → Shows (new_book {nlib = nlib} h expected_orders) []
  unfolding new_book new_pool
  new_book-Shows h n = empty_book-Shows h (if n == 0 then 1 else n) (ground arith) no_stats (pos 0)

  -- On a book that shows a list of orders, Apply returns, whatever the event. It fills what the
  -- reaction of the list fills, the new book shows the list of the reaction, and the counters and
  -- the time of the last event are those of the tables.
  pub apply-Shows :
      (b : Book nlib) (es : List Entry)
      → Shows b es
      → (m : Mbo)
      → (b' : Book nlib) × (apply b m ≡ some ((react es m).0, b'))
        × Shows b' (react es m).1
        × (b'.stats ≡ counted es m b.stats)
        × (b'.last_ts ≡ stamped m b.last_ts)
  apply-Shows b es v m =
      let k = apply-Refines b es v m in (k.book, k.result, k.shows, k.stats, k.last_ts)

  -- On a book that shows a list of orders, Consume returns. It takes the first `max` events of the
  -- queue, or all where there are fewer, and the new book shows the list and has the counters
  -- behind them.
  pub consume-Shows :
      (b : Book nlib) (es : List Entry)
      → Shows b es
      → (ms : List Mbo) (max : ℕ)
      → (b' : Book nlib) × (consume b ms max ≡ some (length (take max ms), b'))
        × Shows b' (replay es (take max ms))
        × (b'.stats ≡ counted_all es (take max ms) b.stats)
  unfolding consume replay counted_all
  consume-Shows b es v [] zero = (b, refl, v, refl)
  consume-Shows b es v [] (suc max) = (b, refl, v, refl)
  consume-Shows b es v (m ∷ ms) zero = (b, refl, v, refl)
  consume-Shows b es v (m ∷ ms) (suc max) =
      let k = apply-Refines b es v m in
      let (b', result, shows, stats) = consume-Shows k.book (react es m).1 k.shows ms max in
      (
        b',
        rw (k.result, result) refl,
        shows,
        stats ∙ ap (counted_all (react es m).1 (take max ms)) k.stats,
      )

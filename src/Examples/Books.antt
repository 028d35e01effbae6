-- ===== src/Examples/Books.antt =====
-- The run of tests/orderbook_test.cpp.
use nqbook.Prelude.{ℕ, true, false, ◌++◌, ◌≡◌, refl, List, [], ◌∷◌, Option, some, ◌>>=◌}
use nqbook.Prelude.Int.{ℤ, pos, ◌+ℤ◌, ◌-ℤ◌}
use nqbook.Abi.{Mbo, bid, ask, add, cancel, modify, trade}
use nqbook.Orderbook.PriceLevels.{Level, before, find, insert, erase, set, first}
use nqbook.Orderbook.Pool.{new_pool, alloc, free_order, reset}
use nqbook.Orderbook.Links.{linked_heap, unlinked_heap}
use nqbook.Orderbook.Memory.{blank, set_next, set_prev}
use nqbook.Orderbook.Book.{
  Book, new_book, best, find_order, fill_level, fill_loop, fill, reduce, remove_order, unlink_order,
  link_order, find_or_create_level, remove_level, inc64,
}
use nqbook.Orderbook.Feed.{
  consume, apply, on_order, on_cancel, on_modify, on_trade, on_clear, place, cancel_order,
  move_order, requeue_order, modify_order, trade_order, trade_level,
}
use nqbook.Examples.Environment.{nlib}

abbrev pub event : ℕ → ℕ → ℕ → ℕ → ℕ → Mbo
event action id side price qty = record {
  ts = pos 1;
  id = id;
  price = pos price;
  qty = pos qty;
  instrument = 0;
  side = side;
  action = action;
}

book : Book nlib
unfolding new_book new_pool
book = new_book (λ p. blank) 4

abbrev pub five_orders : List Mbo
five_orders =
    event add 1 bid 100 10
    ∷ event add 2 bid 100 5
    ∷ event add 3 bid 99 7
    ∷ event add 4 ask 101 3
    ∷ event add 5 ask 102 4
    ∷ []

-- what a level holds: price, quantity, number of orders
abbrev summary : Option Level → Option (ℤ × ℤ × ℕ)
summary o = do lv ← o; some (lv.price, lv.qty, lv.count)

-- Applies events, and reads the best bid, the best ask and the order with an id.
look : List Mbo → ℕ → Option (Option (ℤ × ℤ × ℕ) × Option (ℤ × ℤ × ℕ) × Option ℕ)
unfolding book consume apply on_order on_cancel on_modify on_trade on_clear place cancel_order
    move_order requeue_order modify_order trade_order trade_level fill_level fill_loop fill reduce
    remove_order unlink_order link_order find_or_create_level remove_level linked_heap unlinked_heap
    set_next set_prev find insert erase set first best find_order alloc free_order reset before
    inc64 ◌+ℤ◌ ◌-ℤ◌
look ms id = do
  (n, b) ← consume book ms 100
  some (summary (best b true), summary (best b false), find_order b id)

after_adds : look five_orders 1 ≡ some (some (pos 100, pos 15, 2), some (pos 101, pos 3, 1), some 0)
unfolding look
after_adds = refl

-- a partial cancel, a fill across two orders of a level, a modify to another price
after_trades :
    look
      (five_orders
        ++ event cancel 1 bid 100 4
          ∷ event modify 2 bid 98 9
          ∷ event add 7 bid 100 2
          ∷ event trade 0 bid 100 7
          ∷ event trade 4 ask 101 5
          ∷ [])
      7
    ≡ some (some (pos 100, pos 1, 1), some (pos 102, pos 4, 1), some 1025)
unfolding look
after_trades = refl

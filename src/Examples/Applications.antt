-- ===== src/Examples/Applications.antt =====
-- The theorems on the book, at the book of tests/orderbook_test.cpp after five adds.
use nqbook.Prelude.{◌≡◌, List, [], some, take, length, true}
use nqbook.Prelude.Int.{pos, ◌-ℤ◌}
use nqbook.Abi.{Mbo, bid, trade}
use nqbook.Orderbook.Memory.{Heap, blank}
use nqbook.Orderbook.Book.{Book, new_book, fill_level, find_level, find_order}
use nqbook.Orderbook.Feed.{apply, consume}
use nqbook.Orderbook.Entries.{Entry}
use nqbook.Orderbook.Priority.{react, sweep, at_level, find_entry}
use nqbook.Orderbook.Counters.{counted, stamped}
use nqbook.Orderbook.Refinement.{Shows}
use nqbook.Orderbook.LevelFill.{fill_level-Shows}
use nqbook.Orderbook.Application.{replay, counted_all, new_book-Shows, apply-Shows, consume-Shows}
use nqbook.Orderbook.Reading.{
  view_level, level_view, view_order, find_level-Shows, find_order-Shows,
}
use nqbook.Examples.Environment.{nlib}
use nqbook.Examples.Books.{event, five_orders}

abbrev pub memory : Heap
memory p = blank

abbrev pub start : Book nlib
start = new_book memory 4

consume-Shows_example :
    (b' : Book nlib) × (consume start five_orders 4 ≡ some (length (take 4 five_orders), b'))
    × Shows b' (replay [] (take 4 five_orders))
    × (b'.stats ≡ counted_all [] (take 4 five_orders) start.stats)
consume-Shows_example = consume-Shows start [] (new_book-Shows memory 4) five_orders 4

-- the book behind the five adds, and the orders that it shows
abbrev stocked :
    (b' : Book nlib) × (consume start five_orders 5 ≡ some (length (take 5 five_orders), b'))
    × Shows b' (replay [] (take 5 five_orders))
    × (b'.stats ≡ counted_all [] (take 5 five_orders) start.stats)
stocked = consume-Shows start [] (new_book-Shows memory 4) five_orders 5

abbrev resting : List Entry
resting = replay [] (take 5 five_orders)

abbrev pub sale : Mbo
sale = event trade 0 bid 100 12

apply-Shows_example :
    (b' : Book nlib) × (apply stocked.0 sale ≡ some ((react resting sale).0, b'))
    × Shows b' (react resting sale).1
    × (b'.stats ≡ counted resting sale stocked.0.stats)
    × (b'.last_ts ≡ stamped sale stocked.0.last_ts)
apply-Shows_example = apply-Shows stocked.0 resting stocked.2 sale

fill_level-Shows_example :
    (b' : Book nlib) × (fill_level stocked.0 bid (pos 100) (pos 12)
      ≡ some (pos 12 -ℤ (sweep (record { is_bids = true; at = pos 100 }) (pos 12) resting).0, b'))
    × Shows b' (sweep (record { is_bids = true; at = pos 100 }) (pos 12) resting).1
fill_level-Shows_example = fill_level-Shows stocked.0 resting stocked.2 bid (pos 100) (pos 12)

find_level-Shows_example :
    view_level stocked.0.heap (find_level stocked.0 bid (pos 100))
    ≡ level_view (pos 100) (at_level resting (record { is_bids = true; at = pos 100 }))
find_level-Shows_example = find_level-Shows stocked.0 resting stocked.2 bid (pos 100)

find_order-Shows_example : view_order stocked.0.heap (find_order stocked.0 4) ≡ find_entry resting 4
find_order-Shows_example = find_order-Shows stocked.0 resting stocked.2 4

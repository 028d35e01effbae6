-- ===== src/Orderbook/Entries.antt =====
-- What a reader of the book sees of an order: its id, its side and price, and its quantity.
use nqbook.Prelude.{ℕ, ◌≡◌, arith}
use nqbook.Prelude.Int.{ℤ}
use nqbook.Abi.{is_bid}
use nqbook.Orderbook.PriceLevels.{LevelRef}
use nqbook.Orderbook.Memory.{Order}
use nqbook.Orderbook.Queues.{Alike}

pub record Entry : Type 0 where
  pub id : ℕ
  pub at : LevelRef
  pub qty : ℤ

-- the queue of an order
abbrev pub ref_of : Order → LevelRef
ref_of w = record { is_bids = is_bid w.side; at = w.price }

abbrev pub entry : Order → Entry
entry w = record { id = w.id; at = ref_of w; qty = w.qty }

pub entry-Alike : {v w : Order} → Alike v w → entry v ≡ entry w
entry-Alike {v} {w} e = ground (arith, e.id, e.price, e.qty, e.side)

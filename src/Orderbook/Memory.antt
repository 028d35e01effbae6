-- ===== src/Orderbook/Memory.antt =====
-- The orders of a book in memory: nlib::order by the fields that the book reads and writes, and the
-- heap that holds them. Orders and levels are linked by addresses.
use nqbook.Prelude.{ℕ, Option, none, some, ◌==◌, if◌then◌else◌}
use nqbook.Prelude.Int.{ℤ, pos}
use nqbook.Nlib.{Ptr}
use nqbook.Orderbook.PriceLevels.{LevelRef}

pub record Order : Type 0 where
  pub id : ℕ
  pub price : ℤ
  pub qty : ℤ
  pub ts : ℤ
  pub side : ℕ
  pub prev : Option Ptr
  pub next : Option Ptr
  pub level : Option LevelRef

-- `nlib::order{}`
abbrev pub blank : Order
blank = record {
  id = 0;
  price = pos 0;
  qty = pos 0;
  ts = pos 0;
  side = 0;
  prev = none;
  next = none;
  level = none;
}

-- Memory keeps what was last written: an order that went back to the pool is still readable.
abbrev pub Heap : Type 0
Heap = Ptr → Order

abbrev pub write : Heap → Ptr → Order → Heap
write h p o q = if p == q then o else h q

-- `if (p) p->next = q`, and the same for `prev`
unfoldable pub set_next : Heap → Option Ptr → Option Ptr → Heap
set_next h none q = h
set_next h (some p) q = write h p (record (h p) { next = q })

unfoldable pub set_prev : Heap → Option Ptr → Option Ptr → Heap
set_prev h none q = h
set_prev h (some p) q = write h p (record (h p) { prev = q })

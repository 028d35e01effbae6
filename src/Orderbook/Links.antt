-- ===== src/Orderbook/Links.antt =====
-- src/Orderbook.cpp: what LinkOrder and UnlinkOrder write to the orders and to the level.
use nqbook.Prelude.{◌+◌, ◌-◌, Option, none, some}
use nqbook.Prelude.Int.{ℤ, pos, ◌+ℤ◌, ◌-ℤ◌}
use nqbook.Abi.{Mbo}
use nqbook.Nlib.{Ptr}
use nqbook.Orderbook.PriceLevels.{LevelRef, Level}
use nqbook.Orderbook.Memory.{Order, Heap, write, set_next, set_prev}

abbrev pub new_level : ℤ → Level
new_level p = record { price = p; qty = pos 0; count = 0; head = none; tail = none }

-- the writes of LinkOrder to the level
abbrev pub linked_level : Level → Ptr → ℤ → Level
linked_level lv o qty = record lv {
  head = elim lv.tail [ none ↦ some o | some t ↦ lv.head ];
  tail = some o;
  qty = lv.qty +ℤ qty;
  count = lv.count + 1;
}

-- the writes of LinkOrder to the orders
unfoldable pub linked_heap : Heap → Ptr → LevelRef → Option Ptr → Heap
linked_heap h o r tail =
    let h' = write h o (record (h o) { level = some r; prev = tail; next = none }) in
    set_next h' tail (some o)

-- the writes of UnlinkOrder to the level
abbrev pub unlinked_level : Level → Order → Level
unlinked_level lv v = record lv {
  head = elim v.prev [ none ↦ v.next | some p ↦ lv.head ];
  tail = elim v.next [ none ↦ v.prev | some n ↦ lv.tail ];
  qty = lv.qty -ℤ v.qty;
  count = lv.count - 1;
}

-- the writes of UnlinkOrder to the orders, in the order of the source
unfoldable pub unlinked_heap : Heap → Ptr → Heap
unlinked_heap h o =
    let h1 = set_next h (h o).prev (h o).next in
    let h2 = set_prev h1 (h1 o).next (h1 o).prev in
    write h2 o (record (h2 o) { prev = none; next = none; level = none })

-- the order that OnOrder writes
abbrev pub order_of : Mbo → Order
order_of m = record {
  id = m.id;
  price = m.price;
  qty = m.qty;
  ts = m.ts;
  side = m.side;
  prev = none;
  next = none;
  level = none;
}

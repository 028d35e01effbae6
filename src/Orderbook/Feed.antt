-- ===== src/Orderbook/Feed.antt =====
-- src/Orderbook.cpp: the feed handlers of the book, and what drives them.
use nqbook.Prelude.{
  ℕ, zero, suc, not, ◌&&◌, ◌||◌, List, [], ◌∷◌, Option, none, some, ◌==◌, if◌then◌else◌, ◌>>=◌,
  is_some,
}
use nqbook.Prelude.Int.{ℤ, pos, ◌-ℤ◌, ltb_ℤ, leb_ℤ, eqb_ℤ}
use nqbook.Abi.{Mbo, add, cancel, modify, trade, clear}
use nqbook.Nlib.{Ptr, Nlib}
use nqbook.Orderbook.Pool.{alloc, reset}
use nqbook.Orderbook.Links.{order_of}
use nqbook.Orderbook.Book.{
  inc64, Stats, Book, find_order, put_order, find_or_create_level, link_order, unlink_order,
  remove_order, reduce, fill, fill_level,
}

module _ {nlib : Nlib} where
  -- the counters of `stats_`, and the time of the last event
  abbrev pub tally : (Stats → Stats) → Book nlib → Book nlib
  tally f b = record b { stats = f b.stats }

  abbrev pub stamp : ℤ → Book nlib → Book nlib
  stamp ts b = record b { last_ts = ts }

  -- the part of OnOrder behind its two checks
  unfoldable pub place : Book nlib → Mbo → Option (Book nlib)
  place b m = do
    (o, pool, heap) ← alloc b.pool b.heap
    let b1 = put_order (record b { pool = pool; heap = heap }) o (order_of m)
    let (r, b2) = find_or_create_level b1 m.side m.price
    b3 ← link_order b2 o r
    some (record b3 { orders = nlib.try_emplace b3.orders m.id o })

  -- OnOrder
  unfoldable pub on_order : Book nlib → Mbo → Option (Book nlib)
  on_order b m =
      let b' = stamp m.ts (tally (λ s. record s { adds = inc64 s.adds }) b) in
      if leb_ℤ m.qty (pos 0)
      then some (tally (λ s. record s { qty_invalid = inc64 s.qty_invalid }) b')
      else if is_some (nlib.find b'.orders m.id)
      then some (tally (λ s. record s { add_duplicate = inc64 s.add_duplicate }) b')
      else place b' m

  -- the part of OnCancel that has an order
  unfoldable pub cancel_order : Book nlib → Ptr → ℤ → Option (Book nlib)
  cancel_order b o qty =
      if leb_ℤ qty (pos 0) || leb_ℤ (b.heap o).qty qty
      then remove_order b o
      else reduce b o ((b.heap o).qty -ℤ qty) qty

  -- OnCancel
  unfoldable pub on_cancel : Book nlib → Mbo → Option (Book nlib)
  on_cancel b m =
      let b' = stamp m.ts (tally (λ s. record s { cancels = inc64 s.cancels }) b) in
      elim (find_order b' m.id) [
        | none ↦ some (tally (λ s. record s { cancel_unknown = inc64 s.cancel_unknown }) b')
        | some o ↦ cancel_order b' o m.qty
      ]

  -- OnModify where the price changes: the order leaves its level and joins another
  unfoldable pub move_order : Book nlib → Ptr → Mbo → Option (Book nlib)
  move_order b o m = do
    b1 ← unlink_order b o
    let v = b1.heap o
    let b2 = put_order b1 o (record v { price = m.price; qty = m.qty; ts = m.ts })
    let (r, b3) = find_or_create_level b2 v.side m.price
    link_order b3 o r

  -- OnModify where the quantity grows: the order goes to the end of its level
  unfoldable pub requeue_order : Book nlib → Ptr → Mbo → Option (Book nlib)
  requeue_order b o m = do
    r ← (b.heap o).level
    b1 ← unlink_order b o
    link_order (put_order b1 o (record (b1.heap o) { qty = m.qty; ts = m.ts })) o r

  -- the part of OnModify that has an order
  unfoldable pub modify_order : Book nlib → Ptr → Mbo → Option (Book nlib)
  modify_order b o m =
      let v = b.heap o in
      if leb_ℤ m.qty (pos 0)
      then remove_order b o
      else if not (eqb_ℤ m.price v.price)
      then move_order b o m
      else if ltb_ℤ v.qty m.qty && (is_some v.prev || is_some v.next)
      then requeue_order b o m
      else reduce b o m.qty (v.qty -ℤ m.qty)

  -- OnModify
  unfoldable pub on_modify : Book nlib → Mbo → Option (Book nlib)
  on_modify b m =
      let b' = stamp m.ts (tally (λ s. record s { modifies = inc64 s.modifies }) b) in
      elim (find_order b' m.id) [
        | none ↦ some (tally (λ s. record s { modify_unknown = inc64 s.modify_unknown }) b')
        | some o ↦ modify_order b' o m
      ]

  -- `if (filled < m.qty) ++counter`
  abbrev pub over : (Stats → Stats) → ℤ → ℤ × Book nlib → ℤ × Book nlib
  over f qty (filled, b) = (filled, if ltb_ℤ filled qty then tally f b else b)

  -- the part of OnTrade with an order id
  unfoldable pub trade_order : Book nlib → Mbo → Option (ℤ × Book nlib)
  trade_order b m = elim (find_order b m.id) [
    | none ↦ some (pos 0, tally (λ s. record s { trade_unknown = inc64 s.trade_unknown }) b)
    | some o ↦ do
      r ← fill b o m.qty
      some (over (λ s. record s { trade_over_order = inc64 s.trade_over_order }) m.qty r)
  ]

  -- the part of OnTrade with id 0
  unfoldable pub trade_level : Book nlib → Mbo → Option (ℤ × Book nlib)
  trade_level b m = do
    r ← fill_level b m.side m.price m.qty
    some (over (λ s. record s { trade_over_level = inc64 s.trade_over_level }) m.qty r)

  -- OnTrade
  unfoldable pub on_trade : Book nlib → Mbo → Option (ℤ × Book nlib)
  on_trade b m =
      let b' = stamp m.ts (tally (λ s. record s { trades = inc64 s.trades }) b) in
      if leb_ℤ m.qty (pos 0)
      then some (pos 0, tally (λ s. record s { qty_invalid = inc64 s.qty_invalid }) b')
      else if m.id == 0
      then trade_level b' m
      else trade_order b' m

  -- OnClear
  unfoldable pub on_clear : Book nlib → Mbo → Book nlib
  on_clear b m =
      let b' = stamp m.ts (tally (λ s. record s { clears = inc64 s.clears }) b) in
      record b' { bids = []; asks = []; orders = nlib.empty; pool = reset b'.pool }

  -- `OnX(m); return 0;`
  abbrev pub return_zero : Option (Book nlib) → Option (ℤ × Book nlib)
  return_zero r = do b ← r; some (pos 0, b)

  -- Apply: the filled quantity, and the book
  unfoldable pub apply : Book nlib → Mbo → Option (ℤ × Book nlib)
  apply b m =
      if m.action == add
      then return_zero (on_order b m)
      else if m.action == cancel
      then return_zero (on_cancel b m)
      else if m.action == modify
      then return_zero (on_modify b m)
      else if m.action == trade
      then on_trade b m
      else if m.action == clear
      then some (pos 0, on_clear b m)
      else some (pos 0, b)

  -- Consume over a queue that holds `ms`, up to `max` events: the events taken, and the book.
  unfoldable pub consume : Book nlib → List Mbo → ℕ → Option (ℕ × Book nlib)
  consume b [] max = some (0, b)
  consume b (m ∷ ms) zero = some (0, b)
  consume b (m ∷ ms) (suc max) = do
    (filled, b') ← apply b m
    (n, b'') ← consume b' ms max
    some (suc n, b'')

-- ===== src/Orderbook/Book.antt =====
-- include/Orderbook.h and src/Orderbook.cpp: the book, its queries and its internals, over an
-- explicit heap of orders. A function takes the book and returns the new one; `none` stands for an
-- undefined step, such as a read through a null or dangling pointer. Quantities and prices are
-- exact: the overflow of int64_t, undefined in the source, is outside the model.
use nqbook.Prelude.{
  ℕ, zero, suc, ◌+◌, ◌%◌, ◌^◌, Bool, true, false, not, [], Option, none, some, ◌==◌, if◌then◌else◌,
  ◌>>=◌, is_some,
}
use nqbook.Prelude.Int.{ℤ, pos, ◌-ℤ◌, ltb_ℤ, eqb_ℤ}
use nqbook.Abi.{is_bid}
use nqbook.Nlib.{Ptr, Nlib}
use nqbook.Orderbook.PriceLevels.{LevelRef, Level, Levels, find, insert, erase, set, first}
use nqbook.Orderbook.Memory.{Order, Heap, write}
use nqbook.Orderbook.Pool.{OrderPool, new_pool, free_order}
use nqbook.Orderbook.Links.{new_level, linked_level, linked_heap, unlinked_level, unlinked_heap}

-- `++` on a uint64_t
unfoldable pub inc64 : ℕ → ℕ
inc64 n = (n + 1) % 2 ^ 64

pub record Stats : Type 0 where
  pub adds : ℕ
  pub cancels : ℕ
  pub modifies : ℕ
  pub trades : ℕ
  pub clears : ℕ
  pub add_duplicate : ℕ
  pub cancel_unknown : ℕ
  pub modify_unknown : ℕ
  pub trade_unknown : ℕ
  pub trade_over_level : ℕ
  pub trade_over_order : ℕ
  pub qty_invalid : ℕ

abbrev pub no_stats : Stats
no_stats = record {
  adds = 0;
  cancels = 0;
  modifies = 0;
  trades = 0;
  clears = 0;
  add_duplicate = 0;
  cancel_unknown = 0;
  modify_unknown = 0;
  trade_unknown = 0;
  trade_over_level = 0;
  trade_over_order = 0;
  qty_invalid = 0;
}

pub record Book (nlib : Nlib) : Type 0 where
  pub heap : Heap
  pub bids : Levels
  pub asks : Levels
  pub orders : nlib.Map
  pub pool : OrderPool nlib
  pub stats : Stats
  pub last_ts : ℤ

module _ {nlib : Nlib} where
  -- the map that a test `s == NQ_BID` selects
  abbrev pub levels : Book nlib → Bool → Levels
  levels b true = b.bids
  levels b false = b.asks

  abbrev pub set_levels : Book nlib → Bool → Levels → Book nlib
  set_levels b s ls = record b { bids = if s then ls else b.bids; asks = if s then b.asks else ls }

  abbrev pub get_level : Book nlib → LevelRef → Option Level
  get_level b r = find (levels b r.is_bids) r.at

  abbrev pub put_level : Book nlib → LevelRef → Level → Book nlib
  put_level b r lv = set_levels b r.is_bids (set (levels b r.is_bids) r.at lv)

  abbrev pub put_order : Book nlib → Ptr → Order → Book nlib
  put_order b o v = record b { heap = write b.heap o v }

  -- Orderbook::Orderbook, over the memory that the process starts with
  unfoldable pub new_book : Heap → ℕ → Book nlib
  new_book h expected_orders = record {
    heap = h;
    bids = [];
    asks = [];
    orders = nlib.empty;
    pool = new_pool expected_orders;
    stats = no_stats;
    last_ts = pos 0;
  }

  -- BestBid and BestAsk
  unfoldable pub best : Book nlib → Bool → Option Level
  best b s = first (levels b s)

  -- FindLevel and MutableLevel
  unfoldable pub find_level : Book nlib → ℕ → ℤ → Option Level
  find_level b s p = find (levels b (is_bid s)) p

  -- FindOrder and MutableOrder
  unfoldable pub find_order : Book nlib → ℕ → Option Ptr
  find_order b id = nlib.find b.orders id

  -- FindOrCreateLevel: the level's address, and the book that has the level
  unfoldable pub find_or_create_level : Book nlib → ℕ → ℤ → LevelRef × Book nlib
  find_or_create_level b s p =
      let ls = levels b (is_bid s) in
      let created = set_levels b (is_bid s) (insert (is_bid s) ls p (new_level p)) in
      (record { is_bids = is_bid s; at = p }, if is_some (find ls p) then b else created)

  -- RemoveLevel
  unfoldable pub remove_level : Book nlib → Level → ℕ → Book nlib
  remove_level b lv s = set_levels b (is_bid s) (erase (levels b (is_bid s)) lv.price)

  -- LinkOrder
  unfoldable pub link_order : Book nlib → Ptr → LevelRef → Option (Book nlib)
  link_order b o r = do
    lv ← get_level b r
    some (
        put_level (record b { heap = linked_heap b.heap o r lv.tail }) r
          (linked_level lv o (b.heap o).qty))

  -- UnlinkOrder
  unfoldable pub unlink_order : Book nlib → Ptr → Option (Book nlib)
  unlink_order b o = do
    r ← (b.heap o).level
    lv ← get_level b r
    let lv' = unlinked_level lv (b.heap o)
    let b' = put_level (record b { heap = unlinked_heap b.heap o }) r lv'
    some (if lv'.count == 0 then remove_level b' lv' (b.heap o).side else b')

  -- RemoveOrder
  unfoldable pub remove_order : Book nlib → Ptr → Option (Book nlib)
  remove_order b o = do
    b' ← unlink_order b o
    let (pool, heap) = free_order b'.pool b'.heap o
    some (record b' { orders = nlib.erase b'.orders (b'.heap o).id; pool = pool; heap = heap })

  -- `o->qty = qty; o->level->qty -= by`
  unfoldable pub reduce : Book nlib → Ptr → ℤ → ℤ → Option (Book nlib)
  reduce b o qty by = do
    r ← (b.heap o).level
    lv ← get_level b r
    some (
        put_level (put_order b o (record (b.heap o) { qty = qty })) r
          (record lv { qty = lv.qty -ℤ by }))

  -- Fill
  unfoldable pub fill : Book nlib → Ptr → ℤ → Option (ℤ × Book nlib)
  fill b o qty =
      let own = (b.heap o).qty in
      let filled = if ltb_ℤ qty own then qty else own in
      if eqb_ℤ filled own
      then (do b' ← remove_order b o; some (filled, b'))
      else (do b' ← reduce b o (own -ℤ filled) filled; some (filled, b'))

  -- The loop of FillLevel: what remains, and the book. `none` also stands for fuel that ran out.
  unfoldable pub fill_loop : ℕ → Book nlib → LevelRef → ℤ → Option (ℤ × Book nlib)
  fill_loop zero b r remaining = none
  fill_loop (suc k) b r remaining =
      let round = (do
        lv ← get_level b r
        elim lv.head [
          | none ↦ some (remaining, b)
          | some o ↦ do
            let last = not (is_some (b.heap o).next)
            (filled, b') ← fill b o remaining
            let rest = fill_loop k b' r (remaining -ℤ filled)
            if last then some (remaining -ℤ filled, b') else rest
        ]) in
      if ltb_ℤ (pos 0) remaining then round else some (remaining, b)

  -- FillLevel, with one round for each order of the level and one to see the end
  unfoldable pub fill_level : Book nlib → ℕ → ℤ → ℤ → Option (ℤ × Book nlib)
  fill_level b s p qty = elim (find (levels b (is_bid s)) p) [
    | none ↦ some (pos 0, b)
    | some lv ↦ do
      (remaining, b') ← fill_loop (lv.count + 1) b (record { is_bids = is_bid s; at = p }) qty
      some (qty -ℤ remaining, b')
  ]

-- ===== src/Orderbook/Counters.antt =====
-- What the counters of the book count, event by event: a table over the list of orders.
use nqbook.Prelude.{ℕ, Bool, not, ◌&&◌, ◌||◌, List, ◌==◌, if◌then◌else◌, is_some}
use nqbook.Prelude.Int.{ℤ, pos, ltb_ℤ, leb_ℤ}
use nqbook.Abi.{Mbo, add, cancel, modify, trade, clear}
use nqbook.Orderbook.Book.{inc64, Stats}
use nqbook.Orderbook.Entries.{Entry}
use nqbook.Orderbook.Priority.{find_entry, traded}

abbrev bump : Bool → ℕ → ℕ
bump t n = if t then inc64 n else n

unfoldable pub counted : List Entry → Mbo → Stats → Stats
counted es m s =
    let known = is_some (find_entry es m.id) in
    let invalid = leb_ℤ m.qty (pos 0) in
    let short = ltb_ℤ (traded es m).0 m.qty in
    record {
      adds = bump (m.action == add) s.adds;
      cancels = bump (m.action == cancel) s.cancels;
      modifies = bump (m.action == modify) s.modifies;
      trades = bump (m.action == trade) s.trades;
      clears = bump (m.action == clear) s.clears;
      add_duplicate = bump ((m.action == add) && not invalid && known) s.add_duplicate;
      cancel_unknown = bump ((m.action == cancel) && not known) s.cancel_unknown;
      modify_unknown = bump ((m.action == modify) && not known) s.modify_unknown;
      trade_unknown =
          bump ((m.action == trade) && not invalid && not (m.id == 0) && not known) s.trade_unknown;
      trade_over_level =
          bump ((m.action == trade) && not invalid && (m.id == 0) && short) s.trade_over_level;
      trade_over_order =
          bump ((m.action == trade) && not invalid && not (m.id == 0) && known && short)
            s.trade_over_order;
      qty_invalid = bump (((m.action == add) || (m.action == trade)) && invalid) s.qty_invalid;
    }

-- the time of the last event: an action that the book does not know leaves it
unfoldable pub stamped : Mbo → ℤ → ℤ
stamped m ts =
    if (m.action == add)
      || (m.action == cancel)
      || (m.action == modify)
      || (m.action == trade)
      || (m.action == clear)
    then m.ts
    else ts

-- ===== src/Orderbook/Trading.antt =====
-- OnTrade and OnClear refine the list of orders in priority.
use nqbook.Prelude.{
  ◌≡◌, refl, subst, Bool, true, false, not, ◌&&◌, List, [], Option, none, some, ◌==◌, if◌then◌else◌,
  Bool-cases, Option-cases, inl, inr, is_some,
}
use nqbook.Prelude.Int.{ℤ, pos, ◌-ℤ◌, ltb_ℤ, leb_ℤ}
use nqbook.Abi.{Mbo}
use nqbook.Nlib.{Ptr, Nlib}
use nqbook.Orderbook.Pool.{reset}
use nqbook.Orderbook.Book.{Book, Stats, inc64, find_order}
use nqbook.Orderbook.Feed.{tally, stamp, on_trade, on_clear, trade_order, trade_level}
use nqbook.Orderbook.Entries.{Entry, entry}
use nqbook.Orderbook.Priority.{find_entry, sweep, give, given, traded, ref_at}
use nqbook.Orderbook.Refinement.{Shows, known_entry, unknown_entry}
use nqbook.Orderbook.Filling.{fill-Gives}
use nqbook.Orderbook.LevelFill.{fill_level-Gives}
use nqbook.Orderbook.Emptied.{empty_book-Shows}
use nqbook.Orderbook.Reaction.{Ends, Shows-recorded, counts, over-Ends}

-- what OnTrade counts, of a trade that is `invalid`, or fills `filled` of the order or level
abbrev pub trade_counts : Stats → (invalid level known short : Bool) → Stats
trade_counts s invalid level known short = record s {
  trades = inc64 s.trades;
  trade_unknown =
      if not invalid && not level && not known then inc64 s.trade_unknown else s.trade_unknown;
  trade_over_level =
      if not invalid && level && short then inc64 s.trade_over_level else s.trade_over_level;
  trade_over_order =
      if not invalid && not level && known && short
      then inc64 s.trade_over_order
      else s.trade_over_order;
  qty_invalid = if invalid then inc64 s.qty_invalid else s.qty_invalid;
}

module _ {nlib : Nlib} where
  Ends-stats :
      {filled : ℤ} {es : List Entry} {st st' : Stats} {ts : ℤ} {res : Option (ℤ × Book nlib)}
      → Ends filled es st ts res
      → st ≡ st'
      → Ends filled es st' ts res
  Ends-stats {filled} {es} {ts} {res} k e = subst (λ (st : Stats). Ends filled es st ts res) e k

  module _ (b : Book nlib) (es : List Entry) (v : Shows b es) (m : Mbo) where
    abbrev b' : Book nlib
    b' = stamp m.ts (tally (λ s. record s { trades = inc64 s.trades }) b)

    v' : Shows b' es
    v' = Shows-recorded b es b'.stats m.ts v

    level_counts :
        (short : Bool)
        → (if short
            then record b'.stats { trade_over_level = inc64 b.stats.trade_over_level }
            else b'.stats)
          ≡ trade_counts b.stats false true (is_some (find_entry es m.id)) short
    level_counts true = refl
    level_counts false = refl

    order_counts :
        (short : Bool)
        → (if short
            then record b'.stats { trade_over_order = inc64 b.stats.trade_over_order }
            else b'.stats)
          ≡ trade_counts b.stats false false true short
    order_counts true = refl
    order_counts false = refl

    trade_level-Ends :
        let swept = sweep (ref_at m) m.qty es in
        Ends
          (m.qty -ℤ swept.0)
          swept.1
          (trade_counts b.stats false true
            (is_some (find_entry es m.id))
            (ltb_ℤ (m.qty -ℤ swept.0) m.qty))
          m.ts
          (trade_level b' m)
    unfolding trade_level
    trade_level-Ends =
        Ends-stats
          (over-Ends b' (λ s. record s { trade_over_level = inc64 s.trade_over_level }) m.qty _ _ _
            (fill_level-Gives b' es v' m.side m.price m.qty))
          (level_counts _)

    trade_order-Ends :
        (o : Ptr)
        → nlib.find b.orders m.id ≡ some o
        → let e = entry (b.heap o) in
          Ends
            (given e m.qty)
            (give es e m.qty)
            (trade_counts b.stats false false true (ltb_ℤ (given e m.qty) m.qty))
            m.ts
            (trade_order b' m)
    unfolding trade_order find_order
    trade_order-Ends o old =
        let (r, j, ide) = v'.inv.resting m.id o old in
        rw (trade_order, old)
          (Ends-stats
            (over-Ends b' (λ s. record s { trade_over_order = inc64 s.trade_over_order }) m.qty _ _
              _ (fill-Gives b' es v' o r j m.qty))
            (order_counts _))

    trade_unknown-Ends :
        nlib.find b.orders m.id ≡ none
        → Ends
            (pos 0)
            es
            (trade_counts b.stats false false false (ltb_ℤ (pos 0) m.qty))
            m.ts
            (trade_order b' m)
    unfolding trade_order find_order
    trade_unknown-Ends new = rw (trade_order, new) (counts b es _ m.ts v)

    -- OnTrade
    pub on_trade-Ends :
        Ends
          (traded es m).0
          (traded es m).1
          (trade_counts b.stats
            (leb_ℤ m.qty (pos 0))
            (m.id == 0)
            (is_some (find_entry es m.id))
            (ltb_ℤ (traded es m).0 m.qty))
          m.ts
          (on_trade b m)
    unfolding on_trade
    on_trade-Ends = elim (Bool-cases (leb_ℤ m.qty (pos 0))) [
      | inl bad ↦ rw bad (counts b es _ m.ts v)
      | inr good ↦ elim (Bool-cases (m.id == 0)) [
        | inl level ↦ rw (good, level) trade_level-Ends
        | inr one ↦ elim (Option-cases (nlib.find b.orders m.id)) [
          | inl new ↦ rw (good, one, traded, unknown_entry b es v m.id new) (trade_unknown-Ends new)
          | inr (o, old) ↦
              rw (good, one, traded, known_entry b es v m.id o old) (trade_order-Ends o old)
        ]
      ]
    ]

    -- OnClear
    pub on_clear-Ends :
        Ends
          (pos 0)
          []
          (record b.stats { clears = inc64 b.stats.clears })
          m.ts
          (some (pos 0, on_clear b m))
    unfolding on_clear reset
    on_clear-Ends = record {
      book = on_clear b m;
      result = refl;
      shows =
          empty_book-Shows b.heap b.pool.chunk v.inv.pooled.positive
            (record b.stats { clears = inc64 b.stats.clears }) m.ts;
      stats = refl;
      last_ts = refl;
    }

-- ===== src/Orderbook/Reaction.antt =====
-- Apply and Consume refine the list of orders in priority.
use nqbook.Prelude.{
  ◌≡◌, refl, ap, not, ◌&&◌, List, Option, some, if◌then◌else◌, Bool-cases, Option-cases, inl, inr,
  is_some, ◌>>=◌,
}
use nqbook.Prelude.Int.{ℤ, pos, ltb_ℤ, leb_ℤ}
use nqbook.Abi.{Mbo}
use nqbook.Nlib.{Nlib}
use nqbook.Orderbook.Book.{Book, Stats, inc64, find_order}
use nqbook.Orderbook.Feed.{tally, stamp, on_order, on_cancel, on_modify, over, return_zero}
use nqbook.Orderbook.Entries.{Entry}
use nqbook.Orderbook.Priority.{find_entry, added, cancelled, modified, on_known}
use nqbook.Orderbook.Refinement.{Shows, Steps, known_entry, unknown_entry}
use nqbook.Orderbook.Appending.{place-Steps}
use nqbook.Orderbook.Filling.{Gives, cancel_order-Steps, modify_order-Steps, nonpositive}

module _ {nlib : Nlib} where
  -- The result of an event: what it fills, the list that the book shows, the counters and the time.
  pub record Ends (filled : ℤ) (es : List Entry) (st : Stats) (ts : ℤ)
      (res : Option (ℤ × Book nlib)) : Type 0 where
    pub book : Book nlib
    pub result : res ≡ some (filled, book)
    pub shows : Shows book es
    pub stats : book.stats ≡ st
    pub last_ts : book.last_ts ≡ ts

  -- The counters and the time are no part of what the book shows.
  pub Shows-recorded :
      (b : Book nlib) (es : List Entry) (st : Stats) (ts : ℤ)
      → Shows b es
      → Shows (record b { stats = st; last_ts = ts }) es
  Shows-recorded b es st ts v = record {
    queues = v.queues;
    inv = record {
      chains = v.inv.chains;
      indexed = v.inv.indexed;
      resting = v.inv.resting;
      free = v.inv.free;
      pooled = v.inv.pooled;
    };
    shown = v.shown;
  }

  -- a handler that only counts
  pub counts :
      (b : Book nlib) (es : List Entry) (st : Stats) (ts : ℤ)
      → Shows b es
      → Ends (pos 0) es st ts (some (pos 0, record b { stats = st; last_ts = ts }))
  counts b es st ts v = record {
    book = record b { stats = st; last_ts = ts };
    result = refl;
    shows = Shows-recorded b es st ts v;
    stats = refl;
    last_ts = refl;
  }

  steps :
      (b : Book nlib) (es : List Entry) (res : Option (Book nlib))
      → Steps b es res
      → Ends (pos 0) es b.stats b.last_ts (return_zero res)
  steps b es res s = record {
    book = s.book;
    result = rw s.result refl;
    shows = s.shows;
    stats = s.stats;
    last_ts = s.last_ts;
  }

  -- OnOrder
  pub on_order-Ends :
      (b : Book nlib) (es : List Entry)
      → Shows b es
      → (m : Mbo)
      → (let s = b.stats in
          Ends
            (pos 0)
            (added es m)
            (record s {
              adds = inc64 s.adds;
              add_duplicate =
                  if not (leb_ℤ m.qty (pos 0)) && is_some (find_entry es m.id)
                  then inc64 s.add_duplicate
                  else s.add_duplicate;
              qty_invalid = if leb_ℤ m.qty (pos 0) then inc64 s.qty_invalid else s.qty_invalid;
            })
            m.ts
            (return_zero (on_order b m)))
  unfolding on_order
  on_order-Ends b es v m = elim (Bool-cases (leb_ℤ m.qty (pos 0))) [
    | inl bad ↦ rw bad (counts b es _ m.ts v)
    | inr good ↦ elim (Option-cases (nlib.find b.orders m.id)) [
      | inl new ↦
          rw (good, new, unknown_entry b es v m.id new)
            (steps b' _ _
              (place-Steps b' es (Shows-recorded b es _ m.ts v) m (nonpositive m.qty good) new))
      | inr (o, old) ↦ rw (good, old, known_entry b es v m.id o old) (counts b es _ m.ts v)
    ]
  ]
    where
      b' : Book nlib
      b' = stamp m.ts (tally (λ s. record s { adds = inc64 s.adds }) b)

  -- OnCancel
  pub on_cancel-Ends :
      (b : Book nlib) (es : List Entry)
      → Shows b es
      → (m : Mbo)
      → (let s = b.stats in
          Ends
            (pos 0)
            (on_known es m.id (λ e. cancelled es e m.qty))
            (record s {
              cancels = inc64 s.cancels;
              cancel_unknown =
                  if not (is_some (find_entry es m.id))
                  then inc64 s.cancel_unknown
                  else s.cancel_unknown;
            })
            m.ts
            (return_zero (on_cancel b m)))
  unfolding on_cancel find_order
  on_cancel-Ends b es v m = elim (Option-cases (nlib.find b.orders m.id)) [
    | inl new ↦ rw (on_known, on_cancel, new, unknown_entry b es v m.id new) (counts b es _ m.ts v)
    | inr (o, old) ↦
        let v' = Shows-recorded b es b'.stats m.ts v in
        let (r, j, ide) = v'.inv.resting m.id o old in
        rw (on_known, on_cancel, old, known_entry b es v m.id o old)
          (steps b' _ _ (cancel_order-Steps b' es v' o r j m.qty))
  ]
    where
      b' : Book nlib
      b' = stamp m.ts (tally (λ s. record s { cancels = inc64 s.cancels }) b)

  -- OnModify
  pub on_modify-Ends :
      (b : Book nlib) (es : List Entry)
      → Shows b es
      → (m : Mbo)
      → (let s = b.stats in
          Ends
            (pos 0)
            (on_known es m.id (λ e. modified es e m))
            (record s {
              modifies = inc64 s.modifies;
              modify_unknown =
                  if not (is_some (find_entry es m.id))
                  then inc64 s.modify_unknown
                  else s.modify_unknown;
            })
            m.ts
            (return_zero (on_modify b m)))
  unfolding on_modify find_order
  on_modify-Ends b es v m = elim (Option-cases (nlib.find b.orders m.id)) [
    | inl new ↦ rw (on_known, on_modify, new, unknown_entry b es v m.id new) (counts b es _ m.ts v)
    | inr (o, old) ↦
        let v' = Shows-recorded b es b'.stats m.ts v in
        let (r, j, ide) = v'.inv.resting m.id o old in
        rw (on_known, on_modify, old, known_entry b es v m.id o old)
          (steps b' _ _ (modify_order-Steps b' es v' o r j m))
  ]
    where
      b' : Book nlib
      b' = stamp m.ts (tally (λ s. record s { modifies = inc64 s.modifies }) b)

  -- `over` counts a trade that was not filled in full.
  pub over-Ends :
      (b : Book nlib) (f : Stats → Stats) (qty filled : ℤ) (es : List Entry)
      (res : Option (ℤ × Book nlib))
      → Gives b filled es res
      → Ends filled es
          (if ltb_ℤ filled qty then f b.stats else b.stats)
          b.last_ts
          (do r ← res; some (over f qty r))
  over-Ends b f qty filled es res g = elim (Bool-cases (ltb_ℤ filled qty)) [
    | inl short ↦
        rw (g.result, short)
          (record {
            book = tally f g.book;
            result = refl;
            shows = Shows-recorded g.book es (f g.book.stats) g.book.last_ts g.shows;
            stats = ap f g.stats;
            last_ts = g.last_ts;
          })
    | inr full ↦
        rw (g.result, full)
          (record {
            book = g.book;
            result = refl;
            shows = g.shows;
            stats = g.stats;
            last_ts = g.last_ts;
          })
  ]

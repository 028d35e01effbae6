-- ===== src/Orderbook/LevelFill.antt =====
-- The loop of FillLevel on a book that shows a list of orders.
use nqbook.Prelude.{
  ℕ, zero, suc, ◌+◌, ◌≤◌, ◌≡◌, refl, sym, ap, ◌∙◌, subst, Bool, true, false, not, List, [], ◌∷◌,
  Option, none, some, if◌then◌else◌, arith, Bool-cases, inl, inr, ◌>>=◌, length,
}
use nqbook.Prelude.Int.{ℤ, pos, ◌-ℤ◌, ltb_ℤ, int_laws}
use nqbook.Abi.{is_bid}
use nqbook.Nlib.{Nlib}
use nqbook.Orderbook.PriceLevels.{LevelRef, Level, find}
use nqbook.Orderbook.Book.{levels, Book, fill, fill_loop, fill_level}
use nqbook.Orderbook.Queues.{eq_ref, eq_ref_refl}
use nqbook.Orderbook.Entries.{Entry}
use nqbook.Orderbook.Priority.{find_entry, remove_entry, set_qty, at_level, sweep, give, given}
use nqbook.Orderbook.Selecting.{at_level-remove_entry}
use nqbook.Orderbook.Refinement.{Shows, member_entry, member_ref}
use nqbook.Orderbook.Filling.{Gives, fill-Gives}
use nqbook.Orderbook.Fronts.{is_cons, Head, Head-of, remove_entry_first, no_entries}
use nqbook.Orderbook.Sweeping.{sweep_stop, sweep_none, sweep-First}

module _ {nlib : Nlib} where
  Gives-after :
      (b b' : Book nlib) (x : ℤ) (es : List Entry) (res : Option (ℤ × Book nlib))
      → b'.stats ≡ b.stats
      → b'.last_ts ≡ b.last_ts
      → Gives b' x es res
      → Gives b x es res
  Gives-after b b' x es res e f g = record {
    book = g.book;
    result = g.result;
    shows = g.shows;
    stats = g.stats ∙ e;
    last_ts = g.last_ts ∙ f;
  }

  abbrev Loops : Book nlib → LevelRef → ℤ → List Entry → ℕ → Type 0
  Loops b r qty es k = Gives b (sweep r qty es).0 (sweep r qty es).1 (fill_loop k b r qty)

  loop_stops :
      (b : Book nlib) (es : List Entry) (v : Shows b es) (r : LevelRef) (qty : ℤ) (k : ℕ)
      → ltb_ℤ (pos 0) qty ≡ false
      → Loops b r qty es (suc k)
  unfolding fill_loop
  loop_stops b es v r qty k stop =
      rw (sweep_stop r qty es stop, stop)
        (record { book = b; result = refl; shows = v; stats = refl; last_ts = refl })

  -- One round takes from the order in front.
  module _ (b : Book nlib) (es : List Entry) (v : Shows b es) (r : LevelRef) (qty : ℤ)
      (more : ltb_ℤ (pos 0) qty ≡ true) (e : Entry) (rest : List Entry)
      (k : at_level es r ≡ e ∷ rest) (h : Head b v.queues r e rest) where
    first_found : find_entry es e.id ≡ some e
    first_found =
        subst (λ (e : Entry). find_entry es e.id ≡ some e) h.shown
          (member_entry b es v h.order r h.queued)

    first_ref : e.at ≡ r
    first_ref = sym (ap (λ (e : Entry). e.at) h.shown) ∙ member_ref b es v h.order r h.queued

    gives : Gives b (given e qty) (give es e qty) (fill b h.order qty)
    gives =
        subst (λ (e : Entry). Gives b (given e qty) (give es e qty) (fill b h.order qty)) h.shown
          (fill-Gives b es v h.order r h.queued qty)

    -- what is left at the price when the order in front is gone
    rest-at_level : at_level (remove_entry es e.id) r ≡ rest
    rest-at_level =
        at_level-remove_entry es e.id e r first_found
        ∙ ap
            (λ (s : LevelRef).
              if eq_ref s r then remove_entry (at_level es r) e.id else at_level es r)
            first_ref
        ∙ rw (eq_ref_refl r, k) (remove_entry_first e rest)

    -- The loop as a whole, where it goes on as the sweep goes on.
    round :
        (fuel : ℕ)
        → fill_loop (suc fuel) b r qty ≡ (do
          (filled, b') ← fill b h.order qty
          let rest' = fill_loop fuel b' r (qty -ℤ filled)
          if not (is_cons rest) then some (qty -ℤ filled, b') else rest')
    unfolding fill_loop
    round fuel = rw (more, h.here, h.head, h.more) refl

    sweeps : sweep r qty es ≡ (
        if ltb_ℤ qty e.qty
        then (pos 0, set_qty es e.id (e.qty -ℤ qty))
        else sweep r (qty -ℤ e.qty) (remove_entry es e.id))
    sweeps = sweep-First r qty more e rest es k first_found

    Gives-as :
        (t : Bool)
        → ltb_ℤ qty e.qty ≡ t
        → Gives b
            (if t then qty else e.qty)
            (if t then set_qty es e.id (e.qty -ℤ qty) else remove_entry es e.id)
            (fill b h.order qty)
    Gives-as t lt =
        subst
          (λ (t : Bool).
            Gives b (if t then qty else e.qty)
              (if t then set_qty es e.id (e.qty -ℤ qty) else remove_entry es e.id)
              (fill b h.order qty))
          lt gives

    -- The sweep ends in the order in front.
    ends : (fuel : ℕ) → length rest ≤ fuel → ltb_ℤ qty e.qty ≡ true → Loops b r qty es (suc fuel)
    ends fuel enough lt =
        let g = Gives-as true lt in
        let nothing : qty -ℤ qty ≡ pos 0 = omega int_laws in
        rw (round fuel, g.result, sweeps, lt, nothing) (stopped fuel rest enough g)
      where
        stopped :
            (fuel : ℕ) (rest : List Entry)
            → length rest ≤ fuel
            → (g : Gives b qty (set_qty es e.id (e.qty -ℤ qty)) (fill b h.order qty))
            → Gives b (pos 0) (set_qty es e.id (e.qty -ℤ qty)) (
                if not (is_cons rest)
                then some (pos 0, g.book)
                else fill_loop fuel g.book r (pos 0))
        stopped fuel [] enough g = record {
          book = g.book;
          result = refl;
          shows = g.shows;
          stats = g.stats;
          last_ts = g.last_ts;
        }
        stopped zero (d ∷ rest) enough g = absurd (omega arith)
        stopped (suc fuel) (d ∷ rest) enough g = Gives-after b g.book _ _ _ g.stats g.last_ts (
            rw (sweep_stop r (pos 0) (set_qty es e.id (e.qty -ℤ qty)) refl) at
              (loop_stops g.book (set_qty es e.id (e.qty -ℤ qty)) g.shows r (pos 0) fuel refl))

    -- The order in front is the last at its price.
    last_one : (fuel : ℕ) → rest ≡ [] → ltb_ℤ qty e.qty ≡ false → Loops b r qty es (suc fuel)
    last_one fuel none_left ge =
        let g = Gives-as false ge in
        rw
          (
            round fuel,
            g.result,
            none_left,
            sweeps,
            ge,
            sweep_none r (qty -ℤ e.qty) (remove_entry es e.id) (rest-at_level ∙ none_left),
          )
          (record {
            book = g.book;
            result = refl;
            shows = g.shows;
            stats = g.stats;
            last_ts = g.last_ts;
          })

    -- The sweep goes on behind the order in front.
    goes_on :
        (fuel : ℕ)
        → is_cons rest ≡ true
        → ltb_ℤ qty e.qty ≡ false
        → ((b' : Book nlib)
            → Shows b' (remove_entry es e.id)
            → Loops b' r (qty -ℤ e.qty) (remove_entry es e.id) fuel)
        → Loops b r qty es (suc fuel)
    goes_on fuel some_left ge next =
        let g = Gives-as false ge in
        rw (round fuel, g.result, some_left, sweeps, ge)
          (Gives-after b g.book _ _ _ g.stats g.last_ts (next g.book g.shows))

  -- The loop stops, or ends in the order in front, or goes on behind it.
  either_way :
      (fuel : ℕ) (b : Book nlib) (es : List Entry) (v : Shows b es) (r : LevelRef) (qty : ℤ)
      (e : Entry) (rest : List Entry)
      → at_level es r ≡ e ∷ rest
      → length rest ≤ fuel
      → (ltb_ℤ (pos 0) qty ≡ true → ltb_ℤ qty e.qty ≡ false → Loops b r qty es (suc fuel))
      → Loops b r qty es (suc fuel)
  either_way fuel b es v r qty e rest k enough behind = elim (Bool-cases (ltb_ℤ (pos 0) qty)) [
    | inr stop ↦ loop_stops b es v r qty fuel stop
    | inl more ↦ elim (Bool-cases (ltb_ℤ qty e.qty)) [
      | inl lt ↦ ends b es v r qty more e rest k (Head-of b es v r e rest k) fuel enough lt
      | inr ge ↦ behind more ge
    ]
  ]

  -- With a round for each order at the price, the loop ends, and leaves what the sweep leaves.
  pub fill_loop-Gives :
      (fuel : ℕ) (b : Book nlib) (es : List Entry) (v : Shows b es) (r : LevelRef) (qty : ℤ)
      (e : Entry) (rest : List Entry)
      → at_level es r ≡ e ∷ rest
      → length rest ≤ fuel
      → Loops b r qty es (suc fuel)
  fill_loop-Gives fuel b es v r qty e [] k enough =
      either_way fuel b es v r qty e [] k enough
        λ more ge. last_one b es v r qty more e [] k (Head-of b es v r e [] k) fuel refl ge
  fill_loop-Gives zero b es v r qty e (d ∷ rest) k enough = absurd (omega arith)
  fill_loop-Gives (suc fuel) b es v r qty e (d ∷ rest) k enough =
      either_way (suc fuel) b es v r qty e (d ∷ rest) k enough λ more ge.
        let h = Head-of b es v r e (d ∷ rest) k in
        goes_on b es v r qty more e (d ∷ rest) k h (suc fuel) refl ge λ b' v'.
          fill_loop-Gives fuel b' (remove_entry es e.id) v' r (qty -ℤ e.qty) d rest
            (rest-at_level b es v r qty more e (d ∷ rest) k h) (omega arith)

  fill_level-none :
      (b : Book nlib) (s : ℕ) (p qty : ℤ)
      → find (levels b (is_bid s)) p ≡ none
      → fill_level b s p qty ≡ some (pos 0, b)
  unfolding fill_level
  fill_level-none b s p qty e = rw (fill_level, e) refl

  fill_level-some :
      (b : Book nlib) (s : ℕ) (p qty : ℤ) (lv : Level)
      → find (levels b (is_bid s)) p ≡ some lv
      → fill_level b s p qty ≡ (do
        (remaining, b') ← fill_loop (lv.count + 1) b (record { is_bids = is_bid s; at = p }) qty
        some (qty -ℤ remaining, b'))
  unfolding fill_level
  fill_level-some b s p qty lv e = rw (fill_level, e) refl

  -- FillLevel, with or without a level at the price
  pub fill_level-Gives :
      (b : Book nlib) (es : List Entry) (v : Shows b es) (s : ℕ) (p qty : ℤ)
      → let swept = sweep (record { is_bids = is_bid s; at = p }) qty es in
        Gives b (qty -ℤ swept.0) swept.1 (fill_level b s p qty)
  fill_level-Gives b es v s p qty = at_price (at_level es r) refl
    where
      r : LevelRef
      r = record { is_bids = is_bid s; at = p }

      at_price :
          (level : List Entry)
          → at_level es r ≡ level
          → Gives b (qty -ℤ (sweep r qty es).0) (sweep r qty es).1 (fill_level b s p qty)
      at_price [] k =
          let no_order : v.queues r ≡ [] = no_entries b.heap (v.queues r) (sym (v.shown r) ∙ k) in
          let nothing : qty -ℤ qty ≡ pos 0 = omega int_laws in
          rw
            (
              fill_level-none b s p qty (v.inv.chains.filled r no_order),
              sweep_none r qty es k,
              nothing,
            )
            (record { book = b; result = refl; shows = v; stats = refl; last_ts = refl })
      at_price (e ∷ rest) k =
          let h = Head-of b es v r e rest k in
          let g = fill_loop-Gives (suc (length rest)) b es v r qty e rest k (omega arith) in
          let fuel : h.level.count + 1 ≡ suc (suc (length rest)) = omega (arith, h.count) in
          rw (fill_level-some b s p qty h.level h.here, fuel, g.result)
            (record {
              book = g.book;
              result = refl;
              shows = g.shows;
              stats = g.stats;
              last_ts = g.last_ts;
            })

  -- On a book that shows a list of orders, FillLevel returns, whatever the side, the price and the
  -- quantity: enough rounds are given. It fills what the sweep of the price takes from the list,
  -- the oldest order first, and the new book shows what the sweep leaves.
  pub fill_level-Shows :
      (b : Book nlib) (es : List Entry)
      → Shows b es
      → (s : ℕ) (p qty : ℤ)
      → (b' : Book nlib) × (fill_level b s p qty
          ≡ some (qty -ℤ (sweep (record { is_bids = is_bid s; at = p }) qty es).0, b'))
        × Shows b' (sweep (record { is_bids = is_bid s; at = p }) qty es).1
  fill_level-Shows b es v s p qty =
      let g = fill_level-Gives b es v s p qty in (g.book, g.result, g.shows)

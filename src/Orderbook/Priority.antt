-- ===== src/Orderbook/Priority.antt =====
-- The book as its users think of it: one list of the resting orders, the oldest first, in which an
-- order is looked up by its id and a price level is the part of the list at its side and price.
use nqbook.Prelude.{
  ℕ, ◌||◌, not, List, [], ◌∷◌, ◌++◌, Option, none, some, ◌==◌, if◌then◌else◌, is_some,
}
use nqbook.Prelude.Int.{ℤ, pos, ◌-ℤ◌, ltb_ℤ, leb_ℤ, eqb_ℤ}
use nqbook.Abi.{Mbo, add, cancel, modify, trade, clear, is_bid}
use nqbook.Orderbook.PriceLevels.{LevelRef}
use nqbook.Orderbook.Queues.{eq_ref}
use nqbook.Orderbook.Entries.{Entry}

-- the entry with an id
unfoldable pub find_entry : List Entry → ℕ → Option Entry
find_entry [] i = none
find_entry (e ∷ es) i = if e.id == i then some e else find_entry es i

unfoldable pub remove_entry : List Entry → ℕ → List Entry
remove_entry [] i = []
remove_entry (e ∷ es) i = let rest = remove_entry es i in if e.id == i then es else e ∷ rest

unfoldable pub set_qty : List Entry → ℕ → ℤ → List Entry
set_qty [] i q = []
set_qty (e ∷ es) i q =
    let rest = set_qty es i q in if e.id == i then record e { qty = q } ∷ es else e ∷ rest

-- a price level, in time priority
unfoldable pub at_level : List Entry → LevelRef → List Entry
at_level [] r = []
at_level (e ∷ es) r = let rest = at_level es r in if eq_ref e.at r then e ∷ rest else rest

-- An order gives up to `qty`, and is gone when nothing is left of it.
abbrev pub give : List Entry → Entry → ℤ → List Entry
give es e qty = if ltb_ℤ qty e.qty then set_qty es e.id (e.qty -ℤ qty) else remove_entry es e.id

abbrev pub given : Entry → ℤ → ℤ
given e qty = if ltb_ℤ qty e.qty then qty else e.qty

-- A trade against a price takes the oldest orders first: what is left of it, and the orders.
unfoldable pub sweep : LevelRef → ℤ → List Entry → ℤ × List Entry
sweep r qty [] = (qty, [])
sweep r qty (e ∷ es) =
    let kept = sweep r qty es in
    let taken = sweep r (qty -ℤ e.qty) es in
    if not (ltb_ℤ (pos 0) qty)
    then (qty, e ∷ es)
    else if not (eq_ref e.at r)
    then (kept.0, e ∷ kept.1)
    else if ltb_ℤ qty e.qty
    then (pos 0, record e { qty = e.qty -ℤ qty } ∷ es)
    else taken

abbrev pub ref_at : Mbo → LevelRef
ref_at m = record { is_bids = is_bid m.side; at = m.price }

abbrev pub new_entry : Mbo → Entry
new_entry m = record { id = m.id; at = ref_at m; qty = m.qty }

abbrev pub added : List Entry → Mbo → List Entry
added es m =
    if leb_ℤ m.qty (pos 0) || is_some (find_entry es m.id) then es else es ++ new_entry m ∷ []

abbrev pub cancelled : List Entry → Entry → ℤ → List Entry
cancelled es e qty = if leb_ℤ qty (pos 0) then remove_entry es e.id else give es e qty

-- Only a smaller quantity at the same price keeps the place in the queue.
abbrev pub modified : List Entry → Entry → Mbo → List Entry
modified es e m =
    let moved = record e { at = record e.at { at = m.price }; qty = m.qty } in
    if leb_ℤ m.qty (pos 0)
    then remove_entry es e.id
    else if not (eqb_ℤ m.price e.at.at) || ltb_ℤ e.qty m.qty
    then remove_entry es e.id ++ moved ∷ []
    else set_qty es e.id m.qty

-- a change of the order with an id, if there is one
abbrev pub on_known : List Entry → ℕ → (Entry → List Entry) → List Entry
on_known es i f = elim (find_entry es i) [ none ↦ es | some e ↦ f e ]

abbrev pub traded : List Entry → Mbo → ℤ × List Entry
traded es m =
    if leb_ℤ m.qty (pos 0)
    then (pos 0, es)
    else if m.id == 0
    then (let (rest, left) = sweep (ref_at m) m.qty es in (m.qty -ℤ rest, left))
    else elim (find_entry es m.id) [
      | none ↦ (pos 0, es)
      | some e ↦ (given e m.qty, give es e m.qty)
    ]

-- what an event fills, and the orders behind it
unfoldable pub react : List Entry → Mbo → ℤ × List Entry
react es m =
    if m.action == add
    then (pos 0, added es m)
    else if m.action == cancel
    then (pos 0, on_known es m.id (λ e. cancelled es e m.qty))
    else if m.action == modify
    then (pos 0, on_known es m.id (λ e. modified es e m))
    else if m.action == trade
    then traded es m
    else if m.action == clear
    then (pos 0, [])
    else (pos 0, es)

-- ===== src/Orderbook/Reading.antt =====
-- What FindOrder, FindLevel and a walk along a level's orders read from a book that shows a list.
use nqbook.Prelude.{
  ℕ, zero, suc, ◌≢◌, ◌≡◌, refl, sym, ap, subst, List, [], ◌∷◌, Option, none, some, Option-cases,
  inl, inr, length, length-map,
}
use nqbook.Prelude.Int.{ℤ, pos, ◌+ℤ◌}
use nqbook.Abi.{is_bid}
use nqbook.Nlib.{Ptr, Nlib}
use nqbook.Orderbook.PriceLevels.{LevelRef, Level}
use nqbook.Orderbook.Memory.{Heap}
use nqbook.Orderbook.Book.{Book, get_level, find_level, find_order}
use nqbook.Orderbook.Segments.{Seg}
use nqbook.Orderbook.Queues.{total, Holds, present, Describes}
use nqbook.Orderbook.Entries.{Entry, entry}
use nqbook.Orderbook.Priority.{find_entry, at_level}
use nqbook.Orderbook.Selecting.{entries}
use nqbook.Orderbook.Refinement.{Shows, known_entry, unknown_entry}

-- the quantity of a list of orders
unfoldable pub depth : List Entry → ℤ
depth [] = pos 0
depth (e ∷ es) = e.qty +ℤ depth es

-- a level as its price, quantity, count and the orders from its head along `next`
unfoldable pub walk : ℕ → Heap → Option Ptr → List Entry
walk zero h c = []
walk (suc n) h none = []
walk (suc n) h (some o) = entry (h o) ∷ walk n h (h o).next

pub record LevelView : Type 0 where
  pub price : ℤ
  pub qty : ℤ
  pub count : ℕ
  pub orders : List Entry

unfoldable pub view_level : Heap → Option Level → Option LevelView
view_level h none = none
view_level h (some lv) =
    some (record {
      price = lv.price;
      qty = lv.qty;
      count = lv.count;
      orders = walk lv.count h lv.head;
    })

-- the same of a list of orders: a price without orders has no level
unfoldable pub level_view : ℤ → List Entry → Option LevelView
level_view p [] = none
level_view p (e ∷ es) =
    some (record { price = p; qty = depth (e ∷ es); count = length (e ∷ es); orders = e ∷ es })

depth-entries : (h : Heap) (xs : List Ptr) → depth (entries h xs) ≡ total h xs
unfolding depth total
depth-entries h [] = refl
depth-entries h (x ∷ xs) = ap (λ (q : ℤ). (h x).qty +ℤ q) (depth-entries h xs)

walk-entries :
    (h : Heap) (p : Option Ptr) (xs : List Ptr) (c l : Option Ptr)
    → Seg h p xs c l none
    → walk (length xs) h c ≡ entries h xs
unfolding walk
walk-entries h p [] c l s = refl
walk-entries h p (x ∷ xs) c l s =
    subst (λ (c : Option Ptr). walk (suc (length xs)) h c ≡ entry (h x) ∷ entries h xs) (sym s.0)
      (ap (λ (es : List Entry). entry (h x) ∷ es) (walk-entries h (some x) xs (h x).next l s.2))

view-Holds :
    (h : Heap) (r : LevelRef) (xs : List Ptr) (lv : Level)
    → Holds h r xs lv
    → xs ≢ []
    → view_level h (some lv) ≡ level_view r.at (entries h xs)
unfolding view_level level_view
view-Holds h r [] lv k ne = absurd (ne refl)
view-Holds h r (x ∷ xs) lv k ne =
    rw
      (
        k.priced,
        k.summed,
        k.counted,
        walk-entries h none (x ∷ xs) lv.head lv.tail k.chain,
        depth-entries h (x ∷ xs),
        length-map xs (λ (a : Ptr). entry (h a)),
      )
      refl

nothing : (h : Heap) (p : ℤ) → view_level h none ≡ level_view p []
unfolding view_level level_view
nothing h p = refl

-- the order behind an address that FindOrder returns
unfoldable pub view_order : Heap → Option Ptr → Option Entry
view_order h none = none
view_order h (some o) = some (entry (h o))

module _ {nlib : Nlib} where
  -- On a book that shows a list of orders, FindLevel finds a level exactly where the list has an
  -- order at the side and price. Its quantity and count are the sum and the number of these orders,
  -- and the walk from its head along the links meets them in the order of the list.
  pub find_level-Shows :
      (b : Book nlib) (es : List Entry)
      → Shows b es
      → (s : ℕ) (p : ℤ)
      → view_level b.heap (find_level b s p)
        ≡ level_view p (at_level es (record { is_bids = is_bid s; at = p }))
  unfolding find_level
  find_level-Shows b es v s p = elim (Option-cases (get_level b r)) [
    | inl e ↦ rw (e, v.shown r, no_orders e) (nothing b.heap p)
    | inr (lv, e) ↦
        rw (e, v.shown r)
          (view-Holds b.heap r (v.queues r) lv (present v.inv.chains.linked r lv e)
            (λ empty. cc (v.inv.chains.filled r empty, e)))
  ]
    where
      r : LevelRef
      r = record { is_bids = is_bid s; at = p }

      no_orders : get_level b r ≡ none → v.queues r ≡ []
      no_orders e = subst (Describes b.heap r (v.queues r)) e (v.inv.chains.linked.described r)

  -- On a book that shows a list of orders, FindOrder finds the order of the list with the id.
  pub find_order-Shows :
      (b : Book nlib) (es : List Entry)
      → Shows b es
      → (id : ℕ) → view_order b.heap (find_order b id) ≡ find_entry es id
  unfolding find_order view_order
  find_order-Shows b es v id = elim (Option-cases (nlib.find b.orders id)) [
    | inl e ↦ rw e (sym (unknown_entry b es v id e))
    | inr (o, e) ↦ rw e (sym (known_entry b es v id o e))
  ]

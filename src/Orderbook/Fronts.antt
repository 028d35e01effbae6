-- ===== src/Orderbook/Fronts.antt =====
-- The order in front of a price level, in the book and in the list that it shows.
use nqbook.Prelude.{
  suc, ◌≡◌, refl, sym, ap, ◌∙◌, subst, Bool, true, false, List, [], ◌∷◌, Option, none, some, arith,
  is_some, length, length-map,
}
use nqbook.Nlib.{Ptr, Nlib}
use nqbook.Orderbook.PriceLevels.{LevelRef, Level}
use nqbook.Orderbook.Memory.{Heap}
use nqbook.Orderbook.Book.{Book, get_level}
use nqbook.Orderbook.Segments.{has, Seg}
use nqbook.Orderbook.Queues.{==_refl, present, Queues}
use nqbook.Orderbook.Chains.{level_of_member}
use nqbook.Orderbook.Entries.{Entry, entry}
use nqbook.Orderbook.Priority.{remove_entry, at_level}
use nqbook.Orderbook.Selecting.{entries}
use nqbook.Orderbook.Refinement.{Shows}

abbrev pub is_cons : List Entry → Bool
is_cons [] = false
is_cons (e ∷ es) = true

pub remove_entry_first : (e : Entry) (rest : List Entry) → remove_entry (e ∷ rest) e.id ≡ rest
unfolding remove_entry
remove_entry_first e rest = rw (==_refl e.id) refl

pub no_entries : (h : Heap) (xs : List Ptr) → entries h xs ≡ [] → xs ≡ []
no_entries h [] e = refl
no_entries h (x ∷ xs) e = cc

next_of_first :
    (h : Heap) (o : Ptr) (xs : List Ptr) (c l : Option Ptr)
    → Seg h none (o ∷ xs) c l none
    → is_some (h o).next ≡ is_cons (entries h xs)
next_of_first h o [] c l s = ap is_some s.2.0
next_of_first h o (x ∷ xs) c l s = ap is_some s.2.0

module _ {nlib : Nlib} where
  -- the order in front of a level that shows `e ∷ rest`
  pub record Head (b : Book nlib) (Q : Queues) (r : LevelRef) (e : Entry) (rest : List Entry)
      : Type 0 where
    pub order : Ptr
    pub queued : has order (Q r) ≡ true
    pub shown : entry (b.heap order) ≡ e
    pub level : Level
    pub here : get_level b r ≡ some level
    pub head : level.head ≡ some order
    pub count : level.count ≡ suc (length rest)
    pub more : is_some (b.heap order).next ≡ is_cons rest

  -- A level that shows an order has one in front.
  pub Head-of :
      (b : Book nlib) (es : List Entry) (v : Shows b es) (r : LevelRef) (e : Entry)
      (rest : List Entry)
      → at_level es r ≡ e ∷ rest
      → Head b v.queues r e rest
  Head-of b es v r e rest k = split (v.queues r) refl
    where
      split : (xs : List Ptr) → v.queues r ≡ xs → Head b v.queues r e rest
      split [] q =
          let nothing : at_level es r ≡ [] = v.shown r ∙ ap (entries b.heap) q in cc (nothing, k)
      split (o ∷ xs) q =
          let whole : entry (b.heap o) ∷ entries b.heap xs ≡ e ∷ rest =
            sym (ap (entries b.heap) q) ∙ sym (v.shown r) ∙ k in
          let first : entry (b.heap o) ≡ e = ground arith in
          let others : entries b.heap xs ≡ rest = ground arith in
          let queued : has o (v.queues r) ≡ true = rw q (ground (arith, ==_refl o)) in
          let (lv, here) = level_of_member v.inv.chains.linked r o queued in
          let was = present v.inv.chains.linked r lv here in
          let chain : Seg b.heap none (o ∷ xs) lv.head lv.tail none =
            subst (λ (xs : List Ptr). Seg b.heap none xs lv.head lv.tail none) q was.chain in
          record {
            order = o;
            queued = queued;
            shown = first;
            level = lv;
            here = here;
            head = chain.0;
            count =
                was.counted
                ∙ ap length q
                ∙ ap suc (sym (length-map xs (λ (a : Ptr). entry (b.heap a))) ∙ ap length others);
            more = next_of_first b.heap o xs lv.head lv.tail chain ∙ ap is_cons others;
          }

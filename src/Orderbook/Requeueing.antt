-- ===== src/Orderbook/Requeueing.antt =====
-- OnModify where the quantity grows behind other orders: the order goes to the end of its queue.
use nqbook.Prelude.{
  sym, ap, ◌∙◌, subst, Option-cases, inl, inr, ◌≡◌, refl, true, ◌||◌, List, [], ◌∷◌, ◌++◌, Option,
  none, some, arith, is_some,
}
use nqbook.Prelude.Int.{pos, ◌<ℤ◌}
use nqbook.Abi.{Mbo, is_bid}
use nqbook.Nlib.{Ptr, Nlib}
use nqbook.Orderbook.PriceLevels.{LevelRef, Level, Levels}
use nqbook.Orderbook.Memory.{Order, Heap}
use nqbook.Orderbook.Book.{Book, get_level, link_order}
use nqbook.Orderbook.Feed.{requeue_order}
use nqbook.Orderbook.Segments.{has, Seg}
use nqbook.Orderbook.Queues.{Alike, Own, Describes, eq_ref_refl, Queues, present, set_queue}
use nqbook.Orderbook.Unlinking.{remove, split_at, unlinked_heap-Alike_self}
use nqbook.Orderbook.Chains.{Chains, level_of_member, unlink_order-Relinks}
use nqbook.Orderbook.Joins.{link_order-Joins}
use nqbook.Orderbook.Invariant.{Inv}
use nqbook.Orderbook.Removal.{Changes, left, unlinked, gone}
use nqbook.Orderbook.Placement.{push}
use nqbook.Orderbook.Entries.{Entry, entry}
use nqbook.Orderbook.Rejoining.{apart, apart_own, apart-Chains, rejoined-Changes}

nil_parts : (ys zs : List Ptr) → ys ++ zs ≡ [] → (ys ≡ []) × (zs ≡ [])
nil_parts [] zs e = (refl, e)
nil_parts (y ∷ ys) zs e = cc

alone_at :
    (h : Heap) (o : Ptr) (c l : Option Ptr)
    → Seg h none (o ∷ []) c l none
    → ((h o).prev ≡ none) × ((h o).next ≡ none)
alone_at h o c l s = (s.1, s.2.0)

-- An order that is alone in its queue has no neighbour.
alone :
    (h : Heap) (o : Ptr) (xs : List Ptr) (c l : Option Ptr)
    → Seg h none xs c l none
    → has o xs ≡ true
    → remove o xs ≡ []
    → ((h o).prev ≡ none) × ((h o).next ≡ none)
alone h o xs c l s i e =
    let (ys, zs, whole, rest) = split_at o xs i in
    let (no_ys, no_zs) = nil_parts ys zs (sym rest ∙ e) in
    let one : xs ≡ o ∷ [] = rw (whole, no_ys, no_zs) refl in
    alone_at h o c l (subst (λ (zs : List Ptr). Seg h none zs c l none) one s)

module _ {nlib : Nlib} where
  module _ (b : Book nlib) (Q : Queues) (o : Ptr) (r : LevelRef) (v : Inv b Q)
      (i : has o (Q r) ≡ true) (m : Mbo) (positive : pos 0 <ℤ m.qty)
      (behind : (is_some (b.heap o).prev || is_some (b.heap o).next) ≡ true) where
    rest_left : ¬ (remove o (Q r) ≡ [])
    rest_left e =
        let (lv, here) = level_of_member v.chains.linked r o i in
        let was = present v.chains.linked r lv here in
        let (p, n) = alone b.heap o (Q r) lv.head lv.tail was.chain i e in
        cc (ap is_some p, ap is_some n, behind)

    module _ (bids asks : Levels)
        (k : Chains
          (unlinked b Q o r v i)
          (get_level (record b { bids = bids; asks = asks }))
          (left b Q o r v i)) where
      abbrev kept : Alike (unlinked b Q o r v i o) (record (b.heap o) { level = none })
      kept = unlinked_heap-Alike_self b.heap o

      abbrev grown : Order
      grown = record (unlinked b Q o r v i o) { qty = m.qty; ts = m.ts }

      abbrev b' : Book nlib
      b' = apart b Q o r v i bids asks k grown (Alike.id kept)

      still_there : (lv : Level) × (get_level b' r ≡ some lv)
      still_there = elim (Option-cases (get_level b' r)) [
        | inl e ↦
            let none_left : left b Q o r v i r ≡ [] =
              subst (Describes (unlinked b Q o r v i) r (left b Q o r v i r)) e
                (k.linked.described r) in
            absurd (rest_left (rw (eq_ref_refl r) at none_left))
        | inr found ↦ found
      ]

      mine : Own (record (b'.heap o) { level = some r }) r
      mine =
          let own = apart_own b Q o r v i bids asks k grown (Alike.id kept) in
          let was = v.chains.linked.own r o i in
          rw own (record {
            level = refl;
            price = Alike.price kept ∙ was.price;
            side = ap is_bid (Alike.side kept) ∙ was.side;
            positive = positive;
          })

      grown-entry : entry grown ≡ entry (record (b.heap o) { qty = m.qty })
      grown-entry = ground (arith, Alike.id kept, Alike.price kept, Alike.side kept)

      requeued_Changes :
          Changes b o
            (entry (record (b.heap o) { qty = m.qty }))
            (push (left b Q o r v i) r o)
            (link_order b' o r)
      requeued_Changes =
          let (lv, here) = still_there in
          let chains = apart-Chains b Q o r v i bids asks k grown (Alike.id kept) in
          subst (λ (e : Entry). Changes b o e (push (left b Q o r v i) r o) (link_order b' o r))
            grown-entry
            (rejoined-Changes b Q o r v i bids asks k grown (Alike.id kept) r _ (
              link_order-Joins b' (left b Q o r v i) o r lv chains.linked
                (λ s ne e. chains.filled s e) here (gone b Q o r v i) mine))

    -- An order that grows behind or before others goes to the end of its queue.
    pub requeue_order-Changes :
        Changes b o
          (entry (record (b.heap o) { qty = m.qty }))
          (push (set_queue Q r (remove o (Q r))) r o)
          (requeue_order b o m)
    unfolding requeue_order
    requeue_order-Changes =
        let k = unlink_order-Relinks b Q o r v.chains i in
        rw ((v.chains.linked.own r o i).level, k.result) (requeued_Changes k.bids k.asks k.chains)

-- ===== src/Orderbook/Rejoining.antt =====
-- OnModify where an order leaves its queue and joins one again.
use nqbook.Prelude.{
  sym, ap, ◌∙◌, subst, Bool-cases, ◌⊎◌, inl, inr, ℕ, ◌≡◌, refl, Bool, true, false, Option, none,
  some, arith, ◌==◌,
}
use nqbook.Prelude.Int.{pos, ◌<ℤ◌}
use nqbook.Abi.{Mbo, is_bid}
use nqbook.Nlib.{Ptr, Nlib}
use nqbook.Orderbook.PriceLevels.{LevelRef, Levels}
use nqbook.Orderbook.Memory.{Order}
use nqbook.Orderbook.Book.{Book, get_level, put_order}
use nqbook.Orderbook.Feed.{move_order}
use nqbook.Orderbook.Segments.{has}
use nqbook.Orderbook.Queues.{
  Alike, eq_of_==, ==_refl, Queues, Linked-same, ne_of_members, set_queue,
}
use nqbook.Orderbook.Linking.{linked_heap-Alike_self, linked_heap-Alike}
use nqbook.Orderbook.Unlinking.{remove, unlinked_heap-Alike_self}
use nqbook.Orderbook.Chains.{Chains, unlink_order-Relinks}
use nqbook.Orderbook.Joins.{Joins, join_level, join_level-Joins}
use nqbook.Orderbook.PoolInvariant.{PoolOk, PoolOk-frame}
use nqbook.Orderbook.Invariant.{Live, Inv}
use nqbook.Orderbook.Removal.{
  Changes, left, unlinked, stays, stays_of, gone, alike, outside_links, own_off,
}
use nqbook.Orderbook.Placement.{push, joined, joined-Inv}
use nqbook.Orderbook.Entries.{Entry, entry, entry-Alike, ref_of}

Alike_trans : {u v w : Order} → Alike u v → Alike v w → Alike u w
Alike_trans {u} {v} {w} e f = ground arith

module _ {nlib : Nlib} where
  module _ (b : Book nlib) (Q : Queues) (o : Ptr) (r : LevelRef) (v : Inv b Q)
      (i : has o (Q r) ≡ true) (bids asks : Levels)
      (k : Chains
        (unlinked b Q o r v i)
        (get_level (record b { bids = bids; asks = asks }))
        (left b Q o r v i))
      (w : Order) (same_id : w.id ≡ (b.heap o).id) where
    abbrev rest : Queues
    rest = left b Q o r v i

    -- the book that has the order out of its queue, with its new fields
    abbrev pub apart : Book nlib
    apart = put_order (record b { heap = unlinked b Q o r v i; bids = bids; asks = asks }) o w

    pub apart_own : apart.heap o ≡ w
    apart_own = ground (arith, ==_refl o)

    apart_others : (a : Ptr) → (o == a) ≡ false → apart.heap a ≡ unlinked b Q o r v i a
    apart_others a ne = rw ne refl

    apart_alike : (a : Ptr) → (o == a) ≡ false → Alike (apart.heap a) (b.heap a)
    apart_alike a ne =
        subst (λ (w : Order). Alike w (b.heap a)) (sym (apart_others a ne)) (alike b Q o r v i a ne)

    apart_ids : (a : Ptr) → (apart.heap a).id ≡ (b.heap a).id
    apart_ids a = elim (Bool-cases (o == a)) [
      | inl e ↦
          subst (λ (z : Ptr). (apart.heap z).id ≡ (b.heap z).id) (eq_of_== o a e)
            (ap (λ (u : Order). u.id) apart_own ∙ same_id)
      | inr ne ↦ Alike.id (apart_alike a ne)
    ]

    pub apart-Chains : Chains apart.heap (get_level apart) rest
    apart-Chains = record {
      linked =
          Linked-same apart.heap (λ s a j. apart_others a (stays b Q o r v i s a j).1) k.linked;
      filled = k.filled;
    }

    apart_pooled : PoolOk b.pool apart.heap v.free (λ a. Live rest a ⊎ (o ≡ a))
    apart_pooled =
        PoolOk-frame apart.heap (λ a. Live rest a ⊎ (o ≡ a)) v.pooled
          (λ a. elim [
            | inl (s, j) ↦ (s, (stays b Q o r v i s a j).0)
            | inr e ↦ subst (Live Q) e (r, i)
          ])
          (λ a j.
            ap (λ (u : Order). u.next)
              (apart_others a (ne_of_members o a v.free (own_off b Q o r v i) j))
            ∙ outside_links b Q o r v i a j)

    apart_resting :
        (j : ℕ) (a : Ptr)
        → nlib.find b.orders j ≡ some a
        → (Live rest a ⊎ (o ≡ a)) × ((apart.heap a).id ≡ j)
    apart_resting j a e =
        let (s, old, ide) = v.resting j a e in
        (
          elim (Bool-cases (o == a)) [
            | inl same ↦ inr (eq_of_== o a same)
            | inr ne ↦ inl (s, stays_of b Q o r v i s a old ne)
          ],
          apart_ids a ∙ ide,
        )

    -- Where the order joins the queue of `r'`, the invariant holds again.
    pub rejoined-Changes :
        (r' : LevelRef) (res : Option (Book nlib))
        → Joins apart o r' rest res
        → Changes b o (entry w) (push rest r' o) res
    rejoined-Changes r' res j = record {
      book =
          joined apart rest o r' res v.free apart_pooled j b.orders
            (λ s a k. rw (apart_ids a) (v.indexed s a (stays b Q o r v i s a k).0))
            (rw (apart_ids o) (v.indexed r o i)) apart_resting;
      result = j.relinked.result;
      inv =
          joined-Inv apart rest o r' res v.free apart_pooled j b.orders
            (λ s a k. rw (apart_ids a) (v.indexed s a (stays b Q o r v i s a k).0))
            (rw (apart_ids o) (v.indexed r o i)) apart_resting;
      alike =
          λ a ne. Alike_trans (linked_heap-Alike apart.heap o r' j.tail a ne) (apart_alike a ne);
      own = λ s a. entry-Alike (linked_heap-Alike_self apart.heap o r' j.tail) ∙ ap entry apart_own;
      stats = refl;
      last_ts = refl;
    }

  module _ (b : Book nlib) (Q : Queues) (o : Ptr) (r : LevelRef) (v : Inv b Q)
      (i : has o (Q r) ≡ true) (m : Mbo) (positive : pos 0 <ℤ m.qty) where
    -- the queue that the order moves to
    abbrev pub target : LevelRef
    target = record { is_bids = r.is_bids; at = m.price }

    abbrev shown : Entry
    shown = record { id = (b.heap o).id; at = target; qty = m.qty }

    module _ (bids asks : Levels)
        (k : Chains
          (unlinked b Q o r v i)
          (get_level (record b { bids = bids; asks = asks }))
          (left b Q o r v i)) where
      abbrev kept : Alike (unlinked b Q o r v i o) (record (b.heap o) { level = none })
      kept = unlinked_heap-Alike_self b.heap o

      abbrev moved : Order
      moved = record (unlinked b Q o r v i o) { price = m.price; qty = m.qty; ts = m.ts }

      abbrev b' : Book nlib
      b' = apart b Q o r v i bids asks k moved (Alike.id kept)

      own : b'.heap o ≡ moved
      own = apart_own b Q o r v i bids asks k moved (Alike.id kept)

      moved-Joins :
          Joins b' o (ref_of moved) (left b Q o r v i) (join_level b' moved.side m.price o)
      moved-Joins =
          subst
            (λ (w : Order).
              Joins b' o (ref_of w) (left b Q o r v i) (join_level b' w.side w.price o))
            own
            (join_level-Joins b' (left b Q o r v i) o
              (apart-Chains b Q o r v i bids asks k moved (Alike.id kept)) (gone b Q o r v i)
              (rw own positive))

      moved_ref : ref_of moved ≡ target
      moved_ref =
          ap (λ (s : Bool). record { is_bids = s; at = m.price })
            (ap is_bid (Alike.side kept) ∙ (v.chains.linked.own r o i).side)

      moved-entry : entry moved ≡ shown
      moved-entry =
          ap (λ (t : LevelRef). record { id = moved.id; at = t; qty = m.qty }) moved_ref
          ∙ ap (λ (n : ℕ). record { id = n; at = target; qty = m.qty }) (Alike.id kept)

      moved_Changes :
          Changes b o shown (push (left b Q o r v i) target o) (join_level b' moved.side m.price o)
      moved_Changes =
          subst
            (λ (t : LevelRef).
              Changes b o shown (push (left b Q o r v i) t o) (join_level b' moved.side m.price o))
            moved_ref
            (subst
              (λ (e : Entry).
                Changes b o e (push (left b Q o r v i) (ref_of moved) o)
                  (join_level b' moved.side m.price o))
              moved-entry
              (rejoined-Changes b Q o r v i bids asks k moved (Alike.id kept) (ref_of moved) _
                moved-Joins))

    -- A change of price puts the order at the end of the queue of the new price.
    pub move_order-Changes :
        Changes b o shown (push (set_queue Q r (remove o (Q r))) target o) (move_order b o m)
    unfolding move_order
    move_order-Changes =
        let k = unlink_order-Relinks b Q o r v.chains i in
        rw k.result (moved_Changes k.bids k.asks k.chains)

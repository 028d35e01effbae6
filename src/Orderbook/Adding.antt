-- ===== src/Orderbook/Adding.antt =====
-- OnOrder behind its checks: a new order takes an address of the pool and joins the book.
use nqbook.Prelude.{
  sym, ap, ◌∙◌, subst, Bool-cases, ◌⊎◌, inl, inr, ℕ, ◌≡◌, refl, Bool, true, false, none, some,
  arith, ◌==◌, if◌then◌else◌,
}
use nqbook.Prelude.Int.{pos, ◌<ℤ◌}
use nqbook.Abi.{Mbo}
use nqbook.Nlib.{Ptr, Nlib}
use nqbook.Orderbook.PriceLevels.{LevelRef}
use nqbook.Orderbook.Memory.{Order}
use nqbook.Orderbook.Links.{order_of}
use nqbook.Orderbook.Pool.{alloc}
use nqbook.Orderbook.Book.{Book, get_level, put_order}
use nqbook.Orderbook.Feed.{place}
use nqbook.Orderbook.Segments.{has}
use nqbook.Orderbook.Queues.{Alike, eq_of_==, ==_refl, Queues, Linked-same, ne_of_members}
use nqbook.Orderbook.Linking.{linked_heap-Alike_self, linked_heap-Alike}
use nqbook.Orderbook.Chains.{Chains}
use nqbook.Orderbook.Joins.{Joins, join_level, join_level-Joins}
use nqbook.Orderbook.PoolInvariant.{PoolOk, PoolOk-frame, Allocated, alloc-Allocated}
use nqbook.Orderbook.Invariant.{Live, Inv}
use nqbook.Orderbook.Entries.{entry, entry-Alike, ref_of}
use nqbook.Orderbook.Removal.{Changes}
use nqbook.Orderbook.Placement.{push, joined, joined-Inv}

module _ {nlib : Nlib} where
  module _ (b : Book nlib) (Q : Queues) (v : Inv b Q) (m : Mbo) (positive : pos 0 <ℤ m.qty)
      (unknown : nlib.find b.orders m.id ≡ none)
      (al : Allocated b.pool b.heap (Live Q) (alloc b.pool b.heap)) where
    abbrev o : Ptr
    o = al.at

    abbrev filled_in : Book nlib
    filled_in = put_order (record b { pool = al.pool; heap = al.heap }) o (order_of m)

    own : filled_in.heap o ≡ order_of m
    own = ground (arith, ==_refl o)

    off : (s : LevelRef) → has o (Q s) ≡ false
    off s = elim (Bool-cases (has o (Q s))) [ inl e ↦ absurd (al.unused (s, e)) | inr e ↦ e ]

    others : (a : Ptr) → (o == a) ≡ false → filled_in.heap a ≡ b.heap a
    others a ne = rw ne (al.same a ne)

    kept : (s : LevelRef) (a : Ptr) → has a (Q s) ≡ true → filled_in.heap a ≡ b.heap a
    kept s a i = others a (ne_of_members o a (Q s) (off s) i)

    filled_in-Chains : Chains filled_in.heap (get_level filled_in) Q
    filled_in-Chains = record {
      linked = Linked-same filled_in.heap kept v.chains.linked;
      filled = v.chains.filled;
    }

    joins : Joins filled_in o (ref_of (order_of m)) Q (join_level filled_in m.side m.price o)
    joins =
        subst
          (λ (w : Order). Joins filled_in o (ref_of w) Q (join_level filled_in w.side w.price o))
          own (join_level-Joins filled_in Q o filled_in-Chains off (rw own positive))

    abbrev orders : nlib.Map
    orders = nlib.try_emplace b.orders m.id o

    find_orders :
        (i : ℕ) → nlib.find orders i ≡ (if m.id == i then some o else nlib.find b.orders i)
    find_orders i = nlib.find-try_emplace b.orders m.id o i unknown

    find_at :
        (i : ℕ) (t : Bool)
        → (m.id == i) ≡ t
        → nlib.find orders i ≡ (if t then some o else nlib.find b.orders i)
    find_at i t e = find_orders i ∙ ap (λ (t : Bool). if t then some o else nlib.find b.orders i) e

    indexed :
        (s : LevelRef) (a : Ptr)
        → has a (Q s) ≡ true
        → nlib.find orders (filled_in.heap a).id ≡ some a
    indexed s a i = rw (kept s a i) (elim (Bool-cases (m.id == (b.heap a).id)) [
      | inl e ↦
          cc (v.indexed s a i, ap (nlib.find b.orders) (eq_of_== m.id (b.heap a).id e), unknown)
      | inr e ↦ find_at (b.heap a).id false e ∙ v.indexed s a i
    ])

    own_indexed : nlib.find orders (filled_in.heap o).id ≡ some o
    own_indexed = rw own (find_at m.id true (==_refl m.id))

    resting :
        (i : ℕ) (a : Ptr)
        → nlib.find orders i ≡ some a
        → (Live Q a ⊎ (o ≡ a)) × ((filled_in.heap a).id ≡ i)
    resting i a e = elim (Bool-cases (m.id == i)) [
      | inl same ↦
          let found : o ≡ a = ground (arith, find_at i true same) in
          (
            inr found,
            subst (λ (z : Ptr). (filled_in.heap z).id ≡ i) found
                (ap (λ (w : Order). w.id) own ∙ eq_of_== m.id i same),
          )
      | inr ne ↦
          let (s, old, ide) = v.resting i a (sym (find_at i false ne) ∙ e) in
          (inl (s, old), ap (λ (w : Order). w.id) (kept s a old) ∙ ide)
    ]

    pooled : PoolOk filled_in.pool filled_in.heap al.free (λ a. Live Q a ⊎ (o ≡ a))
    pooled =
        PoolOk-frame filled_in.heap (λ a. Live Q a ⊎ (o ≡ a)) al.fine
          (λ a. elim [ inl l ↦ inl l | inr e ↦ inr (sym e) ])
          (λ a i. rw (ne_of_members o a al.free al.off i) refl)

    abbrev book' : Book nlib
    book' =
        joined filled_in Q o (ref_of (order_of m)) _ al.free pooled joins orders indexed own_indexed
          resting

    place_at : place b m ≡ some book'
    unfolding place
    place_at = rw (al.result, joins.relinked.result) refl

    placed-Changes : Changes b o (entry (order_of m)) (push Q (ref_of (order_of m)) o) (place b m)
    placed-Changes = record {
      book = book';
      result = place_at;
      inv =
          joined-Inv filled_in Q o (ref_of (order_of m)) _ al.free pooled joins orders indexed
            own_indexed resting;
      alike = λ a ne.
          subst (λ (w : Order). Alike (book'.heap a) w) (others a ne)
            (linked_heap-Alike filled_in.heap o (ref_of (order_of m)) joins.tail a ne);
      own = λ s j.
          entry-Alike (linked_heap-Alike_self filled_in.heap o (ref_of (order_of m)) joins.tail)
          ∙ ap entry own;
      stats = refl;
      last_ts = refl;
    }

  -- An order with a positive quantity and a new id always joins, at an address no order has.
  pub place-Changes :
      (b : Book nlib) (Q : Queues)
      → Inv b Q
      → (m : Mbo) → pos 0 <ℤ m.qty
      → nlib.find b.orders m.id ≡ none
      → (o : Ptr) × ((s : LevelRef) → has o (Q s) ≡ false)
        × Changes b o (entry (order_of m)) (push Q (ref_of (order_of m)) o) (place b m)
  place-Changes b Q v m positive unknown =
      let al = alloc-Allocated b.pool b.heap v.free (Live Q) v.pooled in
      (al.at, off b Q v m positive unknown al, placed-Changes b Q v m positive unknown al)

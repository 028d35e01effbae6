-- ===== src/Orderbook/Removal.antt =====
-- RemoveOrder takes an order out of the book: out of its queue, the index and the pool.
use nqbook.Prelude.{
  sym, ap, ◌∙◌, subst, Bool-cases, inl, inr, ℕ, ◌≡◌, refl, Bool, true, false, ◌∷◌, Option, none,
  some, arith, ◌==◌, if◌then◌else◌,
}
use nqbook.Nlib.{Ptr, Nlib}
use nqbook.Orderbook.PriceLevels.{LevelRef, Levels}
use nqbook.Orderbook.Memory.{Order, Heap}
use nqbook.Orderbook.Links.{unlinked_heap}
use nqbook.Orderbook.Book.{Book, get_level, remove_order}
use nqbook.Orderbook.Segments.{has}
use nqbook.Orderbook.Queues.{
  Alike, ==_refl, has-set_queue, queues_apart, Linked-same, eq_ref, eq_ref→eq, Queues, set_queue,
  eq_of_==,
}
use nqbook.Orderbook.Unlinking.{
  remove, has-remove, has-remove_of, unlinked_heap-Alike, unlinked_heap-Alike_self, outside,
}
use nqbook.Orderbook.Chains.{Chains, unlink_order-Relinks, level_of_member}
use nqbook.Orderbook.Pool.{OrderPool, free_order}
use nqbook.Orderbook.PoolInvariant.{PoolOk, PoolOk-frame, free_order-PoolOk}
use nqbook.Orderbook.Entries.{Entry, entry}
use nqbook.Orderbook.Invariant.{Live, Inv, free_out, eq_of_id}

module _ {nlib : Nlib} where
  -- a step that makes the queues `Q`, and changes no other order than `o`; `o` shows as `e`
  pub record Changes (b : Book nlib) (o : Ptr) (e : Entry) (Q : Queues) (res : Option (Book nlib))
      : Type 0 where
    pub book : Book nlib
    pub result : res ≡ some book
    pub inv : Inv book Q
    pub alike : (a : Ptr) → (o == a) ≡ false → Alike (book.heap a) (b.heap a)
    pub own : (s : LevelRef) → has o (Q s) ≡ true → entry (book.heap o) ≡ e
    pub stats : book.stats ≡ b.stats
    pub last_ts : book.last_ts ≡ b.last_ts

  module _ (b : Book nlib) (Q : Queues) (o : Ptr) (r : LevelRef) (v : Inv b Q)
      (i : has o (Q r) ≡ true) where
    abbrev pub left : Queues
    left = set_queue Q r (remove o (Q r))

    abbrev pub unlinked : Heap
    unlinked = unlinked_heap b.heap o

    -- what stays in a queue is another order that was there
    pub stays :
        (s : LevelRef) (a : Ptr) → has a (left s) ≡ true → (has a (Q s) ≡ true) × ((o == a) ≡ false)
    stays s a j = elim (has-set_queue Q r s (remove o (Q r)) a j) [
      | inl (same, k) ↦
          let (old, ne) = has-remove o a (Q r) (v.chains.linked.distinct r) k in
          (subst (λ (t : LevelRef). has a (Q t) ≡ true) same old, ne)
      | inr (ne, k) ↦ (k, queues_apart v.chains.linked r s ne o a i k)
    ]

    -- every other order of a queue stays
    pub stays_of :
        (s : LevelRef) (a : Ptr) → has a (Q s) ≡ true → (o == a) ≡ false → has a (left s) ≡ true
    stays_of s a j ne = elim (Bool-cases (eq_ref r s)) [
      | inl e ↦ rw e (
          has-remove_of o a (Q r)
            (subst (λ (t : LevelRef). has a (Q t) ≡ true) (sym (eq_ref→eq r s e)) j) ne)
      | inr e ↦ rw e j
    ]

    pub gone : (s : LevelRef) → has o (left s) ≡ false
    gone s = elim (Bool-cases (has o (left s))) [
      | inl e ↦ cc ((stays s o e).1, ==_refl o)
      | inr e ↦ e
    ]

    pub alike : (a : Ptr) → (o == a) ≡ false → Alike (unlinked a) (b.heap a)
    alike a ne = unlinked_heap-Alike b.heap o a ne

    pub outside_links : (a : Ptr) → has a v.free ≡ true → (unlinked a).next ≡ (b.heap a).next
    outside_links a j =
        let (lv, here) = level_of_member v.chains.linked r o i in
        ap (λ (w : Order). w.next) (outside v.chains.linked o r lv here i a (free_out v a j))

    -- the pool behind UnlinkOrder
    pooled_left : PoolOk b.pool unlinked v.free (Live left)
    pooled_left =
        PoolOk-frame unlinked (Live left) v.pooled (λ a (s, j). (s, (stays s a j).0)) outside_links

    -- the order's id is still what the index has
    own_id : (unlinked o).id ≡ (b.heap o).id
    own_id = Alike.id (unlinked_heap-Alike_self b.heap o)

    id_apart :
        (s : LevelRef) (a : Ptr) → has a (left s) ≡ true → ((b.heap o).id == (b.heap a).id) ≡ false
    id_apart s a j =
        let (old, ne) = stays s a j in
        elim (Bool-cases ((b.heap o).id == (b.heap a).id)) [
          | inl e ↦
              cc (
                ap (λ (z : Ptr). o == z) (eq_of_id v r s o a i old (eq_of_== _ _ e)),
                ==_refl o,
                ne,
              )
          | inr e ↦ e
        ]

    pub own_off : has o v.free ≡ false
    own_off = elim (Bool-cases (has o v.free)) [
      | inl e ↦ absurd (v.pooled.apart o e (r, i))
      | inr e ↦ e
    ]

    apart_of_id :
        (a : Ptr) (j : ℕ) → (b.heap a).id ≡ j → ((b.heap o).id == j) ≡ false → (o == a) ≡ false
    apart_of_id a j e ne = elim (Bool-cases (o == a)) [
      | inl same ↦ cc (ap (λ (z : Ptr). (b.heap z).id) (eq_of_== o a same) ∙ e, ==_refl j, ne)
      | inr apart ↦ apart
    ]

    module _ (bids asks : Levels)
        (k : Chains unlinked (get_level (record b { bids = bids; asks = asks })) left) where
      abbrev freed : OrderPool nlib × Heap
      freed = free_order b.pool unlinked o

      abbrev book' : Book nlib
      book' = record b {
        heap = freed.1;
        bids = bids;
        asks = asks;
        orders = nlib.erase b.orders (unlinked o).id;
        pool = freed.0;
      }

      freed_same : (a : Ptr) → (o == a) ≡ false → freed.1 a ≡ unlinked a
      unfolding free_order
      freed_same a ne = ground arith

      find_left :
          (j : ℕ)
          → nlib.find book'.orders j ≡ (if (b.heap o).id == j then none else nlib.find b.orders j)
      find_left j = rw (← own_id) (nlib.find-erase b.orders (unlinked o).id j)

      find_at :
          (j : ℕ) (t : Bool)
          → ((b.heap o).id == j) ≡ t
          → nlib.find book'.orders j ≡ (if t then none else nlib.find b.orders j)
      find_at j t e = find_left j ∙ ap (λ (t : Bool). if t then none else nlib.find b.orders j) e

      same_ids : (a : Ptr) → (o == a) ≡ false → (book'.heap a).id ≡ (b.heap a).id
      same_ids a ne = ap (λ (w : Order). w.id) (freed_same a ne) ∙ Alike.id (alike a ne)

      removed-Inv : Inv book' left
      removed-Inv = record {
        chains = record {
          linked = Linked-same freed.1 (λ s a j. freed_same a (stays s a j).1) k.linked;
          filled = k.filled;
        };
        indexed = λ s a j.
            let (old, ne) = stays s a j in
            rw (same_ids a ne, find_left (b.heap a).id, id_apart s a j) (v.indexed s a old);
        resting = λ j a e. elim (Bool-cases ((b.heap o).id == j)) [
          | inl same ↦ cc (find_at j true same, e)
          | inr other ↦
              let (s, old, ide) = v.resting j a (sym (find_at j false other) ∙ e) in
              let ne : (o == a) ≡ false = apart_of_id a j ide other in
              (s, stays_of s a old ne, same_ids a ne ∙ ide)
        ];
        free = o ∷ v.free;
        pooled =
            free_order-PoolOk b.pool unlinked v.free (Live left) o pooled_left
              (v.pooled.given_live o (r, i)) own_off (λ (s, j). cc (gone s, j));
      }

      removed-Changes :
          (res : Option (Book nlib)) → res ≡ some book' → (e : Entry) → Changes b o e left res
      removed-Changes res e shown = record {
        book = book';
        result = e;
        inv = removed-Inv;
        alike =
            λ a ne. subst (λ (w : Order). Alike w (b.heap a)) (sym (freed_same a ne)) (alike a ne);
        own = λ s j. cc (gone s, j);
        stats = refl;
        last_ts = refl;
      }

    -- RemoveOrder succeeds on an order of a queue.
    pub remove_order-Changes : (e : Entry) → Changes b o e left (remove_order b o)
    unfolding remove_order
    remove_order-Changes e =
        let k = unlink_order-Relinks b Q o r v.chains i in
        removed-Changes k.bids k.asks k.chains (remove_order b o) (rw k.result refl) e

-- ===== src/Orderbook/Placement.antt =====
-- The invariant behind LinkOrder, where the index and the pool know the order.
use nqbook.Prelude.{
  sym, ap, ◌∙◌, subst, Bool-cases, ◌⊎◌, inl, inr, ℕ, ◌≡◌, true, false, [], ◌∷◌, ◌++◌, List, Option,
  some, arith, ◌==◌,
}
use nqbook.Nlib.{Ptr, Nlib}
use nqbook.Orderbook.PriceLevels.{LevelRef}
use nqbook.Orderbook.Memory.{Order}
use nqbook.Orderbook.Links.{linked_heap}
use nqbook.Orderbook.Book.{Book}
use nqbook.Orderbook.Segments.{has, has-append}
use nqbook.Orderbook.Queues.{
  Alike, eq_of_==, ==_refl, eq_ref, eq_ref→eq, eq_ref_refl, Queues, set_queue, has-set_queue,
}
use nqbook.Orderbook.Linking.{linked_heap-Alike, linked_heap-Alike_self}
use nqbook.Orderbook.Joins.{Joins}
use nqbook.Orderbook.PoolInvariant.{PoolOk, PoolOk-frame}
use nqbook.Orderbook.Invariant.{Live, Inv}

-- the queues with `o` last in the queue of `r`
abbrev pub push : Queues → LevelRef → Ptr → Queues
push Q r o = set_queue Q r (Q r ++ o ∷ [])

pub has-push :
    (Q : Queues) (r s : LevelRef) (o a : Ptr)
    → has a (push Q r o s) ≡ true
    → (has a (Q s) ≡ true) ⊎ (o ≡ a)
has-push Q r s o a i = elim (has-set_queue Q r s (Q r ++ o ∷ []) a i) [
  | inl (same, j) ↦ elim (Bool-cases (o == a)) [
    | inl e ↦ inr (eq_of_== o a e)
    | inr e ↦ inl (
        subst (λ (t : LevelRef). has a (Q t) ≡ true) same
          (ground (arith, has-append a (Q r) (o ∷ []))))
  ]
  | inr (ne, j) ↦ inl j
]

pub has-push_of :
    (Q : Queues) (r s : LevelRef) (o a : Ptr) → has a (Q s) ≡ true → has a (push Q r o s) ≡ true
has-push_of Q r s o a j = elim (Bool-cases (eq_ref r s)) [
  | inl e ↦
      let here = subst (λ (t : LevelRef). has a (Q t) ≡ true) (sym (eq_ref→eq r s e)) j in
      rw e (ground (arith, has-append a (Q r) (o ∷ [])))
  | inr e ↦ rw e j
]

pub has-push_self : (Q : Queues) (r : LevelRef) (o : Ptr) → has o (push Q r o r) ≡ true
has-push_self Q r o = rw (eq_ref_refl r) (ground (arith, has-append o (Q r) (o ∷ []), ==_refl o))

module _ {nlib : Nlib} where
  module _ (b : Book nlib) (Q : Queues) (o : Ptr) (r : LevelRef) (res : Option (Book nlib))
      (fs : List Ptr) (k : PoolOk b.pool b.heap fs (λ a. Live Q a ⊎ (o ≡ a)))
      (j : Joins b o r Q res) (orders : nlib.Map)
      (indexed : (s : LevelRef) (a : Ptr)
        → has a (Q s) ≡ true
        → nlib.find orders (b.heap a).id ≡ some a)
      (own : nlib.find orders (b.heap o).id ≡ some o)
      (resting : (i : ℕ) (a : Ptr)
        → nlib.find orders i ≡ some a
        → (Live Q a ⊎ (o ≡ a)) × ((b.heap a).id ≡ i)) where
    abbrev pub joined : Book nlib
    joined = record b {
      heap = linked_heap b.heap o r j.tail;
      bids = j.relinked.bids;
      asks = j.relinked.asks;
      orders = orders;
    }

    joined_alike : (a : Ptr) → (o == a) ≡ false → Alike (joined.heap a) (b.heap a)
    joined_alike a ne = linked_heap-Alike b.heap o r j.tail a ne

    same_ids : (a : Ptr) → (joined.heap a).id ≡ (b.heap a).id
    same_ids a = elim (Bool-cases (o == a)) [
      | inl e ↦
          subst (λ (z : Ptr). (joined.heap z).id ≡ (b.heap z).id) (eq_of_== o a e)
            (Alike.id (linked_heap-Alike_self b.heap o r j.tail))
      | inr e ↦ Alike.id (joined_alike a e)
    ]

    same_nexts : (a : Ptr) → has a fs ≡ true → (joined.heap a).next ≡ (b.heap a).next
    same_nexts a i =
        let ne : (o == a) ≡ false = elim (Bool-cases (o == a)) [
          | inl e ↦ absurd (k.apart a i (inr (eq_of_== o a e)))
          | inr e ↦ e
        ] in
        let out : (s : LevelRef) → has a (Q s) ≡ false = λ s. elim (Bool-cases (has a (Q s))) [
          | inl e ↦ absurd (k.apart a i (inl (s, e)))
          | inr e ↦ e
        ] in
        ap (λ (w : Order). w.next) (j.outside a ne out)

    live : (a : Ptr) → Live (push Q r o) a → Live Q a ⊎ (o ≡ a)
    live a (s, i) = elim (has-push Q r s o a i) [ inl old ↦ inl (s, old) | inr e ↦ inr e ]

    joins : (a : Ptr) → Live Q a ⊎ (o ≡ a) → Live (push Q r o) a
    joins a (inl (s, i)) = (s, has-push_of Q r s o a i)
    joins a (inr e) = subst (Live (push Q r o)) e (r, has-push_self Q r o)

    pub joined-Inv : Inv joined (push Q r o)
    joined-Inv = record {
      chains = j.relinked.chains;
      indexed = λ s a i. rw (same_ids a) (elim (has-push Q r s o a i) [
        | inl old ↦ indexed s a old
        | inr e ↦ subst (λ (z : Ptr). nlib.find orders (b.heap z).id ≡ some z) e own
      ]);
      resting = λ i a e.
          let (where_is, ide) = resting i a e in
          let (s, here) = joins a where_is in (s, here, same_ids a ∙ ide);
      free = fs;
      pooled = PoolOk-frame joined.heap (Live (push Q r o)) k live same_nexts;
    }

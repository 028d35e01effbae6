-- ===== src/Orderbook/Chains.antt =====
-- The internals of the book on its queues: each succeeds, and changes one queue.
use nqbook.Prelude.{
  ap, ◌∙◌, subst, Bool-cases, Option-cases, inl, inr, ℕ, ◌≡◌, refl, Bool, true, false, [], Option,
  none, some, arith, ◌==◌, length, if◌then◌else◌,
}
use nqbook.Prelude.Int.{ℤ}
use nqbook.Abi.{is_bid}
use nqbook.Nlib.{Ptr, Nlib}
use nqbook.Orderbook.PriceLevels.{LevelRef, Level, Levels, erase}
use nqbook.Orderbook.Memory.{Heap}
use nqbook.Orderbook.Links.{unlinked_level, unlinked_heap}
use nqbook.Orderbook.Book.{
  Book, levels, set_levels, get_level, put_level, unlink_order, remove_level,
}
use nqbook.Orderbook.Segments.{has}
use nqbook.Orderbook.Queues.{eq_ref, Queues, Describes, Linked, present, set_queue, eq_of_==}
use nqbook.Orderbook.Unlinking.{remove, unlinked_heap-Linked, Holds-here, empty_of_count}
use nqbook.Orderbook.Access.{get_level-put_level, get_level-erase}

-- The levels stand for the queues `Q`, and a level without orders is removed.
pub record Chains (h : Heap) (L : LevelRef → Option Level) (Q : Queues) : Type 0 where
  pub linked : Linked h L Q
  pub filled : (r : LevelRef) → Q r ≡ [] → L r ≡ none

-- an order of a queue has a level
pub level_of_member :
    {h : Heap} {L : LevelRef → Option Level} {Q : Queues} (k : Linked h L Q) (r : LevelRef)
    (a : Ptr)
    → has a (Q r) ≡ true
    → (lv : Level) × (L r ≡ some lv)
level_of_member {h} {L} {Q} k r a i = elim (Option-cases (L r)) [
  | inl e ↦ cc (ap (has a) (subst (Describes h r (Q r)) e (k.described r)), i)
  | inr found ↦ found
]

module _ {nlib : Nlib} where
  -- a step of the book that changes its heap and its levels only
  pub record Relinks (b : Book nlib) (h : Heap) (Q : Queues) (res : Option (Book nlib))
      : Type 0 where
    pub bids : Levels
    pub asks : Levels
    pub result : res ≡ some (record b { heap = h; bids = bids; asks = asks })
    pub chains : Chains h (get_level (record b { bids = bids; asks = asks })) Q

  pub relinks :
      (b : Book nlib) (h : Heap) (Q : Queues) (res : Option (Book nlib)) (b' : Book nlib)
      → res ≡ some b'
      → b' ≡ record b { heap = h; bids = b'.bids; asks = b'.asks }
      → Chains h (get_level b') Q
      → Relinks b h Q res
  relinks b h Q res b' e shape k = record {
    bids = b'.bids;
    asks = b'.asks;
    result = e ∙ ap some shape;
    chains = k;
  }

  remove_level_at :
      (b : Book nlib) (r : LevelRef) (lv : Level) (s : ℕ)
      → lv.price ≡ r.at
      → is_bid s ≡ r.is_bids
      → remove_level b lv s ≡ set_levels b r.is_bids (erase (levels b r.is_bids) r.at)
  unfolding remove_level
  remove_level_at b r lv s e f =
      ap (λ (p : ℤ). set_levels b (is_bid s) (erase (levels b (is_bid s)) p)) e
      ∙ ap (λ (t : Bool). set_levels b t (erase (levels b t) r.at)) f

  -- what UnlinkOrder makes of a book in which the order has the level `lv` at `r`
  abbrev unlinked : Book nlib → Ptr → LevelRef → Level → Book nlib
  unlinked b o r lv = put_level (record b { heap = unlinked_heap b.heap o }) r lv

  unlink_order_at :
      (b : Book nlib) (o : Ptr) (r : LevelRef) (lv : Level)
      → (b.heap o).level ≡ some r
      → get_level b r ≡ some lv
      → unlink_order b o
        ≡ some (
            let lv' = unlinked_level lv (b.heap o) in
            if lv'.count == 0
            then remove_level (unlinked b o r lv') lv' (b.heap o).side
            else unlinked b o r lv')
  unfolding unlink_order
  unlink_order_at b o r lv e f = rw (e, f)

  module _ (b : Book nlib) (Q : Queues) (o : Ptr) (r : LevelRef) (lv : Level)
      (k : Chains b.heap (get_level b) Q) (i : has o (Q r) ≡ true)
      (here : get_level b r ≡ some lv) where
    abbrev left : Queues
    left = set_queue Q r (remove o (Q r))

    abbrev level' : Level
    level' = unlinked_level lv (b.heap o)

    abbrev moved : Book nlib
    moved = record b { heap = unlinked_heap b.heap o }

    after_put :
        (s : LevelRef)
        → get_level (unlinked b o r level') s ≡ (if eq_ref r s then some level' else get_level b s)
    after_put s = get_level-put_level moved r s level' lv here

    kept_level :
        (level'.count == 0) ≡ false
        → Relinks b (unlinked_heap b.heap o) left (some (unlinked b o r level'))
    kept_level some_left =
        relinks b (unlinked_heap b.heap o) left (some (unlinked b o r level'))
          (unlinked b o r level') refl refl
          (record {
            linked =
                unlinked_heap-Linked k.linked o r lv here i (get_level (unlinked b o r level'))
                  (some level') after_put (Holds-here k.linked o r lv here i);
            filled = λ s e. elim (Bool-cases (eq_ref r s)) [
              | inl same ↦ absurd (not_empty (rw same at e))
              | inr ne ↦ rw (after_put s, ne) (k.filled s (rw ne at e))
            ];
          })
      where
        not_empty : ¬ (remove o (Q r) ≡ [])
        not_empty e = cc (
          ap (λ (n : ℕ). n == 0) ((Holds-here k.linked o r lv here i).counted ∙ ap length e),
          some_left,
        )

    abbrev emptied : Book nlib
    emptied =
        let b' = unlinked b o r level' in set_levels b' r.is_bids (erase (levels b' r.is_bids) r.at)

    after_erase :
        (s : LevelRef) → get_level emptied s ≡ (if eq_ref r s then none else get_level b s)
    after_erase s = ground (arith, get_level-erase (unlinked b o r level') r s, after_put s)

    removed_level :
        (level'.count == 0) ≡ true
        → Relinks b
            (unlinked_heap b.heap o)
            left
            (some (remove_level (unlinked b o r level') level' (b.heap o).side))
    removed_level none_left =
        relinks b (unlinked_heap b.heap o) left _ emptied
          (ap some (
            remove_level_at (unlinked b o r level') r level' (b.heap o).side
              (present k.linked r lv here).priced (k.linked.own r o i).side))
          refl
          (record {
            linked =
                unlinked_heap-Linked k.linked o r lv here i (get_level emptied) none after_erase
                  (empty_of_count k.linked o r lv here i (eq_of_== level'.count 0 none_left));
            filled = λ s e. elim (Bool-cases (eq_ref r s)) [
              | inl same ↦ rw (after_erase s, same) refl
              | inr ne ↦ rw (after_erase s, ne) (k.filled s (rw ne at e))
            ];
          })

    unlinked_either : Relinks b (unlinked_heap b.heap o) left (
        some (
          if level'.count == 0
          then remove_level (unlinked b o r level') level' (b.heap o).side
          else unlinked b o r level'))
    unlinked_either = elim (Bool-cases (level'.count == 0)) [
      | inl e ↦ rw e (removed_level e)
      | inr e ↦ rw e (kept_level e)
    ]

  -- UnlinkOrder succeeds on an order of a queue, and takes it out of the queue.
  pub unlink_order-Relinks :
      (b : Book nlib) (Q : Queues) (o : Ptr) (r : LevelRef)
      → Chains b.heap (get_level b) Q
      → has o (Q r) ≡ true
      → Relinks b (unlinked_heap b.heap o) (set_queue Q r (remove o (Q r))) (unlink_order b o)
  unlink_order-Relinks b Q o r k i =
      let (lv, here) = level_of_member k.linked r o i in
      rw (unlink_order_at b o r lv (k.linked.own r o i).level here)
        (unlinked_either b Q o r lv k i here)

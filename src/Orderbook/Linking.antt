-- ===== src/Orderbook/Linking.antt =====
-- LinkOrder adds an order to the end of its level's queue, and leaves the other queues.
use nqbook.Prelude.{
  subst, Bool-cases, inl, inr, ◌≡◌, true, false, List, [], ◌∷◌, ◌++◌, Option, none, some, arith,
  ◌==◌, if◌then◌else◌, length-append,
}
use nqbook.Prelude.Int.{int_laws}
use nqbook.Nlib.{Ptr}
use nqbook.Orderbook.PriceLevels.{LevelRef, Level}
use nqbook.Orderbook.Memory.{Heap, set_next}
use nqbook.Orderbook.Links.{linked_level, linked_heap}
use nqbook.Orderbook.Segments.{has, Distinct, Off, has-append}
use nqbook.Orderbook.Relinking.{Seg-linked_heap, Off-last}
use nqbook.Orderbook.Queues.{
  eq_ref, total, total-append, total-same, Holds, Own, Queues, Linked, present, set_queue,
  Linked-set_queue, eq_of_==, queues_apart, ne_of_members, Alike, Own-Alike,
}

-- The write of the links keeps all that is not a link.
pub linked_heap-Alike :
    (h : Heap) (o : Ptr) (r : LevelRef) (t : Option Ptr) (a : Ptr)
    → (o == a) ≡ false
    → Alike (linked_heap h o r t a) (h a)
unfolding linked_heap set_next
linked_heap-Alike h o r none a e = ground arith
linked_heap-Alike h o r (some t) a e = ground arith

pub linked_heap-Alike_self :
    (h : Heap) (o : Ptr) (r : LevelRef) (t : Option Ptr)
    → Alike (linked_heap h o r t o) (record (h o) { level = some r })
unfolding linked_heap set_next
linked_heap-Alike_self h o r none = ground arith
linked_heap-Alike_self h o r (some t) = ground arith

pub linked_heap-Off :
    (h : Heap) (o : Ptr) (r : LevelRef) (t : Option Ptr) (a : Ptr)
    → (o == a) ≡ false
    → Off t (a ∷ [])
    → linked_heap h o r t a ≡ h a
unfolding linked_heap set_next
linked_heap-Off h o r none a e f = ground arith
linked_heap-Off h o r (some t) a e f = ground arith

linked_qty :
    (h : Heap) (o : Ptr) (r : LevelRef) (t : Option Ptr) (a : Ptr)
    → (linked_heap h o r t a).qty ≡ (h a).qty
unfolding linked_heap set_next
linked_qty h o r none a = ground arith
linked_qty h o r (some t) a = ground arith

Distinct-snoc : (xs : List Ptr) (o : Ptr) → Distinct xs → has o xs ≡ false → Distinct (xs ++ o ∷ [])
Distinct-snoc [] o d off = ground arith
Distinct-snoc (x ∷ xs) o d off =
    (ground (arith, has-append x xs (o ∷ [])), Distinct-snoc xs o d.1 (ground arith))

module _ {h : Heap} {L : LevelRef → Option Level} {Q : Queues} (k : Linked h L Q) (o : Ptr)
    (r : LevelRef) (lv : Level) (here : L r ≡ some lv)
    (fresh : (s : LevelRef) → has o (Q s) ≡ false)
    (mine : Own (record (h o) { level = some r }) r) where
  abbrev after : Heap
  after = linked_heap h o r lv.tail

  Holds-here : Holds after r (Q r ++ o ∷ []) (linked_level lv o (h o).qty)
  unfolding total
  Holds-here =
      let was = present k r lv here in
      record {
        priced = was.priced;
        chain = Seg-linked_heap h o r (Q r) lv.head lv.tail (k.distinct r) (fresh r) was.chain;
        counted = omega (arith, was.counted, length-append (Q r) (o ∷ []));
        summed =
            rw
              (
                total-append after (Q r) (o ∷ []),
                total-same after h (Q r) (λ a i. linked_qty h o r lv.tail a),
                linked_qty h o r lv.tail o,
                was.summed,
              )
              (omega int_laws);
      }

  owned : (a : Ptr) → has a (Q r ++ o ∷ []) ≡ true → Own (after a) r
  owned a i = elim (Bool-cases (o == a)) [
    | inl e ↦
        subst (λ (x : Ptr). Own (after x) r) (eq_of_== o a e)
          (Own-Alike (linked_heap-Alike_self h o r lv.tail) mine)
    | inr e ↦
        Own-Alike (linked_heap-Alike h o r lv.tail a e)
          (k.own r a (ground (arith, has-append a (Q r) (o ∷ []))))
  ]

  unmoved : (s : LevelRef) (a : Ptr) → eq_ref r s ≡ false → has a (Q s) ≡ true → after a ≡ h a
  unmoved s a ne i =
      let was = present k r lv here in
      linked_heap-Off h o r lv.tail a (ne_of_members o a (Q s) (fresh s) i) (
        Off-last h (Q r) (a ∷ []) lv.head lv.tail none was.chain
          λ b j. ground (arith, queues_apart k r s ne b a j i))

  -- Another order that no queue holds is not written.
  pub outside :
      (a : Ptr) → (o == a) ≡ false → ((s : LevelRef) → has a (Q s) ≡ false) → after a ≡ h a
  outside a ne out =
      let was = present k r lv here in
      linked_heap-Off h o r lv.tail a ne (
        Off-last h (Q r) (a ∷ []) lv.head lv.tail none was.chain
          λ b j. ground (arith, ne_of_members a b (Q r) (out r) j))

  -- LinkOrder puts an order that no queue holds at the end of the queue of its level.
  pub push_queue-Linked :
      (L' : LevelRef → Option Level)
      → ((s : LevelRef) → L' s ≡ (if eq_ref r s then some (linked_level lv o (h o).qty) else L s))
      → Linked after L' (set_queue Q r (Q r ++ o ∷ []))
  push_queue-Linked L' put =
      Linked-set_queue k after L' r (Q r ++ o ∷ []) (some (linked_level lv o (h o).qty)) put
        Holds-here (Distinct-snoc (Q r) o (k.distinct r) (fresh r)) owned unmoved

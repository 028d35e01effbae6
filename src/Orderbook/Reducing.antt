-- ===== src/Orderbook/Reducing.antt =====
-- A partial cancel, fill or modify changes the quantity of one order and of its level.
use nqbook.Prelude.{
  sym, ◌∙◌, subst, Bool-cases, inl, inr, ◌≡◌, true, false, List, [], ◌∷◌, Option, none, some, arith,
  ◌==◌, if◌then◌else◌,
}
use nqbook.Prelude.Int.{ℤ, pos, ◌+ℤ◌, ◌-ℤ◌, ◌<ℤ◌, int_laws}
use nqbook.Nlib.{Ptr}
use nqbook.Orderbook.PriceLevels.{LevelRef, Level}
use nqbook.Orderbook.Memory.{Heap, write}
use nqbook.Orderbook.Segments.{has, Distinct, Seg}
use nqbook.Orderbook.Queues.{
  eq_ref, total, total-same, Holds, Own, Queues, Linked, present, set_queue, Linked-set_queue,
  eq_of_==, queues_apart, ne_of_members,
}

-- A segment is the same in two heaps with the same links.
Seg-links :
    (g h : Heap) (p : Option Ptr) (xs : List Ptr) (c l n : Option Ptr)
    → ((a : Ptr) → ((g a).prev ≡ (h a).prev) × ((g a).next ≡ (h a).next))
    → Seg h p xs c l n
    → Seg g p xs c l n
Seg-links g h p [] c l n same s = s
Seg-links g h p (x ∷ xs) c l n same s = (
  s.0,
  (same x).0 ∙ s.1,
  subst (λ (k : Option Ptr). Seg g (some x) xs k l n) (sym (same x).1)
      (Seg-links g h (some x) xs (h x).next l n same s.2),
)

module _ (h : Heap) (o : Ptr) (q by : ℤ) (splits : q +ℤ by ≡ (h o).qty) where
  abbrev pub reduced : Heap
  reduced = write h o (record (h o) { qty = q })

  reduced_links : (a : Ptr) → ((reduced a).prev ≡ (h a).prev) × ((reduced a).next ≡ (h a).next)
  reduced_links a = ground arith

  reduced_qty : (a : Ptr) → (o == a) ≡ false → (reduced a).qty ≡ (h a).qty
  reduced_qty a e = ground arith

  reduced_self : (a : Ptr) → (o == a) ≡ true → ((reduced a).qty ≡ q) × ((h a).qty ≡ q +ℤ by)
  reduced_self a e =
      (ground arith, subst (λ (z : Ptr). (h z).qty ≡ q +ℤ by) (eq_of_== o a e) (sym splits))

  total-reduced :
      (xs : List Ptr) → Distinct xs → has o xs ≡ true → total reduced xs +ℤ by ≡ total h xs
  unfolding total
  total-reduced [] d i = cc
  total-reduced (x ∷ xs) d i = elim (Bool-cases (o == x)) [
    | inl e ↦
        let (new, old) = reduced_self x e in
        let rest =
          total-same reduced h xs
            λ a j. reduced_qty a (ground (arith, ne_of_members x a xs d.0 j)) in
        rw (new, old, rest) (omega int_laws)
    | inr e ↦ rw (reduced_qty x e, ← total-reduced xs d.1 (ground arith)) (omega int_laws)
  ]

module _ {h : Heap} {L : LevelRef → Option Level} {Q : Queues} (k : Linked h L Q) (o : Ptr)
    (r : LevelRef) (lv : Level) (here : L r ≡ some lv) (member : has o (Q r) ≡ true) (q by : ℤ)
    (splits : q +ℤ by ≡ (h o).qty) (positive : pos 0 <ℤ q) where
  abbrev after : Heap
  after = reduced h o q by splits

  Holds-here : Holds after r (Q r) (record lv { qty = lv.qty -ℤ by })
  Holds-here =
      let was = present k r lv here in
      let sum = total-reduced h o q by splits (Q r) (k.distinct r) member in
      record {
        priced = was.priced;
        chain =
            Seg-links after h none (Q r) lv.head lv.tail none (reduced_links h o q by splits)
              was.chain;
        counted = was.counted;
        summed = rw (was.summed, ← sum) (omega int_laws);
      }

  owned : (a : Ptr) → has a (Q r) ≡ true → Own (after a) r
  owned a i = let was = k.own r a i in ground arith

  unmoved : (s : LevelRef) (a : Ptr) → eq_ref r s ≡ false → has a (Q s) ≡ true → after a ≡ h a
  unmoved s a ne i = ground (arith, queues_apart k r s ne o a member i)

  -- The queues stay as they are; the quantities of an order and of its level fall alike.
  pub Linked-reduced :
      (L' : LevelRef → Option Level)
      → ((s : LevelRef)
          → L' s ≡ (if eq_ref r s then some (record lv { qty = lv.qty -ℤ by }) else L s))
      → Linked after L' (set_queue Q r (Q r))
  Linked-reduced L' put =
      Linked-set_queue k after L' r (Q r) (some (record lv { qty = lv.qty -ℤ by })) put Holds-here
        (k.distinct r) owned unmoved

-- ===== src/Orderbook/Relinking.antt =====
-- LinkOrder and UnlinkOrder on the linked list of a level: one appends, the other takes out.
use nqbook.Prelude.{
  Bool-cases, inl, inr, sym, ap, ◌∙◌, subst, ◌≡◌, refl, true, false, List, [], ◌∷◌, ◌++◌, Option,
  none, some, arith, ◌==◌,
}
use nqbook.Nlib.{Ptr}
use nqbook.Orderbook.PriceLevels.{LevelRef}
use nqbook.Orderbook.Memory.{Order, Heap, write, set_next, set_prev}
use nqbook.Orderbook.Links.{linked_heap, unlinked_heap}
use nqbook.Orderbook.Segments.{
  has, Distinct, Seg, Off, has-append, Seg-write, Seg-split, Seg-append, Seg-last,
}

Seg-set_next :
    (h : Heap) (p : Option Ptr) (xs : List Ptr) (c l n a v : Option Ptr)
    → Off a xs
    → Seg h p xs c l n
    → Seg (set_next h a v) p xs c l n
unfolding set_next
Seg-set_next h p xs c l n none v off s = s
Seg-set_next h p xs c l n (some a) v off s = Seg-write h p xs c l n a _ off s

Seg-set_prev :
    (h : Heap) (p : Option Ptr) (xs : List Ptr) (c l n a v : Option Ptr)
    → Off a xs
    → Seg h p xs c l n
    → Seg (set_prev h a v) p xs c l n
unfolding set_prev
Seg-set_prev h p xs c l n none v off s = s
Seg-set_prev h p xs c l n (some a) v off s = Seg-write h p xs c l n a _ off s

write_self : (h : Heap) (a : Ptr) (v : Order) → write h a v a ≡ v
write_self h a v = ground arith

write_ne : (h : Heap) (a b : Ptr) (v : Order) → (a == b) ≡ false → write h a v b ≡ h b
write_ne h a b v e = ground arith

ne_of_has : (a b : Ptr) (xs : List Ptr) → has a xs ≡ true → has b xs ≡ false → (a == b) ≡ false
ne_of_has a b [] i o = cc
ne_of_has a b (x ∷ xs) i o = ground (arith, ne_of_has a b xs)

pub Off-of_eq :
    (l : Option Ptr) (z : Ptr) (xs : List Ptr) → l ≡ some z → has z xs ≡ false → Off l xs
Off-of_eq none z xs e o = cc
Off-of_eq (some a) z xs e o = ground arith

pub set_next-Off : (h : Heap) (a v : Option Ptr) (o : Ptr) → Off a (o ∷ []) → set_next h a v o ≡ h o
unfolding set_next
set_next-Off h none v o off = refl
set_next-Off h (some a) v o off = ground arith

-- A segment after a write to its first order.
Seg-write_first :
    (h : Heap) (p : Option Ptr) (x : Ptr) (xs : List Ptr) (l n : Option Ptr) (v : Order)
    → has x xs ≡ false
    → v.prev ≡ p
    → Seg h (some x) xs v.next l n
    → Seg (write h x v) p (x ∷ xs) (some x) l n
Seg-write_first h p x xs l n v d e s =
    let same = sym (write_self h x v) in
    (
      refl,
      ap (λ o. o.prev) (sym same) ∙ e,
      subst (λ (o : Order). Seg (write h x v) (some x) xs o.next l n) same
          (Seg-write h (some x) xs v.next l n x v d s),
    )

-- The write of `next` to the last order of a segment changes where the segment leads.
Seg-set_next_last :
    (h : Heap) (p : Option Ptr) (x : Ptr) (xs : List Ptr) (c l n v : Option Ptr)
    → Distinct (x ∷ xs)
    → Seg h p (x ∷ xs) c l n
    → Seg (set_next h l v) p (x ∷ xs) c l v
unfolding set_next
Seg-set_next_last h p x [] c l n v d s = ground arith
Seg-set_next_last h p x (y ∷ ys) c l n v d s =
    let (z, e, i) = Seg-last h (some x) y ys (h x).next l n s.2 in
    let rest = Seg-set_next_last h (some x) y ys (h x).next l n v d.1 s.2 in
    let apart =
      set_next-Off h l v x
        (Off-of_eq l z (x ∷ []) e (ground (arith, ne_of_has z x (y ∷ ys) i d.0))) in
    (
      s.0,
      ap (λ o. o.prev) apart ∙ s.1,
      subst (λ (o : Order). Seg (set_next h l v) (some x) (y ∷ ys) o.next l v) (sym apart) rest,
    )

-- The write of `prev` to the first order of a segment changes where it comes from.
Seg-set_prev_first :
    (h : Heap) (p : Option Ptr) (xs : List Ptr) (c l v : Option Ptr)
    → Distinct xs
    → Seg h p xs c l none
    → Seg (set_prev h c v) v xs c (elim c [ none ↦ v | some a ↦ l ]) none
unfolding set_prev
Seg-set_prev_first h p [] c l v d s = ground arith
Seg-set_prev_first h p (x ∷ xs) c l v d s =
    subst
      (λ (k : Option Ptr).
        Seg (set_prev h k v) v (x ∷ xs) k (elim k [ none ↦ v | some a ↦ l ]) none)
      (sym s.0) (Seg-write_first h v x xs l none (record (h x) { prev = v }) d.0 refl s.2)

Seg-set_next_end :
    (h : Heap) (xs : List Ptr) (c l n v : Option Ptr)
    → Distinct xs
    → Seg h none xs c l n
    → Seg (set_next h l v) none xs (elim l [ none ↦ v | some a ↦ c ]) l v
Seg-set_next_end h [] c l n v d s = ground arith
Seg-set_next_end h (x ∷ xs) c l n v d s =
    let (z, e, i) = Seg-last h none x xs c l n s in
    let start : c ≡ elim l [ none ↦ v | some a ↦ c ] = ground arith in
    subst (λ (k : Option Ptr). Seg (set_next h l v) none (x ∷ xs) k l v) start
      (Seg-set_next_last h none x xs c l n v d s)

-- the ends of a segment, where no order of it is among `ws`
pub Off-last :
    (h : Heap) (xs ws : List Ptr) (c l n : Option Ptr)
    → Seg h none xs c l n
    → ((a : Ptr) → has a xs ≡ true → has a ws ≡ false)
    → Off l ws
Off-last h [] ws c none n s apart = tt
Off-last h [] ws c (some l) n s apart = cc
Off-last h (x ∷ xs) ws c l n s apart =
    let (z, e, i) = Seg-last h none x xs c l n s in Off-of_eq l z ws e (apart z i)

pub Off-first :
    (h : Heap) (p : Option Ptr) (xs ws : List Ptr) (c l : Option Ptr)
    → Seg h p xs c l none
    → ((a : Ptr) → has a xs ≡ true → has a ws ≡ false)
    → Off c ws
Off-first h p [] ws none l s apart = tt
Off-first h p [] ws (some c) l s apart = cc
Off-first h p (x ∷ xs) ws c l s apart = Off-of_eq c x ws s.0 (apart x (ground arith))

pub apart_one :
    (o : Ptr) (xs : List Ptr)
    → has o xs ≡ false
    → (a : Ptr) → has a xs ≡ true
    → has a (o ∷ []) ≡ false
apart_one o xs off a i = ground (arith, ne_of_has a o xs)

-- LinkOrder puts an order at the end of a level's list, whose ends it writes to the level.
pub Seg-linked_heap :
    (h : Heap) (o : Ptr) (r : LevelRef) (xs : List Ptr) (head tail : Option Ptr)
    → Distinct xs
    → has o xs ≡ false
    → Seg h none xs head tail none
    → Seg
        (linked_heap h o r tail)
        none
        (xs ++ o ∷ [])
        (elim tail [ none ↦ some o | some t ↦ head ])
        (some o)
        none
unfolding linked_heap
Seg-linked_heap h o r xs head tail d off s =
    let v = record (h o) { level = some r; prev = tail; next = none } in
    let h' = write h o v in
    let front =
      Seg-set_next_end h' xs head tail none (some o) d
        (Seg-write h none xs head tail none o v off s) in
    let new : set_next h' tail (some o) o ≡ v =
      set_next-Off h' tail (some o) o (Off-last h xs (o ∷ []) head tail none s (apart_one o xs off))
      ∙ write_self h o v in
    let back : Seg (set_next h' tail (some o)) tail (o ∷ []) (some o) (some o) none =
      (refl, ap (λ w. w.prev) new, (ap (λ w. w.next) new, refl)) in
    Seg-append (set_next h' tail (some o)) none xs (o ∷ [])
      (elim tail [ none ↦ some o | some t ↦ head ]) (some o) none (some o) tail front back

pub Distinct-apart :
    (xs : List Ptr) (o : Ptr) (ys : List Ptr)
    → Distinct (xs ++ o ∷ ys)
    → (a : Ptr) → has a xs ≡ true
    → (has a ys ≡ false) × (has a (o ∷ []) ≡ false)
Distinct-apart [] o ys d a i = cc
Distinct-apart (x ∷ xs) o ys d a i =
    ground (arith, Distinct-apart xs o ys d.1 a, has-append x xs (o ∷ ys))

pub Distinct-parts :
    (xs : List Ptr) (o : Ptr) (ys : List Ptr)
    → Distinct (xs ++ o ∷ ys)
    → Distinct xs × (has o xs ≡ false) × (has o ys ≡ false) × Distinct ys
Distinct-parts [] o ys d = (tt, refl, d.0, d.1)
Distinct-parts (x ∷ xs) o ys d =
    let (dx, ox, oy, dy) = Distinct-parts xs o ys d.1 in
    (
      (ground (arith, has-append x xs (o ∷ ys)), dx),
      ground (arith, has-append x xs (o ∷ ys)),
      oy,
      dy,
    )

pub apart_sym :
    (xs ys : List Ptr)
    → ((a : Ptr) → has a xs ≡ true → has a ys ≡ false)
    → (a : Ptr) → has a ys ≡ true
    → has a xs ≡ false
apart_sym xs ys apart a i = elim (Bool-cases (has a xs)) [ inl e ↦ cc (apart a e) | inr e ↦ e ]

-- the three writes of UnlinkOrder, where `v` is what the second reads of the order
abbrev unlinked_from : Heap → Ptr → Order → Heap
unlinked_from h o v =
    let g = set_prev h v.next v.prev in
    write g o (record (g o) { prev = none; next = none; level = none })

-- UnlinkOrder takes an order out of a level's list, whose ends it writes to the level.
pub Seg-unlinked_heap :
    (h : Heap) (xs : List Ptr) (o : Ptr) (ys : List Ptr) (head tail : Option Ptr)
    → Distinct (xs ++ o ∷ ys)
    → Seg h none (xs ++ o ∷ ys) head tail none
    → Seg
        (unlinked_heap h o)
        none
        (xs ++ ys)
        (elim (h o).prev [ none ↦ (h o).next | some p ↦ head ])
        (elim (h o).next [ none ↦ (h o).prev | some n ↦ tail ])
        none
unfolding unlinked_heap
Seg-unlinked_heap h xs o ys head tail d s =
    let (dx, ox, oy, dy) = Distinct-parts xs o ys d in
    let (m, q, front, mid) = Seg-split h none xs (o ∷ ys) head tail none s in
    let pv = (h o).prev in
    let nx = (h o).next in
    let before : Seg h none xs head pv m =
      subst (λ (k : Option Ptr). Seg h none xs head k m) (sym mid.1) front in
    let h1 = set_next h pv nx in
    let own =
      set_next-Off h pv nx o (Off-last h xs (o ∷ []) head pv m before (apart_one o xs ox)) in
    let apart = λ (a : Ptr) (i : has a xs ≡ true). (Distinct-apart xs o ys d a i).0 in
    let front1 = Seg-set_next_end h xs head pv m nx dx before in
    let back1 =
      Seg-set_next h (some o) ys nx tail none pv nx (Off-last h xs ys head pv m before apart)
        mid.2 in
    let back2 = Seg-set_prev_first h1 (some o) ys nx tail pv dy back1 in
    let front2 =
      Seg-set_prev h1 none xs (elim pv [ none ↦ nx | some p ↦ head ]) pv nx nx pv
        (Off-first h (some o) ys xs nx tail mid.2 (apart_sym xs ys apart)) front1 in
    let h2 = set_prev h1 nx pv in
    let v = record (h2 o) { prev = none; next = none; level = none } in
    let c : Option Ptr = elim pv [ none ↦ nx | some p ↦ head ] in
    let l : Option Ptr = elim nx [ none ↦ pv | some n ↦ tail ] in
    subst (λ (w : Order). Seg (unlinked_from h1 o w) none (xs ++ ys) c l none) (sym own)
      (Seg-append (write h2 o v) none xs ys c l none nx pv
        (Seg-write h2 none xs c pv nx o v ox front2) (Seg-write h2 pv ys nx l none o v oy back2))

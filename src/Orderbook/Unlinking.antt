-- ===== src/Orderbook/Unlinking.antt =====
-- UnlinkOrder takes an order out of its level's queue, and leaves the other queues.
use nqbook.Prelude.{
  sym, ap, subst, Bool-cases, inl, inr, ℕ, suc, ◌≡◌, refl, true, false, List, [], ◌∷◌, ◌++◌, Option,
  none, some, arith, ◌==◌, length, if◌then◌else◌,
}
use nqbook.Prelude.Int.{◌+ℤ◌, int_laws}
use nqbook.Nlib.{Ptr}
use nqbook.Orderbook.PriceLevels.{LevelRef, Level}
use nqbook.Orderbook.Memory.{Order, Heap, set_next, set_prev}
use nqbook.Orderbook.Links.{unlinked_level, unlinked_heap}
use nqbook.Orderbook.Segments.{has, Distinct, Seg, Off, has-append, Seg-split}
use nqbook.Orderbook.Relinking.{
  Seg-unlinked_heap, Off-last, Off-first, Distinct-parts, set_next-Off,
}
use nqbook.Orderbook.Queues.{
  eq_ref, total, total-same, Holds, Own, Queues, Linked, present, Describes, set_queue,
  Linked-set_queue, eq_of_==, queues_apart, ne_of_members, Alike, Own-Alike,
}

pub set_next-Alike : (h : Heap) (p q : Option Ptr) (a : Ptr) → Alike (set_next h p q a) (h a)
unfolding set_next
set_next-Alike h none q a = ground arith
set_next-Alike h (some p) q a = ground arith

pub set_prev-Alike : (h : Heap) (p q : Option Ptr) (a : Ptr) → Alike (set_prev h p q a) (h a)
unfolding set_prev
set_prev-Alike h none q a = ground arith
set_prev-Alike h (some p) q a = ground arith

-- The write of the links keeps all that is not a link.
pub unlinked_heap-Alike :
    (h : Heap) (o a : Ptr) → (o == a) ≡ false → Alike (unlinked_heap h o a) (h a)
unfolding unlinked_heap
unlinked_heap-Alike h o a e =
    let h1 = set_next h (h o).prev (h o).next in
    ground
      (arith, set_next-Alike h (h o).prev (h o).next a, set_prev-Alike h1 (h1 o).next (h1 o).prev a)

pub unlinked_heap-Alike_self :
    (h : Heap) (o : Ptr) → Alike (unlinked_heap h o o) (record (h o) { level = none })
unfolding unlinked_heap
unlinked_heap-Alike_self h o =
    let h1 = set_next h (h o).prev (h o).next in
    ground
      (arith, set_next-Alike h (h o).prev (h o).next o, set_prev-Alike h1 (h1 o).next (h1 o).prev o)

set_prev-Off : (h : Heap) (a v : Option Ptr) (o : Ptr) → Off a (o ∷ []) → set_prev h a v o ≡ h o
unfolding set_prev
set_prev-Off h none v o off = refl
set_prev-Off h (some a) v o off = ground arith

pub unlinked_heap-Off :
    (h : Heap) (o a : Ptr)
    → (o == a) ≡ false
    → Off (h o).prev (o ∷ [])
    → Off (h o).prev (a ∷ [])
    → Off (h o).next (a ∷ [])
    → unlinked_heap h o a ≡ h a
unfolding unlinked_heap
unlinked_heap-Off h o a e po pa na =
    let pv = (h o).prev in
    let nx = (h o).next in
    let h1 = set_next h pv nx in
    let own = set_next-Off h pv nx o po in
    let first = set_next-Off h pv nx a pa in
    let second : set_prev h1 (h1 o).next (h1 o).prev a ≡ h1 a =
      set_prev-Off h1 (h1 o).next (h1 o).prev a
        (subst (λ (v : Order). Off v.next (a ∷ [])) (sym own) na) in
    ground (arith, first, second)

-- the list without `o`
abbrev pub remove : Ptr → List Ptr → List Ptr
remove o [] = []
remove o (x ∷ xs) = if o == x then xs else x ∷ remove o xs

pub split_at :
    (o : Ptr) (xs : List Ptr)
    → has o xs ≡ true
    → (ys : List Ptr) × (zs : List Ptr) × (xs ≡ ys ++ o ∷ zs) × (remove o xs ≡ ys ++ zs)
split_at o [] i = cc
split_at o (x ∷ xs) i = elim (Bool-cases (o == x)) [
  | inl e ↦ ([], xs, ap (λ (z : Ptr). z ∷ xs) (sym (eq_of_== o x e)), rw e refl)
  | inr e ↦
      let (ys, zs, whole, rest) = split_at o xs (ground arith) in
      (x ∷ ys, zs, ap (λ (l : List Ptr). x ∷ l) whole, rw e (ap (λ (l : List Ptr). x ∷ l) rest))
]

pub has-remove :
    (o a : Ptr) (xs : List Ptr)
    → Distinct xs
    → has a (remove o xs) ≡ true
    → (has a xs ≡ true) × ((o == a) ≡ false)
has-remove o a [] d i = cc
has-remove o a (x ∷ xs) d i = ground (arith, has-remove o a xs d.1, ne_of_members x a xs)

pub has-remove_of :
    (o a : Ptr) (xs : List Ptr) → has a xs ≡ true → (o == a) ≡ false → has a (remove o xs) ≡ true
has-remove_of o a [] i ne = cc
has-remove_of o a (x ∷ xs) i ne = ground (arith, has-remove_of o a xs)

pub not-has-remove : (o : Ptr) (xs : List Ptr) → Distinct xs → has o (remove o xs) ≡ false
not-has-remove o [] d = refl
not-has-remove o (x ∷ xs) d = elim (Bool-cases (o == x)) [
  | inl e ↦ rw e (subst (λ (z : Ptr). has z xs ≡ false) (sym (eq_of_== o x e)) d.0)
  | inr e ↦ rw (e, e) (not-has-remove o xs d.1)
]

pub Distinct-remove : (o : Ptr) (xs : List Ptr) → Distinct xs → Distinct (remove o xs)
Distinct-remove o [] d = tt
Distinct-remove o (x ∷ xs) d = ground (arith, Distinct-remove o xs d.1, has-remove o x xs d.1)

has_left : (a : Ptr) (xs ys : List Ptr) → has a xs ≡ true → has a (xs ++ ys) ≡ true
has_left a xs ys i = ground (arith, has-append a xs ys)

has_right :
    (a : Ptr) (xs : List Ptr) (o : Ptr) (ys : List Ptr)
    → has a ys ≡ true
    → has a (xs ++ o ∷ ys) ≡ true
has_right a [] o ys i = ground arith
has_right a (x ∷ xs) o ys i = ground (arith, has_right a xs o ys i)

total-remove :
    (h : Heap) (o : Ptr) (xs : List Ptr)
    → has o xs ≡ true
    → (h o).qty +ℤ total h (remove o xs) ≡ total h xs
unfolding total
total-remove h o [] i = cc
total-remove h o (x ∷ xs) i = elim (Bool-cases (o == x)) [
  | inl e ↦ rw e (ap (λ (z : Ptr). (h z).qty +ℤ total h xs) (eq_of_== o x e))
  | inr e ↦ rw (e, sym (total-remove h o xs (ground arith))) (omega int_laws)
]

length-remove : (o : Ptr) (xs : List Ptr) → has o xs ≡ true → length xs ≡ suc (length (remove o xs))
length-remove o [] i = cc
length-remove o (x ∷ xs) i = ground (arith, length-remove o xs)

nil_of_length : {n : ℕ} (xs : List Ptr) → n ≡ length xs → n ≡ 0 → xs ≡ []
nil_of_length [] e z = refl
nil_of_length (x ∷ xs) e z = absurd (omega arith)

module _ {h : Heap} {L : LevelRef → Option Level} {Q : Queues} (k : Linked h L Q) (o : Ptr)
    (r : LevelRef) (lv : Level) (here : L r ≡ some lv) (member : has o (Q r) ≡ true) where
  abbrev after : Heap
  after = unlinked_heap h o

  -- the ends of what `o` is linked to, seen from a set of other orders
  links-Off :
      (ws : List Ptr)
      → ((a : Ptr) → has a (Q r) ≡ true → (o == a) ≡ false → has a ws ≡ false)
      → Off (h o).prev ws × Off (h o).next ws
  links-Off ws apart =
      let (ys, zs, whole, rest) = split_at o (Q r) member in
      let d : Distinct (ys ++ o ∷ zs) = subst Distinct whole (k.distinct r) in
      let s : Seg h none (ys ++ o ∷ zs) lv.head lv.tail none =
        subst (λ (l : List Ptr). Seg h none l lv.head lv.tail none) whole
          (present k r lv here).chain in
      let (m, q, front, mid) = Seg-split h none ys (o ∷ zs) lv.head lv.tail none s in
      let (dy, oy, oz, dz) = Distinct-parts ys o zs d in
      (
        subst (λ (p : Option Ptr). Off p ws) (sym mid.1)
            (Off-last h ys ws lv.head q m front
              λ a i. apart a (rw whole (has_left a ys (o ∷ zs) i)) (ne_of_members o a ys oy i)),
        Off-first h (some o) zs ws (h o).next lv.tail mid.2
            λ a i. apart a (rw whole (has_right a ys o zs i)) (ne_of_members o a zs oz i),
      )

  qty_same : (a : Ptr) → has a (remove o (Q r)) ≡ true → (after a).qty ≡ (h a).qty
  qty_same a i = Alike.qty (unlinked_heap-Alike h o a (has-remove o a (Q r) (k.distinct r) i).1)

  pub Holds-here : Holds after r (remove o (Q r)) (unlinked_level lv (h o))
  Holds-here =
      let was = present k r lv here in
      let (ys, zs, whole, rest) = split_at o (Q r) member in
      record {
        priced = was.priced;
        chain = rw rest (
            Seg-unlinked_heap h ys o zs lv.head lv.tail (subst Distinct whole (k.distinct r))
              (subst (λ (l : List Ptr). Seg h none l lv.head lv.tail none) whole was.chain));
        counted = omega (arith, was.counted, length-remove o (Q r) member);
        summed =
            rw
              (
                was.summed,
                total-same after h (remove o (Q r)) qty_same,
                sym (total-remove h o (Q r) member),
              )
              (omega int_laws);
      }

  owned : (a : Ptr) → has a (remove o (Q r)) ≡ true → Own (after a) r
  owned a i =
      let (old, ne) = has-remove o a (Q r) (k.distinct r) i in
      Own-Alike (unlinked_heap-Alike h o a ne) (k.own r a old)

  apart_from :
      (a : Ptr)
      → ((b : Ptr) → has b (Q r) ≡ true → (o == b) ≡ false → (b == a) ≡ false)
      → Off (h o).prev (a ∷ []) × Off (h o).next (a ∷ [])
  apart_from a apart = links-Off (a ∷ []) λ b i ne. ground (arith, apart b i ne)

  unmoved : (s : LevelRef) (a : Ptr) → eq_ref r s ≡ false → has a (Q s) ≡ true → after a ≡ h a
  unmoved s a ne i =
      let self = (apart_from o λ b j e. ground arith).0 in
      let (pa, na) = apart_from a λ b j e. queues_apart k r s ne b a j i in
      unlinked_heap-Off h o a (queues_apart k r s ne o a member i) self pa na

  -- An order that no queue holds is not written.
  pub outside : (a : Ptr) → ((s : LevelRef) → has a (Q s) ≡ false) → after a ≡ h a
  outside a out =
      let self = (apart_from o λ b j e. ground arith).0 in
      let (pa, na) = apart_from a λ b j e. ground (arith, ne_of_members a b (Q r) (out r) j) in
      unlinked_heap-Off h o a (ground (arith, ne_of_members a o (Q r) (out r) member)) self pa na

  -- UnlinkOrder takes an order out of its queue; its level is written or removed.
  pub unlinked_heap-Linked :
      (L' : LevelRef → Option Level) (lv' : Option Level)
      → ((s : LevelRef) → L' s ≡ (if eq_ref r s then lv' else L s))
      → Describes after r (remove o (Q r)) lv'
      → Linked after L' (set_queue Q r (remove o (Q r)))
  unlinked_heap-Linked L' lv' put describes =
      Linked-set_queue k after L' r (remove o (Q r)) lv' put describes
        (Distinct-remove o (Q r) (k.distinct r)) owned unmoved

  pub empty_of_count : (unlinked_level lv (h o)).count ≡ 0 → remove o (Q r) ≡ []
  empty_of_count e = nil_of_length (remove o (Q r)) (Holds-here.counted) e

-- ===== src/Orderbook/Segments.antt =====
-- Segments of the doubly linked list of a level, in the heap of orders.
use nqbook.Prelude.{
  ◌⊎◌, inl, inr, Bool-cases, sym, ap, ◌∙◌, subst, ◌≡◌, refl, Bool, true, false, ◌||◌, List, [], ◌∷◌,
  ◌++◌, Option, none, some, arith, ◌==◌,
}
use nqbook.Nlib.{Ptr}
use nqbook.Orderbook.Memory.{Order, Heap, write}

abbrev pub has : Ptr → List Ptr → Bool
has a [] = false
has a (x ∷ xs) = (a == x) || has a xs

abbrev pub Distinct : List Ptr → Type 0
Distinct [] = Unit {0}
Distinct (x ∷ xs) = (has x xs ≡ false) × Distinct xs

-- From `c`, whose predecessor is `p`, the orders `xs` lead to `n`; the last of them is `l`.
abbrev pub Seg :
    Heap → (p : Option Ptr) → List Ptr → (c : Option Ptr) → (l : Option Ptr) → Option Ptr → Type 0
Seg h p [] c l n = (c ≡ n) × (l ≡ p)
Seg h p (x ∷ xs) c l n = (c ≡ some x) × ((h x).prev ≡ p) × Seg h (some x) xs (h x).next l n

-- an address that is none of `xs`
abbrev pub Off : Option Ptr → List Ptr → Type 0
Off none xs = Unit {0}
Off (some a) xs = has a xs ≡ false

pub has-append : (a : Ptr) (xs ys : List Ptr) → has a (xs ++ ys) ≡ (has a xs || has a ys)
has-append a [] ys = refl
has-append a (x ∷ xs) ys = ground (arith, has-append a xs ys)

-- A write elsewhere leaves a segment.
pub Seg-write :
    (h : Heap) (p : Option Ptr) (xs : List Ptr) (c l n : Option Ptr) (a : Ptr) (v : Order)
    → has a xs ≡ false
    → Seg h p xs c l n
    → Seg (write h a v) p xs c l n
Seg-write h p [] c l n a v off s = s
Seg-write h p (x ∷ xs) c l n a v off s = ground (arith, Seg-write h (some x) xs (h x).next l n a v)

pub Seg-split :
    (h : Heap) (p : Option Ptr) (xs ys : List Ptr) (c l n : Option Ptr)
    → Seg h p (xs ++ ys) c l n
    → (m : Option Ptr) × (q : Option Ptr) × Seg h p xs c q m × Seg h q ys m l n
Seg-split h p [] ys c l n s = (c, p, (refl, refl), s)
Seg-split h p (x ∷ xs) ys c l n s =
    let (m, q, front, back) = Seg-split h (some x) xs ys (h x).next l n s.2 in
    (m, q, (s.0, s.1, front), back)

pub Seg-append :
    (h : Heap) (p : Option Ptr) (xs ys : List Ptr) (c l n m q : Option Ptr)
    → Seg h p xs c q m
    → Seg h q ys m l n
    → Seg h p (xs ++ ys) c l n
Seg-append h p [] ys c l n m q s t = ground arith
Seg-append h p (x ∷ xs) ys c l n m q s t =
    (s.0, s.1, Seg-append h (some x) xs ys (h x).next l n m q s.2 t)

-- The last order of a segment is one of its orders.
pub Seg-last :
    (h : Heap) (p : Option Ptr) (x : Ptr) (xs : List Ptr) (c l n : Option Ptr)
    → Seg h p (x ∷ xs) c l n
    → (z : Ptr) × (l ≡ some z) × (has z (x ∷ xs) ≡ true)
Seg-last h p x [] c l n s = (x, s.2.1, ground arith)
Seg-last h p x (y ∷ ys) c l n s =
    let (z, e, i) = Seg-last h (some x) y ys (h x).next l n s.2 in (z, e, ground arith)

-- A segment is the same in two heaps that agree on its orders.
pub Seg-same :
    (g h : Heap) (p : Option Ptr) (xs : List Ptr) (c l n : Option Ptr)
    → ((a : Ptr) → has a xs ≡ true → g a ≡ h a)
    → Seg h p xs c l n
    → Seg g p xs c l n
Seg-same g h p [] c l n same s = s
Seg-same g h p (x ∷ xs) c l n same s =
    let e : g x ≡ h x = same x (ground arith) in
    (
      s.0,
      ap (λ (v : Order). v.prev) e ∙ s.1,
      subst (λ (v : Order). Seg g (some x) xs v.next l n) (sym e)
          (Seg-same g h (some x) xs (h x).next l n (λ a i. same a (ground arith)) s.2),
    )

pub has-cases : (a x : Ptr) (xs : List Ptr) → has a (x ∷ xs) ≡ true → (a ≡ x) ⊎ (has a xs ≡ true)
has-cases a x xs i = elim (Bool-cases (a == x)) [
  | inl e ↦ inl (ground arith)
  | inr e ↦ inr (ground arith)
]

-- ===== src/Orderbook/Allocation.antt =====
-- OrderPool hands out an address that no order of the book has, and always has one.
use nqbook.Prelude.{
  ℕ, ◌<◌, ◌≡◌, refl, ◌∙◌, ◌⊎◌, inl, inr, List, [], ◌∷◌, Option, none, some, arith, length,
}
use nqbook.Nlib.{Ptr, Nlib}
use nqbook.Orderbook.Memory.{Heap}
use nqbook.Orderbook.Pool.{OrderPool, grow, take_back, take_fresh}

-- the free list from `c`
abbrev pub FreeList : Heap → Option Ptr → List Ptr → Type 0
FreeList h c [] = c ≡ none
FreeList h c (x ∷ xs) = (c ≡ some x) × FreeList h (h x).next xs

module _ (nlib : Nlib) where
  open nlib use {Slab, number, make, allocate, Gave}

  -- an address that one of the pools gave
  abbrev pub Given : List Slab → Ptr → Type 0
  Given [] a = ⊥
  Given (s ∷ ss) a = Gave s a ⊎ Given ss a

  -- the pools carry their numbers
  abbrev pub Numbered : List Slab → Type 0
  Numbered [] = Unit {0}
  Numbered (s ∷ ss) = (number s ≡ length ss) × Numbered ss

  Given-number :
      (ss : List Slab) (a : Ptr)
      → Numbered ss
      → Given ss a
      → (t : Slab) × Gave t a × (number t < length ss)
  Given-number [] a n g = absurd g
  Given-number (s ∷ ss) a n (inl g) = (s, g, omega arith)
  Given-number (s ∷ ss) a n (inr g) =
      let (t, gt, lt) = Given-number ss a n.1 g in (t, gt, omega arith)

  -- A new address `o` came from the pools `old`, which are `new` now.
  pub record Taken (old new : List Slab) (o : Ptr) : Type 0 where
    pub fresh : ¬ Given old o
    pub mine : Given new o
    pub keeps : (a : Ptr) → Given old a → Given new a
    pub numbers : Numbered new

  take_head :
      (s : Slab) (ss : List Slab) (o : Ptr)
      → Numbered (s ∷ ss)
      → (allocate s).0 ≡ some o
      → Taken (s ∷ ss) ((allocate s).1 ∷ ss) o
  take_head s ss o n e =
      let mine = (nlib.Gave-allocate s o).1 (inr e) in
      record {
        fresh = elim [
          | inl g ↦ nlib.not-Gave_fresh s o e g
          | inr g ↦
              let (t, gt, lt) = Given-number ss o n.1 g in
              absurd (
                omega
                  (arith, nlib.Gave_apart t (allocate s).1 o gt mine, nlib.number-allocate s, n.0))
        ];
        mine = inl mine;
        keeps = λ a. elim [ inl g ↦ inl ((nlib.Gave-allocate s a).1 (inl g)) | inr g ↦ inr g ];
        numbers = (nlib.number-allocate s ∙ n.0, n.1);
      }

  take_new :
      (ss : List Slab) (c : ℕ) (o : Ptr)
      → Numbered ss
      → (allocate (make (length ss) c)).0 ≡ some o
      → Taken ss ((allocate (make (length ss) c)).1 ∷ ss) o
  take_new ss c o n e =
      let s = make (length ss) c in
      let taken = take_head s ss o (nlib.number-make (length ss) c, n) e in
      record {
        fresh = λ g. taken.fresh (inr g);
        mine = taken.mine;
        keeps = λ a g. taken.keeps a (inr g);
        numbers = taken.numbers;
      }

  -- What `Alloc` takes where the free list is empty.
  pub record Fresh (p : OrderPool nlib) (r : Option Ptr × OrderPool nlib) : Type 0 where
    pub at : Ptr
    pub found : r.0 ≡ some at
    pub taken : Taken p.chunks r.1.chunks at
    pub kept : r.1.free ≡ p.free
    pub positive : 0 < r.1.chunk

  grow-Fresh : (p : OrderPool nlib) → Numbered p.chunks → 0 < p.chunk → Fresh p (grow p)
  unfolding grow
  grow-Fresh p n c =
      let (o, e) = nlib.allocate-make (length p.chunks) p.chunk c in
      record {
        at = o;
        found = e;
        taken = take_new p.chunks p.chunk o n e;
        kept = refl;
        positive = omega arith;
      }

  -- A pool that gave nothing is kept.
  keep_head :
      (s : Slab) (ss : List Slab)
      → Numbered (s ∷ ss)
      → Numbered ((allocate s).1 ∷ ss)
        × ((a : Ptr) → Given (s ∷ ss) a → Given ((allocate s).1 ∷ ss) a)
  keep_head s ss n = (
    (nlib.number-allocate s ∙ n.0, n.1),
    λ a. elim [ inl g ↦ inl ((nlib.Gave-allocate s a).1 (inl g)) | inr g ↦ inr g ],
  )

  take_fresh-Fresh :
      (p : OrderPool nlib) (s : Slab) (ss : List Slab) (o : Option Ptr)
      → p.chunks ≡ s ∷ ss
      → (allocate s).0 ≡ o
      → Numbered (s ∷ ss)
      → 0 < p.chunk
      → Fresh p (take_fresh o (record p { chunks = (allocate s).1 ∷ ss }))
  unfolding take_fresh
  take_fresh-Fresh p s ss (some o) e given n c = record {
    at = o;
    found = refl;
    taken = rw e (take_head s ss o n given);
    kept = refl;
    positive = c;
  }
  take_fresh-Fresh p s ss none e given n c =
      let (n', keeps) = keep_head s ss n in
      let f = grow-Fresh (record p { chunks = (allocate s).1 ∷ ss }) n' c in
      record {
        at = f.at;
        found = f.found;
        taken = record {
          fresh = rw e λ g. f.taken.fresh (keeps f.at g);
          mine = f.taken.mine;
          keeps = rw e λ a g. f.taken.keeps a (keeps a g);
          numbers = f.taken.numbers;
        };
        kept = f.kept;
        positive = f.positive;
      }

  pub take_back-Fresh :
      (p : OrderPool nlib) (ss : List Slab)
      → p.chunks ≡ ss
      → Numbered ss
      → 0 < p.chunk
      → Fresh p (take_back ss p)
  unfolding take_back take_fresh
  take_back-Fresh p [] e n c = grow-Fresh p (rw e n) c
  take_back-Fresh p (s ∷ ss) e n c = take_fresh-Fresh p s ss (allocate s).0 e refl n c

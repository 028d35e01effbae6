-- ===== src/Orderbook/PoolInvariant.antt =====
-- What holds of the pool of a book: its free list and the orders in use are apart, and every
-- address comes from one of its chunks.
use nqbook.Prelude.{
  ◌<◌, ◌≡◌, refl, sym, ap, ◌∙◌, subst, true, false, ◌⊎◌, inl, inr, List, [], ◌∷◌, Option, none,
  some, arith, ◌==◌,
}
use nqbook.Nlib.{Ptr, Nlib}
use nqbook.Orderbook.Memory.{Heap, blank, write}
use nqbook.Orderbook.Pool.{OrderPool, take_back, construct, alloc, alloc_from, free_order}
use nqbook.Orderbook.Segments.{has, Distinct, has-cases}
use nqbook.Orderbook.Queues.{ne_of_members}
use nqbook.Orderbook.Allocation.{FreeList, Given, Numbered, Fresh, take_back-Fresh}

FreeList-same :
    (g h : Heap) (c : Option Ptr) (xs : List Ptr)
    → ((a : Ptr) → has a xs ≡ true → (g a).next ≡ (h a).next)
    → FreeList h c xs
    → FreeList g c xs
FreeList-same g h c [] same f = f
FreeList-same g h c (x ∷ xs) same f = (
  f.0,
  subst (λ (k : Option Ptr). FreeList g k xs) (sym (same x (ground arith)))
      (FreeList-same g h (h x).next xs (λ a i. same a (ground arith)) f.1),
)

module _ {nlib : Nlib} where
  -- `fs` are the addresses of the free list, and `Live` are those in use.
  pub record PoolOk (p : OrderPool nlib) (h : Heap) (fs : List Ptr) (Live : Ptr → Type 0)
      : Type 0 where
    pub listed : FreeList h p.free fs
    pub distinct : Distinct fs
    pub given_free : (a : Ptr) → has a fs ≡ true → Given nlib p.chunks a
    pub given_live : (a : Ptr) → Live a → Given nlib p.chunks a
    pub numbers : Numbered nlib p.chunks
    pub positive : 0 < p.chunk
    pub apart : (a : Ptr) → has a fs ≡ true → ¬ Live a

  -- The invariant holds for fewer orders in use, and in a heap with the same free list.
  pub PoolOk-frame :
      {p : OrderPool nlib} {h : Heap} {fs : List Ptr} {Live : Ptr → Type 0} (g : Heap)
      (Live' : Ptr → Type 0)
      → PoolOk p h fs Live
      → ((a : Ptr) → Live' a → Live a)
      → ((a : Ptr) → has a fs ≡ true → (g a).next ≡ (h a).next)
      → PoolOk p g fs Live'
  PoolOk-frame {p} {h} {fs} g Live' k fewer same = record {
    listed = FreeList-same g h p.free fs same k.listed;
    distinct = k.distinct;
    given_free = k.given_free;
    given_live = λ a l. k.given_live a (fewer a l);
    numbers = k.numbers;
    positive = k.positive;
    apart = λ a i l. k.apart a i (fewer a l);
  }

  -- an allocation: the address, the pool and the heap behind it
  pub record Allocated (p : OrderPool nlib) (h : Heap) (Live : Ptr → Type 0)
      (r : Option (Ptr × OrderPool nlib × Heap)) : Type 0 where
    pub at : Ptr
    pub pool : OrderPool nlib
    pub heap : Heap
    pub free : List Ptr
    pub result : r ≡ some (at, pool, heap)
    pub unused : ¬ Live at
    pub off : has at free ≡ false
    pub fine : PoolOk pool heap free (λ a. Live a ⊎ (a ≡ at))
    pub same : (a : Ptr) → (at == a) ≡ false → heap a ≡ h a

  construct-some :
      (r : Option Ptr × OrderPool nlib) (h : Heap) (o : Ptr)
      → r.0 ≡ some o
      → construct r h ≡ some (o, r.1, write h o blank)
  unfolding construct
  construct-some (none, p) h o e = cc
  construct-some (some a, p) h o e = ground arith

  Fresh-Allocated :
      (p : OrderPool nlib) (h : Heap) (Live : Ptr → Type 0) (r : Option Ptr × OrderPool nlib)
      → p.free ≡ none
      → PoolOk p h [] Live
      → Fresh nlib p r
      → Allocated p h Live (construct r h)
  Fresh-Allocated p h Live r e k f = record {
    at = f.at;
    pool = r.1;
    heap = write h f.at blank;
    free = [];
    result = construct-some r h f.at f.found;
    unused = λ l. f.taken.fresh (k.given_live f.at l);
    off = refl;
    fine = record {
      listed = f.kept ∙ e;
      distinct = tt;
      given_free = λ a i. cc;
      given_live = λ a. elim [
        | inl l ↦ f.taken.keeps a (k.given_live a l)
        | inr same ↦ rw same f.taken.mine
      ];
      numbers = f.taken.numbers;
      positive = f.positive;
      apart = λ a i l. cc;
    };
    same = λ a ne. ground arith;
  }

  reuse-Allocated :
      (p : OrderPool nlib) (h : Heap) (Live : Ptr → Type 0) (x : Ptr) (fs : List Ptr)
      → PoolOk p h (x ∷ fs) Live
      → Allocated p h Live (some (x, record p { free = (h x).next }, h))
  reuse-Allocated p h Live x fs k = record {
    at = x;
    pool = record p { free = (h x).next };
    heap = h;
    free = fs;
    result = refl;
    unused = k.apart x (ground arith);
    off = k.distinct.0;
    fine = record {
      listed = k.listed.1;
      distinct = k.distinct.1;
      given_free = λ a i. k.given_free a (ground arith);
      given_live = λ a. elim [ inl l ↦ k.given_live a l | inr e ↦ k.given_free a (ground arith) ];
      numbers = k.numbers;
      positive = k.positive;
      apart = λ a i. elim [
        | inl l ↦ k.apart a (ground arith) l
        | inr e ↦ cc (ap (λ (z : Ptr). has z fs) e, k.distinct.0)
      ];
    };
    same = λ a ne. refl;
  }

  alloc_from-Allocated :
      (p : OrderPool nlib) (h : Heap) (Live : Ptr → Type 0) (c : Option Ptr) (fs : List Ptr)
      → p.free ≡ c
      → PoolOk p h fs Live
      → Allocated p h Live (alloc_from c p h)
  unfolding alloc_from construct
  alloc_from-Allocated p h Live none [] e k =
      Fresh-Allocated p h Live (take_back p.chunks p) e k
        (take_back-Fresh nlib p p.chunks refl k.numbers k.positive)
  alloc_from-Allocated p h Live (some o) [] e k = cc k.listed
  alloc_from-Allocated p h Live none (x ∷ fs) e k = cc k.listed.0
  alloc_from-Allocated p h Live (some o) (x ∷ fs) e k =
      let same : x ≡ o = ground (arith, k.listed.0) in
      subst (λ (z : Ptr). Allocated p h Live (some (z, record p { free = (h z).next }, h))) same
        (reuse-Allocated p h Live x fs k)

  -- `Alloc` never fails. It gives an address that is not in use.
  pub alloc-Allocated :
      (p : OrderPool nlib) (h : Heap) (fs : List Ptr) (Live : Ptr → Type 0)
      → PoolOk p h fs Live
      → Allocated p h Live (alloc p h)
  unfolding alloc
  alloc-Allocated p h fs Live k = alloc_from-Allocated p h Live p.free fs refl k

  -- `Free` puts an order that is no longer in use on the free list.
  pub free_order-PoolOk :
      (p : OrderPool nlib) (h : Heap) (fs : List Ptr) (Live : Ptr → Type 0) (o : Ptr)
      → PoolOk p h fs Live
      → Given nlib p.chunks o
      → has o fs ≡ false
      → ¬ Live o
      → PoolOk (free_order p h o).0 (free_order p h o).1 (o ∷ fs) Live
  unfolding free_order
  free_order-PoolOk p h fs Live o k given off dead =
      let g = write h o (record (h o) { next = p.free }) in
      let own : (g o).next ≡ p.free = ground arith in
      record {
        listed = (
          refl,
          subst (λ (c : Option Ptr). FreeList g c fs) (sym own)
              (FreeList-same g h p.free fs (λ a i. ground (arith, ne_of_members o a fs off i))
                k.listed),
        );
        distinct = (off, k.distinct);
        given_free =
            λ a i. elim (has-cases a o fs i) [ inl e ↦ rw e given | inr j ↦ k.given_free a j ];
        given_live = k.given_live;
        numbers = k.numbers;
        positive = k.positive;
        apart = λ a i l. elim (has-cases a o fs i) [
          | inl e ↦ dead (subst Live e l)
          | inr j ↦ k.apart a j l
        ];
      }

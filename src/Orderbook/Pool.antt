-- ===== src/Orderbook/Pool.antt =====
-- Orderbook::OrderPool: a free list through `next`, over the memory pools that the book opened.
use nqbook.Prelude.{ℕ, ◌*◌, List, [], ◌∷◌, Option, none, some, length, ◌==◌, if◌then◌else◌}
use nqbook.Nlib.{Ptr, Nlib}
use nqbook.Orderbook.Memory.{Heap, blank, write}

-- `chunks` has the last pool, `chunks_.back()`, in front. The doubling of `chunk` is exact: a chunk
-- of half of the address space is refused by the allocator.
pub record OrderPool (nlib : Nlib) : Type 0 where
  pub chunk : ℕ
  pub chunks : List nlib.Slab
  pub free : Option Ptr

module _ {nlib : Nlib} where
  open nlib use {Slab, make, allocate}

  -- OrderPool::OrderPool
  unfoldable pub new_pool : ℕ → OrderPool nlib
  new_pool chunk = record { chunk = if chunk == 0 then 1 else chunk; chunks = []; free = none }

  -- the new chunk that is opened if the last one gives nothing
  unfoldable pub grow : OrderPool nlib → Option Ptr × OrderPool nlib
  grow p =
      let (o, s) = allocate (make (length p.chunks) p.chunk) in
      (o, record p { chunk = p.chunk * 2; chunks = s ∷ p.chunks })

  unfoldable pub take_fresh : Option Ptr → OrderPool nlib → Option Ptr × OrderPool nlib
  unfolding grow
  take_fresh (some o) p = (some o, p)
  take_fresh none p = grow p

  -- `chunks_.empty() ? nullptr : chunks_.back()->allocate()`, and `grow` at the null pointer
  unfoldable pub take_back : List Slab → OrderPool nlib → Option Ptr × OrderPool nlib
  unfolding take_fresh
  take_back [] p = take_fresh none p
  take_back (s ∷ ss) p = let (o, s') = allocate s in take_fresh o (record p { chunks = s' ∷ ss })

  -- `::new (p) nlib::order{}`, undefined at the null pointer
  unfoldable pub construct :
      Option Ptr × OrderPool nlib → Heap → Option (Ptr × OrderPool nlib × Heap)
  construct (none, p) h = none
  construct (some o, p) h = some (o, p, write h o blank)

  unfoldable pub alloc_from :
      Option Ptr → OrderPool nlib → Heap → Option (Ptr × OrderPool nlib × Heap)
  unfolding take_back construct
  alloc_from (some o) p h = some (o, record p { free = (h o).next }, h)
  alloc_from none p h = construct (take_back p.chunks p) h

  -- OrderPool::Alloc
  unfoldable pub alloc : OrderPool nlib → Heap → Option (Ptr × OrderPool nlib × Heap)
  unfolding alloc_from
  alloc p h = alloc_from p.free p h

  -- OrderPool::Free
  unfoldable pub free_order : OrderPool nlib → Heap → Ptr → OrderPool nlib × Heap
  free_order p h o = (record p { free = some o }, write h o (record (h o) { next = p.free }))

  -- OrderPool::Reset
  unfoldable pub reset : OrderPool nlib → OrderPool nlib
  reset p = record p { chunks = []; free = none }

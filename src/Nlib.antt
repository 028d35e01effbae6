-- ===== src/Nlib.antt =====
-- The parts of the nlib library that include/Orderbook.h uses and that the repository does not
-- hold: nlib::map from order ids to orders, and nlib::memory_pool. They are parameters, with what
-- the book relies on as laws. An address of an order is a number.
pub mod SingleQueue
use nqbook.Prelude.{ℕ, ◌<◌, ◌≡◌, ◌↔◌, ◌⊎◌, Option, none, some, ◌==◌, if◌then◌else◌}

abbrev pub Ptr : Type 0
Ptr = ℕ

-- nlib::map<order_id, order*>: a map with one value for each key.
pub record IdMap : Type 1 where
  pub Map : Type 0
  pub empty : Map
  pub find : Map → ℕ → Option Ptr
  pub try_emplace : Map → ℕ → Ptr → Map
  pub erase : Map → ℕ → Map
  pub find-empty : (j : ℕ) → find empty j ≡ none
  pub find-try_emplace :
      (m : Map) (i p j : ℕ)
      → find m i ≡ none
      → find (try_emplace m i p) j ≡ (if i == j then some p else find m j)
  pub find-erase : (m : Map) (i j : ℕ) → find (erase m i) j ≡ (if i == j then none else find m j)

-- nlib::memory_pool: `make n c` is the n-th pool that a book opens, of capacity c. A pool hands out
-- an address at most once, two pools never the same, and a new pool of positive capacity has one.
pub record MemoryPool : Type 1 where
  pub Slab : Type 0
  pub make : ℕ → ℕ → Slab
  pub number : Slab → ℕ
  pub allocate : Slab → Option Ptr × Slab
  pub Gave : Slab → Ptr → Type 0
  pub number-make : (n c : ℕ) → number (make n c) ≡ n
  pub number-allocate : (s : Slab) → number (allocate s).1 ≡ number s
  pub not-Gave-make : (n c : ℕ) (p : Ptr) → ¬ Gave (make n c) p
  pub not-Gave_fresh : (s : Slab) (p : Ptr) → (allocate s).0 ≡ some p → ¬ Gave s p
  pub Gave-allocate :
      (s : Slab) (p : Ptr) → Gave (allocate s).1 p ↔ (Gave s p ⊎ ((allocate s).0 ≡ some p))
  pub Gave_apart : (s t : Slab) (p : Ptr) → Gave s p → Gave t p → number s ≡ number t
  pub allocate-make : (n c : ℕ) → 0 < c → (p : Ptr) × ((allocate (make n c)).0 ≡ some p)

pub record Nlib : Type 1 where
  pub ids : IdMap
  pub open ids use *
  pub slabs : MemoryPool
  pub open slabs use *

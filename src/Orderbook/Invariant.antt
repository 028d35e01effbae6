-- ===== src/Orderbook/Invariant.antt =====
-- What holds of a book between two events: the levels, the index of orders and the pool agree with
-- one queue of orders for each side and price.
use nqbook.Prelude.{ap, Bool-cases, inl, inr, ℕ, ◌≡◌, true, false, List, some, arith}
use nqbook.Nlib.{Ptr, Nlib}
use nqbook.Orderbook.PriceLevels.{LevelRef}
use nqbook.Orderbook.Book.{Book, get_level}
use nqbook.Orderbook.Segments.{has}
use nqbook.Orderbook.Queues.{Queues}
use nqbook.Orderbook.Chains.{Chains}
use nqbook.Orderbook.PoolInvariant.{PoolOk}

-- an address in one of the queues
abbrev pub Live : Queues → Ptr → Type 0
Live Q a = (r : LevelRef) × (has a (Q r) ≡ true)

module _ {nlib : Nlib} where
  pub record Inv (b : Book nlib) (Q : Queues) : Type 0 where
    pub chains : Chains b.heap (get_level b) Q
    pub indexed :
        (r : LevelRef) (a : Ptr) → has a (Q r) ≡ true → nlib.find b.orders (b.heap a).id ≡ some a
    pub resting :
        (i : ℕ) (a : Ptr)
        → nlib.find b.orders i ≡ some a
        → (r : LevelRef) × (has a (Q r) ≡ true) × ((b.heap a).id ≡ i)
    pub free : List Ptr
    pub pooled : PoolOk b.pool b.heap free (Live Q)

  -- An order on the free list is in no queue.
  pub free_out :
      {b : Book nlib} {Q : Queues} (v : Inv b Q) (a : Ptr)
      → has a v.free ≡ true
      → (s : LevelRef) → has a (Q s) ≡ false
  free_out {Q} v a i s = elim (Bool-cases (has a (Q s))) [
    | inl e ↦ absurd (v.pooled.apart a i (s, e))
    | inr e ↦ e
  ]

  -- Two orders in queues with one id are one.
  pub eq_of_id :
      {b : Book nlib} {Q : Queues} (v : Inv b Q) (r s : LevelRef) (a c : Ptr)
      → has a (Q r) ≡ true
      → has c (Q s) ≡ true
      → (b.heap a).id ≡ (b.heap c).id
      → a ≡ c
  eq_of_id {b} v r s a c i j e =
      ground (arith, v.indexed r a i, v.indexed s c j, ap (nlib.find b.orders) e)

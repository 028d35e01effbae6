-- ===== src/Orderbook/PriceLevels.antt =====
-- The price levels of one side: std::map from prices to levels, in the side's order.
use nqbook.Prelude.{
  ℕ, ◌≡◌, refl, Bool, true, false, List, [], ◌∷◌, Option, none, some, arith, if◌then◌else◌,
}
use nqbook.Prelude.Int.{ℤ, ltb_ℤ, eqb_ℤ, eqb_ℤ→eq}
use nqbook.Nlib.{Ptr}

-- nlib::level: the fields that the book reads and writes.
pub record Level : Type 0 where
  pub price : ℤ
  pub qty : ℤ
  pub count : ℕ
  pub head : Option Ptr
  pub tail : Option Ptr

-- A level's address: the node of its price in the map of its side.
pub record LevelRef : Type 0 where
  pub is_bids : Bool
  pub at : ℤ

abbrev pub Levels : Type 0
Levels = List (ℤ × Level)

-- The orders std::greater and std::less of BidLevels and AskLevels.
unfoldable pub before : Bool → ℤ → ℤ → Bool
before true p q = ltb_ℤ q p
before false p q = ltb_ℤ p q

unfoldable pub find : Levels → ℤ → Option Level
find [] p = none
find ((q, lv) ∷ ls) p = if eqb_ℤ q p then some lv else find ls p

-- the insertion of `try_emplace`, for a price that is not there
unfoldable pub insert : Bool → Levels → ℤ → Level → Levels
insert s [] p lv = (p, lv) ∷ []
insert s ((q, w) ∷ ls) p lv =
    if before s p q then (p, lv) ∷ (q, w) ∷ ls else (q, w) ∷ insert s ls p lv

unfoldable pub erase : Levels → ℤ → Levels
erase [] p = []
erase ((q, w) ∷ ls) p = let rest = erase ls p in if eqb_ℤ q p then rest else (q, w) ∷ rest

-- a write through a level's address
unfoldable pub set : Levels → ℤ → Level → Levels
set [] p lv = []
set ((q, w) ∷ ls) p lv = (q, if eqb_ℤ q p then lv else w) ∷ set ls p lv

-- `begin()`
unfoldable pub first : Levels → Option Level
first [] = none
first ((q, lv) ∷ ls) = some lv

pub find-insert :
    (s : Bool) (ls : Levels) (p q : ℤ) (lv : Level)
    → find ls p ≡ none
    → find (insert s ls p lv) q ≡ (if eqb_ℤ p q then some lv else find ls q)
unfolding find insert
find-insert s [] p q lv h = refl
find-insert s ((r, w) ∷ ls) p q lv h =
    ground (arith, find-insert s ls p q lv, eqb_ℤ→eq r q, eqb_ℤ→eq p q, eqb_ℤ→eq r p)

pub find-erase :
    (ls : Levels) (p q : ℤ) → find (erase ls p) q ≡ (if eqb_ℤ p q then none else find ls q)
unfolding find erase
find-erase [] p q = ground arith
find-erase ((r, w) ∷ ls) p q =
    ground (arith, find-erase ls p q, eqb_ℤ→eq r q, eqb_ℤ→eq p q, eqb_ℤ→eq r p)

over : Option Level → Level → Option Level
over none lv = none
over (some w) lv = some lv

find-set-over :
    (ls : Levels) (p q : ℤ) (lv : Level)
    → find (set ls p lv) q ≡ (if eqb_ℤ p q then over (find ls p) lv else find ls q)
unfolding find set over
find-set-over [] p q lv = ground arith
find-set-over ((r, v) ∷ ls) p q lv =
    ground (arith, find-set-over ls p q lv, eqb_ℤ→eq r q, eqb_ℤ→eq p q, eqb_ℤ→eq r p)

pub find-set :
    (ls : Levels) (p q : ℤ) (lv w : Level)
    → find ls p ≡ some w
    → find (set ls p lv) q ≡ (if eqb_ℤ p q then some lv else find ls q)
unfolding over
find-set ls p q lv w h = ground (arith, find-set-over ls p q lv)

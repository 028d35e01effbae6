-- ===== src/Orderbook/Access.antt =====
-- Reads of a level after the writes of a book to its two maps of levels.
use nqbook.Prelude.{◌≡◌, refl, Bool, true, false, ◌&&◌, Option, none, some, if◌then◌else◌}
use nqbook.Prelude.Int.{ℤ, eqb_ℤ}
use nqbook.Nlib.{Nlib}
use nqbook.Orderbook.PriceLevels.{
  LevelRef, Level, Levels, find, insert, erase, set, find-insert, find-erase, find-set,
}
use nqbook.Orderbook.Book.{Book, levels, set_levels, get_level, put_level}
use nqbook.Orderbook.Queues.{eq_side, eq_ref}

module _ {nlib : Nlib} (b : Book nlib) where
  find-set_levels :
      (t u : Bool) (p q : ℤ) (ls : Levels) (o : Option Level)
      → find ls q ≡ (if eqb_ℤ p q then o else find (levels b t) q)
      → find (levels (set_levels b t ls) u) q
        ≡ (if eq_side t u && eqb_ℤ p q then o else find (levels b u) q)
  find-set_levels true true p q ls o e = e
  find-set_levels true false p q ls o e = refl
  find-set_levels false true p q ls o e = refl
  find-set_levels false false p q ls o e = e

  -- a write through a level's address
  pub get_level-put_level :
      (r s : LevelRef) (lv w : Level)
      → get_level b r ≡ some w
      → get_level (put_level b r lv) s ≡ (if eq_ref r s then some lv else get_level b s)
  get_level-put_level r s lv w e =
      find-set_levels r.is_bids s.is_bids r.at s.at (set (levels b r.is_bids) r.at lv) (some lv)
        (find-set (levels b r.is_bids) r.at s.at lv w e)

  -- a new level
  pub get_level-insert :
      (r s : LevelRef) (lv : Level)
      → get_level b r ≡ none
      → get_level (set_levels b r.is_bids (insert r.is_bids (levels b r.is_bids) r.at lv)) s
        ≡ (if eq_ref r s then some lv else get_level b s)
  get_level-insert r s lv e =
      find-set_levels r.is_bids s.is_bids r.at s.at (insert r.is_bids (levels b r.is_bids) r.at lv)
        (some lv) (find-insert r.is_bids (levels b r.is_bids) r.at s.at lv e)

  -- a level that is removed
  pub get_level-erase :
      (r s : LevelRef)
      → get_level (set_levels b r.is_bids (erase (levels b r.is_bids) r.at)) s
        ≡ (if eq_ref r s then none else get_level b s)
  get_level-erase r s =
      find-set_levels r.is_bids s.is_bids r.at s.at (erase (levels b r.is_bids) r.at) none
        (find-erase (levels b r.is_bids) r.at s.at)

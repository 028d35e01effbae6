-- ===== src/Orderbook/Emptied.antt =====
-- An empty book: a new one, and one after OnClear.
use nqbook.Prelude.{ℕ, ◌<◌, ◌≡◌, refl, [], none, Bool-cases, inl, inr}
use nqbook.Prelude.Int.{ℤ}
use nqbook.Nlib.{Nlib}
use nqbook.Orderbook.PriceLevels.{LevelRef, find}
use nqbook.Orderbook.Memory.{Heap}
use nqbook.Orderbook.Book.{Book, Stats, get_level}
use nqbook.Orderbook.Priority.{at_level}
use nqbook.Orderbook.Refinement.{Shows}

at_level-nil : (r : LevelRef) → at_level [] r ≡ []
unfolding at_level
at_level-nil r = refl

module _ {nlib : Nlib} where
  no_level : (b : Book nlib) → b.bids ≡ [] → b.asks ≡ [] → (r : LevelRef) → get_level b r ≡ none
  unfolding find
  no_level b e f r = elim (Bool-cases r.is_bids) [ inl k ↦ rw (k, e) refl | inr k ↦ rw (k, f) refl ]

module _ {nlib : Nlib} (h : Heap) (c : ℕ) (positive : 0 < c) (st : Stats) (ts : ℤ) where
  abbrev pub empty_book : Book nlib
  empty_book = record {
    heap = h;
    bids = [];
    asks = [];
    orders = nlib.empty;
    pool = record { chunk = c; chunks = []; free = none };
    stats = st;
    last_ts = ts;
  }

  pub empty_book-Shows : Shows empty_book []
  empty_book-Shows = record {
    queues = λ r. [];
    inv = record {
      chains = record {
        linked = record {
          described = λ r. rw (no_level empty_book refl refl r) refl;
          distinct = λ r. tt;
          own = λ r a i. cc;
        };
        filled = λ r e. no_level empty_book refl refl r;
      };
      indexed = λ r a i. cc;
      resting = λ i a e. cc (nlib.find-empty i, e);
      free = [];
      pooled = record {
        listed = refl;
        distinct = tt;
        given_free = λ a i. cc;
        given_live = λ a (r, i). cc;
        numbers = tt;
        positive = positive;
        apart = λ a i l. cc;
      };
    };
    shown = λ r. at_level-nil r;
  }

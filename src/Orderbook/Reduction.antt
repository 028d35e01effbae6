-- ===== src/Orderbook/Reduction.antt =====
-- The partial cancel, fill and modify: `o->qty = qty; o->level->qty -= by`.
use nqbook.Prelude.{ap, ◌∙◌, Bool-cases, inl, inr, ◌≡◌, refl, true, some, arith, if◌then◌else◌}
use nqbook.Prelude.Int.{ℤ, pos, ◌+ℤ◌, ◌-ℤ◌, ◌<ℤ◌}
use nqbook.Nlib.{Ptr, Nlib}
use nqbook.Orderbook.PriceLevels.{LevelRef, Level}
use nqbook.Orderbook.Book.{Book, get_level, put_level, put_order, reduce}
use nqbook.Orderbook.Segments.{has}
use nqbook.Orderbook.Queues.{==_refl, eq_ref, eq_ref→eq, Queues, set_queue_self}
use nqbook.Orderbook.Reducing.{Linked-reduced}
use nqbook.Orderbook.Access.{get_level-put_level}
use nqbook.Orderbook.Chains.{Chains, level_of_member}
use nqbook.Orderbook.Joins.{Linked-ext}
use nqbook.Orderbook.PoolInvariant.{PoolOk-frame}
use nqbook.Orderbook.Invariant.{Live, Inv}
use nqbook.Orderbook.Entries.{entry}
use nqbook.Orderbook.Removal.{Changes}

module _ {nlib : Nlib} where
  module _ (b : Book nlib) (Q : Queues) (o : Ptr) (r : LevelRef) (v : Inv b Q)
      (i : has o (Q r) ≡ true) (q by : ℤ) (splits : q +ℤ by ≡ (b.heap o).qty)
      (positive : pos 0 <ℤ q) where
    module _ (lv : Level) (here : get_level b r ≡ some lv) where
      abbrev book' : Book nlib
      book' =
          put_level (put_order b o (record (b.heap o) { qty = q })) r
            (record lv { qty = lv.qty -ℤ by })

      after_put :
          (s : LevelRef)
          → get_level book' s
            ≡ (if eq_ref r s then some (record lv { qty = lv.qty -ℤ by }) else get_level b s)
      after_put s =
          get_level-put_level (put_order b o (record (b.heap o) { qty = q })) r s
            (record lv { qty = lv.qty -ℤ by }) lv here

      same_ids : (a : Ptr) → (book'.heap a).id ≡ (b.heap a).id
      same_ids a = ground arith

      same_nexts : (a : Ptr) → (book'.heap a).next ≡ (b.heap a).next
      same_nexts a = ground arith

      reduced-Chains : Chains book'.heap (get_level book') Q
      reduced-Chains = record {
        linked = Linked-ext (set_queue_self Q r (Q r) refl) (
            Linked-reduced v.chains.linked o r lv here i q by splits positive (get_level book')
              after_put);
        filled = λ s e. elim (Bool-cases (eq_ref r s)) [
          | inl same ↦ cc (ap (has o) (ap Q (eq_ref→eq r s same) ∙ e), i)
          | inr ne ↦ rw (after_put s, ne) (v.chains.filled s e)
        ];
      }

      reduced-Inv : Inv book' Q
      reduced-Inv = record {
        chains = reduced-Chains;
        indexed = λ s a j. rw (same_ids a) (v.indexed s a j);
        resting = λ j a e. let (s, old, ide) = v.resting j a e in (s, old, same_ids a ∙ ide);
        free = v.free;
        pooled = PoolOk-frame book'.heap (Live Q) v.pooled (λ a l. l) (λ a j. same_nexts a);
      }

      reduce_at : reduce b o q by ≡ some book'
      unfolding reduce
      reduce_at = rw ((v.chains.linked.own r o i).level, here) refl

      reduced-Changes : Changes b o (entry (record (b.heap o) { qty = q })) Q (reduce b o q by)
      reduced-Changes = record {
        book = book';
        result = reduce_at;
        inv = reduced-Inv;
        alike = λ a ne. ground arith;
        own = λ s j. ground (arith, ==_refl o);
        stats = refl;
        last_ts = refl;
      }

    -- A reduction succeeds on an order of a queue, and leaves every queue.
    pub reduce-Changes : Changes b o (entry (record (b.heap o) { qty = q })) Q (reduce b o q by)
    reduce-Changes =
        let (lv, here) = level_of_member v.chains.linked r o i in reduced-Changes lv here

-- ===== src/Orderbook/Joins.antt =====
-- An order joins the queue of its side and price, whose level is created where it is missing.
use nqbook.Prelude.{
  fun_ext, sym, subst, Bool-cases, Option-cases, inl, inr, ℕ, ◌≡◌, ◌≢◌, refl, Bool, false, List, [],
  ◌∷◌, ◌++◌, Option, none, some, ◌==◌, if◌then◌else◌,
}
use nqbook.Prelude.Int.{ℤ, pos, ◌<ℤ◌}
use nqbook.Abi.{is_bid}
use nqbook.Nlib.{Ptr, Nlib}
use nqbook.Orderbook.PriceLevels.{LevelRef, Level, Levels, insert}
use nqbook.Orderbook.Memory.{Heap}
use nqbook.Orderbook.Links.{new_level, linked_level, linked_heap}
use nqbook.Orderbook.Book.{
  Book, levels, set_levels, get_level, put_level, find_or_create_level, link_order,
}
use nqbook.Orderbook.Segments.{has}
use nqbook.Orderbook.Queues.{
  eq_ref, eq_ref_refl, Own, Queues, Describes, Linked, set_queue, set_queue_self, total-nil,
  Linked-set_queue,
}
use nqbook.Orderbook.Linking.{push_queue-Linked, linked_heap-Off, outside}
use nqbook.Orderbook.Access.{get_level-put_level, get_level-insert}
use nqbook.Orderbook.Chains.{Chains, Relinks, relinks}

-- The queues are functions, known by their values.
pub Chains-ext :
    {h : Heap} {L : LevelRef → Option Level} {Q Q' : Queues}
    → ((s : LevelRef) → Q s ≡ Q' s)
    → Chains h L Q
    → Chains h L Q'
Chains-ext {h} {L} e k = subst (Chains h L) (fun_ext e) k

pub Linked-ext :
    {h : Heap} {L : LevelRef → Option Level} {Q Q' : Queues}
    → ((s : LevelRef) → Q s ≡ Q' s)
    → Linked h L Q
    → Linked h L Q'
Linked-ext {h} {L} e k = subst (Linked h L) (fun_ext e) k

snoc-ne-nil : (xs : List Ptr) (o : Ptr) → xs ++ o ∷ [] ≢ []
snoc-ne-nil [] o e = cc
snoc-ne-nil (x ∷ xs) o e = cc

module _ {nlib : Nlib} where
  -- The order `o` goes to the end of the queue of `r`, behind the order `tail`.
  pub record Joins (b : Book nlib) (o : Ptr) (r : LevelRef) (Q : Queues) (res : Option (Book nlib))
      : Type 0 where
    pub tail : Option Ptr
    pub outside :
        (a : Ptr)
        → (o == a) ≡ false
        → ((s : LevelRef) → has a (Q s) ≡ false)
        → linked_heap b.heap o r tail a ≡ b.heap a
    pub relinked : Relinks b (linked_heap b.heap o r tail) (set_queue Q r (Q r ++ o ∷ [])) res

  module _ (b : Book nlib) (Q : Queues) (o : Ptr) (r : LevelRef) (lv : Level)
      (k : Linked b.heap (get_level b) Q)
      (filled : (s : LevelRef) → eq_ref r s ≡ false → Q s ≡ [] → get_level b s ≡ none)
      (here : get_level b r ≡ some lv) (fresh : (s : LevelRef) → has o (Q s) ≡ false)
      (mine : Own (record (b.heap o) { level = some r }) r) where
    abbrev level' : Level
    level' = linked_level lv o (b.heap o).qty

    abbrev moved : Book nlib
    moved = record b { heap = linked_heap b.heap o r lv.tail }

    after_put :
        (s : LevelRef)
        → get_level (put_level moved r level') s
          ≡ (if eq_ref r s then some level' else get_level b s)
    after_put s = get_level-put_level moved r s level' lv here

    link_order_at : link_order b o r ≡ some (put_level moved r level')
    unfolding link_order
    link_order_at = rw here

    -- LinkOrder succeeds where the level is there.
    link_order-Relinks :
        Relinks b
          (linked_heap b.heap o r lv.tail)
          (set_queue Q r (Q r ++ o ∷ []))
          (link_order b o r)
    link_order-Relinks =
        relinks b (linked_heap b.heap o r lv.tail) (set_queue Q r (Q r ++ o ∷ []))
          (link_order b o r) (put_level moved r level') link_order_at refl
          (record {
            linked =
                push_queue-Linked k o r lv here fresh mine (get_level (put_level moved r level'))
                  after_put;
            filled = λ s e. elim (Bool-cases (eq_ref r s)) [
              | inl same ↦ absurd (snoc-ne-nil (Q r) o (rw same at e))
              | inr ne ↦ rw (after_put s, ne) (filled s ne (rw ne at e))
            ];
          })

    pub link_order-Joins : Joins b o r Q (link_order b o r)
    link_order-Joins = record {
      tail = lv.tail;
      outside = outside k o r lv here fresh mine;
      relinked = link_order-Relinks;
    }

  -- The relinked book, told of a book before the last write to its levels.
  Relinks-set_levels :
      (b : Book nlib) (t : Bool) (ls : Levels) (h : Heap) (Q : Queues) (res : Option (Book nlib))
      → Relinks (set_levels b t ls) h Q res
      → Relinks b h Q res
  Relinks-set_levels b t ls h Q res k = record {
    bids = k.bids;
    asks = k.asks;
    result = k.result;
    chains = k.chains;
  }

  -- the end of OnOrder and of OnModify: `LinkOrder(o, FindOrCreateLevel(s, p))`
  abbrev pub join_level : Book nlib → ℕ → ℤ → Ptr → Option (Book nlib)
  join_level b s p o = let (r, b') = find_or_create_level b s p in link_order b' o r

  module _ (b : Book nlib) (Q : Queues) (o : Ptr) (k : Chains b.heap (get_level b) Q)
      (fresh : (s : LevelRef) → has o (Q s) ≡ false) (positive : pos 0 <ℤ (b.heap o).qty) where
    abbrev pub own_ref : LevelRef
    own_ref = record { is_bids = is_bid (b.heap o).side; at = (b.heap o).price }

    mine : Own (record (b.heap o) { level = some own_ref }) own_ref
    mine = record { level = refl; price = refl; side = refl; positive = positive }

    abbrev created : Book nlib
    created =
        set_levels b own_ref.is_bids
          (insert own_ref.is_bids (levels b own_ref.is_bids) own_ref.at (new_level own_ref.at))

    after_create :
        get_level b own_ref ≡ none
        → (s : LevelRef)
        → get_level created s
          ≡ (if eq_ref own_ref s then some (new_level own_ref.at) else get_level b s)
    after_create none_yet s = get_level-insert b own_ref s (new_level own_ref.at) none_yet

    created-Linked : get_level b own_ref ≡ none → Linked b.heap (get_level created) Q
    created-Linked none_yet =
        let empty : Q own_ref ≡ [] =
          subst (Describes b.heap own_ref (Q own_ref)) none_yet (k.linked.described own_ref) in
        Linked-ext (set_queue_self Q own_ref [] empty) (
          Linked-set_queue k.linked b.heap (get_level created) own_ref []
            (some (new_level own_ref.at)) (after_create none_yet)
            (record {
              priced = refl;
              chain = (refl, refl);
              counted = refl;
              summed = sym (total-nil b.heap);
            })
            tt (λ a i. cc) (λ s a ne i. refl))

    -- The order ends up last in the queue of its side and price, whatever levels there were.
    pub join_level-Joins : Joins b o own_ref Q (join_level b (b.heap o).side (b.heap o).price o)
    unfolding find_or_create_level
    join_level-Joins = elim (Option-cases (get_level b own_ref)) [
      | inl e ↦ record {
        tail = none;
        outside = λ a ne out. linked_heap-Off b.heap o own_ref none a ne tt;
        relinked = rw e (
            Relinks-set_levels b own_ref.is_bids _ _ _ _ (
              link_order-Relinks created Q o own_ref (new_level own_ref.at) (created-Linked e)
                (λ s ne empty. rw (after_create e s, ne) (k.filled s empty))
                (rw (after_create e own_ref, eq_ref_refl own_ref) refl) fresh mine));
      }
      | inr (lv, e) ↦
          rw e (
            link_order-Joins b Q o own_ref lv k.linked (λ s ne empty. k.filled s empty) e fresh
              mine)
    ]

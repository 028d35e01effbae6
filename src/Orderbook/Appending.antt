-- ===== src/Orderbook/Appending.antt =====
-- Steps after which an order is the youngest of the list: an add, and the modifies that lose priority.
use nqbook.Prelude.{
  ◌≡◌, refl, sym, ap, ◌∙◌, subst, fun_ext, true, false, ◌||◌, List, [], ◌∷◌, ◌++◌, Option, none,
  some, if◌then◌else◌, arith, Bool-cases, inl, inr, is_some,
}
use nqbook.Prelude.Int.{pos, ◌<ℤ◌}
use nqbook.Abi.{Mbo}
use nqbook.Nlib.{Ptr, Nlib}
use nqbook.Orderbook.PriceLevels.{LevelRef}
use nqbook.Orderbook.Memory.{Heap}
use nqbook.Orderbook.Book.{Book}
use nqbook.Orderbook.Feed.{place, move_order, requeue_order}
use nqbook.Orderbook.Links.{order_of}
use nqbook.Orderbook.Segments.{has, Seg}
use nqbook.Orderbook.Queues.{
  present, Queues, eq_ref, eq_ref→eq, eq_ref_refl, ==_refl, set_queue, ne_of_members,
}
use nqbook.Orderbook.Unlinking.{remove, split_at}
use nqbook.Orderbook.Chains.{level_of_member}
use nqbook.Orderbook.Entries.{Entry, entry, entry-Alike, ref_of}
use nqbook.Orderbook.Removal.{Changes, gone}
use nqbook.Orderbook.Placement.{push, has-push_self}
use nqbook.Orderbook.Adding.{place-Changes}
use nqbook.Orderbook.Rejoining.{move_order-Changes}
use nqbook.Orderbook.Requeueing.{requeue_order-Changes}
use nqbook.Orderbook.Priority.{remove_entry, at_level, new_entry}
use nqbook.Orderbook.Selecting.{at_level-append, entries, entries-append, entries-same}
use nqbook.Orderbook.Refinement.{Shows, Steps, removed-at_level, member_ref}

one_at_level :
    (e : Entry) (t : LevelRef) → at_level (e ∷ []) t ≡ (if eq_ref e.at t then e ∷ [] else [])
unfolding at_level
one_at_level e t = refl

append_nil : (es : List Entry) → es ++ [] ≡ es
append_nil [] = refl
append_nil (e ∷ es) = ap (λ (l : List Entry). e ∷ l) (append_nil es)

not_first :
    (h : Heap) (o y : Ptr) (p : Option Ptr) (ys zs : List Ptr) (c l : Option Ptr)
    → Seg h p (y ∷ ys ++ o ∷ zs) c l none
    → (h o).prev ≡ none
    → ⊥
not_first h o y p [] zs c l s e = cc (s.2.1, e)
not_first h o y p (x ∷ ys) zs c l s e = not_first h o x (some y) ys zs (h y).next l s.2 e

-- An order without neighbours is alone in its queue.
only_split :
    (h : Heap) (o : Ptr) (ys zs : List Ptr) (c l : Option Ptr)
    → Seg h none (ys ++ o ∷ zs) c l none
    → (h o).prev ≡ none
    → (h o).next ≡ none
    → ys ++ o ∷ zs ≡ o ∷ []
only_split h o [] [] c l s e f = refl
only_split h o [] (z ∷ zs) c l s e f = cc (s.2.0, f)
only_split h o (y ∷ ys) zs c l s e f = absurd (not_first h o y none ys zs c l s e)

module _ {nlib : Nlib} where
  pub pushed-Steps :
      (b : Book nlib) (es : List Entry) (Q : Queues) (o : Ptr) (r : LevelRef) (e : Entry)
      (res : Option (Book nlib))
      → ((t : LevelRef) → at_level es t ≡ entries b.heap (Q t))
      → ((t : LevelRef) → has o (Q t) ≡ false)
      → e.at ≡ r
      → Changes b o e (push Q r o) res
      → Steps b (es ++ e ∷ []) res
  pushed-Steps b es Q o r e res shown off at c = record {
    book = c.book;
    result = c.result;
    shows = record { queues = push Q r o; inv = c.inv; shown = behind };
    stats = c.stats;
    last_ts = c.last_ts;
  }
    where
      last : entry (c.book.heap o) ≡ e
      last = c.own r (has-push_self Q r o)

      old : (t : LevelRef) → entries c.book.heap (Q t) ≡ entries b.heap (Q t)
      old t =
          entries-same c.book.heap b.heap (Q t)
            (λ a k. entry-Alike (c.alike a (ne_of_members o a (Q t) (off t) k)))

      young : (t : LevelRef) → at_level (e ∷ []) t ≡ (if eq_ref r t then e ∷ [] else [])
      young t = one_at_level e t ∙ ap (λ (s : LevelRef). if eq_ref s t then e ∷ [] else []) at

      behind : (t : LevelRef) → at_level (es ++ e ∷ []) t ≡ entries c.book.heap (push Q r o t)
      behind t = elim (Bool-cases (eq_ref r t)) [
        | inl same ↦
            rw
              (
                at_level-append es (e ∷ []) t,
                young t,
                same,
                entries-append c.book.heap (Q r) (o ∷ []),
                last,
                eq_ref→eq r t same,
                old t,
                shown t,
              )
              refl
        | inr ne ↦
            rw (at_level-append es (e ∷ []) t, young t, ne, old t, shown t)
              (append_nil (entries b.heap (Q t)))
      ]

  -- OnOrder behind its checks
  pub place-Steps :
      (b : Book nlib) (es : List Entry)
      → Shows b es
      → (m : Mbo) → pos 0 <ℤ m.qty
      → nlib.find b.orders m.id ≡ none
      → Steps b (es ++ new_entry m ∷ []) (place b m)
  place-Steps b es v m positive unknown =
      let (o, off, c) = place-Changes b v.queues v.inv m positive unknown in
      pushed-Steps b es v.queues o (ref_of (order_of m)) (new_entry m) _ v.shown off refl c

  module _ (b : Book nlib) (es : List Entry) (v : Shows b es) (o : Ptr) (r : LevelRef)
      (j : has o (v.queues r) ≡ true) (m : Mbo) (positive : pos 0 <ℤ m.qty) where
    abbrev rest : List Entry
    rest = remove_entry es (b.heap o).id

    abbrev removed : Queues
    removed = set_queue v.queues r (remove o (v.queues r))

    pub move_order-Steps :
        Steps b
          (rest ++ record { id = (b.heap o).id; at = record r { at = m.price }; qty = m.qty } ∷ [])
          (move_order b o m)
    move_order-Steps =
        pushed-Steps b rest removed o (record r { at = m.price }) _ _
          (removed-at_level b es v o r j) (gone b v.queues o r v.inv j) refl
          (move_order-Changes b v.queues o r v.inv j m positive)

    pub requeue_order-Steps :
        (is_some (b.heap o).prev || is_some (b.heap o).next) ≡ true
        → Steps b (rest ++ entry (record (b.heap o) { qty = m.qty }) ∷ []) (requeue_order b o m)
    requeue_order-Steps behind =
        pushed-Steps b rest removed o r _ _ (removed-at_level b es v o r j)
          (gone b v.queues o r v.inv j) (member_ref b es v o r j)
          (requeue_order-Changes b v.queues o r v.inv j m positive behind)

    only : (b.heap o).prev ≡ none → (b.heap o).next ≡ none → v.queues r ≡ o ∷ []
    only e f =
        let (lv, here) = level_of_member v.inv.chains.linked r o j in
        let was = present v.inv.chains.linked r lv here in
        let (ys, zs, whole, left) = split_at o (v.queues r) j in
        whole
        ∙ only_split b.heap o ys zs lv.head lv.tail
            (subst (λ (xs : List Ptr). Seg b.heap none xs lv.head lv.tail none) whole was.chain) e f

    -- An order that is alone loses no priority: to stay is to join again.
    pub alone-Steps :
        (e : Entry) (res : Option (Book nlib))
        → e.at ≡ r
        → (b.heap o).prev ≡ none
        → (b.heap o).next ≡ none
        → Changes b o e v.queues res
        → Steps b (rest ++ e ∷ []) res
    alone-Steps e res at no_prev no_next c =
        pushed-Steps b rest removed o r e res (removed-at_level b es v o r j)
          (gone b v.queues o r v.inv j) at
          (subst (λ (Q : Queues). Changes b o e Q res) (fun_ext same) c)
      where
        one : v.queues r ≡ o ∷ []
        one = only no_prev no_next

        back : remove o (v.queues r) ++ o ∷ [] ≡ v.queues r
        back = rw one (ground (arith, ==_refl o))

        same : (t : LevelRef) → v.queues t ≡ push removed r o t
        same t = elim (Bool-cases (eq_ref r t)) [
          | inl e ↦ rw (e, eq_ref_refl r, back) (ap v.queues (sym (eq_ref→eq r t e)))
          | inr ne ↦ rw ne refl
        ]

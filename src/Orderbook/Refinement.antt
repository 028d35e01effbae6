-- ===== src/Orderbook/Refinement.antt =====
-- When a book shows a list of orders in priority, and what a lookup and a removal do then.
use nqbook.Prelude.{
  ℕ, ◌≡◌, refl, sym, ap, ◌∙◌, subst, true, false, List, Option, none, some, ◌==◌, if◌then◌else◌,
  arith, Bool-cases, Option-cases, inl, inr,
}
use nqbook.Prelude.Int.{ℤ}
use nqbook.Nlib.{Ptr, Nlib}
use nqbook.Orderbook.PriceLevels.{LevelRef}
use nqbook.Orderbook.Book.{Book}
use nqbook.Orderbook.Segments.{has}
use nqbook.Orderbook.Queues.{queues_apart, Queues, eq_ref, eq_ref→eq, eq_of_==, ==_refl, set_queue}
use nqbook.Orderbook.Unlinking.{remove}
use nqbook.Orderbook.Entries.{Entry, entry, entry-Alike, ref_of}
use nqbook.Orderbook.Invariant.{Inv, eq_of_id}
use nqbook.Orderbook.Removal.{Changes, stays}
use nqbook.Orderbook.Priority.{find_entry, remove_entry, set_qty, at_level}
use nqbook.Orderbook.Selecting.{
  find_entry-id, find_entry-at_level, find_entry-at_level-none, at_level-remove_entry,
  at_level-set_qty, entries, entries-same, entries-remove, entries-set_qty, find_entries,
  find_entries-none,
}

module _ {nlib : Nlib} where
  pub record Shows (b : Book nlib) (es : List Entry) : Type 0 where
    pub queues : Queues
    pub inv : Inv b queues
    pub shown : (r : LevelRef) → at_level es r ≡ entries b.heap (queues r)

  -- a step of the book after which it shows `es`
  pub record Steps (b : Book nlib) (es : List Entry) (res : Option (Book nlib)) : Type 0 where
    pub book : Book nlib
    pub result : res ≡ some book
    pub shows : Shows book es
    pub stats : book.stats ≡ b.stats
    pub last_ts : book.last_ts ≡ b.last_ts

  module _ (b : Book nlib) (es : List Entry) (v : Shows b es) where
    -- What the list has under an id, the index has.
    pub found_entry :
        (i : ℕ) (e : Entry)
        → find_entry es i ≡ some e
        → (o : Ptr) × (nlib.find b.orders i ≡ some o) × (entry (b.heap o) ≡ e)
    found_entry i e f =
        let in_level : find_entry (entries b.heap (v.queues e.at)) i ≡ some e =
          subst (λ (l : List Entry). find_entry l i ≡ some e) (v.shown e.at)
            (find_entry-at_level es i e f) in
        let (o, j, same) = find_entries b.heap (v.queues e.at) i e in_level in
        let ide : (b.heap o).id ≡ i = ap (λ (e : Entry). e.id) same ∙ find_entry-id es i e f in
        (o, subst (λ (i : ℕ). nlib.find b.orders i ≡ some o) ide (v.inv.indexed e.at o j), same)

    pub unknown_entry : (i : ℕ) → nlib.find b.orders i ≡ none → find_entry es i ≡ none
    unknown_entry i f = elim (Option-cases (find_entry es i)) [
      | inl e ↦ e
      | inr (e, found) ↦ cc ((found_entry i e found).1, f)
    ]

    pub known_entry :
        (i : ℕ) (o : Ptr)
        → nlib.find b.orders i ≡ some o
        → find_entry es i ≡ some (entry (b.heap o))
    known_entry i o f = elim (Option-cases (find_entry es i)) [
      | inl e ↦
          let (r, j, ide) = v.inv.resting i o f in
          let out : find_entry (entries b.heap (v.queues r)) i ≡ none =
            subst (λ (l : List Entry). find_entry l i ≡ none) (v.shown r)
              (find_entry-at_level-none es i r e) in
          absurd (
            find_entries-none b.heap (v.queues r) o j
              (subst (λ (i : ℕ). find_entry (entries b.heap (v.queues r)) i ≡ none) (sym ide) out))
      | inr (e, found) ↦
          let (o', f', same) = found_entry i e found in
          let one : o' ≡ o = ground (arith, f') in
          found ∙ ap some (sym same ∙ ap (λ (z : Ptr). entry (b.heap z)) one)
    ]

    module _ (o : Ptr) (r : LevelRef) (j : has o (v.queues r) ≡ true) where
      pub member_entry : find_entry es (b.heap o).id ≡ some (entry (b.heap o))
      member_entry = known_entry (b.heap o).id o (v.inv.indexed r o j)

      pub member_ref : ref_of (b.heap o) ≡ r
      member_ref = let own = v.inv.chains.linked.own r o j in ground (arith, own.price, own.side)

      unique :
          (s : LevelRef) (a : Ptr)
          → has a (v.queues s) ≡ true
          → ((b.heap a).id == (b.heap o).id) ≡ (o == a)
      unique s a k = elim (Bool-cases ((b.heap a).id == (b.heap o).id)) [
        | inl e ↦
            let same = eq_of_id v.inv r s o a j k (sym (eq_of_== _ _ e)) in
            e ∙ sym (ap (λ (z : Ptr). o == z) (sym same) ∙ ==_refl o)
        | inr ne ↦ elim (Bool-cases (o == a)) [
          | inl e ↦ cc (
            ap (λ (z : Ptr). (b.heap z).id == (b.heap o).id) (sym (eq_of_== o a e)),
            ==_refl (b.heap o).id,
          )
          | inr e ↦ ne ∙ sym e
        ]
      ]

      abbrev removed : Queues
      removed = set_queue v.queues r (remove o (v.queues r))

      -- the list without the order, and the same at each level
      pub removed-at_level :
          (t : LevelRef) → at_level (remove_entry es (b.heap o).id) t ≡ entries b.heap (removed t)
      removed-at_level t =
          at_level-remove_entry es (b.heap o).id (entry (b.heap o)) t member_entry
          ∙ subst
              (λ (s : LevelRef).
                (if eq_ref s t then remove_entry (at_level es t) (b.heap o).id else at_level es t)
                ≡ entries b.heap (removed t))
              (sym member_ref)
              (elim (Bool-cases (eq_ref r t)) [
                | inl e ↦
                    rw (e, v.shown t, ← eq_ref→eq r t e)
                      (sym (entries-remove b.heap o (v.queues r) (unique r)))
                | inr ne ↦ rw (ne, v.shown t) refl
              ])

      -- A step that takes the order out of its queue takes it out of the list.
      pub removed-Steps :
          (e : Entry) (res : Option (Book nlib))
          → Changes b o e removed res
          → Steps b (remove_entry es (b.heap o).id) res
      removed-Steps e res c = record {
        book = c.book;
        result = c.result;
        shows = record {
          queues = removed;
          inv = c.inv;
          shown = λ t.
              removed-at_level t
              ∙ sym (
                  entries-same c.book.heap b.heap (removed t)
                    (λ a k. entry-Alike (c.alike a (ground (arith, left_apart t a k)))));
        };
        stats = c.stats;
        last_ts = c.last_ts;
      }
        where
          left_apart : (t : LevelRef) (a : Ptr) → has a (removed t) ≡ true → (o == a) ≡ false
          left_apart t a k = (stays b v.queues o r v.inv j t a k).1

      -- A step that changes the quantity of the order only.
      pub reduced-Steps :
          (q : ℤ) (res : Option (Book nlib))
          → Changes b o (entry (record (b.heap o) { qty = q })) v.queues res
          → Steps b (set_qty es (b.heap o).id q) res
      reduced-Steps q res c = record {
        book = c.book;
        result = c.result;
        shows = record {
          queues = v.queues;
          inv = c.inv;
          shown = λ t.
              at_level-set_qty es (b.heap o).id q (entry (b.heap o)) t member_entry
              ∙ subst
                  (λ (s : LevelRef).
                    (if eq_ref s t then set_qty (at_level es t) (b.heap o).id q else at_level es t)
                    ≡ entries c.book.heap (v.queues t))
                  (sym member_ref) (reduced_at t);
        };
        stats = c.stats;
        last_ts = c.last_ts;
      }
        where
          others : (a : Ptr) → (o == a) ≡ false → entry (c.book.heap a) ≡ entry (b.heap a)
          others a ne = entry-Alike (c.alike a ne)

          reduced_at :
              (t : LevelRef)
              → (if eq_ref r t then set_qty (at_level es t) (b.heap o).id q else at_level es t)
                ≡ entries c.book.heap (v.queues t)
          reduced_at t = elim (Bool-cases (eq_ref r t)) [
            | inl e ↦
                rw (e, v.shown t, ← eq_ref→eq r t e)
                  (sym (
                    entries-set_qty c.book.heap b.heap o q (v.queues r)
                      (v.inv.chains.linked.distinct r) (unique r) j others (c.own r j)))
            | inr ne ↦
                rw (ne, v.shown t)
                  (sym (
                    entries-same c.book.heap b.heap (v.queues t)
                      λ a k. others a (queues_apart v.inv.chains.linked r t ne o a j k)))
          ]

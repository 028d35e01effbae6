-- ===== src/Orderbook/Filling.antt =====
-- Fill, OnCancel and OnModify on an order of the book, as changes of the list it shows.
use nqbook.Prelude.{
  ◌≡◌, refl, sym, ap, subst, true, false, ◌||◌, List, [], ◌∷◌, ◌++◌, Option, some, if◌then◌else◌,
  arith, Bool-cases, inl, inr, is_some, ◌>>=◌,
}
use nqbook.Prelude.Int.{
  ℤ, pos, ◌+ℤ◌, ◌-ℤ◌, ◌<ℤ◌, ltb_ℤ, leb_ℤ, eqb_ℤ, eqb_ℤ→eq, eqb_ℤ→parts, eqb_ℤ_refl, ltb_ℤ→lt,
  ltb_ℤ→ge, leb_ℤ→le, leb_ℤ→gt, int_laws,
}
use nqbook.Abi.{Mbo}
use nqbook.Nlib.{Ptr, Nlib}
use nqbook.Orderbook.PriceLevels.{LevelRef}
use nqbook.Orderbook.Book.{Book, reduce, remove_order, fill}
use nqbook.Orderbook.Feed.{cancel_order, modify_order, move_order, requeue_order}
use nqbook.Orderbook.Segments.{has}
use nqbook.Orderbook.Entries.{Entry, entry}
use nqbook.Orderbook.Removal.{remove_order-Changes}
use nqbook.Orderbook.Reduction.{reduce-Changes}
use nqbook.Orderbook.Priority.{remove_entry, set_qty, give, given, cancelled, modified}
use nqbook.Orderbook.Refinement.{Shows, Steps, removed-Steps, reduced-Steps, member_ref}
use nqbook.Orderbook.Appending.{move_order-Steps, requeue_order-Steps, alone-Steps}

pub nonpositive : (q : ℤ) → leb_ℤ q (pos 0) ≡ false → pos 0 <ℤ q
nonpositive q e = leb_ℤ→gt q (pos 0) e

module _ {nlib : Nlib} where
  -- a step of the book that gives `filled`, and after which it shows `es`
  pub record Gives (b : Book nlib) (filled : ℤ) (es : List Entry) (res : Option (ℤ × Book nlib))
      : Type 0 where
    pub book : Book nlib
    pub result : res ≡ some (filled, book)
    pub shows : Shows book es
    pub stats : book.stats ≡ b.stats
    pub last_ts : book.last_ts ≡ b.last_ts

  Gives-Steps :
      (b : Book nlib) (filled : ℤ) (es : List Entry) (res : Option (Book nlib))
      → Steps b es res
      → Gives b filled es (do b' ← res; some (filled, b'))
  Gives-Steps b filled es res s = record {
    book = s.book;
    result = rw s.result refl;
    shows = s.shows;
    stats = s.stats;
    last_ts = s.last_ts;
  }

  module _ (b : Book nlib) (es : List Entry) (v : Shows b es) (o : Ptr) (r : LevelRef)
      (j : has o (v.queues r) ≡ true) where
    abbrev e : Entry
    e = entry (b.heap o)

    pub remove_order-Steps : Steps b (remove_entry es e.id) (remove_order b o)
    remove_order-Steps =
        removed-Steps b es v o r j e _ (remove_order-Changes b v.queues o r v.inv j e)

    pub reduce-Steps :
        (q by : ℤ) → q +ℤ by ≡ e.qty → pos 0 <ℤ q → Steps b (set_qty es e.id q) (reduce b o q by)
    reduce-Steps q by splits positive =
        reduced-Steps b es v o r j q _ (reduce-Changes b v.queues o r v.inv j q by splits positive)

    less :
        (q : ℤ)
        → ltb_ℤ q e.qty ≡ true
        → Steps b (set_qty es e.id (e.qty -ℤ q)) (reduce b o (e.qty -ℤ q) q)
    less q lt = reduce-Steps (e.qty -ℤ q) q (omega int_laws) (omega (int_laws, ltb_ℤ→lt q e.qty lt))

    -- Fill gives the smaller of the quantities; an order with nothing left is gone.
    pub fill-Gives : (qty : ℤ) → Gives b (given e qty) (give es e qty) (fill b o qty)
    unfolding fill
    fill-Gives qty = elim (Bool-cases (ltb_ℤ qty e.qty)) [
      | inl lt ↦
          let ne : eqb_ℤ qty e.qty ≡ false = apart qty lt in
          rw (lt, ne) (Gives-Steps b qty _ _ (less qty lt))
      | inr ge ↦ rw (ge, eqb_ℤ_refl e.qty) (Gives-Steps b e.qty _ _ remove_order-Steps)
    ]
      where
        apart : (qty : ℤ) → ltb_ℤ qty e.qty ≡ true → eqb_ℤ qty e.qty ≡ false
        apart qty lt = elim (Bool-cases (eqb_ℤ qty e.qty)) [
          | inl same ↦ absurd (omega (int_laws, ltb_ℤ→lt qty e.qty lt, eqb_ℤ→parts qty e.qty same))
          | inr ne ↦ ne
        ]

    -- OnCancel on a known order
    pub cancel_order-Steps : (qty : ℤ) → Steps b (cancelled es e qty) (cancel_order b o qty)
    unfolding cancel_order
    cancel_order-Steps qty = elim (Bool-cases (leb_ℤ qty (pos 0))) [
      | inl all ↦ rw all remove_order-Steps
      | inr part ↦ elim (Bool-cases (ltb_ℤ qty e.qty)) [
        | inl lt ↦
            let more : leb_ℤ e.qty qty ≡ false = not_le qty lt in rw (part, more, lt) (less qty lt)
        | inr ge ↦
            let more : leb_ℤ e.qty qty ≡ true = le qty ge in rw (part, more, ge) remove_order-Steps
      ]
    ]
      where
        not_le : (qty : ℤ) → ltb_ℤ qty e.qty ≡ true → leb_ℤ e.qty qty ≡ false
        not_le qty lt = elim (Bool-cases (leb_ℤ e.qty qty)) [
          | inl k ↦ absurd (omega (int_laws, ltb_ℤ→lt qty e.qty lt, leb_ℤ→le e.qty qty k))
          | inr k ↦ k
        ]

        le : (qty : ℤ) → ltb_ℤ qty e.qty ≡ false → leb_ℤ e.qty qty ≡ true
        le qty ge = elim (Bool-cases (leb_ℤ e.qty qty)) [
          | inl k ↦ k
          | inr k ↦ absurd (omega (int_laws, ltb_ℤ→ge qty e.qty ge, leb_ℤ→gt e.qty qty k))
        ]

    module _ (m : Mbo) (positive : pos 0 <ℤ m.qty) where
      abbrev moved : Entry
      moved = record e { at = record e.at { at = m.price }; qty = m.qty }

      moved-Steps : Steps b (remove_entry es e.id ++ moved ∷ []) (move_order b o m)
      moved-Steps =
          subst
            (λ (s : LevelRef).
              Steps b
                (remove_entry es e.id
                  ++ record { id = e.id; at = record s { at = m.price }; qty = m.qty } ∷ [])
                (move_order b o m))
            (sym (member_ref b es v o r j)) (move_order-Steps b es v o r j m positive)

      splits : m.qty +ℤ (e.qty -ℤ m.qty) ≡ e.qty
      splits = omega int_laws

      module _ (same : eqb_ℤ m.price e.at.at ≡ true) where
        grown : entry (record (b.heap o) { qty = m.qty }) ≡ moved
        grown =
            ap (λ (p : ℤ). record e { at = record e.at { at = p }; qty = m.qty })
              (sym (eqb_ℤ→eq m.price e.at.at same))

        grown-Steps : Steps b (remove_entry es e.id ++ moved ∷ []) (
            if is_some (b.heap o).prev || is_some (b.heap o).next
            then requeue_order b o m
            else reduce b o m.qty (e.qty -ℤ m.qty))
        grown-Steps =
            subst
              (λ (d : Entry). Steps b (remove_entry es e.id ++ d ∷ []) (
                if is_some (b.heap o).prev || is_some (b.heap o).next
                then requeue_order b o m
                else reduce b o m.qty (e.qty -ℤ m.qty)))
              grown
              (elim (Bool-cases (is_some (b.heap o).prev || is_some (b.heap o).next)) [
                | inl behind ↦ rw behind (requeue_order-Steps b es v o r j m positive behind)
                | inr alone ↦ rw alone (
                    alone-Steps b es v o r j m positive (entry (record (b.heap o) { qty = m.qty }))
                      _ (member_ref b es v o r j) (ground arith) (ground arith)
                      (reduce-Changes b v.queues o r v.inv j m.qty (e.qty -ℤ m.qty) splits
                        positive))
              ])

    -- OnModify on a known order
    pub modify_order-Steps : (m : Mbo) → Steps b (modified es e m) (modify_order b o m)
    unfolding modify_order
    modify_order-Steps m = elim (Bool-cases (leb_ℤ m.qty (pos 0))) [
      | inl none_left ↦ rw none_left remove_order-Steps
      | inr k ↦
          let positive = nonpositive m.qty k in
          elim (Bool-cases (eqb_ℤ m.price e.at.at)) [
            | inr ne ↦ rw (k, ne) (moved-Steps m positive)
            | inl same ↦ elim (Bool-cases (ltb_ℤ e.qty m.qty)) [
              | inl grows ↦ rw (k, same, grows) (grown-Steps m positive same)
              | inr shrinks ↦
                  rw (k, same, shrinks)
                    (reduce-Steps m.qty (e.qty -ℤ m.qty) (splits m positive) positive)
            ]
          ]
    ]

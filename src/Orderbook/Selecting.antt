-- ===== src/Orderbook/Selecting.antt =====
-- Lookups, removals and changes of a list of orders, seen at one price level.
use nqbook.Prelude.{
  ℕ, ◌≡◌, refl, sym, ap, subst, true, false, List, [], ◌∷◌, ◌++◌, none, some, ◌==◌, if◌then◌else◌,
  map, arith, Bool-cases, inl, inr,
}
use nqbook.Prelude.Int.{ℤ}
use nqbook.Nlib.{Ptr}
use nqbook.Orderbook.PriceLevels.{LevelRef}
use nqbook.Orderbook.Memory.{Heap}
use nqbook.Orderbook.Segments.{has, Distinct}
use nqbook.Orderbook.Queues.{eq_ref, eq_ref_refl, eq_of_==, ==_refl, ne_of_members}
use nqbook.Orderbook.Unlinking.{remove}
use nqbook.Orderbook.Entries.{Entry, entry}
use nqbook.Orderbook.Priority.{find_entry, remove_entry, set_qty, at_level}

pub find_entry-id : (es : List Entry) (i : ℕ) (e : Entry) → find_entry es i ≡ some e → e.id ≡ i
unfolding find_entry
find_entry-id [] i e f = cc
find_entry-id (d ∷ es) i e f = ground (arith, find_entry-id es i e)

pub at_level-append :
    (es fs : List Entry) (t : LevelRef) → at_level (es ++ fs) t ≡ at_level es t ++ at_level fs t
unfolding at_level
at_level-append [] fs t = refl
at_level-append (d ∷ es) fs t = ground (arith, at_level-append es fs t)

pub find_entry-at_level-none :
    (es : List Entry) (i : ℕ) (t : LevelRef)
    → find_entry es i ≡ none
    → find_entry (at_level es t) i ≡ none
unfolding find_entry at_level
find_entry-at_level-none [] i t f = refl
find_entry-at_level-none (d ∷ es) i t f = ground (arith, find_entry-at_level-none es i t)

-- An order is found in its own level.
pub find_entry-at_level :
    (es : List Entry) (i : ℕ) (e : Entry)
    → find_entry es i ≡ some e
    → find_entry (at_level es e.at) i ≡ some e
unfolding find_entry at_level
find_entry-at_level [] i e f = cc
find_entry-at_level (d ∷ es) i e f = elim (Bool-cases (d.id == i)) [
  | inl here ↦
      let same : d ≡ e = ground arith in
      subst (λ (e : Entry). find_entry (at_level (d ∷ es) e.at) i ≡ some e) same
        (ground (arith, eq_ref_refl d.at))
  | inr ne ↦ ground (arith, find_entry-at_level es i e)
]

pub at_level-remove_entry :
    (es : List Entry) (i : ℕ) (e : Entry) (t : LevelRef)
    → find_entry es i ≡ some e
    → at_level (remove_entry es i) t
      ≡ (if eq_ref e.at t then remove_entry (at_level es t) i else at_level es t)
unfolding find_entry remove_entry at_level
at_level-remove_entry [] i e t f = cc
at_level-remove_entry (d ∷ es) i e t f = elim (Bool-cases (d.id == i)) [
  | inl here ↦
      let same : d ≡ e = ground arith in
      subst
        (λ (e : Entry).
          at_level (remove_entry (d ∷ es) i) t
          ≡ (if eq_ref e.at t then remove_entry (at_level (d ∷ es) t) i else at_level (d ∷ es) t))
        same (ground arith)
  | inr ne ↦ ground (arith, at_level-remove_entry es i e t)
]

pub at_level-set_qty :
    (es : List Entry) (i : ℕ) (q : ℤ) (e : Entry) (t : LevelRef)
    → find_entry es i ≡ some e
    → at_level (set_qty es i q) t
      ≡ (if eq_ref e.at t then set_qty (at_level es t) i q else at_level es t)
unfolding find_entry set_qty at_level
at_level-set_qty [] i q e t f = cc
at_level-set_qty (d ∷ es) i q e t f = elim (Bool-cases (d.id == i)) [
  | inl here ↦
      let same : d ≡ e = ground arith in
      subst
        (λ (e : Entry).
          at_level (set_qty (d ∷ es) i q) t
          ≡ (if eq_ref e.at t then set_qty (at_level (d ∷ es) t) i q else at_level (d ∷ es) t))
        same (ground arith)
  | inr ne ↦ ground (arith, at_level-set_qty es i q e t)
]

-- the orders of a queue, as entries
abbrev pub entries : Heap → List Ptr → List Entry
entries h xs = map (λ (a : Ptr). entry (h a)) xs

pub find_entries :
    (h : Heap) (xs : List Ptr) (i : ℕ) (e : Entry)
    → find_entry (entries h xs) i ≡ some e
    → (o : Ptr) × (has o xs ≡ true) × (entry (h o) ≡ e)
unfolding find_entry
find_entries h [] i e f = cc
find_entries h (x ∷ xs) i e f = elim (Bool-cases ((h x).id == i)) [
  | inl here ↦ (x, ground (arith, ==_refl x), ground arith)
  | inr ne ↦ let (o, j, same) = find_entries h xs i e (ground arith) in (o, ground arith, same)
]

pub find_entries-none :
    (h : Heap) (xs : List Ptr) (o : Ptr)
    → has o xs ≡ true
    → find_entry (entries h xs) (h o).id ≡ none
    → ⊥
unfolding find_entry
find_entries-none h [] o j f = cc
find_entries-none h (x ∷ xs) o j f = elim (Bool-cases (o == x)) [
  | inl e ↦
      let same : (h x).id ≡ (h o).id = ap (λ (z : Ptr). (h z).id) (sym (eq_of_== o x e)) in
      ground arith
  | inr e ↦ find_entries-none h xs o (ground arith) (ground arith)
]

pub entries-append :
    (h : Heap) (xs ys : List Ptr) → entries h (xs ++ ys) ≡ entries h xs ++ entries h ys
entries-append h [] ys = refl
entries-append h (x ∷ xs) ys = ap (λ (es : List Entry). entry (h x) ∷ es) (entries-append h xs ys)

pub entries-same :
    (g h : Heap) (xs : List Ptr)
    → ((a : Ptr) → has a xs ≡ true → entry (g a) ≡ entry (h a))
    → entries g xs ≡ entries h xs
entries-same g h [] same = refl
entries-same g h (x ∷ xs) same =
    rw (same x (ground (arith, ==_refl x)), entries-same g h xs (λ a j. same a (ground arith))) refl

-- The order with an id leaves the entries as it leaves the queue.
pub entries-remove :
    (h : Heap) (o : Ptr) (xs : List Ptr)
    → ((a : Ptr) → has a xs ≡ true → ((h a).id == (h o).id) ≡ (o == a))
    → entries h (remove o xs) ≡ remove_entry (entries h xs) (h o).id
unfolding remove_entry
entries-remove h o [] unique = refl
entries-remove h o (x ∷ xs) unique =
    let rest = entries-remove h o xs (λ a j. unique a (ground arith)) in
    ground (arith, unique x (ground (arith, ==_refl x)))

pub entries-set_qty :
    (g h : Heap) (o : Ptr) (q : ℤ) (xs : List Ptr)
    → Distinct xs
    → ((a : Ptr) → has a xs ≡ true → ((h a).id == (h o).id) ≡ (o == a))
    → has o xs ≡ true
    → ((a : Ptr) → (o == a) ≡ false → entry (g a) ≡ entry (h a))
    → entry (g o) ≡ record (entry (h o)) { qty = q }
    → entries g xs ≡ set_qty (entries h xs) (h o).id q
unfolding set_qty
entries-set_qty g h o q [] d unique j others own = cc
entries-set_qty g h o q (x ∷ xs) d unique j others own = elim (Bool-cases (o == x)) [
  | inl e ↦
      let first : entry (g x) ≡ record (entry (h x)) { qty = q } =
        subst (λ (z : Ptr). entry (g z) ≡ record (entry (h z)) { qty = q }) (eq_of_== o x e) own in
      let rest : entries g xs ≡ entries h xs = entries-same g h xs λ a k. others a (
        subst (λ (z : Ptr). (z == a) ≡ false) (sym (eq_of_== o x e))
          (ne_of_members x a xs d.0 k)) in
      rw (unique x (ground (arith, ==_refl x)), e, first, rest) refl
  | inr ne ↦
      let rest =
        entries-set_qty g h o q xs d.1 (λ a k. unique a (ground arith)) (ground arith) others own in
      rw (unique x (ground (arith, ==_refl x)), ne, others x ne, rest) refl
]

-- ===== src/Orderbook/Sweeping.antt =====
-- FillLevel takes the orders of a price in the order of the list, each to its end.
use nqbook.Prelude.{
  ◌≡◌, refl, sym, ap, subst, true, false, List, [], ◌∷◌, some, ◌==◌, if◌then◌else◌, arith,
  Bool-cases, inl, inr,
}
use nqbook.Prelude.Int.{ℤ, pos, ◌-ℤ◌, ltb_ℤ}
use nqbook.Orderbook.PriceLevels.{LevelRef}
use nqbook.Orderbook.Queues.{eq_ref, ==_refl}
use nqbook.Orderbook.Entries.{Entry}
use nqbook.Orderbook.Priority.{find_entry, remove_entry, set_qty, at_level, sweep}

pub sweep_stop :
    (r : LevelRef) (qty : ℤ) (es : List Entry)
    → ltb_ℤ (pos 0) qty ≡ false
    → sweep r qty es ≡ (qty, es)
unfolding sweep
sweep_stop r qty [] e = refl
sweep_stop r qty (d ∷ es) e = rw e refl

sweep_skip_more :
    (r : LevelRef) (qty : ℤ) (d : Entry) (es : List Entry)
    → eq_ref d.at r ≡ false
    → ltb_ℤ (pos 0) qty ≡ true
    → sweep r qty (d ∷ es) ≡ ((sweep r qty es).0, d ∷ (sweep r qty es).1)
unfolding sweep
sweep_skip_more r qty d es ne more = rw (more, ne) refl

sweep_skip :
    (r : LevelRef) (qty : ℤ) (d : Entry) (es : List Entry)
    → eq_ref d.at r ≡ false
    → sweep r qty (d ∷ es) ≡ ((sweep r qty es).0, d ∷ (sweep r qty es).1)
sweep_skip r qty d es ne = elim (Bool-cases (ltb_ℤ (pos 0) qty)) [
  | inl more ↦ sweep_skip_more r qty d es ne more
  | inr stop ↦ rw (sweep_stop r qty (d ∷ es) stop, sweep_stop r qty es stop) refl
]

sweep-nil : (r : LevelRef) (qty : ℤ) → sweep r qty [] ≡ (qty, [])
unfolding sweep
sweep-nil r qty = refl

pub sweep_none :
    (r : LevelRef) (qty : ℤ) (es : List Entry) → at_level es r ≡ [] → sweep r qty es ≡ (qty, es)
unfolding at_level
sweep_none r qty [] e = sweep-nil r qty
sweep_none r qty (d ∷ es) e = elim (Bool-cases (eq_ref d.at r)) [
  | inl here ↦ cc (rw here at e)
  | inr ne ↦ rw (sweep_skip r qty d es ne, sweep_none r qty es (rw ne at e)) refl
]

at_level-head :
    (es : List Entry) (r : LevelRef) (e : Entry) (rest : List Entry)
    → at_level es r ≡ e ∷ rest
    → eq_ref e.at r ≡ true
unfolding at_level
at_level-head [] r e rest k = cc
at_level-head (d ∷ es) r e rest k = elim (Bool-cases (eq_ref d.at r)) [
  | inl here ↦
      let same : d ≡ e = ground arith in subst (λ (e : Entry). eq_ref e.at r ≡ true) same here
  | inr ne ↦ at_level-head es r e rest (rw ne at k)
]

-- The oldest order at the price, when it is also the one that its id finds.
module _ (r : LevelRef) (qty : ℤ) (more : ltb_ℤ (pos 0) qty ≡ true) (e : Entry)
    (rest : List Entry) where
  abbrev First : List Entry → Type 0
  First es = sweep r qty es ≡ (
      if ltb_ℤ qty e.qty
      then (pos 0, set_qty es e.id (e.qty -ℤ qty))
      else sweep r (qty -ℤ e.qty) (remove_entry es e.id))

  First-here : (es : List Entry) → eq_ref e.at r ≡ true → First (e ∷ es)
  unfolding sweep set_qty remove_entry
  First-here es here = rw (more, here, ==_refl e.id) refl

  First-later :
      (d : Entry) (es : List Entry)
      → eq_ref d.at r ≡ false
      → (d.id == e.id) ≡ false
      → First es
      → First (d ∷ es)
  unfolding set_qty remove_entry
  First-later d es ne other k = elim (Bool-cases (ltb_ℤ qty e.qty)) [
    | inl lt ↦ rw (sweep_skip r qty d es ne, lt, other, k, lt) refl
    | inr ge ↦
        rw (sweep_skip r qty d es ne, ge, other, k, ge)
          (sym (sweep_skip r (qty -ℤ e.qty) d (remove_entry es e.id) ne))
  ]

  pub sweep-First :
      (es : List Entry) → at_level es r ≡ e ∷ rest → find_entry es e.id ≡ some e → First es
  unfolding at_level find_entry
  sweep-First [] k f = cc
  sweep-First (d ∷ es) k f = elim (Bool-cases (eq_ref d.at r)) [
    | inl here ↦
        let same : d ≡ e = ground arith in
        subst (λ (d : Entry). First (d ∷ es)) (sym same)
          (First-here es (subst (λ (e : Entry). eq_ref e.at r ≡ true) same here))
    | inr ne ↦ elim (Bool-cases (d.id == e.id)) [
      | inl same_id ↦
          let same : d ≡ e = ground arith in
          let there : eq_ref e.at r ≡ true = at_level-head es r e rest (rw ne at k) in
          cc (ap (λ (e : Entry). eq_ref e.at r) same, there, ne)
      | inr other ↦ First-later d es ne other (sweep-First es (rw ne at k) (rw other at f))
    ]
  ]

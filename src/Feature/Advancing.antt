-- ===== src/Feature/Advancing.antt =====
-- Advance of a time sampler, on every branch.
use nqbook.Prelude.{
  ℕ, suc, ◌+◌, ◌/◌, ◌<◌, ◌≡◌, refl, sym, ◌∙◌, subst, true, false, List, [], ◌∷◌, ◌++◌, some, length,
  if◌then◌else◌, ◌⊎◌, arith, Bool-cases, inl, inr,
}
use nqbook.Prelude.Int.{
  ℤ, pos, negsuc, ◌+ℤ◌, ◌-ℤ◌, ◌*ℤ◌, ◌<ℤ◌, ◌≤ℤ◌, pos_part, quot_ℕ, ltb_ℤ, ltb_ℤ→lt, ltb_ℤ→ge,
  int_laws,
}
use native.Mathlib.Nat.{lt-div-mul-add}
use nqbook.Feature.Double.{Double}
use nqbook.Feature.Sampler.{on_time, Sampler, V, quot, bar_end, emit, fill_gap, close_bars, advance}
use nqbook.Feature.Emission.{Ready, emit-Emits, times}
use nqbook.Feature.Bars.{
  grid, Filled, fill_gap-Filled, bar_end-bounds, append-nil, grid-zero, zero_times, times-next,
}

-- Enough rounds for the gap.
rounds_at : (d e : ℕ) → 0 < e → pos d <ℤ pos (d / e + 1) *ℤ pos e
unfolding ◌*ℤ◌
rounds_at d e h = let over = lt-div-mul-add {a = d} {b = e} h in grind arith

pub rounds_of :
    (gap every : ℤ)
    → pos 0 ≤ℤ gap
    → pos 0 <ℤ every
    → gap <ℤ pos (pos_part (quot gap every) + 1) *ℤ every
unfolding quot quot_ℕ
rounds_of (negsuc d) every h g = absurd (omega arith)
rounds_of (pos d) (negsuc e) h g = absurd (omega arith)
rounds_of (pos d) (pos e) h g = rounds_at d e (omega arith)

module _ {D : Double} {S : Type 0} (read : S → List (V D) × S) (n : ℕ) where
  pub close_gap :
      (s : Sampler D) (ts : ℤ) (x : S) (s' : Sampler D)
      → s.spec.fill_gaps ≡ true
      → fill_gap D (suc (pos_part (quot (ts -ℤ s.next) s.spec.every) + 1)) s ts (read x).0 ≡ some s'
      → close_bars D read s ts x ≡ some (s', (read x).1)
  unfolding close_bars
  close_gap s ts x s' gaps e =
      let fuel : pos_part (quot (ts -ℤ s.next) s.spec.every) + 2
          ≡ suc (pos_part (quot (ts -ℤ s.next) s.spec.every) + 1) =
        omega arith in
      simp (gaps, fuel, e)

  pub close_bar :
      (s : Sampler D) (ts : ℤ) (x : S) (s' : Sampler D)
      → s.spec.fill_gaps ≡ false
      → emit D s s.next (read x).0 ≡ some s'
      → close_bars D read s ts x ≡ some (record s' { next = bar_end ts s.spec.every }, (read x).1)
  unfolding close_bars
  close_bar s ts x s' skips e = simp (skips, e)

  module _ (s : Sampler D) (ready : Ready s n) (timed : s.spec.trigger ≡ on_time)
      (started : s.started ≡ true) where
    pub advance_at :
        (ts : ℤ) (x : S)
        → advance D read s ts x
          ≡ (if ltb_ℤ ts s.next then some (s, x) else close_bars D read s ts x)
    unfolding advance
    advance_at ts x = simp (advance, timed, started)

    -- On a started time sampler that fills gaps, Advance returns, whether or not an event fell into the
    -- open bar, and also where that is the first bar of the instrument. It gives a row for each end of a
    -- bar from the next one up to the time, none twice and none left out, and is then ahead of the
    -- time: by at most one interval, where it gave a row.
    pub advance-fills :
        s.spec.fill_gaps ≡ true
        → (ts : ℤ) (x : S) → length (read x).0 ≡ n
        → (s' : Sampler D) × (x' : S) × (bars : ℕ) × (advance D read s ts x ≡ some (s', x'))
          × (times s' ≡ times s ++ grid s.next s.spec.every bars)
          × (s'.next ≡ s.next +ℤ pos bars *ℤ s.spec.every)
          × (ts <ℤ s'.next)
          × ((bars ≡ 0) ⊎ (s'.next ≤ℤ ts +ℤ s.spec.every))
    advance-fills gaps ts x reads = elim (Bool-cases (ltb_ℤ ts s.next)) [
      | inl before ↦ (
        s,
        x,
        0,
        rw (advance_at ts x, before) refl,
        sym (rw (grid-zero s.next s.spec.every) (append-nil (times s))),
        rw (zero_times s.spec.every) (omega int_laws),
        ltb_ℤ→lt ts s.next before,
        inl refl,
      )
      | inr due ↦
          let f = filled due in
          (
            f.sampler,
            (read x).1,
            f.bars,
            rw (advance_at ts x, due) (closes f.sampler f.result),
            f.given,
            f.next,
            f.ahead,
            f.near,
          )
    ]
      where
        rounds : ℕ
        rounds = pos_part (quot (ts -ℤ s.next) s.spec.every)

        values : List (V D)
        values = (read x).0

        ready' : Ready s (length values)
        ready' = subst (Ready s) (sym reads) ready

        filled :
            ltb_ℤ ts s.next ≡ false
            → Filled s ts (length values) (fill_gap D (suc (rounds + 1)) s ts values)
        filled due =
            let late = ltb_ℤ→ge ts s.next due in
            let enough = rounds_of (ts -ℤ s.next) s.spec.every (omega int_laws) ready.positive in
            fill_gap-Filled ts values (rounds + 1) s ready' (omega int_laws)

        closes :
            (s' : Sampler D)
            → fill_gap D (suc (rounds + 1)) s ts values ≡ some s'
            → close_bars D read s ts x ≡ some (s', (read x).1)
        closes s' e = close_gap s ts x s' gaps e

    -- On a started time sampler that does not fill gaps, at a time that is not negative, Advance
    -- returns. Before the end of the bar it changes nothing. From there on it gives one row, at the
    -- end of the bar that was open, whether or not an event fell into that bar, and also where it is
    -- the first bar of the instrument, and the next bar is the one that the time stands in: its end is
    -- a multiple of the interval, behind the time by at most the interval.
    pub advance-skips :
        s.spec.fill_gaps ≡ false
        → (ts : ℤ) (x : S) → length (read x).0 ≡ n
        → pos 0 ≤ℤ ts
        → (s' : Sampler D) × (x' : S) × (advance D read s ts x ≡ some (s', x'))
          × (((ts <ℤ s.next) × (s' ≡ s))
              ⊎ ((s.next ≤ℤ ts)
                  × (times s' ≡ times s ++ s.next ∷ [])
                  × (ts <ℤ s'.next)
                  × (s'.next ≤ℤ ts +ℤ s.spec.every)
                  × ((k : ℕ) × (s'.next ≡ pos k *ℤ s.spec.every))))
    advance-skips skips ts x reads early = elim (Bool-cases (ltb_ℤ ts s.next)) [
      | inl before ↦
          (s, x, rw (advance_at ts x, before) refl, inl (ltb_ℤ→lt ts s.next before, refl))
      | inr due ↦
          let em = emit-Emits s s.next (read x).0 (subst (Ready s) (sym reads) ready) in
          let (over, near, grid) = bar_end-bounds ts s.spec.every early ready.positive in
          (
            record em.sampler { next = bar_end ts s.spec.every },
            (read x).1,
            rw (advance_at ts x, due) (close_bar s ts x em.sampler skips em.result),
            inr (
              ltb_ℤ→ge ts s.next due,
              times-next em.sampler (bar_end ts s.spec.every) ∙ em.given,
              over,
              near,
              grid,
            ),
          )
    ]

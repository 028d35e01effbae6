-- ===== src/Feature/Returning.antt =====
-- Advance, Close and OnEvent with its emission return on every sampler whose columns are in range.
use nqbook.Prelude.{
  ℕ, ◌+◌, ◌≡◌, refl, sym, subst, true, false, not, ◌||◌, List, Option, some, length, if◌then◌else◌,
  ◌>>=◌, ◌⊎◌, ◌==◌, Bool-cases, inl, inr,
}
use nqbook.Prelude.Int.{ℤ, pos, ◌+ℤ◌, ◌-ℤ◌, ltb_ℤ, ltb_ℤ→ge, eqb_ℤ, pos_part, int_laws}
use nqbook.Abi.{trade}
use nqbook.Feature.Double.{Double}
use nqbook.Feature.Sampler.{
  on_time, on_events, on_trades, Sampler, V, quot, bar_end, emit, close_bars, advance, emit_read,
  close_count, close, count_event, sampler_event,
}
use nqbook.Feature.Emission.{Ready, emit-Emits}
use nqbook.Feature.Bars.{fill_gap-Filled}
use nqbook.Feature.Advancing.{rounds_of, close_gap, close_bar, advance_at}
use nqbook.Feature.Counting.{Trigger-cases, timed, on_each, on_trade, no_trade}

module _ {D : Double} {S : Type 0} (read : S → List (V D) × S) (n : ℕ) where
  -- The step returned, and read at most once.
  pub record Returns (s : Sampler D) (x : S) (res : Option (Sampler D × S)) : Type 0 where
    pub sampler : Sampler D
    pub state : S
    pub result : res ≡ some (sampler, state)
    pub ready : Ready sampler n
    pub read_once : (state ≡ x) ⊎ (state ≡ (read x).1)

  module _ (s : Sampler D) (ready : Ready s n) (x : S) (reads : length (read x).0 ≡ n) where
    stays : (s' : Sampler D) → Ready s' n → Returns s x (some (s', x))
    stays s' k = record { sampler = s'; state = x; result = refl; ready = k; read_once = inl refl }

    emits :
        (s' : Sampler D) (ts next : ℤ)
        → Ready s' n
        → Returns s x (do t ← emit D s' ts (read x).0; some (t, (read x).1))
    emits s' ts next k =
        let em = emit-Emits s' ts (read x).0 (subst (Ready s') (sym reads) k) in
        record {
          sampler = em.sampler;
          state = (read x).1;
          result = rw em.result refl;
          ready = subst (Ready em.sampler) reads em.ready;
          read_once = inr refl;
        }

    bar_closes : (ts : ℤ) → s.spec.fill_gaps ≡ false → Returns s x (close_bars D read s ts x)
    bar_closes ts skips =
        let em = emit-Emits s s.next (read x).0 (subst (Ready s) (sym reads) ready) in
        let k = subst (Ready em.sampler) reads em.ready in
        record {
          sampler = record em.sampler { next = bar_end ts s.spec.every };
          state = (read x).1;
          result = close_bar read n s ts x em.sampler skips em.result;
          ready = record { in_range = k.in_range; baseline = k.baseline; positive = k.positive };
          read_once = inr refl;
        }

    gap_closes :
        (ts : ℤ)
        → s.spec.fill_gaps ≡ true
        → ltb_ℤ ts s.next ≡ false
        → Returns s x (close_bars D read s ts x)
    gap_closes ts gaps due =
        let late = ltb_ℤ→ge ts s.next due in
        let enough = rounds_of (ts -ℤ s.next) s.spec.every (omega int_laws) ready.positive in
        let f =
          fill_gap-Filled ts (read x).0 (pos_part (quot (ts -ℤ s.next) s.spec.every) + 1) s
            (subst (Ready s) (sym reads) ready) (omega int_laws) in
        record {
          sampler = f.sampler;
          state = (read x).1;
          result = close_gap read n s ts x f.sampler gaps f.result;
          ready = subst (Ready f.sampler) reads f.ready;
          read_once = inr refl;
        }

    waits_for_events : (ts : ℤ) → s.spec.trigger ≡ on_events → advance D read s ts x ≡ some (s, x)
    unfolding advance
    waits_for_events ts e = simp (advance, e)

    waits_for_trades : (ts : ℤ) → s.spec.trigger ≡ on_trades → advance D read s ts x ≡ some (s, x)
    unfolding advance
    waits_for_trades ts e = simp (advance, e)

    starts :
        (ts : ℤ)
        → s.spec.trigger ≡ on_time
        → s.started ≡ false
        → advance D read s ts x
          ≡ some (record s { started = true; next = bar_end ts s.spec.every }, x)
    unfolding advance
    starts ts e f = simp (advance, e, f)

    pub advance-Returns : (ts : ℤ) → Returns s x (advance D read s ts x)
    advance-Returns ts = elim (Trigger-cases s.spec.trigger) [
      | inr (inl e) ↦ rw (waits_for_events ts e) (stays s ready)
      | inr (inr e) ↦ rw (waits_for_trades ts e) (stays s ready)
      | inl e ↦ elim (Bool-cases s.started) [
        | inr f ↦ rw (starts ts e f) (
            stays (record s { started = true; next = bar_end ts s.spec.every })
              (record {
                in_range = ready.in_range;
                baseline = ready.baseline;
                positive = ready.positive;
              }))
        | inl t ↦ elim (Bool-cases (ltb_ℤ ts s.next)) [
          | inl before ↦ rw (advance_at read n s ready e t ts x, before) (stays s ready)
          | inr due ↦ elim (Bool-cases s.spec.fill_gaps) [
            | inl gaps ↦ rw (advance_at read n s ready e t ts x, due) (gap_closes ts gaps due)
            | inr skips ↦ rw (advance_at read n s ready e t ts x, due) (bar_closes ts skips)
          ]
        ]
      ]
    ]

    closes_time :
        s.spec.trigger ≡ on_time
        → close D read s x ≡ (
            if not s.started || not (s.dirty || s.spec.fill_gaps)
            then some (s, x)
            else emit_read D read s s.next x)
    unfolding close
    closes_time e = simp (close, e)

    closes_events : s.spec.trigger ≡ on_events → close D read s x ≡ close_count D read s x
    unfolding close
    closes_events e = simp (close, e)

    closes_trades : s.spec.trigger ≡ on_trades → close D read s x ≡ close_count D read s x
    unfolding close
    closes_trades e = simp (close, e)

    reads_out : (s' : Sampler D) (ts : ℤ) → Ready s' n → Returns s x (emit_read D read s' ts x)
    unfolding emit_read
    reads_out s' ts k = emits s' ts ts k

    counts_out : Returns s x (close_count D read s x)
    unfolding close_count
    counts_out = elim (Bool-cases (eqb_ℤ s.count (pos 0))) [
      | inl none_left ↦ rw none_left (stays s ready)
      | inr some_left ↦ rw some_left (
          reads_out (record s { count = pos 0 }) s.last_ts
            (record {
              in_range = ready.in_range;
              baseline = ready.baseline;
              positive = ready.positive;
            }))
    ]

    pub close-Returns : Returns s x (close D read s x)
    close-Returns = elim (Trigger-cases s.spec.trigger) [
      | inl e ↦ elim (Bool-cases (not s.started || not (s.dirty || s.spec.fill_gaps))) [
        | inl nothing ↦ rw (closes_time e, nothing) (stays s ready)
        | inr open_bar ↦ rw (closes_time e, open_bar) (reads_out s s.next ready)
      ]
      | inr (inl e) ↦ rw (closes_events e) counts_out
      | inr (inr e) ↦ rw (closes_trades e) counts_out
    ]

    count_event-Ready : (s' : Sampler D) → Ready s' n → Ready (count_event D s').1 n
    unfolding count_event
    count_event-Ready s' k = elim (Bool-cases (ltb_ℤ (s'.count +ℤ pos 1) s'.spec.every)) [
      | inl e ↦
          rw e (record { in_range = k.in_range; baseline = k.baseline; positive = k.positive })
      | inr e ↦
          rw e (record { in_range = k.in_range; baseline = k.baseline; positive = k.positive })
    ]

    stamped-Ready : (ts : ℤ) → Ready (record s { last_ts = ts }) n
    stamped-Ready ts = record {
      in_range = ready.in_range;
      baseline = ready.baseline;
      positive = ready.positive;
    }

    event-Ready : (ts : ℤ) (a : ℕ) → Ready (sampler_event D s ts a).1 n
    event-Ready ts a = elim (Trigger-cases s.spec.trigger) [
      | inl e ↦ rw (timed s ts a e) (record {
        in_range = ready.in_range;
        baseline = ready.baseline;
        positive = ready.positive;
      })
      | inr (inl e) ↦
          rw (on_each s ts a e) (count_event-Ready (record s { last_ts = ts }) (stamped-Ready ts))
      | inr (inr e) ↦ elim (Bool-cases (a == trade)) [
        | inl t ↦
            rw (on_trade s ts a e t)
              (count_event-Ready (record s { last_ts = ts }) (stamped-Ready ts))
        | inr f ↦ rw (no_trade s ts a e f) (stamped-Ready ts)
      ]
    ]

    -- OnEvent, and the emission where a row is due
    pub event-Returns :
        (ts : ℤ) (a : ℕ)
        → Returns s x (
            if (sampler_event D s ts a).0
            then (do t ← emit D (sampler_event D s ts a).1 ts (read x).0; some (t, (read x).1))
            else some ((sampler_event D s ts a).1, x))
    event-Returns ts a = elim (Bool-cases (sampler_event D s ts a).0) [
      | inl due ↦ rw due (emits (sampler_event D s ts a).1 ts ts (event-Ready ts a))
      | inr later ↦ rw later (stays (sampler_event D s ts a).1 (event-Ready ts a))
    ]

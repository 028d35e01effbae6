-- ===== src/Examples/Sampling.antt =====
-- The theorems on the samplers, with natural numbers in the place of doubles.
use nqbook.Prelude.{
  ℕ, ◌+◌, ◌-◌, ◌≡◌, refl, ◌⊎◌, Bool, true, false, List, [], ◌∷◌, ◌++◌, some, arith,
}
use nqbook.Prelude.Int.{ℤ, pos, ◌+ℤ◌, ◌*ℤ◌, ◌<ℤ◌, ◌≤ℤ◌}
use nqbook.Abi.{add, trade}
use nqbook.Feature.Double.{Double}
use nqbook.Feature.Sampler.{
  Trigger, on_time, on_trades, snapshot, cumulative, Sampler, bar_end, advance,
}
use nqbook.Feature.Emission.{Ready, times}
use nqbook.Feature.Bars.{grid, bar_end-bounds}
use nqbook.Feature.Advancing.{advance-fills, advance-skips}
use nqbook.Feature.Counting.{run_events, counted_events, run_events-Counts}

abbrev pub numbers : Double
numbers = record { Value = ℕ; zero = 0; minus = λ a b. a - b }

-- a sampler of two columns whose bar ends at 10, one unit of time after another
abbrev sampler : Trigger → ℤ → (gaps : Bool) → Sampler numbers
sampler t every gaps = record {
  spec = record { trigger = t; every = every; fill_gaps = gaps };
  columns = record { index = 0; kind = snapshot } ∷ record { index = 1; kind = cumulative } ∷ [];
  rows = record { ncol = 2; ts = []; values = [] };
  last = 0 ∷ 0 ∷ [];
  has_sink = false;
  sunk = [];
  sampler_index = 0;
  instrument = 7;
  next = pos 10;
  started = true;
  dirty = true;
  last_ts = pos 9;
  count = pos 1;
}

abbrev read : ℕ → List ℕ × ℕ
read x = (x ∷ (x + 5) ∷ [], x)

ready : (t : Trigger) (g : Bool) → Ready (sampler t (pos 5) g) 2
ready t g = record {
  in_range = (omega arith, (omega arith, tt));
  baseline = refl;
  positive = omega arith;
}

bar_end-bounds_example :
    (pos 12 <ℤ bar_end (pos 12) (pos 5))
    × (bar_end (pos 12) (pos 5) ≤ℤ pos 12 +ℤ pos 5)
    × ((k : ℕ) × (bar_end (pos 12) (pos 5) ≡ pos k *ℤ pos 5))
bar_end-bounds_example = bar_end-bounds (pos 12) (pos 5) (omega arith) (omega arith)

advance-fills_example :
    (s' : Sampler numbers) × (x' : ℕ) × (bars : ℕ) × (advance numbers read
        (sampler on_time (pos 5) true)
        (pos 23)
        3
      ≡ some (s', x'))
    × (times s' ≡ times (sampler on_time (pos 5) true) ++ grid (pos 10) (pos 5) bars)
    × (s'.next ≡ pos 10 +ℤ pos bars *ℤ pos 5)
    × (pos 23 <ℤ s'.next)
    × ((bars ≡ 0) ⊎ (s'.next ≤ℤ pos 23 +ℤ pos 5))
advance-fills_example =
    advance-fills {D = numbers} read 2 (sampler on_time (pos 5) true) (ready on_time true) refl refl
      refl (pos 23) 3 refl

advance-skips_example :
    (s' : Sampler numbers) × (x' : ℕ) × (advance numbers read
        (sampler on_time (pos 5) false)
        (pos 23)
        3
      ≡ some (s', x'))
    × (((pos 23 <ℤ pos 10) × (s' ≡ sampler on_time (pos 5) false))
        ⊎ ((pos 10 ≤ℤ pos 23)
            × (times s' ≡ times (sampler on_time (pos 5) false) ++ pos 10 ∷ [])
            × (pos 23 <ℤ s'.next)
            × (s'.next ≤ℤ pos 23 +ℤ pos 5)
            × ((k : ℕ) × (s'.next ≡ pos k *ℤ pos 5))))
advance-skips_example =
    advance-skips {D = numbers} read 2 (sampler on_time (pos 5) false) (ready on_time false) refl
      refl refl (pos 23) 3 refl (omega arith)

abbrev feed : List (ℤ × ℕ)
feed = (pos 1, trade) ∷ (pos 2, add) ∷ (pos 3, trade) ∷ (pos 4, trade) ∷ []

abbrev on_two : Sampler numbers
on_two = sampler on_trades (pos 2) false

run_events-Counts_example :
    (pos (run_events on_two feed).0 *ℤ pos 2 +ℤ (run_events on_two feed).1.count
      ≡ pos 1 +ℤ pos (counted_events on_trades feed))
    × (pos 0 ≤ℤ (run_events on_two feed).1.count)
    × ((run_events on_two feed).1.count <ℤ pos 2)
run_events-Counts_example =
    run_events-Counts on_two (record { low = omega arith; high = omega arith }) feed

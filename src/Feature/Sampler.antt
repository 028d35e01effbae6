-- ===== src/Feature/Sampler.antt =====
-- include/Feature/Sampler.h and src/Feature/Sampler.cpp: a sampler of one instrument. It is generic
-- in its source of values, a step on a state of type S, since the engine caches what it reads.
-- Times and counts are exact: the overflow of int64_t is outside the model.
use nqbook.Prelude.{
  ℕ, zero, suc, ◌+◌, Bool, true, false, not, ◌||◌, List, [], ◌∷◌, ◌++◌, Option, none, some,
  get_elem?, replicate, length, map, ◌==◌, if◌then◌else◌, ◌>>=◌,
}
use nqbook.Prelude.Int.{ℤ, pos, ◌+ℤ◌, ◌-ℤ◌, ◌*ℤ◌, quot_ℕ, pos_part, ltb_ℤ, leb_ℤ, eqb_ℤ}
use nqbook.Abi.{trade}
use nqbook.Feature.Double.{Double}
use nqbook.Feature.RowBuffer.{RowBuffer, new_buffer, push_row}

pub data Trigger : Type 0 where
  on_time on_events on_trades : Trigger

-- SamplerSpec without the name and the column names, which no operation of the sampler reads
pub record SamplerSpec : Type 0 where
  pub trigger : Trigger
  pub every : ℤ
  pub fill_gaps : Bool

-- SamplerSpec::Time, Events and Trades
unfoldable pub spec_of : Trigger → ℤ → SamplerSpec
spec_of t every = record { trigger = t; every = every; fill_gaps = false }

-- the kinds of a column
abbrev pub snapshot : ℕ
snapshot = 0

abbrev pub cumulative : ℕ
cumulative = 1

pub record SamplerColumn : Type 0 where
  pub index : ℕ
  pub kind : ℕ

-- `a / b`, rounded towards zero; the check of AddSampler keeps the divisor positive
unfoldable pub quot : ℤ → ℤ → ℤ
quot a b = quot_ℕ a (pos_part b)

-- the first multiple of the interval behind a time
unfoldable pub bar_end : ℤ → ℤ → ℤ
unfolding quot
bar_end ts interval = (quot ts interval +ℤ pos 1) *ℤ interval

module _ (D : Double) where
  abbrev pub V : Type 0
  V = Double.Value D

  -- what RowSink::Push receives
  pub record FeatureRow : Type 0 where
    pub sampler : ℕ
    pub instrument : ℕ
    pub ts : ℤ
    pub values : List V

  -- `sunk` are the rows that went to the sink, the last one at the end. `row_` only lends its memory.
  pub record Sampler : Type 0 where
    pub spec : SamplerSpec
    pub columns : List SamplerColumn
    pub rows : RowBuffer V
    pub last : List V
    pub has_sink : Bool
    pub sunk : List FeatureRow
    pub sampler_index : ℕ
    pub instrument : ℕ
    pub next : ℤ
    pub started : Bool
    pub dirty : Bool
    pub last_ts : ℤ
    pub count : ℤ

  -- Sampler::Sampler
  unfoldable pub new_sampler : SamplerSpec → List SamplerColumn → Bool → ℕ → ℕ → Sampler
  new_sampler spec columns sink index instrument = record {
    spec = spec;
    columns = columns;
    rows = new_buffer (length columns);
    last = replicate (length columns) (Double.zero D);
    has_sink = sink;
    sunk = [];
    sampler_index = index;
    instrument = instrument;
    next = pos 0;
    started = false;
    dirty = false;
    last_ts = pos 0;
    count = pos 0;
  }

  -- the loop of Emit: the row and the new baseline; `none` is a read out of range
  unfoldable pub row_of : List SamplerColumn → List V → List V → Option (List V × List V)
  row_of [] values last = some ([], last)
  row_of (c ∷ cs) values [] = none
  row_of (c ∷ cs) values (l ∷ ls) = do
    v ← get_elem? values c.index
    (row, last') ← row_of cs values ls
    some (
        if c.kind == cumulative
        then (Double.minus D v l ∷ row, v ∷ last')
        else (v ∷ row, l ∷ last'))

  unfoldable pub feature_row : Sampler → ℤ → List V → FeatureRow
  feature_row s ts row = record {
    sampler = s.sampler_index;
    instrument = s.instrument;
    ts = ts;
    values = row;
  }

  -- Sampler::Emit
  unfoldable pub emit : Sampler → ℤ → List V → Option Sampler
  emit s ts values = do
    (row, last) ← row_of s.columns values s.last
    some (record s {
      last = last;
      sunk = if s.has_sink then s.sunk ++ feature_row s ts row ∷ [] else s.sunk;
      rows = if s.has_sink then s.rows else push_row s.rows ts row;
      dirty = false;
    })

  -- Sampler::ResetBaseline
  unfoldable pub reset_baseline : Sampler → Sampler
  reset_baseline s = record s { last = map (λ (v : V). Double.zero D) s.last }

  -- the end of OnEvent: `if (++count_ < spec_.every) return false; count_ = 0; return true;`
  unfoldable pub count_event : Sampler → Bool × Sampler
  count_event s =
      let n = s.count +ℤ pos 1 in
      if ltb_ℤ n s.spec.every
      then (false, record s { count = n })
      else (true, record s { count = pos 0 })

  -- Sampler::OnEvent: whether a row is due
  unfoldable pub sampler_event : Sampler → ℤ → ℕ → Bool × Sampler
  sampler_event s ts a =
      let s1 = record s { last_ts = ts } in
      elim s.spec.trigger [
        | on_events ↦ count_event s1
        | on_trades ↦ if a == trade then count_event s1 else (false, s1)
        | on_time ↦ (false, record s1 { dirty = true })
      ]

  -- the loop of Advance that fills gaps; `none` also stands for fuel that ran out
  unfoldable pub fill_gap : ℕ → Sampler → ℤ → List V → Option Sampler
  fill_gap zero s ts values = none
  fill_gap (suc k) s ts values =
      let round = (do
        s' ← emit s s.next values
        fill_gap k (record s' { next = s'.next +ℤ s'.spec.every }) ts values) in
      if leb_ℤ s.next ts then round else some s

  module _ {S : Type 0} (read : S → List V × S) where
    -- the part of Advance that has reached the end of a bar
    unfoldable pub close_bars : Sampler → ℤ → S → Option (Sampler × S)
    close_bars s ts x =
        let (values, x') = read x in
        if s.spec.fill_gaps
        then (do
          s' ← fill_gap (pos_part (quot (ts -ℤ s.next) s.spec.every) + 2) s ts values
          some (s', x'))
        else (do s' ← emit s s.next values; some (record s' { next = bar_end ts s.spec.every }, x'))

    -- Sampler::Advance
    unfoldable pub advance : Sampler → ℤ → S → Option (Sampler × S)
    advance s ts x = elim s.spec.trigger [
      | on_events ↦ some (s, x)
      | on_trades ↦ some (s, x)
      | on_time ↦
          if not s.started
          then some (record s { started = true; next = bar_end ts s.spec.every }, x)
          else if ltb_ℤ ts s.next
          then some (s, x)
          else close_bars s ts x
    ]

    -- the emission of Close: `Emit(ts, read())`
    unfoldable pub emit_read : Sampler → ℤ → S → Option (Sampler × S)
    emit_read s ts x = let (values, x') = read x in (do s' ← emit s ts values; some (s', x'))

    unfoldable pub close_count : Sampler → S → Option (Sampler × S)
    close_count s x =
        if eqb_ℤ s.count (pos 0)
        then some (s, x)
        else emit_read (record s { count = pos 0 }) s.last_ts x

    -- Sampler::Close
    unfoldable pub close : Sampler → S → Option (Sampler × S)
    close s x = elim s.spec.trigger [
      | on_events ↦ close_count s x
      | on_trades ↦ close_count s x
      | on_time ↦
          if not s.started || not (s.dirty || s.spec.fill_gaps)
          then some (s, x)
          else emit_read s s.next x
    ]

-- ===== src/Feature/PipelineTable.antt =====
-- include/PipelineTable.h and src/PipelineTable.cpp: the pipelines of a feed, by instrument. A pointer
-- to a pipeline is the number of its entry, which keeps the pipeline when the table grows. Sizes are
-- exact: the table never reaches 2 ^ 64 entries.
use nqbook.Prelude.Text.{digits}
use nqbook.Prelude.{
  ℕ, zero, suc, ◌+◌, ◌-◌, ◌*◌, ◌%◌, ◌^◌, Bool, true, List, [], ◌∷◌, ◌++◌, Option, none, some, leb,
  ltb, length, get_elem?, set, is_some, ◌==◌, if◌then◌else◌, ◌>>=◌,
}
use nqbook.Prelude.Int.{ℤ, pos, ltb_ℤ}
use nqbook.Abi.{Mbo}
use nqbook.Nlib.{Nlib}
use nqbook.Orderbook.Memory.{Heap}
use nqbook.Orderbook.Book.{inc64, new_book}
use nqbook.Feature.Double.{Double}
use nqbook.Feature.Instances.{Instrument, Instances}
use nqbook.Feature.Engine.{SamplerTemplate, new_engine}
use nqbook.Feature.Pipeline.{Pipeline, pipeline_apply, pipeline_advance, pipeline_close}

pub record InstrumentStats : Type 0 where
  pub events : ℕ
  pub ts_regressions : ℕ
  pub first_ts : ℤ
  pub last_ts : ℤ
  pub resolved : Bool

pub record FeedStats : Type 0 where
  pub events : ℕ
  pub ts_regressions : ℕ
  pub instrument_unknown : ℕ
  pub first_ts : ℤ
  pub last_ts : ℤ

-- what Apply counts of an event, in the statistics of the feed and of its instrument
unfoldable pub count_feed : FeedStats → ℤ → FeedStats
count_feed s ts = record s {
  events = inc64 s.events;
  ts_regressions =
      if s.events == 0
      then s.ts_regressions
      else if ltb_ℤ ts s.last_ts
      then inc64 s.ts_regressions
      else s.ts_regressions;
  first_ts = if s.events == 0 then ts else s.first_ts;
  last_ts = ts;
}

unfoldable pub count_instrument : InstrumentStats → ℤ → InstrumentStats
count_instrument s ts = record s {
  events = inc64 s.events;
  ts_regressions =
      if s.events == 0
      then s.ts_regressions
      else if ltb_ℤ ts s.last_ts
      then inc64 s.ts_regressions
      else s.ts_regressions;
  first_ts = if s.events == 0 then ts else s.first_ts;
  last_ts = ts;
}

-- the instrument that no adapter knows: `"#"` and its number, with sizes of one
unfoldable pub unknown_instrument : ℕ → Instrument
unknown_instrument i = record {
  id = i;
  symbol = 35 ∷ digits 10 i [];
  tick_size = pos 1;
  lot_size = pos 1;
}

-- `instrument + 1` on a uint32_t
unfoldable pub next_id : ℕ → ℕ
next_id i = (i + 1) % 2 ^ 32

unfoldable pub new_size : ℕ → ℕ → ℕ
new_size i old = let a = next_id i in let b = old * 2 in if ltb a b then b else a

module _ {nlib : Nlib} {D : Double} (P : Instances nlib D) where
  pub record TableEntry : Type 0 where
    pub id : ℕ
    pub pipeline : Option (Pipeline P)
    pub stats : InstrumentStats

  pub record Table : Type 0 where
    pub entries : List TableEntry
    pub live : List ℕ
    pub stats : FeedStats

  abbrev pub no_instrument_stats : InstrumentStats
  no_instrument_stats = record {
    events = 0;
    ts_regressions = 0;
    first_ts = pos 0;
    last_ts = pos 0;
    resolved = true;
  }

  -- the entries from `start` on, with `entries_[i].id = static_cast<std::uint32_t>(i)`
  unfoldable pub entries_from : ℕ → ℕ → List TableEntry
  entries_from start zero = []
  entries_from start (suc k) =
      record { id = start % 2 ^ 32; pipeline = none; stats = no_instrument_stats }
      ∷ entries_from (suc start) k

  -- PipelineTable::PipelineTable
  unfoldable pub new_table : ℕ → Table
  new_table slots = record {
    entries = entries_from 0 slots;
    live = [];
    stats = record {
      events = 0;
      ts_regressions = 0;
      instrument_unknown = 0;
      first_ts = pos 0;
      last_ts = pos 0;
    };
  }

  -- the growth of Resolve
  unfoldable pub grow_entries : List TableEntry → ℕ → List TableEntry
  grow_entries es i =
      let old = length es in if leb old i then es ++ entries_from old (new_size i old - old) else es

  -- the arguments of the constructor, the catalog among them, and the memory of a new book
  pub record Setup : Type 0 where
    pub plugins : List (Instances.Plugin P)
    pub templates : List SamplerTemplate
    pub resolver : ℕ → Option Instrument
    pub expected_orders : ℕ
    pub has_sink : Bool
    pub memory : Heap

  -- Pipeline::Pipeline
  unfoldable pub new_pipeline : Setup → Instrument → Pipeline P
  new_pipeline c spec = record {
    book = new_book c.memory c.expected_orders;
    engine = new_engine P c.plugins c.templates spec c.has_sink;
  }

  -- the part of Resolve that opens a pipeline for the entry `e` of instrument `i`
  unfoldable pub open_entry : Setup → Table → ℕ → TableEntry → Table
  open_entry c t i e =
      let found = c.resolver i in
      let spec : Instrument = elim found [ none ↦ unknown_instrument i | some s ↦ s ] in
      record {
        entries = set t.entries i (record e {
          pipeline = some (new_pipeline c spec);
          stats = record e.stats { resolved = is_some found };
        });
        live = t.live ++ i ∷ [];
        stats =
            if is_some found
            then t.stats
            else record t.stats { instrument_unknown = inc64 t.stats.instrument_unknown };
      }

  -- PipelineTable::Resolve; `none` is the access past the end of the entries
  unfoldable pub resolve : Setup → Table → ℕ → Option Table
  resolve c t i = do
    let t' = record t { entries = grow_entries t.entries i }
    e ← get_elem? t'.entries i
    some (if is_some e.pipeline then t' else open_entry c t' i e)

  -- a step of the pipeline of an entry
  unfoldable pub at_entry :
      (Pipeline P → Option (Pipeline P)) → List TableEntry → ℕ → Option (List TableEntry)
  at_entry f es i = do
    e ← get_elem? es i
    p ← e.pipeline
    p' ← f p
    some (set es i (record e { pipeline = some p' }))

  -- a loop over `live_`
  unfoldable pub each_live :
      (Pipeline P → Option (Pipeline P)) → List ℕ → List TableEntry → Option (List TableEntry)
  each_live f [] es = some es
  each_live f (i ∷ is) es = do es' ← at_entry f es i; each_live f is es'

  -- PipelineTable::Apply
  unfoldable pub table_apply : Setup → Table → Mbo → Option (ℤ × Table)
  table_apply c t m = do
    t1 ← resolve c t m.instrument
    e ← get_elem? t1.entries m.instrument
    let counted = set t1.entries m.instrument (record e { stats = count_instrument e.stats m.ts })
    es ← each_live (λ p. pipeline_advance P p m.ts) t1.live counted
    e' ← get_elem? es m.instrument
    p ← e'.pipeline
    (filled, p') ← pipeline_apply P p m
    some (
      filled,
      record {
        entries = set es m.instrument (record e' { pipeline = some p' });
        live = t1.live;
        stats = count_feed t1.stats m.ts;
      },
    )

  -- PipelineTable::Close
  unfoldable pub table_close : Table → Option Table
  table_close t = do
    es ← each_live (pipeline_close P) t.live t.entries
    some (record t { entries = es })

  -- PipelineTable::Consume over a queue that holds `ms`, up to `max` events
  unfoldable pub table_consume : Setup → Table → List Mbo → ℕ → Option (ℕ × Table)
  table_consume c t [] max = some (0, t)
  table_consume c t (m ∷ ms) zero = some (0, t)
  table_consume c t (m ∷ ms) (suc max) = do
    (filled, t') ← table_apply c t m
    (n, t'') ← table_consume c t' ms max
    some (suc n, t'')

  -- PipelineTable::Find
  unfoldable pub find_pipeline : Table → ℕ → Option (Pipeline P)
  find_pipeline t i = do e ← get_elem? t.entries i; e.pipeline

-- ===== src/Adapter.antt =====
-- include/Adapter/AdapterEngine.h and src/Adapter/AdapterEngine.cpp: the thread that takes events from
-- an adapter and pushes them to the queue. A step of the thread reads or writes one thing that the
-- other thread sees: the stop, an instrument or the end of the adapter, or the queue. `ended` is
-- stored behind `status`, which is read behind it. The adapter, the queue and the scheduler are
-- parameters.
pub mod Steps
pub mod Discovery
pub mod Rounds
pub mod Order
use nqbook.Prelude.{
  ℕ, suc, Bool, true, false, not, ◌||◌, List, [], ◌∷◌, ◌++◌, Option, none, some, map, ◌==◌,
  if◌then◌else◌,
}
use nqbook.Prelude.Int.{ℤ, pos, negsuc, eqb_ℤ}
use nqbook.Prelude.Text.{Text}
use nqbook.Abi.{Mbo}
use nqbook.Nlib.SingleQueue.{SingleQueue}
use nqbook.Orderbook.Book.{inc64}
use nqbook.Feature.Instances.{Instrument}

-- nq_instrument; a null symbol is `none`
pub record RawInstrument : Type 0 where
  pub symbol : Option Text
  pub tick_size : ℤ
  pub lot_size : ℤ

-- host::AdapterInstance, the code of a loaded adapter
pub record Adapters : Type 1 where
  pub Instance : Type 0
  pub next : Instance → ℤ × Mbo × Instance
  pub instrument : Instance → ℕ → Option RawInstrument × Instance

-- enum nq_next
abbrev pub next_event : ℤ
next_event = pos 1

abbrev pub next_again : ℤ
next_again = pos 0

abbrev pub next_end : ℤ
next_end = negsuc 0

-- where the thread stands: before a round of Run, before the call of Next, in Push with what
-- `stalled` is, before try_push or behind one that failed, or returned, from a Push that gave up or
-- from Run
pub data Phase : Type 0 where
  running : Phase
  polling : Phase
  pushing : Mbo → Bool → Phase
  blocked : Mbo → Bool → Phase
  gave_up : Mbo → Phase
  finished : Phase

unfoldable pub seen_before : List ℕ → ℕ → Bool
seen_before [] id = false
seen_before (i ∷ is) id = i == id || seen_before is id

-- std::map::find of the instruments
unfoldable pub lookup_instrument : List (ℕ × Option Instrument) → ℕ → Option (Option Instrument)
lookup_instrument [] id = none
lookup_instrument ((i, o) ∷ is) id =
    let rest = lookup_instrument is id in if i == id then some o else rest

-- std::map::emplace, which keeps a key that is there
unfoldable pub emplace_instrument :
    List (ℕ × Option Instrument) → ℕ → Option Instrument → List (ℕ × Option Instrument)
emplace_instrument [] id o = (id, o) ∷ []
emplace_instrument ((i, p) ∷ is) id o =
    let rest = emplace_instrument is id o in if i == id then (i, p) ∷ is else (i, p) ∷ rest

unfoldable pub symbol_or_empty : Option Text → Text
symbol_or_empty none = []
symbol_or_empty (some s) = s

unfoldable pub described : ℕ → Option RawInstrument → Option Instrument
described id none = none
described id (some i) = some (record {
  id = id;
  symbol = symbol_or_empty i.symbol;
  tick_size = i.tick_size;
  lot_size = i.lot_size;
})

module _ (A : Adapters) (Q : SingleQueue Mbo) where
  pub record AdapterEngine : Type 0 where
    pub adapter : A.Instance
    pub queue : Q.Queue
    pub seen : List ℕ
    pub instruments : List (ℕ × Option Instrument)
    pub ended : Bool
    pub status : ℤ
    pub pushed : ℕ
    pub stalls : ℕ
    pub phase : Phase

  -- AdapterEngine::AdapterEngine and Start
  unfoldable pub new_adapter_engine : A.Instance → ℕ → AdapterEngine
  new_adapter_engine a queue_capacity = record {
    adapter = a;
    queue = Q.make queue_capacity;
    seen = [];
    instruments = [];
    ended = false;
    status = pos 0;
    pushed = 0;
    stalls = 0;
    phase = running;
  }

  -- FindInstrument
  unfoldable pub find_instrument : AdapterEngine → ℕ → Option Instrument
  find_instrument e id = elim (lookup_instrument e.instruments id) [ none ↦ none | some o ↦ o ]

  -- Discover
  unfoldable pub discover : AdapterEngine → ℕ → AdapterEngine
  discover e id =
      let (found, a) = A.instrument e.adapter id in
      if seen_before e.seen id then e else record e {
        adapter = a;
        seen = id ∷ e.seen;
        instruments = emplace_instrument e.instruments id (described id found);
      }

  -- the try_push of Push
  unfoldable pub push_round : AdapterEngine → Mbo → Bool → Option Q.Queue → AdapterEngine
  push_round e m stalled (some q) = record e { queue = q; pushed = inc64 e.pushed; phase = running }
  push_round e m stalled none = record e { phase = blocked m stalled }

  -- the body of the loop of Push; `stop` is what the stop token says
  unfoldable pub blocked_round : Bool → AdapterEngine → Mbo → Bool → AdapterEngine
  blocked_round stop e m stalled = if stop then record e { phase = gave_up m } else record e {
    stalls = if stalled then e.stalls else inc64 e.stalls;
    phase = pushing m true;
  }

  -- the body of the loop of Run, up to the call of Push
  unfoldable pub run_round : AdapterEngine → AdapterEngine
  run_round e =
      let (rc, m, a) = A.next e.adapter in
      if eqb_ℤ rc next_event
      then record (discover (record e { adapter = a }) m.instrument) { phase = pushing m false }
      else if eqb_ℤ rc next_again
      then record e { adapter = a; phase = running }
      else record e {
        adapter = a;
        status = if eqb_ℤ rc next_end then pos 0 else rc;
        ended = true;
        phase = finished;
      }

  -- a step of the thread
  unfoldable pub thread_step : Bool → AdapterEngine → Phase → AdapterEngine
  thread_step stop e running = record e { phase = if stop then finished else polling }
  thread_step stop e polling = run_round e
  thread_step stop e (pushing m stalled) = push_round e m stalled (Q.try_push e.queue m)
  thread_step stop e (blocked m stalled) = blocked_round stop e m stalled
  thread_step stop e (gave_up m) = e
  thread_step stop e finished = e

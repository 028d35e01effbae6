-- ===== src/Feature/Pipeline.antt =====
-- include/Pipeline.h: the book and the engine of one instrument. An event goes to the book first, and
-- then to the engine with what it filled; Consume advances the samplers before each event.
use nqbook.Prelude.{ℕ, zero, suc, List, [], ◌∷◌, Option, some, ◌>>=◌}
use nqbook.Prelude.Int.{ℤ}
use nqbook.Abi.{Mbo}
use nqbook.Nlib.{Nlib}
use nqbook.Orderbook.Book.{Book}
use nqbook.Orderbook.Feed.{apply}
use nqbook.Feature.Double.{Double}
use nqbook.Feature.Instances.{Instances}
use nqbook.Feature.Engine.{Engine, engine_advance, engine_event, engine_close}

module _ {nlib : Nlib} {D : Double} (P : Instances nlib D) where
  pub record Pipeline : Type 0 where
    pub book : Book nlib
    pub engine : Engine P

  -- Pipeline::Apply
  unfoldable pub pipeline_apply : Pipeline → Mbo → Option (ℤ × Pipeline)
  pipeline_apply p m = do
    (filled, b) ← apply p.book m
    e ← engine_event P b m filled p.engine
    some (filled, record { book = b; engine = e })

  -- `engine_.Advance(ts)`
  unfoldable pub pipeline_advance : Pipeline → ℤ → Option Pipeline
  pipeline_advance p ts = do e ← engine_advance P p.book ts p.engine; some (record p { engine = e })

  -- Pipeline::Close
  unfoldable pub pipeline_close : Pipeline → Option Pipeline
  pipeline_close p = do e ← engine_close P p.book p.engine; some (record p { engine = e })

  -- Pipeline::Consume over a queue that holds `ms`, up to `max` events
  unfoldable pub pipeline_consume : Pipeline → List Mbo → ℕ → Option (ℕ × Pipeline)
  pipeline_consume p [] max = some (0, p)
  pipeline_consume p (m ∷ ms) zero = some (0, p)
  pipeline_consume p (m ∷ ms) (suc max) = do
    p1 ← pipeline_advance p m.ts
    (filled, p2) ← pipeline_apply p1 m
    (n, p3) ← pipeline_consume p2 ms max
    some (suc n, p3)

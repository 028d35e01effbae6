-- ===== src/Feature/PipelineRun.antt =====
-- A pipeline over a book that shows a list of orders: every operation returns.
use nqbook.Prelude.{ℕ, zero, suc, ◌≡◌, refl, List, [], ◌∷◌, some, take, length}
use nqbook.Prelude.Int.{ℤ}
use nqbook.Abi.{Mbo}
use nqbook.Nlib.{Nlib}
use nqbook.Orderbook.Entries.{Entry}
use nqbook.Orderbook.Priority.{react}
use nqbook.Orderbook.Refinement.{Shows}
use nqbook.Orderbook.Application.{replay, apply-Shows}
use nqbook.Feature.Double.{Double}
use nqbook.Feature.Instances.{Instances}
use nqbook.Feature.EngineInvariant.{EngineOk, engine_advance-EngineOk, engine_close-EngineOk}
use nqbook.Feature.EngineEvents.{engine_event-EngineOk}
use nqbook.Feature.Pipeline.{
  Pipeline, pipeline_apply, pipeline_advance, pipeline_close, pipeline_consume,
}

module _ {nlib : Nlib} {D : Double} (P : Instances nlib D) where
  -- The book shows the orders `es`, and the engine is in step with it on `n` values.
  pub record PipelineOk (p : Pipeline P) (es : List Entry) (n : ℕ) : Type 0 where
    pub shows : Shows p.book es
    pub engine : EngineOk P p.book p.engine n

  -- On a pipeline in step, Apply returns what the reaction of the book's orders fills, and leaves a
  -- pipeline in step over the orders of the reaction.
  pub pipeline_apply-PipelineOk :
      (p : Pipeline P) (es : List Entry) (n : ℕ)
      → PipelineOk p es n
      → (m : Mbo)
      → (p' : Pipeline P) × (pipeline_apply P p m ≡ some ((react es m).0, p'))
        × PipelineOk p' (react es m).1 n
  unfolding pipeline_apply
  pipeline_apply-PipelineOk p es n k m =
      let (b, applied, shows, stats, ts) = apply-Shows p.book es k.shows m in
      let (e, returned, ok, told, sampled) =
        engine_event-EngineOk P b m p.book (react es m).0 p.engine n k.engine in
      (
        record { book = b; engine = e },
        rw (applied, returned) refl,
        record { shows = shows; engine = ok },
      )

  pub advance-PipelineOk :
      (p : Pipeline P) (es : List Entry) (n : ℕ)
      → PipelineOk p es n
      → (ts : ℤ) → (p' : Pipeline P) × (pipeline_advance P p ts ≡ some p') × PipelineOk p' es n
  unfolding pipeline_advance
  advance-PipelineOk p es n k ts =
      let (e, advanced, ok) = engine_advance-EngineOk P p.book ts p.engine n k.engine in
      (record p { engine = e }, rw advanced refl, record { shows = k.shows; engine = ok })

  -- On a pipeline in step, Close returns, and leaves the orders of the book.
  pub pipeline_close-PipelineOk :
      (p : Pipeline P) (es : List Entry) (n : ℕ)
      → PipelineOk p es n
      → (p' : Pipeline P) × (pipeline_close P p ≡ some p') × PipelineOk p' es n
  unfolding pipeline_close
  pipeline_close-PipelineOk p es n k =
      let (e, closed, ok) = engine_close-EngineOk P p.book p.engine n k.engine in
      (record p { engine = e }, rw closed refl, record { shows = k.shows; engine = ok })

  -- On a pipeline in step, Consume returns. It takes the first `max` events of the queue, or all
  -- where there are fewer, and leaves a pipeline in step over the orders behind them.
  pub pipeline_consume-PipelineOk :
      (p : Pipeline P) (es : List Entry) (n : ℕ)
      → PipelineOk p es n
      → (ms : List Mbo) (max : ℕ)
      → (p' : Pipeline P) × (pipeline_consume P p ms max ≡ some (length (take max ms), p'))
        × PipelineOk p' (replay es (take max ms)) n
  unfolding pipeline_consume replay
  pipeline_consume-PipelineOk p es n k [] zero = (p, refl, k)
  pipeline_consume-PipelineOk p es n k [] (suc max) = (p, refl, k)
  pipeline_consume-PipelineOk p es n k (m ∷ ms) zero = (p, refl, k)
  pipeline_consume-PipelineOk p es n k (m ∷ ms) (suc max) =
      let (p1, advanced, k1) = advance-PipelineOk p es n k m.ts in
      let (p2, applied, k2) = pipeline_apply-PipelineOk p1 es n k1 m in
      let (p3, consumed, k3) = pipeline_consume-PipelineOk p2 (react es m).1 n k2 ms max in
      (p3, rw (advanced, applied, consumed) refl, k3)

-- ===== src/Examples/Pipelines.antt =====
-- The theorems on engines and pipelines, with one plugin that counts the events it is told.
use nqbook.Prelude.{ℕ, ◌+◌, ◌≡◌, refl, true, false, List, [], ◌∷◌, some, arith, take, length, map}
use nqbook.Prelude.Int.{pos}
use nqbook.Orderbook.Priority.{react}
use nqbook.Orderbook.Application.{replay, new_book-Shows}
use nqbook.Feature.Instances.{Instrument, Instances}
use nqbook.Feature.Sampler.{on_time, on_trades, snapshot, cumulative}
use nqbook.Feature.Engine.{SamplerTemplate, Engine, new_engine, engine_event}
use nqbook.Feature.EngineInvariant.{EngineOk}
use nqbook.Feature.ReadLayout.{all_read}
use nqbook.Feature.EngineEvents.{told, found, Told, Sampled, engine_event-EngineOk}
use nqbook.Feature.NewEngine.{created, Numbered, all_columns, new_engine-EngineOk}
use nqbook.Feature.Pipeline.{Pipeline, pipeline_apply, pipeline_close, pipeline_consume}
use nqbook.Feature.PipelineRun.{
  PipelineOk, pipeline_apply-PipelineOk, pipeline_close-PipelineOk, pipeline_consume-PipelineOk,
}
use nqbook.Examples.Environment.{nlib}
use nqbook.Examples.Books.{five_orders}
use nqbook.Examples.Applications.{memory, start, sale}
use nqbook.Examples.Sampling.{numbers}

abbrev pub counter : Instances nlib numbers
counter = record {
  Plugin = ℕ;
  Instance = ℕ;
  schema_ncol = λ p. 2;
  create = λ p s. p;
  ncol = λ i. 2;
  read = λ i b. (i ∷ (i + 5) ∷ [], i);
  on_event = λ i e b. i + 1;
  on_control = λ i c. 0;
  ncol-create = λ p s. refl;
  length-read = λ i b. refl;
  ncol-read = λ i b. refl;
  ncol-on_event = λ i e b. refl;
  ncol-on_control = λ i c. refl;
}

abbrev pub templates : List SamplerTemplate
templates =
    record {
      spec = record { trigger = on_time; every = pos 5; fill_gaps = true };
      columns =
          record { index = 0; kind = snapshot } ∷ record { index = 3; kind = cumulative } ∷ [];
    }
    ∷ record {
      spec = record { trigger = on_trades; every = pos 2; fill_gaps = false };
      columns = record { index = 1; kind = snapshot } ∷ [];
    }
    ∷ []

abbrev spec : Instrument
spec = record { id = 7; symbol = []; tick_size = pos 1; lot_size = pos 1 }

abbrev pub plugins : List ℕ
plugins = 1 ∷ 2 ∷ []

abbrev engine : Engine counter
engine = new_engine counter plugins templates spec false

new_engine-EngineOk_example :
    EngineOk counter start engine (all_columns counter plugins)
    × (engine.cache.instances ≡ created counter plugins spec)
    × (engine.cache.fresh ≡ false)
    × Numbered counter templates engine.samplers 0 7
unfolding all_columns
new_engine-EngineOk_example =
    new_engine-EngineOk counter start plugins templates spec false
      ((omega arith, (omega arith, tt)), omega arith, ((omega arith, tt), omega arith, tt))

-- the number of values
abbrev width : ℕ
width = all_columns counter plugins

in_step : EngineOk counter start engine width
unfolding all_columns
in_step =
    (new_engine-EngineOk counter start plugins templates spec false
      ((omega arith, (omega arith, tt)), omega arith, ((omega arith, tt), omega arith, tt))).0

abbrev pipeline : Pipeline counter
pipeline = record { book = start; engine = engine }

pipeline_in_step : PipelineOk counter pipeline [] width
pipeline_in_step = record { shows = new_book-Shows memory 4; engine = in_step }

engine_event-EngineOk_example :
    (e' : Engine counter) × (engine_event counter start sale (pos 3) engine ≡ some e')
    × EngineOk counter start e' width
    × Told counter start sale (pos 3) engine.cache e'.cache
    × Sampled counter start sale
        (all_read counter start (map (told counter start sale (pos 3)) engine.cache.instances))
        (map (found counter start sale) engine.samplers)
        e'.samplers
engine_event-EngineOk_example =
    engine_event-EngineOk counter start sale start (pos 3) engine width in_step

pipeline_apply-PipelineOk_example :
    (p' : Pipeline counter) × (pipeline_apply counter pipeline sale ≡ some ((react [] sale).0, p'))
    × PipelineOk counter p' (react [] sale).1 width
pipeline_apply-PipelineOk_example =
    pipeline_apply-PipelineOk counter pipeline [] width pipeline_in_step sale

pipeline_close-PipelineOk_example :
    (p' : Pipeline counter) × (pipeline_close counter pipeline ≡ some p')
    × PipelineOk counter p' [] width
pipeline_close-PipelineOk_example =
    pipeline_close-PipelineOk counter pipeline [] width pipeline_in_step

pipeline_consume-PipelineOk_example :
    (p' : Pipeline counter) × (pipeline_consume counter pipeline five_orders 5
      ≡ some (length (take 5 five_orders), p'))
    × PipelineOk counter p' (replay [] (take 5 five_orders)) width
pipeline_consume-PipelineOk_example =
    pipeline_consume-PipelineOk counter pipeline [] width pipeline_in_step five_orders 5

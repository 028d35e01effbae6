-- ===== src/Examples/Runs.antt =====
-- The theorem on the exit code of Run, on a run of one plugin and one sampler.
use mathlib.Core.Logic.{◌↔◌}
use nqbook.Prelude.{ℕ, ◌≡◌, false, [], ◌∷◌}
use nqbook.Prelude.Int.{pos}
use nqbook.Prelude.Outcome.{ok}
use nqbook.Prelude.Text.{codes}
use nqbook.Feature.Catalog.{Catalog}
use nqbook.App.{k_ok, AdapterOptions}
use nqbook.App.Running.{OutputOptions, Stages, run}
use nqbook.App.ExitCodes.{Completed, run-Completed}
use nqbook.Examples.Pipelines.{counter}
use nqbook.Examples.Hosts.{machine}
use nqbook.Examples.Catalogs.{loader, options}

abbrev adapter_options : AdapterOptions
adapter_options = record { adapter = codes "synthetic"; params = codes "seed=42" ∷ [] }

abbrev output : OutputOptions
output = record { dir = codes "out"; format = codes "parquet" }

abbrev stages : Stages (Catalog counter) ℕ ℕ
stages = record {
  open_writer = λ cat. ok 1;
  open_adapter = ok 2;
  run_session =
      λ cat a pb w. ok (record { interrupted = false; adapter_status = pos 0; writer_error = [] });
  write_csv = λ r. ok tt;
}

run-Completed_example :
    (run counter machine false options adapter_options output loader stages ≡ k_ok)
    ↔ Completed counter machine false options adapter_options output loader stages
run-Completed_example =
    run-Completed counter machine false options adapter_options output loader stages

-- ===== src/App/Running.antt =====
-- src/main.cpp: Run and Check, behind the command line.
use nqbook.Prelude.{ℕ, Bool, true, false, not, ◌&&◌, Option, none, some, if◌then◌else◌}
use nqbook.Prelude.Int.{ℤ, pos, eqb_ℤ}
use nqbook.Prelude.Outcome.{Result, ok, err, ◌>>=◌, ◌>>◌, guard}
use nqbook.Prelude.Text.{Text, codes, is_nil, eq_text}
use nqbook.Config.Files.{FileSystem}
use nqbook.Nlib.{Nlib}
use nqbook.Params.{ParamsBuilder}
use nqbook.Feature.Double.{Double}
use nqbook.Feature.Instances.{Instances}
use nqbook.Feature.Catalog.{PluginLoader, Catalog, empty_catalog}
use nqbook.App.{
  k_ok, k_plugin_load, k_plugin_init, k_adapter_failed, k_output_failed, k_interrupted, Exception,
  attempt, PluginOptions, AdapterOptions, load_catalog, parse_adapter_params,
}

-- RunResult, as far as Run reads it
pub record RunResult : Type 0 where
  pub interrupted : Bool
  pub adapter_status : ℤ
  pub writer_error : Text

-- OutputOptions, less the rows of a row group
pub record OutputOptions : Type 0 where
  pub dir : Text
  pub format : Text

unfoldable pub writes_parquet : Bool → OutputOptions → Bool
writes_parquet feed_only o =
    not feed_only && (not (is_nil o.dir) && eq_text o.format (codes "parquet"))

unfoldable pub writes_csv : Bool → OutputOptions → Bool
writes_csv feed_only o = not feed_only && (not (is_nil o.dir) && eq_text o.format (codes "csv"))

-- the end of Run, behind the session
unfoldable pub finish_run :
    Bool → OutputOptions → RunResult → Result Exception (Unit {0}) → Result ℕ (Unit {0})
finish_run feed_only o result csv = do
  guard (not (writes_parquet feed_only o && not (is_nil result.writer_error))) k_output_failed
  attempt k_output_failed (if writes_csv feed_only o then csv else ok tt)
  guard (not result.interrupted) k_interrupted
  guard (eqb_ℤ result.adapter_status (pos 0)) k_adapter_failed
  ok tt

-- what the stages of Run do: the writer that opens, the adapter that loads, the session that runs,
-- and the CSV files that are written
pub record Stages (Cat Writer Adapter : Type 0) : Type 0 where
  pub open_writer : Cat → Result Exception Writer
  pub open_adapter : Result Exception Adapter
  pub run_session : Cat → Adapter → ParamsBuilder → Option Writer → Result Exception RunResult
  pub write_csv : RunResult → Result Exception (Unit {0})

unfoldable pub code_of {ℓ} : {A : Type ℓ} → Result ℕ A → ℕ
code_of (ok a) = k_ok
code_of (err code) = code

unfoldable pub optional_writer {ℓ} :
    {W : Type ℓ} → Bool → Result Exception W → Result Exception (Option W)
optional_writer false w = ok none
optional_writer true (ok w) = ok (some w)
optional_writer true (err e) = err e

-- Run, behind its catalog and the parameters of the adapter
unfoldable pub run_stages :
    {Cat Writer Adapter : Type 0}
    → Bool
    → OutputOptions
    → Result ℕ Cat
    → Result ℕ ParamsBuilder
    → Stages Cat Writer Adapter
    → Result ℕ (Unit {0})
run_stages feed_only o catalog params s = do
  cat ← catalog
  pb ← params
  writer ←
      attempt k_output_failed (optional_writer (writes_parquet feed_only o) (s.open_writer cat))
  adapter ← attempt k_plugin_load s.open_adapter
  result ← attempt k_adapter_failed (s.run_session cat adapter pb writer)
  finish_run feed_only o result (s.write_csv result)

module _ {nlib : Nlib} {D : Double} (P : Instances nlib D) (fs : FileSystem) where
  -- Run
  unfoldable pub run :
      {Writer Adapter : Type 0}
      → Bool
      → PluginOptions
      → AdapterOptions
      → OutputOptions
      → PluginLoader P
      → Stages (Catalog P) Writer Adapter
      → ℕ
  run feed_only popt aopt o l s = code_of (
      run_stages feed_only o (if feed_only then ok (empty_catalog P) else load_catalog P fs l popt)
        (parse_adapter_params fs aopt) s)

-- Check, whose probe is a pipeline on the catalog
unfoldable pub check_stages {ℓ} :
    {C : Type ℓ} → Result ℕ C → (C → Result Exception (Unit {0})) → Result ℕ (Unit {0})
check_stages catalog probe = do cat ← catalog; attempt k_plugin_init (probe cat)

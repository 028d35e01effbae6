-- ===== src/App.antt =====
-- src/main.cpp: the stages of the commands and their exit codes. The parts that print, the signal
-- handlers and the command line parser are left out; its options are arguments.
pub mod ExitCodes
pub mod Loading
pub mod Running
use nqbook.Prelude.{
  ℕ, Bool, true, false, not, ◌&&◌, List, [], ◌∷◌, ◌++◌, Option, none, some, ◌==◌, if◌then◌else◌,
  map,
}
use nqbook.Prelude.Int.{ℤ, pos, eqb_ℤ}
use nqbook.Prelude.Outcome.{Result, ok, err, ◌>>=◌, ◌>>◌, guard, require}
use nqbook.Prelude.Text.{Text, codes, is_nil, eq_text, split_at}
use nqbook.Config.{ConfigError, KeyValues, NamedSpec, parse_sampler_spec}
use nqbook.Config.Files.{FileSystem, PluginFile, describe_plugin_file, scan_plugin_dir}
use nqbook.Host.{PluginError, load_error, abi_mismatch, init_error, other_error}
use nqbook.Nlib.{Nlib}
use nqbook.Params.{ParamsBuilder, new_builder, set_param, set_price_scale, set_qty_scale}
use nqbook.Feature.Double.{Double}
use nqbook.Feature.Instances.{Instances}
use nqbook.Feature.Sampler.{Trigger, on_time, on_events, on_trades}
use nqbook.Feature.Catalog.{
  CatalogError, plugin_error, PluginLoader, Catalog, empty_catalog, load_plugin, add_sampler,
}

-- enum ExitCode
abbrev pub k_ok : ℕ
k_ok = 0

abbrev pub k_plugin_load : ℕ
k_plugin_load = 2

abbrev pub k_abi_mismatch : ℕ
k_abi_mismatch = 3

abbrev pub k_plugin_init : ℕ
k_plugin_init = 4

abbrev pub k_sampler_invalid : ℕ
k_sampler_invalid = 5

abbrev pub k_params_invalid : ℕ
k_params_invalid = 6

abbrev pub k_adapter_failed : ℕ
k_adapter_failed = 7

abbrev pub k_output_failed : ℕ
k_output_failed = 8

abbrev pub k_interrupted : ℕ
k_interrupted = 130

-- an exception, by what the exit code depends on: those of the plugin hosts, and the others
pub data Exception : Type 0 where
  of_plugin : PluginError → Exception
  of_standard : Exception

-- ExitCodeFor
unfoldable pub exit_code_for : Exception → ℕ → ℕ
exit_code_for (of_plugin abi_mismatch) fallback = k_abi_mismatch
exit_code_for (of_plugin init_error) fallback = k_plugin_init
exit_code_for (of_plugin load_error) fallback = k_plugin_load
exit_code_for (of_plugin other_error) fallback = k_adapter_failed
exit_code_for of_standard fallback = fallback

-- Attempt, with the value of the step in place of its writes; an error is the exit code
unfoldable pub attempt {ℓ} : {A : Type ℓ} → ℕ → Result Exception A → Result ℕ A
attempt fallback (ok a) = ok a
attempt fallback (err e) = err (exit_code_for e fallback)

unfoldable pub of_config {ℓ} : {A : Type ℓ} → Result ConfigError A → Result Exception A
of_config (ok a) = ok a
of_config (err e) = err of_standard

unfoldable pub catalog_exception : CatalogError → Exception
catalog_exception (plugin_error e) = of_plugin e
catalog_exception other = of_standard

unfoldable pub of_catalog {ℓ} : {A : Type ℓ} → Result CatalogError A → Result Exception A
of_catalog (ok a) = ok a
of_catalog (err e) = err (catalog_exception e)

abbrev pub is_time : Trigger → Bool
is_time on_time = true
is_time on_events = false
is_time on_trades = false

-- PluginOptions
pub record PluginOptions : Type 0 where
  pub plugins : List Text
  pub plugin_dir : Text
  pub samplers : List Text
  pub fill_gaps : Bool

-- AdapterOptions, less the capacity of the queue
pub record AdapterOptions : Type 0 where
  pub adapter : Text
  pub params : List Text

-- the samplers of LoadCatalog
unfoldable pub filled_spec : Bool → NamedSpec → NamedSpec
filled_spec fill_gaps s = record s {
  spec = record s.spec { fill_gaps = fill_gaps && is_time s.spec.trigger };
}

unfoldable pub parse_samplers : Bool → List Text → Result ConfigError (List NamedSpec)
parse_samplers fill_gaps [] = ok []
parse_samplers fill_gaps (s ∷ ss) = do
  spec ← parse_sampler_spec s
  specs ← parse_samplers fill_gaps ss
  ok (filled_spec fill_gaps spec ∷ specs)

module _ {nlib : Nlib} {D : Double} (P : Instances nlib D) (fs : FileSystem) where
  -- the files of LoadCatalog: the plugins that are named, then those of the directory
  unfoldable pub describe_named : List Text → Result ConfigError (List (PluginFile fs))
  describe_named [] = ok []
  describe_named (p ∷ ps) = do
    f ← describe_plugin_file fs (fs.of_text p)
    rest ← describe_named ps
    ok (f ∷ rest)

  unfoldable pub plugin_files : PluginOptions → Result ConfigError (List (PluginFile fs))
  plugin_files opt = do
    named ← describe_named opt.plugins
    found ← if is_nil opt.plugin_dir then ok [] else scan_plugin_dir fs (fs.of_text opt.plugin_dir)
    ok (named ++ found)

  unfoldable pub load_plugins :
      PluginLoader P → Catalog P → List (PluginFile fs) → Result CatalogError (Catalog P)
  load_plugins l cat [] = ok cat
  load_plugins l cat (f ∷ files) = do
    (index, cat') ← load_plugin P l cat (fs.to_text f.path) f.name f.params
    load_plugins l cat' files

  unfoldable pub add_samplers : Catalog P → List NamedSpec → Result CatalogError (Catalog P)
  add_samplers cat [] = ok cat
  add_samplers cat (s ∷ specs) = do cat' ← add_sampler P cat s; add_samplers cat' specs

  -- LoadCatalog
  unfoldable pub load_catalog : PluginLoader P → PluginOptions → Result ℕ (Catalog P)
  load_catalog l opt = do
    specs ← attempt k_sampler_invalid (of_config (parse_samplers opt.fill_gaps opt.samplers))
    files ← attempt k_params_invalid (of_config (plugin_files opt))
    cat ← attempt k_plugin_load (of_catalog (load_plugins l (empty_catalog P) files))
    attempt k_sampler_invalid (of_catalog (add_samplers cat specs))

-- the loops of ParseAdapterParams
unfoldable pub set_all : ParamsBuilder → KeyValues → ParamsBuilder
set_all pb [] = pb
set_all pb ((k, v) ∷ kvs) = set_all (set_param pb k v) kvs

unfoldable pub set_options : ParamsBuilder → List Text → Result Exception ParamsBuilder
set_options pb [] = ok pb
set_options pb (kv ∷ kvs) = do
  (key, value) ← require of_standard (split_at b'=' kv)
  guard (not (is_nil key)) of_standard
  set_options (set_param pb key value) kvs

module _ (fs : FileSystem) where
  unfoldable pub adapter_params : AdapterOptions → ParamsBuilder → Result Exception ParamsBuilder
  adapter_params opt pb = do
    f ← of_config (describe_plugin_file fs (fs.of_text opt.adapter))
    set_options (set_all pb f.params) opt.params

  -- ParseAdapterParams, with NQ_PRICE_SCALE and NQ_QTY_SCALE
  unfoldable pub parse_adapter_params : AdapterOptions → Result ℕ ParamsBuilder
  parse_adapter_params opt = attempt k_params_invalid (
      adapter_params opt
        (set_qty_scale (set_price_scale new_builder (pos 10000000000)) (pos 100000000)))

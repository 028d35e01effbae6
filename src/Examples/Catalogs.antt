-- ===== src/Examples/Catalogs.antt =====
-- The theorems on catalogs, with a loader that knows one plugin of two columns.
use nqbook.Prelude.{◌≡◌, refl, true, false, List, [], ◌∷◌, none, some, length}
use nqbook.Prelude.Int.{pos}
use nqbook.Prelude.Outcome.{ok}
use nqbook.Prelude.Text.{Text, codes, eq_text, has, split_at, span_digits, number}
use nqbook.Config.{
  NamedSpec, parse_count, parse_trigger, parse_sampler_spec, from_chars, named_spec,
}
use nqbook.Config.Files.{describe_plugin_file}
use nqbook.Feature.Sampler.{on_events, spec_of, snapshot, cumulative}
use nqbook.Feature.Catalog.{
  SchemaColumn, PluginLoader, Catalog, empty_catalog, load_plugin, add_sampler, columns_for,
  sampled, all_sampled, find_column, find_template, contains, columns_from, from_plugin, or_empty,
}
use nqbook.Feature.CatalogSteps.{
  CatalogOk, empty_catalog-CatalogOk, load_plugin-CatalogOk, add_sampler-CatalogOk,
}
use nqbook.App.{
  PluginOptions, parse_samplers, filled_spec, plugin_files, describe_named, load_plugins,
  add_samplers, load_catalog, attempt, of_config, of_catalog,
}
use nqbook.App.Loading.{load_catalog-CatalogOk}
use nqbook.Examples.Pipelines.{counter}
use nqbook.Examples.Hosts.{machine}

abbrev columns : List SchemaColumn
columns =
    record { name = some (codes "seen"); unit = none; doc = none; kind = cumulative }
    ∷ record { name = some (codes "last"); unit = some (codes "ns"); doc = none; kind = snapshot }
    ∷ []

abbrev pub loader : PluginLoader counter
loader = record {
  open_plugin = λ path. ok 1;
  columns_of = λ p. columns;
  path_stem = λ path. path;
  length-columns_of = λ p. refl;
}

abbrev empty : Catalog counter
empty = empty_catalog counter

abbrev name : Text
name = codes "ema"

-- the catalog with the plugin
abbrev loaded : Catalog counter
loaded = record {
  plugins = 1 ∷ [];
  names = name ∷ [];
  params = [] ∷ [];
  columns = columns_from counter name 0 0 columns;
  samplers = [];
}

loaded_eq : load_plugin counter loader empty name name [] ≡ ok (0, loaded)
unfolding load_plugin empty_catalog contains from_plugin
loaded_eq = refl

loaded_ok : (0 ≡ length (empty.plugins)) × CatalogOk counter loader loaded
loaded_ok =
    load_plugin-CatalogOk counter loader empty name name [] (0, loaded)
      (empty_catalog-CatalogOk counter loader) loaded_eq

-- a sampler of one column by its name
abbrev wanted : NamedSpec
wanted = record {
  name = codes "fast";
  spec = record { trigger = on_events; every = pos 100; fill_gaps = false };
  columns = codes "ema.last" ∷ [];
}

abbrev with_sampler : Catalog counter
with_sampler = record loaded {
  samplers =
      record {
        name = codes "fast";
        names = codes "ema.last" ∷ [];
        template = record {
          spec = record { trigger = on_events; every = pos 100; fill_gaps = false };
          columns = record { index = 1; kind = snapshot } ∷ [];
        };
      }
      ∷ [];
}

added_eq : add_sampler counter loaded wanted ≡ ok with_sampler
unfolding add_sampler columns_for sampled find_column find_template columns_from or_empty eq_text
added_eq = refl

add_sampler-CatalogOk_example : CatalogOk counter loader with_sampler
add_sampler-CatalogOk_example =
    add_sampler-CatalogOk counter loader loaded wanted with_sampler loaded_ok.1 added_eq

abbrev pub options : PluginOptions
options = record {
  plugins = name ∷ [];
  plugin_dir = [];
  samplers = codes "fast=events:100" ∷ [];
  fill_gaps = true;
}

-- the catalog of these options
abbrev pub catalog : Catalog counter
catalog = record loaded {
  samplers =
      record {
        name = codes "fast";
        names = (all_sampled loaded.columns 0).0;
        template = record {
          spec = record { trigger = on_events; every = pos 100; fill_gaps = false };
          columns = (all_sampled loaded.columns 0).1;
        };
      }
      ∷ [];
}

pub catalog_eq : load_catalog counter machine loader options ≡ ok catalog
unfolding load_catalog attempt of_config of_catalog parse_samplers filled_spec plugin_files
    describe_named describe_plugin_file load_plugins add_samplers load_plugin empty_catalog contains
    from_plugin add_sampler columns_for find_template parse_sampler_spec parse_trigger parse_count
    from_chars named_spec spec_of split_at has eq_text span_digits number
catalog_eq = refl

load_catalog-CatalogOk_example : CatalogOk counter loader catalog
load_catalog-CatalogOk_example =
    load_catalog-CatalogOk counter machine loader options catalog catalog_eq

-- ===== src/Feature/Catalog.antt =====
-- include/Feature/FeatureCatalog.h and src/Feature/FeatureCatalog.cpp: the plugins, their columns and
-- the samplers of a run. An exception leaves the catalog as it was, and is an error.
use nqbook.Prelude.{
  ℕ, suc, Bool, false, not, ◌||◌, List, [], ◌∷◌, ◌++◌, Option, none, some, length, map, get_elem?,
  if◌then◌else◌, is_some, ◌≡◌,
}
use nqbook.Prelude.Int.{pos, leb_ℤ}
use nqbook.Prelude.Outcome.{Result, ok, err, ◌>>=◌, ◌>>◌, guard, require}
use nqbook.Prelude.Text.{Text, codes, is_nil, eq_text}
use nqbook.Config.{KeyValues, NamedSpec}
use nqbook.Host.{PluginError}
use nqbook.Nlib.{Nlib}
use nqbook.Feature.Double.{Double}
use nqbook.Feature.Instances.{Instances}
use nqbook.Feature.Sampler.{SamplerColumn}
use nqbook.Feature.Engine.{SamplerTemplate}

-- nq_column, with a null pointer as `none`
pub record SchemaColumn : Type 0 where
  pub name : Option Text
  pub unit : Option Text
  pub doc : Option Text
  pub kind : ℕ

pub record ColumnInfo : Type 0 where
  pub name : Text
  pub unit : Text
  pub doc : Text
  pub kind : ℕ
  pub plugin_index : ℕ
  pub local_index : ℕ

-- SamplerTemplate with the name of its spec and the names of its columns
pub record NamedTemplate : Type 0 where
  pub name : Text
  pub names : List Text
  pub template : SamplerTemplate

pub data CatalogError : Type 0 where
  after_sampler : CatalogError
  duplicate_plugin duplicate_sampler bad_period unknown_column : Text → CatalogError
  plugin_error : PluginError → CatalogError

-- `s ? s : ""`
unfoldable pub or_empty : Option Text → Text
or_empty none = []
or_empty (some s) = s

unfoldable pub contains : List Text → Text → Bool
contains [] s = false
contains (t ∷ ts) s = eq_text t s || contains ts s

-- FindColumn: the loop over the columns from number `i` on
unfoldable pub find_column : List ColumnInfo → Text → ℕ → Option ℕ
find_column [] name i = none
find_column (c ∷ cs) name i =
    let later = find_column cs name (suc i) in if eq_text c.name name then some i else later

-- FindSampler
unfoldable pub find_template : List NamedTemplate → Text → Option NamedTemplate
find_template [] name = none
find_template (t ∷ ts) name =
    let later = find_template ts name in if eq_text t.name name then some t else later

-- the columns of a sampler that names none: all of them, from number `i` on
unfoldable pub all_sampled : List ColumnInfo → ℕ → List Text × List SamplerColumn
all_sampled [] i = ([], [])
all_sampled (c ∷ cs) i = (
  c.name ∷ (all_sampled cs (suc i)).0,
  record { index = i; kind = c.kind } ∷ (all_sampled cs (suc i)).1,
)

-- the columns of a sampler that names them
unfoldable pub sampled :
    List ColumnInfo → List Text → Result CatalogError (List Text × List SamplerColumn)
sampled columns [] = ok ([], [])
sampled columns (n ∷ ns) = do
  i ← require (unknown_column n) (find_column columns n 0)
  c ← require (unknown_column n) (get_elem? columns i)
  rest ← sampled columns ns
  ok (c.name ∷ rest.0, record { index = i; kind = c.kind } ∷ rest.1)

module _ {nlib : Nlib} {D : Double} (P : Instances nlib D) where
  -- host::Plugin, a parameter: the constructor on a path, which may throw, the columns of the schema,
  -- and the stem of a path
  pub record PluginLoader : Type 1 where
    pub open_plugin : Text → Result PluginError (Instances.Plugin P)
    pub columns_of : Instances.Plugin P → List SchemaColumn
    pub path_stem : Text → Text
    pub length-columns_of : (p : Instances.Plugin P) → length (columns_of p) ≡ P.schema_ncol p

  pub record Catalog : Type 0 where
    pub plugins : List (Instances.Plugin P)
    pub names : List Text
    pub params : List KeyValues
    pub columns : List ColumnInfo
    pub samplers : List NamedTemplate

  unfoldable pub empty_catalog : Catalog
  empty_catalog = record { plugins = []; names = []; params = []; columns = []; samplers = [] }

  -- the loop of LoadPlugin over the columns of plugin number `index`, from column `i` on
  unfoldable pub columns_from : Text → ℕ → ℕ → List SchemaColumn → List ColumnInfo
  columns_from name index i [] = []
  columns_from name index i (c ∷ cs) =
      record {
        name = name ++ (codes "." ++ or_empty c.name);
        unit = or_empty c.unit;
        doc = or_empty c.doc;
        kind = c.kind;
        plugin_index = index;
        local_index = i;
      }
      ∷ columns_from name index (suc i) cs

  unfoldable pub from_plugin :
      Result PluginError (Instances.Plugin P) → Result CatalogError (Instances.Plugin P)
  from_plugin (ok p) = ok p
  from_plugin (err e) = err (plugin_error e)

  -- LoadPlugin
  unfoldable pub load_plugin :
      PluginLoader → Catalog → Text → Text → KeyValues → Result CatalogError (ℕ × Catalog)
  load_plugin l cat path given kvs = do
    guard (is_nil cat.samplers) after_sampler
    let name : Text = if is_nil given then l.path_stem path else given
    guard (not (contains cat.names name)) (duplicate_plugin name)
    plugin ← from_plugin (l.open_plugin path)
    let index = length cat.plugins
    ok (
      index,
      record cat {
        plugins = cat.plugins ++ plugin ∷ [];
        names = cat.names ++ name ∷ [];
        params = cat.params ++ kvs ∷ [];
        columns = cat.columns ++ columns_from name index 0 (l.columns_of plugin);
      },
    )

  -- the choice of AddSampler between all columns and the named ones
  unfoldable pub columns_for :
      Catalog → NamedSpec → Result CatalogError (List Text × List SamplerColumn)
  columns_for cat spec =
      if is_nil spec.columns
      then ok (all_sampled cat.columns 0)
      else sampled cat.columns spec.columns

  -- AddSampler
  unfoldable pub add_sampler : Catalog → NamedSpec → Result CatalogError Catalog
  add_sampler cat spec = do
    guard (not (leb_ℤ spec.spec.every (pos 0))) (bad_period spec.name)
    guard (not (is_some (find_template cat.samplers spec.name))) (duplicate_sampler spec.name)
    (names, columns) ← columns_for cat spec
    ok (record cat {
      samplers =
          cat.samplers
          ++ record {
            name = spec.name;
            names = names;
            template = record { spec = spec.spec; columns = columns };
          }
            ∷ [];
    })

  -- the templates that the engines of a catalog take
  abbrev pub templates_of : List NamedTemplate → List SamplerTemplate
  templates_of ts = map (λ (t : NamedTemplate). t.template) ts

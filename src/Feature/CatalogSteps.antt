-- ===== src/Feature/CatalogSteps.antt =====
-- src/Feature/FeatureCatalog.cpp: LoadPlugin and AddSampler on the invariant of the catalog.

use nqbook.Prelude.{
  ℕ, ◌≡◌, refl, subst, Bool, true, false, not, List, [], ◌∷◌, ◌++◌, arith, length, length-append,
  map, is_some, Bool-cases, inl, inr, if◌then◌else◌,
}
use nqbook.Prelude.Int.{pos, leb_ℤ, ◌<ℤ◌}
use nqbook.Prelude.Outcome.{ok, guard, ok_injective, >>=-eq-ok, guard-eq-ok}
use nqbook.Prelude.Text.{Text, is_nil}
use nqbook.Config.{KeyValues, NamedSpec}
use nqbook.Nlib.{Nlib}
use nqbook.Feature.Double.{Double}
use nqbook.Feature.Instances.{Instances}
use nqbook.Feature.Sampler.{SamplerColumn}
use nqbook.Feature.NewEngine.{Checked, all_columns}
use nqbook.Feature.Catalog.{
  NamedTemplate, after_sampler, duplicate_plugin, duplicate_sampler, bad_period, contains,
  find_template, PluginLoader, Catalog, empty_catalog, columns_from, from_plugin, load_plugin,
  columns_for, add_sampler, templates_of,
}
use nqbook.Feature.CatalogColumns.{
  length-columns_from, all_columns-append, AllOfSchema, loaded-AllOfSchema,
}
use nqbook.Feature.CatalogInvariant.{
  Labelled, AllLabelled, Distinct, Labelled-InRange, ReadsNames, all_sampled-Labelled,
  sampled-Labelled, find_template-contains, Distinct-append, Checked-append, AllLabelled-append,
  map-append_one, Checked-is_nil, AllLabelled-is_nil,
}

module _ {nlib : Nlib} {D : Double} (P : Instances nlib D) where
  abbrev pub sampler_names : Catalog P → List Text
  sampler_names cat = map (λ (t : NamedTemplate). t.name) cat.samplers

  -- The columns are those of the schemas of the plugins, all of them in their order and under their
  -- names there, no name is there twice, every sampler has a positive period and reads columns of the
  -- catalog, under their names.
  pub record CatalogOk (l : PluginLoader P) (cat : Catalog P) : Type 0 where
    pub width : length cat.columns ≡ all_columns P cat.plugins
    pub named : length cat.names ≡ length cat.plugins
    pub of_schemas : AllOfSchema P l cat.plugins cat.names 0 cat.columns
    pub checked : Checked (templates_of P cat.samplers) (length cat.columns)
    pub labelled : AllLabelled cat.columns cat.samplers
    pub plugins_distinct : Distinct cat.names
    pub samplers_distinct : Distinct (sampler_names cat)

  -- An empty catalog is in order.
  pub empty_catalog-CatalogOk : (l : PluginLoader P) → CatalogOk l (empty_catalog P)
  unfolding empty_catalog all_columns
  empty_catalog-CatalogOk l = record {
    width = refl;
    named = refl;
    of_schemas = tt;
    checked = tt;
    labelled = tt;
    plugins_distinct = tt;
    samplers_distinct = tt;
  }

  -- the new catalog of LoadPlugin
  abbrev loaded : PluginLoader P → Catalog P → Text → KeyValues → Instances.Plugin P → Catalog P
  loaded l cat name kvs plugin = record cat {
    plugins = cat.plugins ++ plugin ∷ [];
    names = cat.names ++ name ∷ [];
    params = cat.params ++ kvs ∷ [];
    columns = cat.columns ++ columns_from P name (length cat.plugins) 0 (l.columns_of plugin);
  }

  loaded-CatalogOk :
      (l : PluginLoader P) (cat : Catalog P) (name : Text) (kvs : KeyValues)
      (plugin : Instances.Plugin P)
      → CatalogOk l cat
      → is_nil cat.samplers ≡ true
      → contains cat.names name ≡ false
      → CatalogOk l (loaded l cat name kvs plugin)
  loaded-CatalogOk l cat name kvs plugin k none_yet fresh =
      let new = columns_from P name (length cat.plugins) 0 (l.columns_of plugin) in
      record {
        width = omega (
          arith,
          length-append cat.columns new,
          length-columns_from P name (length cat.plugins) 0 (l.columns_of plugin),
          l.length-columns_of plugin,
          all_columns-append P cat.plugins plugin,
          k.width,
        );
        named = omega (
          arith,
          length-append cat.names (name ∷ []),
          length-append cat.plugins (plugin ∷ []),
          k.named,
        );
        of_schemas =
            loaded-AllOfSchema P l cat.plugins cat.names cat.columns plugin name k.named k.width
              k.of_schemas;
        checked = Checked-is_nil cat.samplers (length (cat.columns ++ new)) none_yet;
        labelled = AllLabelled-is_nil (cat.columns ++ new) cat.samplers none_yet;
        plugins_distinct = Distinct-append cat.names name k.plugins_distinct fresh;
        samplers_distinct = k.samplers_distinct;
      }

  not→false : (b : Bool) → not b ≡ true → b ≡ false
  not→false true h = cc
  not→false false h = refl

  pub load_plugin-CatalogOk :
      (l : PluginLoader P) (cat : Catalog P) (path given : Text) (kvs : KeyValues)
      (r : ℕ × Catalog P)
      → CatalogOk l cat
      → load_plugin P l cat path given kvs ≡ ok r
      → (r.0 ≡ length cat.plugins) × CatalogOk l r.1
  unfolding load_plugin
  load_plugin-CatalogOk l cat path given kvs r k h =
      let name : Text = if is_nil given then l.path_stem path else given in
      let (u, none_yet, h1) = >>=-eq-ok (guard (is_nil cat.samplers) after_sampler) _ h in
      let (v, fresh, h2) =
        >>=-eq-ok (guard (not (contains cat.names name)) (duplicate_plugin name)) _ h1 in
      let (plugin, opened, h3) = >>=-eq-ok (from_plugin P (l.open_plugin path)) _ h2 in
      subst (λ (r : ℕ × Catalog P). (r.0 ≡ length cat.plugins) × CatalogOk l r.1) (ok_injective h3)
        (
          refl,
          loaded-CatalogOk l cat name kvs plugin k
              (guard-eq-ok (is_nil cat.samplers) after_sampler none_yet)
              (not→false (contains cat.names name)
                (guard-eq-ok (not (contains cat.names name)) (duplicate_plugin name) fresh)),
        )

  columns_for-Labelled :
      (cat : Catalog P) (spec : NamedSpec) (r : List Text × List SamplerColumn)
      → columns_for P cat spec ≡ ok r
      → Labelled cat.columns r.0 r.1
  unfolding columns_for ReadsNames
  columns_for-Labelled cat spec r h = elim (Bool-cases (is_nil spec.columns)) [
    | inl all ↦
        subst (λ (r : List Text × List SamplerColumn). Labelled cat.columns r.0 r.1)
          (ok_injective (rw all at h)) (all_sampled-Labelled [] cat.columns)
    | inr named ↦ (sampled-Labelled cat.columns spec.columns r (rw named at h)).1
  ]

  -- the new catalog of AddSampler
  abbrev extended : Catalog P → NamedTemplate → Catalog P
  extended cat t = record cat { samplers = cat.samplers ++ t ∷ [] }

  extended-CatalogOk :
      (l : PluginLoader P) (cat : Catalog P) (t : NamedTemplate)
      → CatalogOk l cat
      → Labelled cat.columns t.names t.template.columns
      → pos 0 <ℤ t.template.spec.every
      → contains (sampler_names cat) t.name ≡ false
      → CatalogOk l (extended cat t)
  extended-CatalogOk l cat t k labels positive fresh = record {
    width = k.width;
    named = k.named;
    of_schemas = k.of_schemas;
    checked = rw (map-append_one (λ (t : NamedTemplate). t.template) cat.samplers t) (
        Checked-append (templates_of P cat.samplers) t.template (length cat.columns) k.checked
          (Labelled-InRange cat.columns t.names t.template.columns labels) positive);
    labelled = AllLabelled-append cat.columns cat.samplers t k.labelled labels;
    plugins_distinct = k.plugins_distinct;
    samplers_distinct =
        rw (map-append_one (λ (t : NamedTemplate). t.name) cat.samplers t)
          (Distinct-append (sampler_names cat) t.name k.samplers_distinct fresh);
  }

  -- AddSampler, where it returns, keeps the catalog in order: the period of the new sampler is
  -- positive, its name is new, and its columns carry their names in the catalog.
  pub add_sampler-CatalogOk :
      (l : PluginLoader P) (cat : Catalog P) (spec : NamedSpec) (cat' : Catalog P)
      → CatalogOk l cat
      → add_sampler P cat spec ≡ ok cat'
      → CatalogOk l cat'
  unfolding add_sampler
  add_sampler-CatalogOk l cat spec cat' k h =
      let (u, positive, h1) =
        >>=-eq-ok (guard (not (leb_ℤ spec.spec.every (pos 0))) (bad_period spec.name)) _ h in
      let (v, fresh, h2) =
        >>=-eq-ok
          (guard (not (is_some (find_template cat.samplers spec.name)))
            (duplicate_sampler spec.name))
          _ h1 in
      let ((names, columns), chosen, h3) = >>=-eq-ok (columns_for P cat spec) _ h2 in
      let t : NamedTemplate = record {
        name = spec.name;
        names = names;
        template = record { spec = spec.spec; columns = columns };
      } in
      subst (CatalogOk l) (ok_injective h3) (
        extended-CatalogOk l cat t k (columns_for-Labelled cat spec (names, columns) chosen)
          (ground (
            arith,
            guard-eq-ok (not (leb_ℤ spec.spec.every (pos 0))) (bad_period spec.name) positive,
          ))
          (find_template-contains cat.samplers spec.name (
            not→false (is_some (find_template cat.samplers spec.name)) (
              guard-eq-ok (not (is_some (find_template cat.samplers spec.name)))
                (duplicate_sampler spec.name) fresh))))

  -- The engines of a catalog in order find their templates as they need them.
  pub CatalogOk-Checked :
      (l : PluginLoader P) (cat : Catalog P)
      → CatalogOk l cat
      → Checked (templates_of P cat.samplers) (all_columns P cat.plugins)
  CatalogOk-Checked l cat k =
      subst (λ (n : ℕ). Checked (templates_of P cat.samplers) n) k.width k.checked

-- ===== src/App/Loading.antt =====
-- src/main.cpp: the stages of LoadCatalog on the invariant of the catalog.
use nqbook.Prelude.{ℕ, ◌≡◌, subst, List, [], ◌∷◌}
use nqbook.Prelude.Outcome.{Result, ok, err, >>=-eq-ok, ok_injective}
use nqbook.Config.{NamedSpec}
use nqbook.Config.Files.{FileSystem, PluginFile}
use nqbook.Nlib.{Nlib}
use nqbook.Feature.Double.{Double}
use nqbook.Feature.Instances.{Instances}
use nqbook.Feature.Catalog.{
  CatalogError, PluginLoader, Catalog, empty_catalog, load_plugin, add_sampler,
}
use nqbook.Feature.CatalogSteps.{
  CatalogOk, empty_catalog-CatalogOk, load_plugin-CatalogOk, add_sampler-CatalogOk,
}
use nqbook.App.{
  Exception, PluginOptions, attempt, of_config, of_catalog, k_sampler_invalid, k_params_invalid,
  k_plugin_load, parse_samplers, plugin_files, load_plugins, add_samplers, load_catalog,
}

pub attempt-eq-ok {ℓ} :
    {A : Type ℓ} (code : ℕ) (r : Result Exception A) {a : A} → attempt code r ≡ ok a → r ≡ ok a
unfolding attempt
attempt-eq-ok code (ok a) h = cc
attempt-eq-ok code (err e) h = cc

of_catalog-eq-ok {ℓ} :
    {A : Type ℓ} (r : Result CatalogError A) {a : A} → of_catalog r ≡ ok a → r ≡ ok a
unfolding of_catalog
of_catalog-eq-ok (ok a) h = cc
of_catalog-eq-ok (err e) h = cc

module _ {nlib : Nlib} {D : Double} (P : Instances nlib D) (fs : FileSystem) where
  load_plugins-CatalogOk :
      (l : PluginLoader P) (files : List (PluginFile fs)) (cat cat' : Catalog P)
      → CatalogOk P l cat
      → load_plugins P fs l cat files ≡ ok cat'
      → CatalogOk P l cat'
  unfolding load_plugins
  load_plugins-CatalogOk l [] cat cat' k h = subst (CatalogOk P l) (ok_injective h) k
  load_plugins-CatalogOk l (f ∷ files) cat cat' k h =
      let (r, loaded, h1) =
        >>=-eq-ok (load_plugin P l cat (fs.to_text f.path) f.name f.params) _ h in
      load_plugins-CatalogOk l files r.1 cat'
        (load_plugin-CatalogOk P l cat (fs.to_text f.path) f.name f.params r k loaded).1 h1

  add_samplers-CatalogOk :
      (l : PluginLoader P) (specs : List NamedSpec) (cat cat' : Catalog P)
      → CatalogOk P l cat
      → add_samplers P fs cat specs ≡ ok cat'
      → CatalogOk P l cat'
  unfolding add_samplers
  add_samplers-CatalogOk l [] cat cat' k h = subst (CatalogOk P l) (ok_injective h) k
  add_samplers-CatalogOk l (s ∷ specs) cat cat' k h =
      let (next, added, h1) = >>=-eq-ok (add_sampler P cat s) _ h in
      add_samplers-CatalogOk l specs next cat' (add_sampler-CatalogOk P l cat s next k added) h1

  -- A catalog that LoadCatalog returns is in order: its columns are those of the schemas of its
  -- plugins, all of them in their order and under their names there, no plugin and no sampler is there twice, and each sampler has a positive period and reads columns that
  -- exist, under their names.
  pub load_catalog-CatalogOk :
      (l : PluginLoader P) (opt : PluginOptions) (cat : Catalog P)
      → load_catalog P fs l opt ≡ ok cat
      → CatalogOk P l cat
  unfolding load_catalog
  load_catalog-CatalogOk l opt cat h =
      let (specs, parsed, h1) =
        >>=-eq-ok
          (attempt k_sampler_invalid (of_config (parse_samplers opt.fill_gaps opt.samplers))) _ h in
      let (files, found, h2) =
        >>=-eq-ok (attempt k_params_invalid (of_config (plugin_files P fs opt))) _ h1 in
      let (loaded, opened, h3) =
        >>=-eq-ok (attempt k_plugin_load (of_catalog (load_plugins P fs l (empty_catalog P) files)))
          _ h2 in
      add_samplers-CatalogOk l specs loaded cat
        (load_plugins-CatalogOk l files (empty_catalog P) loaded (empty_catalog-CatalogOk P l) (
          of_catalog-eq-ok (load_plugins P fs l (empty_catalog P) files) (
            attempt-eq-ok k_plugin_load (of_catalog (load_plugins P fs l (empty_catalog P) files))
              opened)))
        (of_catalog-eq-ok (add_samplers P fs loaded specs)
          (attempt-eq-ok k_sampler_invalid (of_catalog (add_samplers P fs loaded specs)) h3))

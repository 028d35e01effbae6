-- ===== src/App/ExitCodes.antt =====
-- src/main.cpp: the exit code of Run.
use mathlib.Core.Logic.{◌↔◌}
use nqbook.Prelude.{ℕ, ◌≡◌, ◌≢◌, refl, Bool, true, false, not, ◌&&◌, Option, if◌then◌else◌, arith}
use nqbook.Prelude.Int.{pos, eqb_ℤ}
use nqbook.Prelude.Outcome.{Result, ok, err, ◌>>=◌, guard, guard-eq-ok}
use nqbook.Prelude.Text.{is_nil}
use nqbook.Config.Files.{FileSystem}
use nqbook.Host.{load_error, abi_mismatch, init_error, other_error}
use nqbook.Nlib.{Nlib}
use nqbook.Params.{ParamsBuilder}
use nqbook.Feature.Double.{Double}
use nqbook.Feature.Instances.{Instances}
use nqbook.Feature.Catalog.{PluginLoader, Catalog, empty_catalog}
use nqbook.App.{
  Exception, of_plugin, of_standard, exit_code_for, attempt, of_config, of_catalog, k_ok,
  k_sampler_invalid, k_params_invalid, k_plugin_load, k_output_failed, k_adapter_failed,
  k_interrupted, PluginOptions, AdapterOptions, parse_samplers, plugin_files, load_plugins,
  add_samplers, load_catalog, parse_adapter_params,
}
use nqbook.App.Running.{
  code_of, OutputOptions, RunResult, Stages, optional_writer, writes_parquet, writes_csv,
  finish_run, run_stages, run,
}
use nqbook.App.Loading.{attempt-eq-ok}

-- A failure has a code of its own, never that of success.
unfoldable Coded {ℓ} : {A : Type ℓ} → Result ℕ A → Type 0
Coded (ok a) = Unit
Coded (err code) = code ≢ k_ok

exit_code_for_nonzero : (e : Exception) (code : ℕ) → code ≢ k_ok → exit_code_for e code ≢ k_ok
unfolding exit_code_for
exit_code_for_nonzero (of_plugin load_error) code c = omega arith
exit_code_for_nonzero (of_plugin abi_mismatch) code c = omega arith
exit_code_for_nonzero (of_plugin init_error) code c = omega arith
exit_code_for_nonzero (of_plugin other_error) code c = omega arith
exit_code_for_nonzero of_standard code c = c

attempt-Coded {ℓ} :
    {A : Type ℓ} (code : ℕ) (r : Result Exception A) → code ≢ k_ok → Coded (attempt code r)
unfolding attempt Coded
attempt-Coded code (ok a) c = tt
attempt-Coded code (err e) c = exit_code_for_nonzero e code c

guard-Coded : (b : Bool) (code : ℕ) → code ≢ k_ok → Coded (guard b code)
unfolding Coded
guard-Coded true code c = tt
guard-Coded false code c = c

>>=-Coded {ℓ κ} :
    {A : Type ℓ} {B : Type κ} (m : Result ℕ A) (f : A → Result ℕ B)
    → Coded m
    → ((a : A) → Coded (f a))
    → Coded (m >>= f)
unfolding Coded
>>=-Coded (ok a) f c cs = cs a
>>=-Coded (err e) f c cs = c

-- A bind whose code is 0 returned on both sides.
>>=-eq-k_ok {ℓ κ} :
    {A : Type ℓ} {B : Type κ} (m : Result ℕ A) (f : A → Result ℕ B)
    → Coded m
    → code_of (m >>= f) ≡ k_ok
    → (a : A) × (m ≡ ok a) × (code_of (f a) ≡ k_ok)
unfolding Coded code_of
>>=-eq-k_ok (ok a) f c h = (a, refl, h)
>>=-eq-k_ok (err e) f c h = absurd (c h)

module _ {nlib : Nlib} {D : Double} (P : Instances nlib D) (fs : FileSystem) where
  load_catalog-Coded : (l : PluginLoader P) (opt : PluginOptions) → Coded (load_catalog P fs l opt)
  unfolding load_catalog
  load_catalog-Coded l opt =
      >>=-Coded (attempt k_sampler_invalid (of_config (parse_samplers opt.fill_gaps opt.samplers)))
        _ (attempt-Coded k_sampler_invalid _ (omega arith))
        (λ specs.
          >>=-Coded (attempt k_params_invalid (of_config (plugin_files P fs opt))) _
            (attempt-Coded k_params_invalid _ (omega arith))
            (λ files.
              >>=-Coded
                (attempt k_plugin_load (of_catalog (load_plugins P fs l (empty_catalog P) files))) _
                (attempt-Coded k_plugin_load _ (omega arith))
                (λ cat.
                  attempt-Coded k_sampler_invalid (of_catalog (add_samplers P fs cat specs))
                    (omega arith))))

  catalog-Coded :
      (feed_only : Bool) (popt : PluginOptions) (l : PluginLoader P)
      → Coded (if feed_only then ok (empty_catalog P) else load_catalog P fs l popt)
  unfolding Coded
  catalog-Coded true popt l = tt
  catalog-Coded false popt l = load_catalog-Coded l popt

parse_adapter_params-Coded :
    (fs : FileSystem) (opt : AdapterOptions) → Coded (parse_adapter_params fs opt)
unfolding parse_adapter_params
parse_adapter_params-Coded fs opt = attempt-Coded k_params_invalid _ (omega arith)

-- what the end of Run has seen where the exit code is 0
pub record Finished (feed_only : Bool) (o : OutputOptions) (r : RunResult)
    (csv : Result Exception (Unit {0})) : Type 0 where
  pub written : writes_parquet feed_only o ≡ true → is_nil r.writer_error ≡ true
  pub csv_eq : writes_csv feed_only o ≡ true → csv ≡ ok tt
  pub completed : r.interrupted ≡ false
  pub status_eq : eqb_ℤ r.adapter_status (pos 0) ≡ true

finish_run-Finished :
    (feed_only : Bool) (o : OutputOptions) (r : RunResult) (csv : Result Exception (Unit {0}))
    → code_of (finish_run feed_only o r csv) ≡ k_ok
    → Finished feed_only o r csv
unfolding finish_run
finish_run-Finished feed_only o r csv h =
    let writes = writes_parquet feed_only o in
    let csvs = writes_csv feed_only o in
    let (u, no_error, h1) =
      >>=-eq-k_ok (guard (not (writes && not (is_nil r.writer_error))) k_output_failed) _
        (guard-Coded _ k_output_failed (omega arith)) h in
    let (v, csv_done, h2) =
      >>=-eq-k_ok (attempt k_output_failed (if csvs then csv else ok tt)) _
        (attempt-Coded k_output_failed _ (omega arith)) h1 in
    let (w, not_stopped, h3) =
      >>=-eq-k_ok (guard (not r.interrupted) k_interrupted) _
        (guard-Coded _ k_interrupted (omega arith)) h2 in
    let (x, good, h4) =
      >>=-eq-k_ok (guard (eqb_ℤ r.adapter_status (pos 0)) k_adapter_failed) _
        (guard-Coded _ k_adapter_failed (omega arith)) h3 in
    record {
      written = λ p. ground (
        arith,
        p,
        guard-eq-ok (not (writes && not (is_nil r.writer_error))) k_output_failed no_error,
      );
      csv_eq = λ p. rw p at (attempt-eq-ok k_output_failed (if csvs then csv else ok tt) csv_done);
      completed = ground (arith, guard-eq-ok (not r.interrupted) k_interrupted not_stopped);
      status_eq = guard-eq-ok (eqb_ℤ r.adapter_status (pos 0)) k_adapter_failed good;
    }

attempt_csv :
    (b : Bool) (c : Result Exception (Unit {0}))
    → (b ≡ true → c ≡ ok tt)
    → attempt k_output_failed (if b then c else ok tt) ≡ ok tt
unfolding attempt
attempt_csv true c h = rw (h refl) refl
attempt_csv false c h = refl

Finished-finish_run :
    (feed_only : Bool) (o : OutputOptions) (r : RunResult) (csv : Result Exception (Unit {0}))
    → Finished feed_only o r csv
    → finish_run feed_only o r csv ≡ ok tt
unfolding finish_run
Finished-finish_run feed_only o r csv f =
    let writes : Bool = writes_parquet feed_only o in
    let quiet : (not (writes && not (is_nil r.writer_error))) ≡ true = ground (arith, f.written) in
    let done : attempt k_output_failed (if writes_csv feed_only o then csv else ok tt) ≡ ok tt =
      attempt_csv (writes_csv feed_only o) csv f.csv_eq in
    rw (quiet, done, f.completed, f.status_eq) refl

module _ {nlib : Nlib} {D : Double} (P : Instances nlib D) (fs : FileSystem)
    {Writer Adapter : Type 0} where
  -- what each stage of Run has returned
  pub record Completed (feed_only : Bool) (popt : PluginOptions) (aopt : AdapterOptions)
      (o : OutputOptions) (l : PluginLoader P) (s : Stages (Catalog P) Writer Adapter)
      : Type 0 where
    pub catalog : Catalog P
    pub params : ParamsBuilder
    pub writer : Option Writer
    pub adapter : Adapter
    pub result : RunResult
    pub catalog_eq :
        (if feed_only then ok (empty_catalog P) else load_catalog P fs l popt) ≡ ok catalog
    pub params_eq : parse_adapter_params fs aopt ≡ ok params
    pub writer_eq : optional_writer (writes_parquet feed_only o) (s.open_writer catalog) ≡ ok writer
    pub adapter_eq : s.open_adapter ≡ ok adapter
    pub result_eq : s.run_session catalog adapter params writer ≡ ok result
    pub finished : Finished feed_only o result (s.write_csv result)

  run-Completed_lem :
      (feed_only : Bool) (popt : PluginOptions) (aopt : AdapterOptions) (o : OutputOptions)
      (l : PluginLoader P) (s : Stages (Catalog P) Writer Adapter)
      → run P fs feed_only popt aopt o l s ≡ k_ok
      → Completed feed_only popt aopt o l s
  unfolding run run_stages
  run-Completed_lem feed_only popt aopt o l s h =
      let (cat, catalog_eq, h1) = >>=-eq-k_ok _ _ (catalog-Coded P fs feed_only popt l) h in
      let (pb, params_eq, h2) = >>=-eq-k_ok _ _ (parse_adapter_params-Coded fs aopt) h1 in
      let opened : Result Exception (Option Writer) =
        optional_writer (writes_parquet feed_only o) (s.open_writer cat) in
      let (w, writer_eq, h3) =
        >>=-eq-k_ok (attempt k_output_failed opened) _
          (attempt-Coded k_output_failed opened (omega arith)) h2 in
      let (a, adapter_eq, h4) =
        >>=-eq-k_ok (attempt k_plugin_load s.open_adapter) _
          (attempt-Coded k_plugin_load s.open_adapter (omega arith)) h3 in
      let ran : Result Exception RunResult = s.run_session cat a pb w in
      let (r, result_eq, h5) =
        >>=-eq-k_ok (attempt k_adapter_failed ran) _
          (attempt-Coded k_adapter_failed ran (omega arith)) h4 in
      record {
        catalog = cat;
        params = pb;
        writer = w;
        adapter = a;
        result = r;
        catalog_eq = catalog_eq;
        params_eq = params_eq;
        writer_eq = attempt-eq-ok k_output_failed opened writer_eq;
        adapter_eq = attempt-eq-ok k_plugin_load s.open_adapter adapter_eq;
        result_eq = attempt-eq-ok k_adapter_failed ran result_eq;
        finished = finish_run-Finished feed_only o r (s.write_csv r) h5;
      }

  Completed-run :
      (feed_only : Bool) (popt : PluginOptions) (aopt : AdapterOptions) (o : OutputOptions)
      (l : PluginLoader P) (s : Stages (Catalog P) Writer Adapter)
      → Completed feed_only popt aopt o l s
      → run P fs feed_only popt aopt o l s ≡ k_ok
  unfolding run run_stages attempt code_of
  Completed-run feed_only popt aopt o l s c =
      rw (c.catalog_eq, c.params_eq)
        (rw (c.writer_eq) (
          rw (c.adapter_eq) (
            rw
              (
                c.result_eq,
                Finished-finish_run feed_only o c.result (s.write_csv c.result) c.finished,
              )
              refl)))

  -- Run exits with code 0 exactly where each of its stages returns, the run was not interrupted,
  -- the adapter ended with status 0, a Parquet writer that was asked for has no error, and CSV files
  -- that were asked for are written.
  pub run-Completed :
      (feed_only : Bool) (popt : PluginOptions) (aopt : AdapterOptions) (o : OutputOptions)
      (l : PluginLoader P) (s : Stages (Catalog P) Writer Adapter)
      → (run P fs feed_only popt aopt o l s ≡ k_ok) ↔ Completed feed_only popt aopt o l s
  run-Completed feed_only popt aopt o l s =
      (run-Completed_lem feed_only popt aopt o l s, Completed-run feed_only popt aopt o l s)

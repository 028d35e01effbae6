-- ===== src/Feature/NewEngine.antt =====
-- The constructor of the engine.
use nqbook.Prelude.{
  ℕ, suc, ◌+◌, ◌%◌, ◌^◌, ◌≡◌, refl, ap, subst, Bool, true, false, List, [], ◌∷◌, map, arith,
  length-replicate,
}
use nqbook.Prelude.Int.{pos, ◌<ℤ◌}
use nqbook.Nlib.{Nlib}
use nqbook.Orderbook.Book.{Book}
use nqbook.Feature.Double.{Double}
use nqbook.Feature.RowBuffer.{new_buffer}
use nqbook.Feature.Sampler.{Sampler, new_sampler}
use nqbook.Feature.Instances.{Instrument, Instances}
use nqbook.Feature.Emission.{InRange, new_sampler-Ready, times}
use nqbook.Feature.Engine.{SamplerTemplate, instances_from, samplers_from, new_engine}
use nqbook.Feature.EngineInvariant.{AllReady, EngineOk}
use nqbook.Feature.ReadLayout.{Laid}

-- what AddSampler checks of a template, on `n` columns
abbrev pub Checked : List SamplerTemplate → ℕ → Type 0
Checked [] n = Unit {0}
Checked (t ∷ ts) n = InRange t.columns n × (pos 0 <ℤ t.spec.every) × Checked ts n

module _ {nlib : Nlib} {D : Double} (P : Instances nlib D) where
  -- the number of columns of all plugins
  unfoldable pub all_columns : List (Instances.Plugin P) → ℕ
  all_columns [] = 0
  all_columns (p ∷ ps) = P.schema_ncol p + all_columns ps

  -- the instances of the plugins, in their order
  abbrev pub created : List (Instances.Plugin P) → Instrument → List (Instances.Instance P)
  created ps spec = map (λ (p : Instances.Plugin P). P.create p spec) ps

  instances_from-Laid :
      (ps : List (Instances.Plugin P)) (spec : Instrument) (size : ℕ)
      → ((instances_from P ps spec size).0 ≡ created ps spec)
        × ((instances_from P ps spec size).2 ≡ size + all_columns ps)
        × Laid P
            (instances_from P ps spec size).0
            (instances_from P ps spec size).1
            size
            (instances_from P ps spec size).2
  unfolding instances_from all_columns
  instances_from-Laid [] spec size = (refl, omega arith, refl)
  instances_from-Laid (p ∷ ps) spec size =
      let (same, total, laid) = instances_from-Laid ps spec (size + P.schema_ncol p) in
      (
        ap (◌∷◌ (P.create p spec)) same,
        omega (arith, total),
        (refl, rw (P.ncol-create p spec) laid),
      )

  samplers_from-AllReady :
      (ts : List SamplerTemplate) (sink : Bool) (i id n : ℕ)
      → Checked ts n
      → AllReady P (samplers_from P ts sink i id) n
  unfolding samplers_from
  samplers_from-AllReady [] sink i id n k = tt
  samplers_from-AllReady (t ∷ ts) sink i id n (inside, positive, k) = (
    new_sampler-Ready t.spec t.columns sink _ id n inside positive,
    samplers_from-AllReady ts sink (suc i) id n k,
  )

  -- The samplers, from number `i` on, are one for each template, with its period and columns, its
  -- number in 32 bits and the number of the instrument, and have given nothing yet.
  abbrev pub Numbered : List SamplerTemplate → List (Sampler D) → ℕ → ℕ → Type 0
  Numbered [] [] i id = Unit {0}
  Numbered [] (s ∷ ss) i id = ⊥
  Numbered (t ∷ ts) [] i id = ⊥
  Numbered (t ∷ ts) (s ∷ ss) i id =
      ((s.spec ≡ t.spec)
        × (s.columns ≡ t.columns)
        × (s.sampler_index ≡ i % 2 ^ 32)
        × (s.instrument ≡ id)
        × (times s ≡ [])
        × (s.started ≡ false)
        × (s.count ≡ pos 0))
      × Numbered ts ss (suc i) id

  samplers_from-Numbered :
      (ts : List SamplerTemplate) (sink : Bool) (i id : ℕ)
      → Numbered ts (samplers_from P ts sink i id) i id
  unfolding samplers_from new_sampler times new_buffer
  samplers_from-Numbered [] sink i id = tt
  samplers_from-Numbered (t ∷ ts) true i id =
      ((refl, refl, refl, refl, refl, refl, refl), samplers_from-Numbered ts true (suc i) id)
  samplers_from-Numbered (t ∷ ts) false i id =
      ((refl, refl, refl, refl, refl, refl, refl), samplers_from-Numbered ts false (suc i) id)

  -- A new engine, on any book, has an instance of each plugin, in their order, whose values lie behind
  -- one another and fill the engine's values exactly, none of them marked as fresh, and a sampler of
  -- each template with nothing given. It is in step where the templates are as AddSampler checks them.
  pub new_engine-EngineOk :
      (b : Book nlib) (plugins : List (Instances.Plugin P)) (templates : List SamplerTemplate)
      (spec : Instrument) (sink : Bool)
      → Checked templates (all_columns plugins)
      → EngineOk P b (new_engine P plugins templates spec sink) (all_columns plugins)
        × ((new_engine P plugins templates spec sink).cache.instances ≡ created plugins spec)
        × ((new_engine P plugins templates spec sink).cache.fresh ≡ false)
        × Numbered templates (new_engine P plugins templates spec sink).samplers 0 spec.id
  unfolding new_engine
  new_engine-EngineOk b plugins templates spec sink k =
      let (same, total, laid) = instances_from-Laid plugins spec 0 in
      (
        record {
          cached = record {
            width = omega (
              arith,
              length-replicate (instances_from P plugins spec 0).2 (Double.zero D),
              total,
            );
            laid =
                subst
                  (Laid P (instances_from P plugins spec 0).0 (instances_from P plugins spec 0).1 0)
                  (omega (arith, total)) laid;
            held = λ h. cc;
          };
          ready = samplers_from-AllReady templates sink 0 spec.id (all_columns plugins) k;
        },
        same,
        refl,
        samplers_from-Numbered templates sink 0 spec.id,
      )

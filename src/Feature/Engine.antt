-- ===== src/Feature/Engine.antt =====
-- include/Feature/FeatureEngine.h and src/Feature/FeatureEngine.cpp: the plugin instances of one
-- instrument, the cache of their values and the samplers. The book is an argument, since the
-- engine's view only reads it.
use nqbook.Prelude.{
  ℕ, suc, ◌+◌, ◌%◌, ◌^◌, Bool, true, false, List, [], ◌∷◌, ◌++◌, Option, some, take, drop,
  replicate, length, map, ◌==◌, if◌then◌else◌, ◌>>=◌,
}
use nqbook.Prelude.Int.{ℤ}
use nqbook.Abi.{Mbo, clear}
use nqbook.Nlib.{Nlib}
use nqbook.Orderbook.Book.{Book}
use nqbook.Feature.Double.{Double}
use nqbook.Feature.Instances.{Instrument, Event, control_reset, Instances}
use nqbook.Feature.Sampler.{
  SamplerSpec, SamplerColumn, Sampler, V, new_sampler, advance, close, sampler_event, emit,
  reset_baseline,
}

-- SamplerTemplate of the catalog, without the names of its columns
pub record SamplerTemplate : Type 0 where
  pub spec : SamplerSpec
  pub columns : List SamplerColumn

module _ {nlib : Nlib} {D : Double} (P : Instances nlib D) where
  -- `instances_` with `offsets_`, `values_` and `values_fresh_`
  pub record Cache : Type 0 where
    pub instances : List (Instances.Instance P)
    pub offsets : List ℕ
    pub values : List (V D)
    pub fresh : Bool

  pub record Engine : Type 0 where
    pub cache : Cache
    pub samplers : List (Sampler D)

  -- the first loop of FeatureEngine::FeatureEngine: the instances, the offset of each, and the
  -- number of values
  unfoldable pub instances_from :
      List (Instances.Plugin P) → Instrument → ℕ → List (Instances.Instance P) × List ℕ × ℕ
  instances_from [] spec size = ([], [], size)
  instances_from (p ∷ ps) spec size =
      let (is, os, total) = instances_from ps spec (size + P.schema_ncol p) in
      (P.create p spec ∷ is, size ∷ os, total)

  -- the second loop
  unfoldable pub samplers_from : List SamplerTemplate → Bool → ℕ → ℕ → List (Sampler D)
  samplers_from [] sink i id = []
  samplers_from (t ∷ ts) sink i id =
      new_sampler D t.spec t.columns sink (i % 2 ^ 32) id ∷ samplers_from ts sink (suc i) id

  -- FeatureEngine::FeatureEngine
  unfoldable pub new_engine :
      List (Instances.Plugin P) → List SamplerTemplate → Instrument → Bool → Engine
  new_engine plugins templates spec sink =
      let (is, os, total) = instances_from plugins spec 0 in
      record {
        cache = record {
          instances = is;
          offsets = os;
          values = replicate total (Double.zero D);
          fresh = false;
        };
        samplers = samplers_from templates sink 0 spec.id;
      }

  -- the write of a span of the values, from `off` on
  unfoldable pub write_at : List (V D) → ℕ → List (V D) → List (V D)
  write_at values off row = take off values ++ (row ++ drop (off + length row) values)

  -- the loop of ReadAll
  unfoldable pub read_each :
      Book nlib
      → List (Instances.Instance P)
      → List ℕ
      → List (V D)
      → List (Instances.Instance P) × List (V D)
  read_each b [] offs values = ([], values)
  read_each b (i ∷ is) [] values = (i ∷ is, values)
  read_each b (i ∷ is) (off ∷ offs) values =
      let (row, i') = P.read i b in
      let (is', values') = read_each b is offs (write_at values off row) in (i' ∷ is', values')

  -- FeatureEngine::ReadAll
  unfoldable pub read_all : Book nlib → Cache → List (V D) × Cache
  read_all b c =
      let (is, values) = read_each b c.instances c.offsets c.values in
      if c.fresh
      then (c.values, c)
      else (values, record c { instances = is; values = values; fresh = true })

  -- a loop over the samplers, which share the cache
  unfoldable pub each_sampler :
      (Sampler D → Cache → Option (Sampler D × Cache))
      → List (Sampler D)
      → Cache
      → Option (List (Sampler D) × Cache)
  each_sampler f [] c = some ([], c)
  each_sampler f (s ∷ ss) c = do
    (s', c1) ← f s c
    (ss', c2) ← each_sampler f ss c1
    some (s' ∷ ss', c2)

  unfoldable pub on_samplers :
      (Sampler D → Cache → Option (Sampler D × Cache)) → Engine → Option Engine
  on_samplers f e = do
    (ss, c) ← each_sampler f e.samplers e.cache
    some (record { cache = c; samplers = ss })

  -- FeatureEngine::Advance
  unfoldable pub engine_advance : Book nlib → ℤ → Engine → Option Engine
  engine_advance b ts e = on_samplers (λ s c. advance D (read_all b) s ts c) e

  -- FeatureEngine::Close
  unfoldable pub engine_close : Book nlib → Engine → Option Engine
  engine_close b e = on_samplers (λ s c. close D (read_all b) s c) e

  -- `if (s->OnEvent(m.ts, m.action)) s->Emit(m.ts, ReadAll())`
  unfoldable pub sample_event : Book nlib → Mbo → Sampler D → Cache → Option (Sampler D × Cache)
  sample_event b m s c =
      let (due, s') = sampler_event D s m.ts m.action in
      let (values, c') = read_all b c in
      if due then (do s'' ← emit D s' m.ts values; some (s'', c')) else some (s', c)

  abbrev pub event_of : Mbo → ℤ → Event
  event_of m filled = record {
    ts = m.ts;
    id = m.id;
    price = m.price;
    qty = m.qty;
    filled = filled;
    side = m.side;
    action = m.action;
  }

  -- the part of OnEvent before the samplers: a clear resets the plugins and the baselines
  unfoldable pub tell : Book nlib → Mbo → ℤ → Engine → Engine
  tell b m filled e =
      let told =
        map (λ (i : Instances.Instance P). P.on_event i (event_of m filled) b) e.cache.instances in
      if m.action == clear
      then record {
        cache = record e.cache {
          instances =
              map
                (λ (i : Instances.Instance P).
                  P.on_control i (record { kind = control_reset; ts = m.ts }))
                e.cache.instances;
          fresh = false;
        };
        samplers = map (reset_baseline D) e.samplers;
      }
      else record e { cache = record e.cache { instances = told; fresh = false } }

  -- FeatureEngine::OnEvent
  unfoldable pub engine_event : Book nlib → Mbo → ℤ → Engine → Option Engine
  engine_event b m filled e = on_samplers (sample_event b m) (tell b m filled e)

-- ===== src/Feature/EngineInvariant.antt =====
-- ReadAll, Advance and Close of the engine return, and keep its values, its instances and its samplers
-- in step.
use nqbook.Prelude.{
  ℕ, ◌≡◌, refl, sym, subst, true, List, [], ◌∷◌, Option, some, length, map, arith, Bool-cases, inl,
  inr,
}
use nqbook.Prelude.Int.{ℤ}
use nqbook.Nlib.{Nlib}
use nqbook.Orderbook.Book.{Book}
use nqbook.Feature.Double.{Double}
use nqbook.Feature.Instances.{Instances}
use nqbook.Feature.Sampler.{Sampler, advance, close}
use nqbook.Feature.Emission.{Ready}
use nqbook.Feature.Returning.{Returns, advance-Returns, close-Returns}
use nqbook.Feature.Engine.{
  Cache, Engine, read_all, each_sampler, on_samplers, engine_advance, engine_close,
}
use nqbook.Feature.ReadLayout.{Laid, after, all_read, map-Laid, length-all_read, read_each_lem}

module _ {nlib : Nlib} {D : Double} (P : Instances nlib D) where
  -- The instances lie behind one another on `n` values, and where the values are marked as fresh, they
  -- are what the instances gave at a read of this book.
  pub record CacheOk (b : Book nlib) (c : Cache P) (n : ℕ) : Type 0 where
    pub width : length c.values ≡ n
    pub laid : Laid P c.instances c.offsets 0 n
    pub held :
        c.fresh ≡ true
        → (before : List (Instances.Instance P)) × (c.instances ≡ map (after P b) before)
          × (c.values ≡ all_read P b before)

  abbrev pub AllReady : List (Sampler D) → ℕ → Type 0
  AllReady [] n = Unit {0}
  AllReady (s ∷ ss) n = Ready s n × AllReady ss n

  pub record EngineOk (b : Book nlib) (e : Engine P) (n : ℕ) : Type 0 where
    pub cached : CacheOk b e.cache n
    pub ready : AllReady e.samplers n

  pub read_all-CacheOk :
      (b : Book nlib) (c : Cache P) (n : ℕ)
      → CacheOk b c n
      → (length (read_all P b c).0 ≡ n) × CacheOk b (read_all P b c).1 n
  unfolding read_all
  read_all-CacheOk b c n k = elim (Bool-cases c.fresh) [
    | inl f ↦ rw f (k.width, record { width = k.width; laid = k.laid; held = λ _. k.held f })
    | inr f ↦
        let result = read_each_lem P b c.instances c.offsets c.values 0 n k.width k.laid in
        let width : length (all_read P b c.instances) ≡ n =
          omega (arith, length-all_read P b c.instances c.offsets 0 n k.laid) in
        rw (f, result)
          (
            width,
            record {
              width = width;
              laid = map-Laid P (after P b) c.instances c.offsets 0 n (λ i. P.ncol-read i b) k.laid;
              held = λ _. (c.instances, refl, refl);
            },
          )
  ]

  -- What a step of a sampler on the cache leaves.
  Keeps : Book nlib → (Sampler D → Cache P → Option (Sampler D × Cache P)) → ℕ → Type 0
  Keeps b f n =
      (s : Sampler D) (c : Cache P)
      → Ready s n
      → CacheOk b c n
      → (s' : Sampler D) × (c' : Cache P) × (f s c ≡ some (s', c')) × Ready s' n × CacheOk b c' n

  Returns-Keeps :
      (b : Book nlib) (n : ℕ) (s : Sampler D) (c : Cache P) (res : Option (Sampler D × Cache P))
      → CacheOk b c n
      → Returns (read_all P b) n s c res
      → (s' : Sampler D) × (c' : Cache P) × (res ≡ some (s', c')) × Ready s' n × CacheOk b c' n
  Returns-Keeps b n s c res k r = (
    r.sampler,
    r.state,
    r.result,
    r.ready,
    elim r.read_once [
      | inl e ↦ subst (λ (c : Cache P). CacheOk b c n) (sym e) k
      | inr e ↦ subst (λ (c : Cache P). CacheOk b c n) (sym e) (read_all-CacheOk b c n k).1
    ],
  )

  each_sampler-Keeps :
      (b : Book nlib) (f : Sampler D → Cache P → Option (Sampler D × Cache P)) (n : ℕ)
      → Keeps b f n
      → (ss : List (Sampler D)) (c : Cache P) → AllReady ss n
      → CacheOk b c n
      → (ss' : List (Sampler D)) × (c' : Cache P) × (each_sampler P f ss c ≡ some (ss', c'))
        × AllReady ss' n
        × CacheOk b c' n
  unfolding each_sampler Keeps
  each_sampler-Keeps b f n step [] c k ok = ([], c, refl, tt, ok)
  each_sampler-Keeps b f n step (s ∷ ss) c (r, k) ok =
      let (s', c1, e, r', ok1) = step s c r ok in
      let (ss', c2, es, k', ok2) = each_sampler-Keeps b f n step ss c1 k ok1 in
      (s' ∷ ss', c2, rw (e, es) refl, (r', k'), ok2)

  on_samplers-Keeps :
      (b : Book nlib) (f : Sampler D → Cache P → Option (Sampler D × Cache P)) (n : ℕ)
      → Keeps b f n
      → (e : Engine P) → EngineOk b e n
      → (e' : Engine P) × (on_samplers P f e ≡ some e') × EngineOk b e' n
  unfolding on_samplers
  on_samplers-Keeps b f n step e k =
      let (ss, c, result, ready, cached) =
        each_sampler-Keeps b f n step e.samplers e.cache k.ready k.cached in
      (
        record { cache = c; samplers = ss },
        rw result refl,
        record { cached = cached; ready = ready },
      )

  -- On an engine in step, Advance returns, and leaves such an engine.
  pub engine_advance-EngineOk :
      (b : Book nlib) (ts : ℤ) (e : Engine P) (n : ℕ)
      → EngineOk b e n
      → (e' : Engine P) × (engine_advance P b ts e ≡ some e') × EngineOk b e' n
  unfolding engine_advance Keeps
  engine_advance-EngineOk b ts e n k =
      on_samplers-Keeps b (λ s c. advance D (read_all P b) s ts c) n
        (λ s c r ok.
          Returns-Keeps b n s c _ ok
            (advance-Returns (read_all P b) n s r c (read_all-CacheOk b c n ok).0 ts))
        e k

  -- On an engine in step, Close returns, and leaves such an engine.
  pub engine_close-EngineOk :
      (b : Book nlib) (e : Engine P) (n : ℕ)
      → EngineOk b e n
      → (e' : Engine P) × (engine_close P b e ≡ some e') × EngineOk b e' n
  unfolding engine_close Keeps
  engine_close-EngineOk b e n k =
      on_samplers-Keeps b (λ s c. close D (read_all P b) s c) n
        (λ s c r ok.
          Returns-Keeps b n s c _ ok
            (close-Returns (read_all P b) n s r c (read_all-CacheOk b c n ok).0))
        e k

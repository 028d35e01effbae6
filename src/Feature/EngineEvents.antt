-- ===== src/Feature/EngineEvents.antt =====
-- OnEvent of the engine: what the instances are told, and which values the samplers take.
use mathlib.Core.Option
use mathlib.Core.Path.{ap₂}
use nqbook.Prelude.{
  ℕ, ◌≡◌, refl, sym, ap, ◌∙◌, subst, ◌⊎◌, true, false, List, [], ◌∷◌, Option, some, map, ◌==◌,
  if◌then◌else◌, Bool-cases, Option-cases, inl, inr,
}
use nqbook.Prelude.Int.{ℤ}
use nqbook.Abi.{Mbo, clear}
use nqbook.Nlib.{Nlib}
use nqbook.Orderbook.Book.{Book}
use nqbook.Feature.Double.{Double}
use nqbook.Feature.Instances.{control_reset, Instances}
use nqbook.Feature.Sampler.{Sampler, V, emit, sampler_event, reset_baseline}
use nqbook.Feature.Emission.{Ready, reset_baseline-Ready}
use nqbook.Feature.Returning.{event-Returns}
use nqbook.Feature.Engine.{
  Cache, Engine, read_all, each_sampler, on_samplers, sample_event, event_of, tell, engine_event,
}
use nqbook.Feature.EngineInvariant.{CacheOk, AllReady, EngineOk, read_all-CacheOk}
use nqbook.Feature.ReadLayout.{after, all_read, map-Laid, read_each_lem}

module _ {nlib : Nlib} {D : Double} (P : Instances nlib D) (b : Book nlib) (m : Mbo) where
  -- an instance that is told of the event: of a reset, where it is a clear
  abbrev pub told : ℤ → Instances.Instance P → Instances.Instance P
  told filled i =
      if m.action == clear
      then P.on_control i (record { kind = control_reset; ts = m.ts })
      else P.on_event i (event_of P m filled) b

  -- a sampler as the event finds it: without a baseline, where it is a clear
  abbrev pub found : Sampler D → Sampler D
  found s = if m.action == clear then reset_baseline D s else s

  -- what a sampler does at the event, on the values `values`
  unfoldable pub sample_values : List (V D) → Sampler D → Option (Sampler D)
  sample_values values s =
      let (due, s') = sampler_event D s m.ts m.action in
      if due then emit D s' m.ts values else some s'

  -- every sampler, as the event finds it, has done that
  abbrev pub Sampled : List (V D) → List (Sampler D) → List (Sampler D) → Type 0
  Sampled values [] [] = Unit {0}
  Sampled values [] (s' ∷ ss') = ⊥
  Sampled values (s ∷ ss) [] = ⊥
  Sampled values (s ∷ ss) (s' ∷ ss') = (sample_values values s ≡ some s') × Sampled values ss ss'

  -- The instances have been told. They have been read as well, each once, if the values are fresh.
  pub Told : ℤ → Cache P → Cache P → Type 0
  Told filled c c' =
      let is : List (Instances.Instance P) = map (told filled) c.instances in
      ((c'.instances ≡ is) × (c'.fresh ≡ false))
      ⊎ ((c'.instances ≡ map (after P b) is) × (c'.values ≡ all_read P b is) × (c'.fresh ≡ true))

  map_same : {A : Type 0} (f g : A → A) (xs : List A) → ((x : A) → f x ≡ g x) → map f xs ≡ map g xs
  map_same f g [] h = refl
  map_same f g (x ∷ xs) h = ap₂ ◌∷◌ (h x) (map_same f g xs h)

  map_id : {A : Type 0} (f : A → A) (xs : List A) → ((x : A) → f x ≡ x) → map f xs ≡ xs
  map_id f [] h = refl
  map_id f (x ∷ xs) h = ap₂ ◌∷◌ (h x) (map_id f xs h)

  found-Ready : (s : Sampler D) (n : ℕ) → Ready s n → Ready (found s) n
  found-Ready s n k = elim (Bool-cases (m.action == clear)) [
    | inl t ↦ rw t (reset_baseline-Ready s n k)
    | inr f ↦ rw f k
  ]

  found-AllReady : (ss : List (Sampler D)) (n : ℕ) → AllReady P ss n → AllReady P (map found ss) n
  found-AllReady [] n k = tt
  found-AllReady (s ∷ ss) n (r, k) = (found-Ready s n r, found-AllReady ss n k)

  ncol-told : (filled : ℤ) (i : Instances.Instance P) → P.ncol (told filled i) ≡ P.ncol i
  ncol-told filled i = elim (Bool-cases (m.action == clear)) [
    | inl t ↦ rw t (P.ncol-on_control i _)
    | inr f ↦ rw f (P.ncol-on_event i _ b)
  ]

  -- the engine with these instances, not fresh, and these samplers
  abbrev made : Engine P → List (Instances.Instance P) → List (Sampler D) → Engine P
  made e is ss = record { cache = record e.cache { instances = is; fresh = false }; samplers = ss }

  abbrev telling : ℤ → Engine P → Engine P
  telling filled e = made e (map (told filled) e.cache.instances) (map found e.samplers)

  tell_lem : (filled : ℤ) (e : Engine P) → tell P b m filled e ≡ telling filled e
  unfolding tell
  tell_lem filled e = elim (Bool-cases (m.action == clear)) [
    | inl t ↦ rw t (
        ap₂ (made e) (sym (map_same (told filled) _ e.cache.instances (λ i. rw t refl)))
          (sym (map_same found (reset_baseline D) e.samplers (λ s. rw t refl))))
    | inr f ↦ rw f (
        ap₂ (made e) (sym (map_same (told filled) _ e.cache.instances (λ i. rw f refl)))
          (sym (map_id found e.samplers (λ s. rw f refl))))
  ]

  telling-CacheOk :
      (b0 : Book nlib) (filled : ℤ) (e : Engine P) (n : ℕ)
      → CacheOk P b0 e.cache n
      → CacheOk P b (telling filled e).cache n
  telling-CacheOk b0 filled e n k = record {
    width = k.width;
    laid = map-Laid P (told filled) e.cache.instances e.cache.offsets 0 n (ncol-told filled) k.laid;
    held = λ h. cc;
  }

  module _ (c : Cache P) (n : ℕ) (ok : CacheOk P b c n) (stale : c.fresh ≡ false) where
    -- the cache behind the read
    abbrev taken : Cache P
    taken = record c {
      instances = map (after P b) c.instances;
      values = all_read P b c.instances;
      fresh = true;
    }

    abbrev Settled : Cache P → Type 0
    Settled x = (x ≡ c) ⊎ (x ≡ taken)

    read_all_once : (x : Cache P) → Settled x → read_all P b x ≡ (all_read P b c.instances, taken)
    unfolding read_all
    read_all_once x (inl e) =
        let result = read_each_lem P b c.instances c.offsets c.values 0 n ok.width ok.laid in
        rw (e, stale, result) refl
    read_all_once x (inr e) = rw e refl

    Settled-CacheOk : (x : Cache P) → Settled x → CacheOk P b x n
    Settled-CacheOk x (inl e) = subst (λ (x : Cache P). CacheOk P b x n) (sym e) ok
    Settled-CacheOk x (inr e) =
        subst (λ (x : Cache P). CacheOk P b x n)
          (ap (λ (r : List (V D) × Cache P). r.1) (read_all_once c (inl refl)) ∙ sym e)
          (read_all-CacheOk P b c n ok).1

    sample_event_values :
        (s s' : Sampler D) (x x' : Cache P)
        → Settled x
        → sample_event P b m s x ≡ some (s', x')
        → sample_values (all_read P b c.instances) s ≡ some s'
    unfolding sample_event sample_values
    sample_event_values s s' x x' k h =
        let read = read_all_once x k in
        elim (Bool-cases (sampler_event D s m.ts m.action).0) [
          | inl due ↦
              elim (Option-cases
                (emit D (sampler_event D s m.ts m.action).1 m.ts (all_read P b c.instances))) [
                  | inl none_given ↦ absurd (cc (rw (due, read, none_given) at h))
                  | inr (t, given) ↦
                      rw (due, given)
                        (ap
                          (λ (r : Option (Sampler D × Cache P)).
                            Option.map (λ (r : Sampler D × Cache P). r.0) r)
                          (rw (due, read, given) at h))
                ]
          | inr idle ↦ rw idle (
              ap
                (λ (r : Option (Sampler D × Cache P)).
                  Option.map (λ (r : Sampler D × Cache P). r.0) r)
                (rw idle at h))
        ]

    each_sampler-Sampled :
        (ss : List (Sampler D)) (x : Cache P)
        → AllReady P ss n
        → Settled x
        → (ss' : List (Sampler D)) × (x' : Cache P) × (each_sampler P (sample_event P b m) ss x
            ≡ some (ss', x'))
          × AllReady P ss' n
          × Sampled (all_read P b c.instances) ss ss'
          × Settled x'
    unfolding each_sampler sample_event
    each_sampler-Sampled [] x k settled = ([], x, refl, tt, tt, settled)
    each_sampler-Sampled (s ∷ ss) x (r, k) settled =
        let width = (read_all-CacheOk P b x n (Settled-CacheOk x settled)).0 in
        let one = event-Returns (read_all P b) n s r x width m.ts m.action in
        let next : Settled one.state = elim one.read_once [
          | inl e ↦ subst Settled (sym e) settled
          | inr e ↦ inr (e ∙ ap (λ (r : List (V D) × Cache P). r.1) (read_all_once x settled))
        ] in
        let (ss', x', rest, ready, sampled, last) = each_sampler-Sampled ss one.state k next in
        (
          one.sampler ∷ ss',
          x',
          rw (one.result, rest) refl,
          (one.ready, ready),
          (sample_event_values s one.sampler x one.state settled one.result, sampled),
          last,
        )

  -- On an engine in step, on any book `b0` before the event, OnEvent returns. It leaves an engine in
  -- step on the book `b` behind the event: the values are not marked as fresh unless they were read of
  -- `b`. Every instance is told of the event, of a reset where it is a clear, and then read once or not
  -- at all. Every sampler, without its baseline where it is a clear, does what the event makes of it
  -- on the values that those instances give on `b`.
  pub engine_event-EngineOk :
      (b0 : Book nlib) (filled : ℤ) (e : Engine P) (n : ℕ)
      → EngineOk P b0 e n
      → (e' : Engine P) × (engine_event P b m filled e ≡ some e')
        × EngineOk P b e' n
        × Told filled e.cache e'.cache
        × Sampled
            (all_read P b (map (told filled) e.cache.instances))
            (map found e.samplers)
            e'.samplers
  unfolding engine_event on_samplers Told
  engine_event-EngineOk b0 filled e n k =
      let t : Engine P = telling filled e in
      let ok = telling-CacheOk b0 filled e n k.cached in
      let (ss, x, result, ready, sampled, settled) =
        each_sampler-Sampled t.cache n ok refl t.samplers t.cache
          (found-AllReady e.samplers n k.ready) (inl refl) in
      (
        record { cache = x; samplers = ss },
        rw (tell_lem filled e, result) refl,
        record { cached = Settled-CacheOk t.cache n ok refl x settled; ready = ready },
        elim settled [
          | inl same ↦ inl (rw same refl, rw same refl)
          | inr same ↦ inr (rw same refl, rw same refl, rw same refl)
        ],
        sampled,
      )

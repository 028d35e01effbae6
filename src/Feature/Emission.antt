-- ===== src/Feature/Emission.antt =====
-- Emit on a sampler whose columns are in range: it returns, and appends one row.
use nqbook.Prelude.{
  ℕ, zero, suc, ◌<◌, ◌≡◌, refl, ap, ◌∙◌, Bool, false, List, [], ◌∷◌, ◌++◌, Option, some, get_elem?,
  length, map, length-replicate, length-map, ◌==◌, if◌then◌else◌, arith, Bool-cases, inl, inr,
}
use nqbook.Prelude.Int.{ℤ, pos, ◌<ℤ◌}
use nqbook.Feature.Double.{Double}
use nqbook.Feature.RowBuffer.{push_row}
use nqbook.Feature.Sampler.{
  SamplerColumn, SamplerSpec, Sampler, FeatureRow, V, row_of, feature_row, emit, new_sampler,
  reset_baseline,
}

-- every column reads inside `n` values
abbrev pub InRange : List SamplerColumn → ℕ → Type 0
InRange [] n = Unit {0}
InRange (c ∷ cs) n = (c.index < n) × InRange cs n

get_elem?_in :
    {A : Type 0} (vs : List A) (i : ℕ) → i < length vs → (v : A) × (get_elem? vs i ≡ some v)
get_elem?_in [] i lt = absurd (omega arith)
get_elem?_in (v ∷ vs) zero lt = (v, refl)
get_elem?_in (v ∷ vs) (suc i) lt = get_elem?_in vs i (omega arith)

module _ (D : Double) where
  row_of_total :
      (cs : List SamplerColumn) (values last : List (V D))
      → InRange cs (length values)
      → length last ≡ length cs
      → (row : List (V D)) × (last' : List (V D)) × (row_of D cs values last ≡ some (row, last'))
        × (length row ≡ length cs)
        × (length last' ≡ length cs)
  unfolding row_of
  row_of_total [] values last k e = ([], last, refl, refl, e)
  row_of_total (c ∷ cs) values [] k e = absurd (omega (arith, e))
  row_of_total (c ∷ cs) values (l ∷ ls) (i, k) e =
      let (v, found) = get_elem?_in values c.index i in
      let (row, last, result, width, rest) = row_of_total cs values ls k (omega (arith, e)) in
      elim (Bool-cases (c.kind == 1)) [
        | inl t ↦ (
          Double.minus D v l ∷ row,
          v ∷ last,
          rw (found, result, t) refl,
          ap suc width,
          ap suc rest,
        )
        | inr f ↦ (v ∷ row, l ∷ last, rw (found, result, f) refl, ap suc width, ap suc rest)
      ]

module _ {D : Double} where
  -- What AddSampler and the constructor give a sampler, on `n` values: columns in range, a baseline
  -- for each, a positive period.
  pub record Ready (s : Sampler D) (n : ℕ) : Type 0 where
    pub in_range : InRange s.columns n
    pub baseline : length s.last ≡ length s.columns
    pub positive : pos 0 <ℤ s.spec.every

  pub new_sampler-Ready :
      (spec : SamplerSpec) (columns : List SamplerColumn) (sink : Bool) (index instrument n : ℕ)
      → InRange columns n
      → pos 0 <ℤ spec.every
      → Ready (new_sampler D spec columns sink index instrument) n
  unfolding new_sampler
  new_sampler-Ready spec columns sink index instrument n k positive = record {
    in_range = k;
    baseline = length-replicate (length columns) (Double.zero D);
    positive = positive;
  }

  pub reset_baseline-Ready : (s : Sampler D) (n : ℕ) → Ready s n → Ready (reset_baseline D s) n
  unfolding reset_baseline
  reset_baseline-Ready s n k = record {
    in_range = k.in_range;
    baseline = length-map s.last (λ (v : V D). Double.zero D) ∙ k.baseline;
    positive = k.positive;
  }

  -- the times of the rows that a sampler has given, to the sink or to its buffer
  unfoldable pub times : Sampler D → List ℤ
  times s = if s.has_sink then map (λ (r : FeatureRow D). FeatureRow.ts r) s.sunk else s.rows.ts

  map-append :
      (rs : List (FeatureRow D)) (r : FeatureRow D)
      → map (λ (r : FeatureRow D). FeatureRow.ts r) (rs ++ r ∷ [])
        ≡ map (λ (r : FeatureRow D). FeatureRow.ts r) rs ++ FeatureRow.ts r ∷ []
  map-append [] r = refl
  map-append (q ∷ rs) r = ap (λ (l : List ℤ). FeatureRow.ts q ∷ l) (map-append rs r)

  -- An emission: one row at `ts`, and the rest of the sampler but its baseline as it was.
  pub record Emits (s : Sampler D) (n : ℕ) (ts : ℤ) (res : Option (Sampler D)) : Type 0 where
    pub sampler : Sampler D
    pub result : res ≡ some sampler
    pub ready : Ready sampler n
    pub spec : sampler.spec ≡ s.spec
    pub next : sampler.next ≡ s.next
    pub started : sampler.started ≡ s.started
    pub dirty : sampler.dirty ≡ false
    pub given : times sampler ≡ times s ++ ts ∷ []

  given_times :
      (s : Sampler D) (ts : ℤ) (row last : List (V D))
      → times (record s {
        last = last;
        sunk = if s.has_sink then s.sunk ++ feature_row D s ts row ∷ [] else s.sunk;
        rows = if s.has_sink then s.rows else push_row s.rows ts row;
        dirty = false;
      })
        ≡ times s ++ ts ∷ []
  unfolding times feature_row push_row
  given_times s ts row last = elim (Bool-cases s.has_sink) [
    | inl t ↦ rw t (map-append s.sunk (feature_row D s ts row))
    | inr f ↦ rw f refl
  ]

  pub emit-Emits :
      (s : Sampler D) (ts : ℤ) (values : List (V D))
      → Ready s (length values)
      → Emits s (length values) ts (emit D s ts values)
  unfolding emit
  emit-Emits s ts values k =
      let (row, last, result, width, rest) =
        row_of_total D s.columns values s.last k.in_range k.baseline in
      let s' : Sampler D = record s {
        last = last;
        sunk = if s.has_sink then s.sunk ++ feature_row D s ts row ∷ [] else s.sunk;
        rows = if s.has_sink then s.rows else push_row s.rows ts row;
        dirty = false;
      } in
      record {
        sampler = s';
        result = rw result refl;
        ready = record { in_range = k.in_range; baseline = rest; positive = k.positive };
        spec = refl;
        next = refl;
        started = refl;
        dirty = refl;
        given = given_times s ts row last;
      }

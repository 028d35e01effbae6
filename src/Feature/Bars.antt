-- ===== src/Feature/Bars.antt =====
-- Advance on the grid of the bars: the ends of bars are multiples of the interval, each is given
-- once, and the sampler stays ahead of the time.
use nqbook.Prelude.{
  ℕ, zero, suc, ◌+◌, ◌*◌, ◌/◌, ◌≡◌, refl, sym, ap, ◌∙◌, subst, true, false, List, [], ◌∷◌, ◌++◌,
  Option, some, length, arith, Bool-cases, ◌⊎◌, inl, inr,
}
use nqbook.Prelude.Int.{
  ℤ, pos, negsuc, ◌+ℤ◌, ◌*ℤ◌, ◌<ℤ◌, ◌≤ℤ◌, quot_ℕ, leb_ℤ, leb_ℤ→le, leb_ℤ→gt, int_laws,
}
use native.Mathlib.Nat.{lt-div-mul-add, div-mul-le_self}
use nqbook.Feature.Double.{Double}
use nqbook.Feature.Sampler.{SamplerSpec, Sampler, V, quot, bar_end, fill_gap}
use nqbook.Feature.Emission.{Ready, emit-Emits, times}

bar_end_at : (t e : ℕ) → bar_end (pos t) (pos e) ≡ pos ((t / e + 1) * e)
unfolding bar_end quot quot_ℕ ◌+ℤ◌ ◌*ℤ◌
bar_end_at t e = ground arith

one_more : (a e : ℕ) → (a + 1) * e ≡ a * e + e
one_more a e = omega arith

pub times_pos : (a e : ℕ) → pos (a * e) ≡ pos a *ℤ pos e
unfolding ◌*ℤ◌
times_pos a e = ground arith

-- At a time that is not negative, the end of the bar is behind the time, by at most the interval,
-- and a multiple of the interval.
pub bar_end-bounds :
    (ts interval : ℤ)
    → pos 0 ≤ℤ ts
    → pos 0 <ℤ interval
    → (ts <ℤ bar_end ts interval)
      × (bar_end ts interval ≤ℤ ts +ℤ interval)
      × ((k : ℕ) × (bar_end ts interval ≡ pos k *ℤ interval))
bar_end-bounds (negsuc t) interval h g = absurd (omega arith)
bar_end-bounds (pos t) (negsuc e) h g = absurd (omega arith)
bar_end-bounds (pos t) (pos e) h g =
    let over = lt-div-mul-add {a = t} {b = e} (omega arith) in
    let under = div-mul-le_self t e in
    let split = one_more (t / e) e in
    rw (bar_end_at t e) (omega arith, omega int_laws, (t / e + 1, times_pos (t / e + 1) e))

-- `k` ends of bars, from `t`
unfoldable pub grid : ℤ → ℤ → ℕ → List ℤ
grid t e zero = []
grid t e (suc k) = t ∷ grid (t +ℤ e) e k

pub suc_times : (a : ℕ) (e : ℤ) → pos 0 <ℤ e → pos (suc a) *ℤ e ≡ e +ℤ pos a *ℤ e
unfolding ◌*ℤ◌ ◌+ℤ◌
suc_times a (pos e) h = ground arith
suc_times a (negsuc e) h = absurd (omega arith)

pub zero_times : (e : ℤ) → pos 0 *ℤ e ≡ pos 0
unfolding ◌*ℤ◌
zero_times e = ground arith

pub append-nil : {A : Type 0} (xs : List A) → xs ++ [] ≡ xs
append-nil [] = refl
append-nil {A} (x ∷ xs) = ap (λ (l : List A). x ∷ l) (append-nil xs)

append_assoc : {A : Type 0} (xs ys zs : List A) → (xs ++ ys) ++ zs ≡ xs ++ (ys ++ zs)
append_assoc [] ys zs = refl
append_assoc {A} (x ∷ xs) ys zs = ap (λ (l : List A). x ∷ l) (append_assoc xs ys zs)

pub grid-zero : (t e : ℤ) → grid t e 0 ≡ []
unfolding grid
grid-zero t e = refl

grid_behind :
    (xs : List ℤ) (t e : ℤ) (k : ℕ) → (xs ++ t ∷ []) ++ grid (t +ℤ e) e k ≡ xs ++ grid t e (suc k)
unfolding grid
grid_behind xs t e k = append_assoc xs (t ∷ []) (grid (t +ℤ e) e k)

module _ {D : Double} where
  pub times-next : (s : Sampler D) (t : ℤ) → times (record s { next = t }) ≡ times s
  unfolding times
  times-next s t = refl

  -- The sampler gave the `bars` ends of bars from its next one, and is ahead of the time.
  pub record Filled (s : Sampler D) (ts : ℤ) (n : ℕ) (res : Option (Sampler D)) : Type 0 where
    pub sampler : Sampler D
    pub bars : ℕ
    pub result : res ≡ some sampler
    pub ready : Ready sampler n
    pub spec : sampler.spec ≡ s.spec
    pub started : sampler.started ≡ s.started
    pub given : times sampler ≡ times s ++ grid s.next s.spec.every bars
    pub next : sampler.next ≡ s.next +ℤ pos bars *ℤ s.spec.every
    pub ahead : ts <ℤ sampler.next
    pub near : (bars ≡ 0) ⊎ (sampler.next ≤ℤ ts +ℤ s.spec.every)

  module _ (ts : ℤ) (values : List (V D)) where
    fill_stops :
        (k : ℕ) (s : Sampler D)
        → Ready s (length values)
        → leb_ℤ s.next ts ≡ false
        → Filled s ts (length values) (fill_gap D (suc k) s ts values)
    unfolding fill_gap grid
    fill_stops k s ready past = record {
      sampler = s;
      bars = 0;
      result = rw past refl;
      ready = ready;
      spec = refl;
      started = refl;
      given = sym (append-nil (times s));
      next = rw (zero_times s.spec.every) (omega int_laws);
      ahead = leb_ℤ→gt s.next ts past;
      near = inl refl;
    }

    -- The rounds behind the first one.
    Filled-behind :
        (s s1 : Sampler D) (res : Option (Sampler D))
        → pos 0 <ℤ s.spec.every
        → leb_ℤ s.next ts ≡ true
        → s1.spec ≡ s.spec
        → s1.started ≡ s.started
        → times s1 ≡ times s ++ s.next ∷ []
        → s1.next ≡ s.next +ℤ s.spec.every
        → Filled s1 ts (length values) res
        → Filled s ts (length values) res
    Filled-behind s s1 res positive due spec started given moved r = record {
      sampler = r.sampler;
      bars = suc r.bars;
      result = r.result;
      ready = r.ready;
      spec = r.spec ∙ spec;
      started = r.started ∙ started;
      given = r.given ∙ rw (given, moved, spec) (grid_behind (times s) s.next s.spec.every r.bars);
      next = r.next ∙ rw (moved, spec, suc_times r.bars s.spec.every positive) (omega int_laws);
      ahead = r.ahead;
      near = inr (elim r.near [
        | inl none_more ↦
            rw (r.next, none_more, zero_times s1.spec.every, moved)
              (omega (int_laws, leb_ℤ→le s.next ts due))
        | inr close ↦ subst (λ (p : SamplerSpec). r.sampler.next ≤ℤ ts +ℤ p.every) spec close
      ]);
    }

    fill_round :
        (k : ℕ) (s : Sampler D)
        → Ready s (length values)
        → leb_ℤ s.next ts ≡ true
        → ((s1 : Sampler D)
            → Ready s1 (length values)
            → s1.spec ≡ s.spec
            → s1.next ≡ s.next +ℤ s.spec.every
            → Filled s1 ts (length values) (fill_gap D k s1 ts values))
        → Filled s ts (length values) (fill_gap D (suc k) s ts values)
    unfolding fill_gap
    fill_round k s ready due rest =
        let em = emit-Emits s s.next values ready in
        let s1 : Sampler D = record em.sampler {
          next = em.sampler.next +ℤ em.sampler.spec.every;
        } in
        let moved : s1.next ≡ s.next +ℤ s.spec.every = rw (em.next, em.spec) refl in
        let r =
          rest s1
            (record {
              in_range = em.ready.in_range;
              baseline = em.ready.baseline;
              positive = em.ready.positive;
            })
            em.spec moved in
        rw (due, em.result)
          (Filled-behind s s1 _ ready.positive due em.spec em.started
            (times-next em.sampler s1.next ∙ em.given) moved r)

    -- With a round for each end of a bar up to the time, the loop ends ahead of the time.
    pub fill_gap-Filled :
        (k : ℕ) (s : Sampler D)
        → Ready s (length values)
        → ts <ℤ s.next +ℤ pos k *ℤ s.spec.every
        → Filled s ts (length values) (fill_gap D (suc k) s ts values)
    fill_gap-Filled zero s ready enough = elim (Bool-cases (leb_ℤ s.next ts)) [
      | inr past ↦ fill_stops zero s ready past
      | inl due ↦
          let before : ts <ℤ s.next +ℤ pos 0 =
            subst (λ (x : ℤ). ts <ℤ s.next +ℤ x) (zero_times s.spec.every) enough in
          absurd (omega (int_laws, leb_ℤ→le s.next ts due))
    ]
    fill_gap-Filled (suc k) s ready enough = elim (Bool-cases (leb_ℤ s.next ts)) [
      | inr past ↦ fill_stops (suc k) s ready past
      | inl due ↦
          let before : ts <ℤ s.next +ℤ (s.spec.every +ℤ pos k *ℤ s.spec.every) =
            subst (λ (x : ℤ). ts <ℤ s.next +ℤ x) (suc_times k s.spec.every ready.positive) enough in
          fill_round (suc k) s ready due
            λ s1 ready1 spec moved. fill_gap-Filled k s1 ready1 (rw (moved, spec) (omega int_laws))
    ]

-- ===== src/Feature/Counting.antt =====
-- A sampler on events or trades: a row is due every `every` counted events.
use nqbook.Prelude.{
  ℕ, suc, ◌+◌, ◌≡◌, refl, sym, ap, ◌∙◌, subst, Bool, true, false, List, [], ◌∷◌, if◌then◌else◌,
  arith, Bool-cases, inl, inr, ◌==◌, ◌⊎◌,
}
use nqbook.Prelude.Int.{
  ℤ, pos_part, neg_part, pos, ◌+ℤ◌, ◌*ℤ◌, ◌<ℤ◌, ◌≤ℤ◌, ltb_ℤ, ltb_ℤ→lt, ltb_ℤ→ge, int_laws,
}
use nqbook.Abi.{trade}
use nqbook.Feature.Double.{Double}
use nqbook.Feature.Sampler.{
  Trigger, on_time, on_events, on_trades, SamplerSpec, Sampler, sampler_event, count_event,
}
use nqbook.Feature.Bars.{zero_times, suc_times}

-- the events that a trigger counts
unfoldable pub counts : Trigger → ℕ → Bool
counts on_time a = false
counts on_events a = true
counts on_trades a = a == trade

unfoldable pub counted_events : Trigger → List (ℤ × ℕ) → ℕ
counted_events t [] = 0
counted_events t ((ts, a) ∷ ms) = let n = counted_events t ms in if counts t a then suc n else n

parts : (a b : ℤ) → a ≡ b → pos_part a + neg_part b ≡ pos_part b + neg_part a
parts a b e = rw e refl

-- the sums of one event and of the events behind it
add_up :
    (every count count1 count2 : ℤ) (due c : Bool) (n k : ℕ)
    → pos 0 <ℤ every
    → (if due then every else pos 0) +ℤ count1 ≡ count +ℤ (if c then pos 1 else pos 0)
    → pos n *ℤ every +ℤ count2 ≡ count1 +ℤ pos k
    → pos (if due then suc n else n) *ℤ every +ℤ count2 ≡ count +ℤ pos (if c then suc k else k)
add_up every count count1 count2 true true n k h e f =
    rw (suc_times n every h) (omega (int_laws, parts _ _ e, parts _ _ f))
add_up every count count1 count2 true false n k h e f =
    rw (suc_times n every h) (omega (int_laws, parts _ _ e, parts _ _ f))
add_up every count count1 count2 false true n k h e f = omega (int_laws, parts _ _ e, parts _ _ f)
add_up every count count1 count2 false false n k h e f = omega (int_laws, parts _ _ e, parts _ _ f)

pub Trigger-cases : (t : Trigger) → (t ≡ on_time) ⊎ ((t ≡ on_events) ⊎ (t ≡ on_trades))
Trigger-cases on_time = inl refl
Trigger-cases on_events = inr (inl refl)
Trigger-cases on_trades = inr (inr refl)

module _ {D : Double} where
  pub timed :
      (s : Sampler D) (ts : ℤ) (a : ℕ)
      → s.spec.trigger ≡ on_time
      → sampler_event D s ts a ≡ (false, record s { last_ts = ts; dirty = true })
  unfolding sampler_event
  timed s ts a e = simp (sampler_event, e)

  pub on_each :
      (s : Sampler D) (ts : ℤ) (a : ℕ)
      → s.spec.trigger ≡ on_events
      → sampler_event D s ts a ≡ count_event D (record s { last_ts = ts })
  unfolding sampler_event
  on_each s ts a e = simp (sampler_event, e)

  pub on_trade :
      (s : Sampler D) (ts : ℤ) (a : ℕ)
      → s.spec.trigger ≡ on_trades
      → (a == trade) ≡ true
      → sampler_event D s ts a ≡ count_event D (record s { last_ts = ts })
  unfolding sampler_event
  on_trade s ts a e t = simp (sampler_event, e, t)

  pub no_trade :
      (s : Sampler D) (ts : ℤ) (a : ℕ)
      → s.spec.trigger ≡ on_trades
      → (a == trade) ≡ false
      → sampler_event D s ts a ≡ (false, record s { last_ts = ts })
  unfolding sampler_event
  no_trade s ts a e t = simp (sampler_event, e, t)

  -- OnEvent over a feed of times and actions: the rows that were due, and the sampler
  unfoldable pub run_events : Sampler D → List (ℤ × ℕ) → ℕ × Sampler D
  run_events s [] = (0, s)
  run_events s ((ts, a) ∷ ms) =
      let (due, s') = sampler_event D s ts a in
      let (n, s'') = run_events s' ms in (if due then suc n else n, s'')

  pub record Counts (s : Sampler D) : Type 0 where
    pub low : pos 0 ≤ℤ s.count
    pub high : s.count <ℤ s.spec.every

  -- what an event does to the count, where `c` says whether it counts
  abbrev Ok : Sampler D → Bool × Sampler D → Bool → Type 0
  Ok s r c =
      Counts r.1
      × (r.1.spec ≡ s.spec)
      × ((if r.0 then s.spec.every else pos 0) +ℤ r.1.count
          ≡ s.count +ℤ (if c then pos 1 else pos 0))

  count_event-Ok :
      (s : Sampler D) (ts : ℤ) → Counts s → Ok s (count_event D (record s { last_ts = ts })) true
  unfolding count_event
  count_event-Ok s ts k = elim (Bool-cases (ltb_ℤ (s.count +ℤ pos 1) s.spec.every)) [
    | inl more ↦ rw more (
      record {
        low = let low = k.low in omega int_laws;
        high = ltb_ℤ→lt (s.count +ℤ pos 1) s.spec.every more;
      },
      refl,
      omega int_laws,
    )
    | inr full ↦
        let reached = ltb_ℤ→ge (s.count +ℤ pos 1) s.spec.every full in
        let high = k.high in
        let low = k.low in
        rw full (record { low = omega arith; high = omega int_laws }, refl, omega int_laws)
  ]

  idle-Ok :
      (s s1 : Sampler D) → s1.spec ≡ s.spec → s1.count ≡ s.count → Counts s → Ok s (false, s1) false
  idle-Ok s s1 e f k =
      (record { low = rw f k.low; high = rw (e, f) k.high }, e, rw f (omega int_laws))

  event-Ok :
      (s : Sampler D) (ts : ℤ) (a : ℕ)
      → Counts s
      → Ok s (sampler_event D s ts a) (counts s.spec.trigger a)
  unfolding counts
  event-Ok s ts a k = elim (Trigger-cases s.spec.trigger) [
    | inl e ↦
        subst2 (timed s ts a e) (ap (λ (t : Trigger). counts t a) e)
          (idle-Ok s (record s { last_ts = ts; dirty = true }) refl refl k)
    | inr (inl e) ↦
        subst2 (on_each s ts a e) (ap (λ (t : Trigger). counts t a) e) (count_event-Ok s ts k)
    | inr (inr e) ↦ elim (Bool-cases (a == trade)) [
      | inl t ↦
          subst2 (on_trade s ts a e t) (ap (λ (t : Trigger). counts t a) e ∙ t)
            (count_event-Ok s ts k)
      | inr f ↦
          subst2 (no_trade s ts a e f) (ap (λ (t : Trigger). counts t a) e ∙ f)
            (idle-Ok s (record s { last_ts = ts }) refl refl k)
    ]
  ]
    where
      subst2 : {r r' : Bool × Sampler D} {c c' : Bool} → r' ≡ r → c' ≡ c → Ok s r c → Ok s r' c'
      subst2 {r} {c'} e f ok =
          subst (λ (r : Bool × Sampler D). Ok s r c') (sym e) (subst (Ok s r) (sym f) ok)

  -- Over a feed, from a count below the period: the rows that were due, times the period, and the
  -- count that is left are the count at the start and the events of the feed that the trigger
  -- counts. The count stays below the period.
  pub run_events-Counts :
      (s : Sampler D)
      → Counts s
      → (ms : List (ℤ × ℕ))
      → (pos (run_events s ms).0 *ℤ s.spec.every +ℤ (run_events s ms).1.count
          ≡ s.count +ℤ pos (counted_events s.spec.trigger ms))
        × (pos 0 ≤ℤ (run_events s ms).1.count)
        × ((run_events s ms).1.count <ℤ s.spec.every)
  unfolding run_events counted_events
  run_events-Counts s k [] = (rw (zero_times s.spec.every) (omega int_laws), k.low, k.high)
  run_events-Counts s k ((ts, a) ∷ ms) =
      let r = sampler_event D s ts a in
      let (k1, same, step) = event-Ok s ts a k in
      let (sum, low, high) = run_events-Counts r.1 k1 ms in
      let positive : pos 0 <ℤ s.spec.every = let l = k.low in let h = k.high in omega arith in
      (
        add_up s.spec.every s.count r.1.count (run_events r.1 ms).1.count r.0
            (counts s.spec.trigger a) (run_events r.1 ms).0 (counted_events s.spec.trigger ms)
            positive step
            (subst
              (λ (p : SamplerSpec).
                pos (run_events r.1 ms).0 *ℤ p.every +ℤ (run_events r.1 ms).1.count
                ≡ r.1.count +ℤ pos (counted_events p.trigger ms))
              same sum),
        low,
        subst (λ (p : SamplerSpec). (run_events r.1 ms).1.count <ℤ p.every) same high,
      )

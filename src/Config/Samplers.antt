-- ===== src/Config/Samplers.antt =====
-- src/Config.cpp: ParseSamplerSpec on printed samplers, and the samplers that it accepts.
use nqbook.Prelude.{ℕ, ◌*◌, ◌^◌, ◌⊎◌, ◌<◌, ◌≡◌, refl, false, [], ◌∷◌, ◌++◌, arith}
use nqbook.Prelude.Int.{pos, ◌<ℤ◌, int64_small}
use nqbook.Prelude.Outcome.{ok}
use nqbook.Prelude.Text.{
  Text, codes, is_nil, is_nil-append, eq_text, decimal, digits-is_nil, has, split_at-append,
}
use nqbook.Feature.Sampler.{on_time, on_events, on_trades, SamplerSpec}
use nqbook.Config.{NamedSpec, named_spec, parse_trigger, parse_sampler_spec}
use nqbook.Config.Durations.{
  TimeUnit, nanos, micros, millis, seconds, minutes, hours, unit_text, nanoseconds,
  parse_duration-decimal, parse_count-decimal,
}
use nqbook.Config.DurationTexts.{TooLong}

-- the period of a sampler, as the command line writes it
pub data Period : Type 0 where
  of_time : ℕ → TimeUnit → Period
  of_events of_trades : ℕ → Period

abbrev pub amount : Period → ℕ
amount (of_time n u) = n
amount (of_events n) = n
amount (of_trades n) = n

-- how long it is, in nanoseconds or in events
abbrev pub span : Period → ℕ
span (of_time n u) = n * nanoseconds u
span (of_events n) = n
span (of_trades n) = n

abbrev pub trigger_text : Period → Text
trigger_text (of_time n u) = codes "time"
trigger_text (of_events n) = codes "events"
trigger_text (of_trades n) = codes "trades"

abbrev pub period_text : Period → Text
period_text (of_time n u) = decimal n ++ unit_text u
period_text (of_events n) = decimal n
period_text (of_trades n) = decimal n

abbrev pub sampler_text : Text → Period → Text
sampler_text name p = name ++ b'=' ∷ (trigger_text p ++ b':' ∷ period_text p)

abbrev pub spec_for : Text → Period → NamedSpec
spec_for name (of_time n u) = named_spec name on_time (pos (n * nanoseconds u))
spec_for name (of_events n) = named_spec name on_events (pos n)
spec_for name (of_trades n) = named_spec name on_trades (pos n)

trigger_text-colon : (p : Period) → has b':' (trigger_text p) ≡ false
unfolding has
trigger_text-colon (of_time n u) = refl
trigger_text-colon (of_events n) = refl
trigger_text-colon (of_trades n) = refl

period_text-is_nil : (p : Period) → is_nil (period_text p) ≡ false
period_text-is_nil (of_time n u) = is_nil-append (decimal n) (unit_text u) (digits-is_nil n n [])
period_text-is_nil (of_events n) = digits-is_nil n n []
period_text-is_nil (of_trades n) = digits-is_nil n n []

trigger_text-is_nil : (p : Period) → is_nil (trigger_text p) ≡ false
trigger_text-is_nil (of_time n u) = refl
trigger_text-is_nil (of_events n) = refl
trigger_text-is_nil (of_trades n) = refl

amount_small : (n : ℕ) (u : TimeUnit) → n * nanoseconds u < 2 ^ 63 → n < 2 ^ 63
amount_small n nanos h = omega arith
amount_small n micros h = omega arith
amount_small n millis h = omega arith
amount_small n seconds h = omega arith
amount_small n minutes h = omega arith
amount_small n hours h = omega arith

parse_trigger-text :
    (name : Text) (p : Period)
    → 0 < amount p
    → span p < 2 ^ 63
    → parse_trigger name (trigger_text p) (period_text p) ≡ ok (spec_for name p)
unfolding parse_trigger eq_text
parse_trigger-text name (of_time n u) h k =
    simp (parse_duration-decimal n u h (amount_small n u k), int64_small (n * nanoseconds u) k)
parse_trigger-text name (of_events n) h k = simp (parse_count-decimal n h k)
parse_trigger-text name (of_trades n) h k = simp (parse_count-decimal n h k)

-- A sampler that is written with a name, not empty and without `=`, and a positive period of a
-- trigger, below 2 ^ 63 in nanoseconds or in events, is parsed to that name, trigger and period.
pub parse_sampler_spec-text :
    (name : Text) (p : Period)
    → is_nil name ≡ false
    → has b'=' name ≡ false
    → 0 < amount p
    → span p < 2 ^ 63
    → parse_sampler_spec (sampler_text name p) ≡ ok (spec_for name p)
unfolding parse_sampler_spec
parse_sampler_spec-text name p named plain h k = simp (
  split_at-append b'=' name (trigger_text p ++ b':' ∷ period_text p) plain,
  named,
  split_at-append b':' (trigger_text p) (period_text p) (trigger_text-colon p),
  trigger_text-is_nil p,
  period_text-is_nil p,
  parse_trigger-text name p h k,
)

-- The period is positive, or the text behind the name is a time that is too long.
abbrev pub PositiveUnlessTooLong : Text → Text → SamplerSpec → Type 0
PositiveUnlessTooLong trigger every s =
    (pos 0 <ℤ s.every) ⊎ ((trigger ≡ codes "time") × (s.trigger ≡ on_time) × TooLong every s.every)

-- ===== src/Config/DurationTexts.antt =====
-- src/Config.cpp: which texts ParseDuration accepts, and what it makes of them.
use mathlib.Core.List.{append-nil}
use nqbook.Prelude.{
  ℕ, ◌*◌, ◌^◌, ◌<◌, ◌≤◌, ◌≡◌, refl, sym, ap, ◌∙◌, subst, ◌⊎◌, false, not, [], ◌∷◌, ◌++◌, some,
  arith, ltb, leb, ◌==◌, if◌then◌else◌, Bool-cases, inl, inr,
}
use nqbook.Prelude.Int.{ℤ, pos, ◌<ℤ◌, leb_ℤ, int64, int64_small}
use nqbook.Prelude.Outcome.{ok, guard, require, >>=-eq-ok, guard-eq-ok, require-eq-ok, ok_injective}
use nqbook.Prelude.Text.{
  Text, codes, is_nil, number, is_digit, span_digits, span_digits-append, AllDigits, eq_text,
  eq_text→≡,
}
use nqbook.Config.{no_digits, no_unit, not_positive, from_chars, parse_duration, unit_scale}
use nqbook.Config.Durations.{
  TimeUnit, nanos, micros, millis, seconds, minutes, hours, unit_text, nanoseconds,
}

-- A text of a duration: the digits of a positive int64_t and a unit. The duration is the product as an
-- int64_t keeps it.
pub record DurationText (text : Text) (d : ℤ) : Type 0 where
  pub digits : Text
  pub unit : TimeUnit
  pub written : text ≡ digits ++ unit_text unit
  pub are_digits : AllDigits digits
  pub positive : 0 < number 0 digits
  pub fits : number 0 digits < 2 ^ 63
  pub product : d ≡ int64 (number 0 digits * nanoseconds unit)

-- a duration whose nanoseconds pass an int64_t
abbrev pub TooLong : Text → ℤ → Type 0
TooLong text d = (k : DurationText text d) × (2 ^ 63 ≤ number 0 k.digits * nanoseconds k.unit)

span_digits_whole :
    (s : Text) → AllDigits (span_digits s).0 × (s ≡ (span_digits s).0 ++ (span_digits s).1)
unfolding span_digits
span_digits_whole [] = (tt, refl)
span_digits_whole (c ∷ s) =
    let (all, whole) = span_digits_whole s in
    elim (Bool-cases (is_digit c)) [
      | inl digit ↦ rw digit ((digit, all), ap (◌∷◌ c) whole)
      | inr other ↦ rw other (tt, refl)
    ]

pub unit_scale_cases :
    (u : Text) (k : ℕ)
    → unit_scale u ≡ some k
    → (v : TimeUnit) × (u ≡ unit_text v) × (k ≡ nanoseconds v)
unfolding unit_scale
unit_scale_cases u k h = elim (Bool-cases (eq_text u (codes "ns"))) [
  | inl e ↦ (nanos, eq_text→≡ u (codes "ns") e, ground (arith, rw e at h))
  | inr e1 ↦ elim (Bool-cases (eq_text u (codes "us"))) [
    | inl e ↦ (micros, eq_text→≡ u (codes "us") e, ground (arith, rw (e1, e) at h))
    | inr e2 ↦ elim (Bool-cases (eq_text u (codes "ms"))) [
      | inl e ↦ (millis, eq_text→≡ u (codes "ms") e, ground (arith, rw (e1, e2, e) at h))
      | inr e3 ↦ elim (Bool-cases (eq_text u (codes "s"))) [
        | inl e ↦ (seconds, eq_text→≡ u (codes "s") e, ground (arith, rw (e1, e2, e3, e) at h))
        | inr e4 ↦ elim (Bool-cases (eq_text u (codes "m"))) [
          | inl e ↦
              (minutes, eq_text→≡ u (codes "m") e, ground (arith, rw (e1, e2, e3, e4, e) at h))
          | inr e5 ↦ elim (Bool-cases (eq_text u (codes "h"))) [
            | inl e ↦
                (hours, eq_text→≡ u (codes "h") e, ground (arith, rw (e1, e2, e3, e4, e5, e) at h))
            | inr e6 ↦ absurd (ground (arith, rw (e1, e2, e3, e4, e5, e6) at h))
          ]
        ]
      ]
    ]
  ]
]

span_digits_all : (ds : Text) → AllDigits ds → span_digits ds ≡ (ds, [])
span_digits_all ds all = ap span_digits (sym (append-nil ds)) ∙ span_digits-append ds [] all tt

-- from_chars on digits gives their number, or nothing where it is too big.
from_chars_value :
    (ds : Text)
    → AllDigits ds
    → is_nil ds ≡ false
    → (from_chars ds).0 ≡ (if ltb (number 0 ds) (2 ^ 63) then pos (number 0 ds) else pos 0)
unfolding from_chars
from_chars_value [] all nonempty = cc
from_chars_value (c ∷ ds) (d, all) nonempty =
    let sign : (c == b'-') ≡ false = ground arith in
    elim (Bool-cases (ltb (number 0 (c ∷ ds)) (2 ^ 63))) [
      | inl small ↦ rw (sign, span_digits_all (c ∷ ds) (d, all), small) refl
      | inr big ↦ rw (sign, span_digits_all (c ∷ ds) (d, all), big) refl
    ]

-- What ParseDuration accepts is a text of the duration that it gives.
pub parse_duration-DurationText :
    (text : Text) (d : ℤ) → parse_duration text ≡ ok d → DurationText text d
unfolding parse_duration
parse_duration-DurationText text d h =
    let ds : Text = (span_digits text).0 in
    let (u, some_digits, h1) = >>=-eq-ok (guard (not (is_nil ds)) (no_digits text)) _ h in
    let (k, found, h2) =
      >>=-eq-ok (require (no_unit text) (unit_scale (span_digits text).1)) _ h1 in
    let value = (from_chars ds).0 in
    let (v, above, h3) = >>=-eq-ok (guard (not (leb_ℤ value (pos 0))) (not_positive text)) _ h2 in
    let (all, whole) = span_digits_whole text in
    let nonempty : is_nil ds ≡ false =
      ground (arith, guard-eq-ok (not (is_nil ds)) (no_digits text) some_digits) in
    let read = from_chars_value ds all nonempty in
    let positive = guard-eq-ok (not (leb_ℤ value (pos 0))) (not_positive text) above in
    let (unit, called, scale) =
      unit_scale_cases (span_digits text).1 k
        (require-eq-ok (no_unit text) (unit_scale (span_digits text).1) found) in
    elim (Bool-cases (ltb (number 0 ds) (2 ^ 63))) [
      | inl small ↦
          let exact : value ≡ pos (number 0 ds) = read ∙ rw small refl in
          record {
            digits = ds;
            unit = unit;
            written = whole ∙ ap (◌++◌ ds) called;
            are_digits = all;
            positive = ground (arith, rw exact at positive);
            fits = ground (arith, small);
            product = sym (ok_injective h3) ∙ rw (exact, scale) refl;
          }
      | inr big ↦
          let nothing : value ≡ pos 0 = read ∙ rw big refl in
          absurd (ground (arith, rw nothing at positive))
    ]

product_positive : (a : ℕ) (u : TimeUnit) → 0 < a → 0 < a * nanoseconds u
product_positive a nanos h = omega arith
product_positive a micros h = omega arith
product_positive a millis h = omega arith
product_positive a seconds h = omega arith
product_positive a minutes h = omega arith
product_positive a hours h = omega arith

-- Every duration that is parsed is positive, or too long.
pub parse_duration-accepts :
    (text : Text) (d : ℤ) → parse_duration text ≡ ok d → (pos 0 <ℤ d) ⊎ TooLong text d
parse_duration-accepts text d h =
    let k = parse_duration-DurationText text d h in
    let n : ℕ = number 0 k.digits * nanoseconds k.unit in
    elim (Bool-cases (leb (2 ^ 63) n)) [
      | inl big ↦ inr (k, ground (arith, big))
      | inr small ↦
          let fits : n < 2 ^ 63 = ground (arith, small) in
          let above = product_positive (number 0 k.digits) k.unit k.positive in
          inl (
            subst (λ (d : ℤ). pos 0 <ℤ d) (sym (k.product ∙ int64_small n fits))
              (omega (arith, above)))
    ]

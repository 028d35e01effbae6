-- ===== src/Config/Durations.antt =====
-- src/Config.cpp: ParseDuration and ParseCount on printed numbers, and the numbers they accept.
use nqbook.Prelude.{
  ℕ, ◌*◌, ◌^◌, ◌<◌, ◌≡◌, refl, subst, true, false, [], ◌∷◌, ◌++◌, some, arith, ltb, ◌==◌,
}
use mathlib.Core.List.{append-nil}
use nqbook.Prelude.Int.{ℤ, pos, ◌<ℤ◌, leb_ℤ, int64}
use nqbook.Prelude.Outcome.{ok}
use nqbook.Prelude.Text.{
  Text, codes, is_nil, decimal, number, digits-is_nil, span_digits-append, AllDigits, NoDigit,
  eq_text, number-decimal, decimal-AllDigits,
}
use nqbook.Config.{from_chars, parse_count, parse_duration, unit_scale}

pub data TimeUnit : Type 0 where
  nanos micros millis seconds minutes hours : TimeUnit

abbrev pub unit_text : TimeUnit → Text
unit_text nanos = codes "ns"
unit_text micros = codes "us"
unit_text millis = codes "ms"
unit_text seconds = codes "s"
unit_text minutes = codes "m"
unit_text hours = codes "h"

abbrev pub nanoseconds : TimeUnit → ℕ
nanoseconds nanos = 1
nanoseconds micros = 1000
nanoseconds millis = 1000000
nanoseconds seconds = 1000000000
nanoseconds minutes = 60000000000
nanoseconds hours = 3600000000000

unit_scale-unit_text : (u : TimeUnit) → unit_scale (unit_text u) ≡ some (nanoseconds u)
unfolding unit_scale eq_text
unit_scale-unit_text nanos = refl
unit_scale-unit_text micros = refl
unit_scale-unit_text millis = refl
unit_scale-unit_text seconds = refl
unit_scale-unit_text minutes = refl
unit_scale-unit_text hours = refl

unit_text-NoDigit : (u : TimeUnit) → NoDigit (unit_text u)
unit_text-NoDigit nanos = refl
unit_text-NoDigit micros = refl
unit_text-NoDigit millis = refl
unit_text-NoDigit seconds = refl
unit_text-NoDigit minutes = refl
unit_text-NoDigit hours = refl

-- from_chars reads a run of digits whose number fits.
pub from_chars-AllDigits :
    (ds rest : Text)
    → AllDigits ds
    → is_nil ds ≡ false
    → NoDigit rest
    → number 0 ds < 2 ^ 63
    → from_chars (ds ++ rest) ≡ (pos (number 0 ds), rest, true)
unfolding from_chars
from_chars-AllDigits [] rest all nonempty stop fits = cc
from_chars-AllDigits (c ∷ ds) rest (d, all) nonempty stop fits =
    let sign : (c == b'-') ≡ false = ground arith in
    let small : ltb (number 0 (c ∷ ds)) (2 ^ 63) ≡ true = ground arith in
    rw (sign, span_digits-append (c ∷ ds) rest (d, all) stop, small) refl

from_chars-decimal : (n : ℕ) → n < 2 ^ 63 → from_chars (decimal n) ≡ (pos n, [], true)
from_chars-decimal n fits =
    subst (λ (k : ℕ). from_chars (decimal n) ≡ (pos k, [], true)) (number-decimal n)
      (subst (λ (t : Text). from_chars t ≡ (pos (number 0 (decimal n)), [], true))
        (append-nil (decimal n))
        (from_chars-AllDigits (decimal n) [] (decimal-AllDigits n) (digits-is_nil n n []) tt
          (omega (arith, number-decimal n))))

-- A printed number of a unit, positive and below 2 ^ 63, is parsed to the product with the length of
-- the unit as an int64_t keeps it: whatever the product, no range check stops the text, and from
-- 2 ^ 63 on the product wraps.
pub parse_duration-decimal :
    (n : ℕ) (u : TimeUnit)
    → 0 < n
    → n < 2 ^ 63
    → parse_duration (decimal n ++ unit_text u) ≡ ok (int64 (n * nanoseconds u))
unfolding parse_duration
parse_duration-decimal n u positive fits =
    let big : leb_ℤ (pos n) (pos 0) ≡ false = ground arith in
    simp (
      span_digits-append (decimal n) (unit_text u) (decimal-AllDigits n) (unit_text-NoDigit u),
      digits-is_nil n n [],
      unit_scale-unit_text u,
      from_chars-decimal n fits,
      big,
    )

-- A printed number, positive and below 2 ^ 63, is a count.
pub parse_count-decimal : (n : ℕ) → 0 < n → n < 2 ^ 63 → parse_count (decimal n) ≡ ok (pos n)
unfolding parse_count
parse_count-decimal n positive fits =
    let big : leb_ℤ (pos n) (pos 0) ≡ false = ground arith in simp (from_chars-decimal n fits, big)

pub parse_count-positive : (text : Text) (d : ℤ) → parse_count text ≡ ok d → pos 0 <ℤ d
unfolding parse_count
parse_count-positive text d h = ground arith

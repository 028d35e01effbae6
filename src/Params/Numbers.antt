-- ===== src/Params/Numbers.antt =====
-- shared/nqcppsdk/nq/params.hpp: the integers that ParseInt reads.
use mathlib.Core.List.{append-nil}
use nqbook.Prelude.{
  ℕ, ◌-◌, ◌^◌, ◌≡◌, refl, subst, ap, ◌∙◌, false, ◌&&◌, ◌||◌, [], ◌∷◌, arith, leb, ltb, ◌==◌,
  if◌then◌else◌, Bool-cases, inl, inr,
}
use nqbook.Prelude.Int.{pos}
use nqbook.Prelude.Outcome.{ok}
use nqbook.Prelude.Text.{
  Text, is_nil, decimal, number, AllDigits, digits-is_nil, span_digits, span_digits-append,
  number-decimal, decimal-AllDigits,
}
use nqbook.Params.{is_space, skip_space, clamp_int, strtoll, c_str, parse_int}

c_str-AllDigits : (s : Text) → AllDigits s → c_str s ≡ s
unfolding c_str
c_str-AllDigits [] d = refl
c_str-AllDigits (c ∷ s) (d, ds) = ground (arith, c_str-AllDigits s ds)

-- strtoll on digits takes them all.
strtoll-AllDigits :
    (s : Text) → AllDigits s → is_nil s ≡ false → strtoll s ≡ (clamp_int false (number 0 s), [])
unfolding strtoll skip_space is_space
strtoll-AllDigits [] d n = cc
strtoll-AllDigits (c ∷ s) (d, ds) n =
    let solid : (c == b' ' || (leb 9 c && leb c 13)) ≡ false = ground arith in
    let unsigned : (c == b'-') ≡ false = ground arith in
    let plain : (c == b'+') ≡ false = ground arith in
    let whole : span_digits (c ∷ s) ≡ (c ∷ s, []) =
      subst (λ (t : Text). span_digits t ≡ (c ∷ s, [])) (append-nil (c ∷ s))
        (span_digits-append (c ∷ s) [] (d, ds) tt) in
    simp (solid, unsigned, plain, whole)

clamp : (n : ℕ) → clamp_int false n ≡ pos (if ltb n (2 ^ 63) then n else 2 ^ 63 - 1)
unfolding clamp_int
clamp n = elim (Bool-cases (ltb n (2 ^ 63))) [ inl small ↦ rw small refl | inr big ↦ rw big refl ]

-- A printed number is read as it is below 2 ^ 63, and as 2 ^ 63 - 1, with no exception, from there on.
pub parse_int-decimal :
    (n : ℕ) (key : Text)
    → parse_int (decimal n) key ≡ ok (pos (if ltb n (2 ^ 63) then n else 2 ^ 63 - 1))
unfolding parse_int
parse_int-decimal n key =
    let read : strtoll (c_str (decimal n)) ≡ (clamp_int false n, []) =
      ap strtoll (c_str-AllDigits (decimal n) (decimal-AllDigits n))
      ∙ strtoll-AllDigits (decimal n) (decimal-AllDigits n) (digits-is_nil n n [])
      ∙ ap (λ (k : ℕ). (clamp_int false k, [])) (number-decimal n) in
    simp (read, digits-is_nil n n []) (ap ok (clamp n))

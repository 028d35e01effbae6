-- ===== src/Prelude/Text.antt =====
-- Text as its bytes, and the string functions of the standard library that the sources call.
use Prim.Native.Nat.{ℕ, zero, suc, ◌+◌, ◌-◌, ◌*◌, ◌/◌, ◌%◌, ◌<◌}
use Prim.Native.Char.{code}
use Prim.Native.String.{String}
use mathlib.Core.Path.{◌≡◌, refl, ap, ◌∙◌}
use mathlib.Core.Logic.{inl, inr}
use mathlib.Core.Bool.{Bool, true, false, ◌&&◌, ◌||◌}
use mathlib.Core.Option.{Option, none, some}
use mathlib.Core.List.{List, [], ◌∷◌, ◌++◌}
use native.Mathlib.Omega.{arith}
use nqbook.Prelude.{◌==◌, leb, if◌then◌else◌, Bool-cases, Option-cases}

abbrev pub Text : Type 0
Text = List ℕ

abbrev pub codes : String → Text
codes String.[] = []
codes (String.◌∷◌ c s) = code c ∷ codes s

abbrev pub is_nil {ℓ} : {A : Type ℓ} → List A → Bool
is_nil [] = true
is_nil (x ∷ xs) = false

-- `==` of two strings
unfoldable pub eq_text : Text → Text → Bool
eq_text [] [] = true
eq_text [] (d ∷ t) = false
eq_text (c ∷ s) [] = false
eq_text (c ∷ s) (d ∷ t) = (c == d) && eq_text s t

pub eq_text→≡ : (s t : Text) → eq_text s t ≡ true → s ≡ t
unfolding eq_text
eq_text→≡ [] [] h = refl
eq_text→≡ [] (d ∷ t) h = cc
eq_text→≡ (c ∷ s) [] h = cc
eq_text→≡ (c ∷ s) (d ∷ t) h = ground (arith, eq_text→≡ s t)

pub eq_text_refl : (s : Text) → eq_text s s ≡ true
unfolding eq_text
eq_text_refl [] = refl
eq_text_refl (c ∷ s) = ground (arith, eq_text_refl s)

-- whether a character occurs
unfoldable pub has : ℕ → Text → Bool
has c [] = false
has c (d ∷ s) = c == d || has c s

-- The text in front of the first `c` and the text behind it: `substr` on both sides of `find`.
unfoldable pub split_at : ℕ → Text → Option (Text × Text)
split_at c [] = none
split_at c (d ∷ s) =
    let rest = elim (split_at c s) as (λ _. Option (Text × Text)) [
      | none ↦ none
      | some (a, b) ↦ some (d ∷ a, b)
    ] in
    if d == c then some ([], s) else rest

pub split_at-append : (c : ℕ) (s t : Text) → has c s ≡ false → split_at c (s ++ c ∷ t) ≡ some (s, t)
unfolding split_at has
split_at-append c [] t h = ground arith
split_at-append c (d ∷ s) t h = ground (arith, split_at-append c s t)

-- Decimal digits: `std::to_string` of a number, in front of `rest`.
unfoldable pub digits : ℕ → ℕ → Text → Text
digits zero n rest = rest
digits (suc k) n rest =
    let rest' = (48 + n % 10) ∷ rest in
    let more = digits k (n / 10) rest' in if n / 10 == 0 then rest' else more

abbrev pub decimal : ℕ → Text
decimal n = digits (suc n) n []

abbrev pub is_digit : ℕ → Bool
is_digit c = leb b'0' c && leb c b'9'

-- the digits in front, and the rest
unfoldable pub span_digits : Text → Text × Text
span_digits [] = ([], [])
span_digits (c ∷ s) = if is_digit c then (c ∷ (span_digits s).0, (span_digits s).1) else ([], c ∷ s)

-- the number that digits write, behind `acc`
unfoldable pub number : ℕ → Text → ℕ
number acc [] = acc
number acc (c ∷ s) = number (acc * 10 + (c - 48)) s

abbrev pub AllDigits : Text → Type 0
AllDigits [] = Unit {0}
AllDigits (c ∷ s) = (is_digit c ≡ true) × AllDigits s

pub number-digits : (k n : ℕ) (rest : Text) → n < k → number 0 (digits k n rest) ≡ number n rest
unfolding number digits
number-digits zero n rest h = absurd (omega arith)
number-digits (suc k) n rest h = elim (Bool-cases (n / 10 == 0)) [
  | inl last ↦ rw last (ap (λ (m : ℕ). number m rest) (ground arith))
  | inr more ↦ rw more (
      number-digits k (n / 10) ((48 + n % 10) ∷ rest) (ground arith)
      ∙ ap (λ (m : ℕ). number m rest) (omega arith))
]

pub digits-AllDigits : (k n : ℕ) (rest : Text) → AllDigits rest → AllDigits (digits k n rest)
unfolding digits
digits-AllDigits zero n rest h = h
digits-AllDigits (suc k) n rest h = elim (Bool-cases (n / 10 == 0)) [
  | inl last ↦ rw last (ground arith, h)
  | inr more ↦ rw more (digits-AllDigits k (n / 10) ((48 + n % 10) ∷ rest) (ground arith, h))
]

digits-is_nil_cons : (k n c : ℕ) (rest : Text) → is_nil (digits k n (c ∷ rest)) ≡ false
unfolding digits
digits-is_nil_cons zero n c rest = refl
digits-is_nil_cons (suc k) n c rest = elim (Bool-cases (n / 10 == 0)) [
  | inl last ↦ rw last refl
  | inr more ↦ rw more (digits-is_nil_cons k (n / 10) (48 + n % 10) (c ∷ rest))
]

pub digits-is_nil : (k n : ℕ) (rest : Text) → is_nil (digits (suc k) n rest) ≡ false
unfolding digits
digits-is_nil k n rest = elim (Bool-cases (n / 10 == 0)) [
  | inl last ↦ rw last refl
  | inr more ↦ rw more (digits-is_nil_cons k (n / 10) (48 + n % 10) rest)
]

abbrev pub NoDigit : Text → Type 0
NoDigit [] = Unit {0}
NoDigit (c ∷ s) = is_digit c ≡ false

pub span_digits-append : (s t : Text) → AllDigits s → NoDigit t → span_digits (s ++ t) ≡ (s, t)
unfolding span_digits
span_digits-append [] [] a n = refl
span_digits-append [] (c ∷ t) a n = rw n refl
span_digits-append (c ∷ s) t (d, a) n = rw (d, span_digits-append s t a n) refl

-- The text in front of the first `c` does not have it.
pub split_at-front :
    (c : ℕ) (s a b : Text) → split_at c s ≡ some (a, b) → (has c a ≡ false) × (s ≡ a ++ c ∷ b)
unfolding split_at has
split_at-front c [] a b h = cc
split_at-front c (d ∷ s) a b h = elim (Bool-cases (d == c)) [
  | inl here ↦ ground (arith, here)
  | inr ne ↦ elim (Option-cases (split_at c s)) [
    | inl missing ↦ ground (arith, ne, missing)
    | inr ((a', b'), found) ↦ ground (arith, ne, found, split_at-front c s a' b' found)
  ]
]

pub is_nil-append : (s t : Text) → is_nil s ≡ false → is_nil (s ++ t) ≡ false
is_nil-append [] t h = cc
is_nil-append (c ∷ s) t h = refl

pub is_nil-append_right : (s t : Text) → is_nil t ≡ false → is_nil (s ++ t) ≡ false
is_nil-append_right [] t h = h
is_nil-append_right (c ∷ s) t h = refl

pub number-decimal : (n : ℕ) → number 0 (decimal n) ≡ n
unfolding number
number-decimal n = number-digits (suc n) n [] (omega arith)

pub decimal-AllDigits : (n : ℕ) → AllDigits (decimal n)
decimal-AllDigits n = digits-AllDigits (suc n) n [] tt

-- ===== src/Host/Hexadecimal.antt =====
-- shared/nqcppsdk/nq/feature_host.hpp: Hex.
use native.Mathlib.Nat.{pow-suc, div-div-eq-div-mul}
use nqbook.Prelude.{
  ℕ, zero, suc, ◌+◌, ◌-◌, ◌*◌, ◌/◌, ◌%◌, ◌^◌, ◌<◌, ◌≡◌, refl, sym, subst, ap, ◌∙◌, [], ◌∷◌, arith,
  ltb, if◌then◌else◌, drop, length,
}
use nqbook.Prelude.Text.{Text}
use nqbook.Host.{hex_digit, hex_digits, hex}

-- the value of a digit, and of the digits behind `acc`
unfoldable pub nibble : ℕ → ℕ
nibble c = if ltb c 58 then c - 48 else c - 87

unfoldable pub hex_value : ℕ → Text → ℕ
hex_value acc [] = acc
hex_value acc (c ∷ s) = hex_value (acc * 16 + nibble c) s

nibble-hex_digit : (d : ℕ) → d < 16 → nibble (hex_digit d) ≡ d
unfolding nibble hex_digit
nibble-hex_digit d h = ground arith

step : (k v : ℕ) → v / 16 ^ suc k * 16 + nibble (hex_digit (v / 16 ^ k % 16)) ≡ v / 16 ^ k
step k v =
    let e : v / 16 ^ suc k ≡ v / 16 ^ k / 16 =
      ap (λ (m : ℕ). v / m) (pow-suc 16 k) ∙ sym (div-div-eq-div-mul v (16 ^ k) 16) in
    omega (arith, e, nibble-hex_digit (v / 16 ^ k % 16) (omega arith))

hex_value-hex_digits : (k v : ℕ) → hex_value (v / 16 ^ k) (hex_digits k v) ≡ v
unfolding hex_value hex_digits
hex_value-hex_digits zero v = omega arith
hex_value-hex_digits (suc k) v =
    ap (λ (n : ℕ). hex_value n (hex_digits k v)) (step k v) ∙ hex_value-hex_digits k v

length-hex_digits : (k v : ℕ) → length (hex_digits k v) ≡ k
unfolding hex_digits
length-hex_digits zero v = refl
length-hex_digits (suc k) v = ap suc (length-hex_digits k v)

-- Hex writes `0x` and sixteen digits that read back as the number, for every uint64_t.
pub hex_value-hex :
    (v : ℕ) → v < 2 ^ 64 → (hex_value 0 (drop 2 (hex v)) ≡ v) × (length (hex v) ≡ 18)
unfolding hex
hex_value-hex v h = (
  subst (λ (n : ℕ). hex_value n (hex_digits 16 v) ≡ v) (omega arith) (hex_value-hex_digits 16 v),
  omega (arith, length-hex_digits 16 v),
)

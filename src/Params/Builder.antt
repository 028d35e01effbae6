-- ===== src/Params/Builder.antt =====
-- shared/nqcppsdk/nq/params.hpp: what Get reads of what Set wrote.

use native.Mathlib.Nat.{mod-eq_of_lt}
use nqbook.Prelude.{
  ℕ, suc, ◌+◌, ◌^◌, ◌≤◌, ◌<◌, ◌≡◌, refl, sym, ap, ◌∙◌, true, false, List, [], ◌∷◌, Option, none,
  some, length, take, arith, if◌then◌else◌, Bool-cases, inl, inr,
}
use nqbook.Prelude.Text.{Text, eq_text, eq_text→≡, eq_text_refl, has}
use nqbook.Config.{KeyValues}
use nqbook.Params.{
  c_str, text_or_empty, is_key, get_kv, get_param, ParamsBuilder, set_kv, set_param, raw_kv, build,
}

-- no null characters
abbrev pub AllPlain : KeyValues → Type 0
AllPlain [] = Unit {0}
AllPlain ((k, v) ∷ kvs) = (has 0 k ≡ false) × (has 0 v ≡ false) × AllPlain kvs

pub c_str_plain : (s : Text) → has 0 s ≡ false → c_str s ≡ s
unfolding c_str has
c_str_plain [] h = refl
c_str_plain (c ∷ s) h = ground (arith, c_str_plain s)

-- the value of a key
unfoldable pub value_of : KeyValues → Text → Option Text
value_of [] key = none
value_of ((k, v) ∷ kvs) key =
    let later = value_of kvs key in if eq_text key k then some v else later

get_kv-raw_kv :
    (kvs : KeyValues) (key : Text) → AllPlain kvs → get_kv (raw_kv kvs) key ≡ value_of kvs key
unfolding get_kv raw_kv value_of is_key text_or_empty
get_kv-raw_kv [] key p = refl
get_kv-raw_kv ((k, v) ∷ kvs) key (hk, hv, p) =
    rw (c_str_plain k hk, c_str_plain v hv, get_kv-raw_kv kvs key p) refl

take-length : {A : Type 0} (xs : List A) → take (length xs) xs ≡ xs
take-length [] = refl
take-length (x ∷ xs) = ap (◌∷◌ x) (take-length xs)

length-raw_kv : (kvs : KeyValues) → length (raw_kv kvs) ≡ length kvs
unfolding raw_kv
length-raw_kv [] = refl
length-raw_kv ((k, v) ∷ kvs) = ap suc (length-raw_kv kvs)

-- Get on what Build made, of fewer than 2 ^ 32 pairs.
get_param-build :
    (b : ParamsBuilder) (key : Text)
    → length b.kv < 2 ^ 32
    → AllPlain b.kv
    → get_param (build b) key ≡ value_of b.kv key
unfolding get_param build
get_param-build b key few plain = rw (mod-eq_of_lt {n = length b.kv} {m = 2 ^ 32} few) (
    ap (λ (l : List (Option Text × Option Text)). get_kv l key)
      (ap (λ (n : ℕ). take n (raw_kv b.kv)) (sym (length-raw_kv b.kv)) ∙ take-length (raw_kv b.kv))
    ∙ get_kv-raw_kv b.kv key plain)

differ : (i j k : Text) → eq_text i k ≡ false → eq_text j k ≡ true → eq_text j i ≡ false
differ i j k other here = elim (Bool-cases (eq_text j i)) [
  | inr ne ↦ ne
  | inl same ↦
      let to_k : i ≡ k = sym (eq_text→≡ j i same) ∙ eq_text→≡ j k here in
      absurd (cc (ap (eq_text i) to_k, eq_text_refl i))
]

value_of-set_kv :
    (kvs : KeyValues) (k v j : Text)
    → value_of (set_kv kvs k v) j ≡ (if eq_text j k then some v else value_of kvs j)
unfolding value_of set_kv
value_of-set_kv [] k v j = refl
value_of-set_kv ((i, w) ∷ kvs) k v j = elim (Bool-cases (eq_text i k)) [
  | inl same ↦
      let swap : eq_text j i ≡ eq_text j k = ap (eq_text j) (eq_text→≡ i k same) in
      ground (arith, same, swap)
  | inr other ↦ elim (Bool-cases (eq_text j k)) [
    | inr ne ↦ ground (arith, other, ne, value_of-set_kv kvs k v j)
    | inl here ↦
        let apart : eq_text j i ≡ false = differ i j k other here in
        ground (arith, other, here, apart, value_of-set_kv kvs k v j)
  ]
]

set_kv-AllPlain :
    (kvs : KeyValues) (k v : Text)
    → AllPlain kvs
    → has 0 k ≡ false
    → has 0 v ≡ false
    → AllPlain (set_kv kvs k v)
unfolding set_kv
set_kv-AllPlain [] k v p hk hv = (hk, hv, tt)
set_kv-AllPlain ((i, w) ∷ kvs) k v (hi, hw, p) hk hv = elim (Bool-cases (eq_text i k)) [
  | inl same ↦ rw same (hi, hv, p)
  | inr other ↦ rw other (hi, hw, set_kv-AllPlain kvs k v p hk hv)
]

length-set_kv : (kvs : KeyValues) (k v : Text) → length (set_kv kvs k v) ≤ length kvs + 1
unfolding set_kv
length-set_kv [] k v = omega arith
length-set_kv ((i, w) ∷ kvs) k v = ground (arith, length-set_kv kvs k v)

-- Get on what Build makes behind Set reads the value that was set, and every other key as before.
-- The texts have no null character, and there are fewer than 2 ^ 32 - 1 pairs.
pub get_param-set_param :
    (b : ParamsBuilder) (k v j : Text)
    → length b.kv + 1 < 2 ^ 32
    → AllPlain b.kv
    → has 0 k ≡ false
    → has 0 v ≡ false
    → get_param (build (set_param b k v)) j
      ≡ (if eq_text j k then some v else get_param (build b) j)
unfolding set_param
get_param-set_param b k v j few plain hk hv =
    get_param-build (record b { kv = set_kv b.kv k v }) j (omega (arith, length-set_kv b.kv k v))
      (set_kv-AllPlain b.kv k v plain hk hv)
    ∙ value_of-set_kv b.kv k v j
    ∙ ap (λ (o : Option Text). if eq_text j k then some v else o)
        (sym (get_param-build b j (omega arith) plain))

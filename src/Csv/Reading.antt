-- ===== src/Csv/Reading.antt =====
-- src/Writer/CsvWriter.cpp: a reader of CSV on the names that are written.
use mathlib.Core.List.{append_assoc}
use nqbook.Prelude.{
  ℕ, zero, suc, ◌≡◌, refl, sym, ap, ◌∙◌, Bool, true, false, ◌||◌, List, [], ◌∷◌, ◌++◌, Option, none,
  some, length, ◌==◌, if◌then◌else◌, arith, Bool-cases, inl, inr, ◌>>=◌,
}
use nqbook.Prelude.Text.{Text, has}
use nqbook.Params.{c_str}
use nqbook.Params.Builder.{c_str_plain}
use nqbook.Csv.{is_special, has_special, double_quotes, csv_string, csv_names}

-- A reader of CSV. Behind a quote in a quoted field stands another one, or the field ends.
abbrev pub prepend : ℕ → Option (Text × Text) → Option (Text × Text)
prepend c none = none
prepend c (some (s, rest)) = some (c ∷ s, rest)

unfoldable pub read_quoted : Bool → Text → Option (Text × Text)
read_quoted false [] = none
read_quoted true [] = some ([], [])
read_quoted false (c ∷ s) =
    let after = read_quoted true s in
    let later = prepend c (read_quoted false s) in if c == b'"' then after else later
read_quoted true (c ∷ s) =
    let later = prepend c (read_quoted false s) in if c == b'"' then later else some ([], c ∷ s)

-- the end of a field
abbrev pub ends_field : ℕ → Bool
ends_field c = c == b',' || c == 10

unfoldable pub read_plain : Text → Text × Text
read_plain [] = ([], [])
read_plain (c ∷ s) =
    let rest = read_plain s in if ends_field c then ([], c ∷ s) else (c ∷ rest.0, rest.1)

unfoldable pub read_field : Text → Option (Text × Text)
read_field [] = some ([], [])
read_field (c ∷ s) = if c == b'"' then read_quoted false s else some (read_plain (c ∷ s))

-- fields, each behind a comma, and what follows them
unfoldable pub read_names : ℕ → Text → Option (List Text × Text)
read_names zero s = some ([], s)
read_names (suc k) [] = none
read_names (suc k) (c ∷ s) =
    let fields : Option (List Text × Text) = (do
      (n, rest) ← read_field s
      (ns, rest') ← read_names k rest
      some (n ∷ ns, rest')) in
    if c == b',' then fields else none

read_quoted-double_quotes :
    (s : Text) (c : ℕ) (t : Text)
    → (c == b'"') ≡ false
    → read_quoted false (double_quotes s ++ (b'"' ∷ c ∷ t)) ≡ some (s, c ∷ t)
unfolding read_quoted double_quotes
read_quoted-double_quotes [] c t other = rw other refl
read_quoted-double_quotes (d ∷ s) c t other = elim (Bool-cases (d == b'"')) [
  | inl quote ↦
      let same : d ≡ b'"' = ground (arith, quote) in
      rw quote (
        rw (read_quoted-double_quotes s c t other) (ap (λ (x : ℕ). some (x ∷ s, c ∷ t)) (sym same)))
  | inr plain ↦ rw plain (rw (plain, read_quoted-double_quotes s c t other) refl)
]

read_plain_same :
    (s : Text) (c : ℕ) (t : Text)
    → has_special s ≡ false
    → ends_field c ≡ true
    → read_plain (s ++ c ∷ t) ≡ (s, c ∷ t)
unfolding read_plain has_special is_special
read_plain_same [] c t none_there ends = rw ends refl
read_plain_same (d ∷ s) c t none_there ends =
    let inside : ends_field d ≡ false = ground (arith, none_there) in
    rw (inside, read_plain_same s c t (ground (arith, none_there)) ends) refl

read_field_plain :
    (s : Text) (c : ℕ) (t : Text)
    → has_special s ≡ false
    → ends_field c ≡ true
    → read_field (s ++ c ∷ t) ≡ some (s, c ∷ t)
unfolding read_field has_special is_special
read_field_plain [] c t none_there ends =
    let other : (c == b'"') ≡ false = ground (arith, ends) in
    rw other (ap some (read_plain_same [] c t refl ends))
read_field_plain (d ∷ s) c t none_there ends =
    let other : (d == b'"') ≡ false = ground (arith, none_there) in
    rw other (ap some (read_plain_same (d ∷ s) c t none_there ends))

read_field-csv_string :
    (s : Text) (c : ℕ) (t : Text)
    → ends_field c ≡ true
    → read_field (csv_string s ++ c ∷ t) ≡ some (s, c ∷ t)
unfolding csv_string
read_field-csv_string s c t ends = elim (Bool-cases (has_special s)) [
  | inl special ↦
      let other : (c == b'"') ≡ false = ground (arith, ends) in
      rw special (
        ap read_field (ap (◌∷◌ b'"') (append_assoc (double_quotes s) (b'"' ∷ []) (c ∷ t)))
        ∙ unfold read_field in read_quoted-double_quotes s c t other)
  | inr plain ↦ rw plain (read_field_plain s c t plain ends)
]

-- no null character in any of the texts
abbrev pub NoNull : List Text → Type 0
NoNull [] = Unit {0}
NoNull (n ∷ ns) = (has 0 n ≡ false) × NoNull ns

has-append : (c : ℕ) (s t : Text) → has c s ≡ false → has c t ≡ false → has c (s ++ t) ≡ false
unfolding has
has-append c [] t h k = k
has-append c (d ∷ s) t h k = ground (arith, has-append c s t)

double_quotes-NoNull : (s : Text) → has 0 s ≡ false → has 0 (double_quotes s) ≡ false
unfolding has double_quotes
double_quotes-NoNull [] h = refl
double_quotes-NoNull (d ∷ s) h = ground (arith, double_quotes-NoNull s)

csv_string-NoNull : (s : Text) → has 0 s ≡ false → has 0 (csv_string s) ≡ false
unfolding csv_string has
csv_string-NoNull s h = elim (Bool-cases (has_special s)) [
  | inl special ↦
      rw special (has-append 0 (double_quotes s) (b'"' ∷ []) (double_quotes-NoNull s h) refl)
  | inr plain ↦ rw plain h
]

csv_names_cons :
    (ns : List Text) (t : Text)
    → (c : ℕ) × (r : Text) × (csv_names ns ++ t ≡ c ∷ r) × (ends_field c ≡ true)
unfolding csv_names
csv_names_cons [] t = (10, t, refl, refl)
csv_names_cons (n ∷ ns) t = (b',', (c_str (csv_string n) ++ csv_names ns) ++ t, refl, refl)

-- A reader of CSV gets the names behind the first fields of a header back, whatever commas, quotes
-- and line breaks they hold, and what follows the line, where no name has a null character.
pub read_names-csv_names :
    (ns : List Text) (t : Text)
    → NoNull ns
    → read_names (length ns) (csv_names ns ++ t) ≡ some (ns, 10 ∷ t)
unfolding read_names csv_names
read_names-csv_names [] t plain = refl
read_names-csv_names (n ∷ ns) t (plain, others) =
    let (c, r, next, ends) = csv_names_cons ns t in
    let whole = c_str_plain (csv_string n) (csv_string-NoNull n plain) in
    let first : read_field ((c_str (csv_string n) ++ csv_names ns) ++ t)
        ≡ some (n, csv_names ns ++ t) =
      ap (λ (s : Text). read_field ((s ++ csv_names ns) ++ t)) whole
      ∙ ap read_field (append_assoc (csv_string n) (csv_names ns) t ∙ ap (◌++◌ (csv_string n)) next)
      ∙ read_field-csv_string n c r ends
      ∙ ap (λ (l : Text). some (n, l)) (sym next) in
    rw first (rw (read_names-csv_names ns t others) refl)

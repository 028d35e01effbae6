-- ===== src/Report/Reading.antt =====
-- src/Report.cpp: a reader of JSON on the strings that are written.
use mathlib.Core.List.{append_assoc}
use nqbook.Prelude.{
  ℕ, ◌≡◌, refl, ap, ◌∙◌, Bool, true, false, ◌||◌, ◌&&◌, [], ◌∷◌, ◌++◌, Option, none, some, ltb,
  ◌==◌, if◌then◌else◌, arith, Bool-cases, inl, inr,
}
use nqbook.Prelude.Text.{Text}
use nqbook.Report.{json_char, json_chars, json_string}

abbrev pub prepend : ℕ → Option (Text × Text) → Option (Text × Text)
prepend c none = none
prepend c (some (s, rest)) = some (c ∷ s, rest)

-- A reader of the inside of a JSON string, behind a backslash or not. It refuses the control
-- characters, which JSON does not allow in a string, and knows four escapes.
unfoldable pub read_chars : Bool → Text → Option (Text × Text)
read_chars escaped [] = none
read_chars false (c ∷ s) =
    let after = read_chars true s in
    let later = prepend c (read_chars false s) in
    if c == b'"'
    then some ([], s)
    else if c == b'\\'
    then after
    else if ltb c 32
    then none
    else later
read_chars true (c ∷ s) =
    let later = read_chars false s in
    if c == b'"'
    then prepend b'"' later
    else if c == b'\\'
    then prepend b'\\' later
    else if c == b'n'
    then prepend 10 later
    else if c == b't'
    then prepend 9 later
    else none

unfoldable pub read_json : Text → Option (Text × Text)
read_json [] = none
read_json (c ∷ s) = if c == b'"' then read_chars false s else none

-- the control characters, but for the two that JsonString escapes
abbrev pub is_control : ℕ → Bool
is_control c = ltb c 32 && (ltb c 9 || ltb 10 c)

abbrev pub has_control : Text → Bool
has_control [] = false
has_control (c ∷ s) = is_control c || has_control s

-- what a reader gets of a string with `t` behind it
abbrev pub expected : Text → Text → Option (Text × Text)
expected s t = if has_control s then none else some (s, t)

prepend_if :
    (c : ℕ) (bad : Bool) (s t : Text)
    → prepend c (if bad then none else some (s, t)) ≡ (if bad then none else some (c ∷ s, t))
prepend_if c true s t = refl
prepend_if c false s t = refl

read_chars-json_chars : (s t : Text) → read_chars false (json_chars s ++ (b'"' ∷ t)) ≡ expected s t
unfolding read_chars json_chars json_char
read_chars-json_chars [] t = refl
read_chars-json_chars (c ∷ s) t =
    let k = read_chars-json_chars s t in
    elim (Bool-cases (c == b'"')) [
      | inl quote ↦
          let same : c ≡ b'"' = ground (arith, quote) in
          rw same (ap (prepend b'"') k ∙ prepend_if b'"' (has_control s) s t)
      | inr q ↦ elim (Bool-cases (c == b'\\')) [
        | inl slash ↦
            let same : c ≡ b'\\' = ground (arith, slash) in
            rw same (ap (prepend b'\\') k ∙ prepend_if b'\\' (has_control s) s t)
        | inr b ↦ elim (Bool-cases (c == 10)) [
          | inl line ↦
              let same : c ≡ 10 = ground (arith, line) in
              rw same (ap (prepend 10) k ∙ prepend_if 10 (has_control s) s t)
          | inr l ↦ elim (Bool-cases (c == 9)) [
            | inl tab ↦
                let same : c ≡ 9 = ground (arith, tab) in
                rw same (ap (prepend 9) k ∙ prepend_if 9 (has_control s) s t)
            | inr h ↦ elim (Bool-cases (ltb c 32)) [
              | inl control ↦
                  let outside : (ltb c 9 || ltb 10 c) ≡ true = ground arith in
                  rw (q, b, l, h) (rw (q, b, control, outside) refl)
              | inr plain ↦
                  rw (q, b, l, h)
                    (rw (q, b, plain) (ap (prepend c) k ∙ prepend_if c (has_control s) s t))
            ]
          ]
        ]
      ]
    ]

-- A reader of JSON gets the string back that JsonString writes, with what follows it, unless it has a
-- control character other than the line break and the tab. It refuses a string that has one.
pub read_json-json_string :
    (s t : Text) → read_json (json_string s ++ t) ≡ (if has_control s then none else some (s, t))
unfolding read_json json_string
read_json-json_string s t =
    ap (read_chars false) (append_assoc (json_chars s) (b'"' ∷ []) t) ∙ read_chars-json_chars s t

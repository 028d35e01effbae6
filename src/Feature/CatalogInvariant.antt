-- ===== src/Feature/CatalogInvariant.antt =====
-- src/Feature/FeatureCatalog.cpp: what LoadPlugin and AddSampler keep, and what a sampler reads.
use mathlib.Core.Path.{ap₂}
use nqbook.Prelude.{
  ℕ, zero, suc, ◌+◌, ◌<◌, ◌≡◌, refl, sym, ap, subst, ◌∙◌, true, false, List, [], ◌∷◌, ◌++◌, some,
  arith, length, length-append, map, get_elem?, is_some, Bool-cases, Option-cases, inl, inr,
}
use nqbook.Prelude.Int.{pos, ◌<ℤ◌}
use nqbook.Prelude.Outcome.{ok, ok_injective, Result-cases}
use nqbook.Prelude.Text.{Text, is_nil, eq_text, eq_text→≡}
use nqbook.Feature.Sampler.{SamplerColumn}
use nqbook.Feature.Emission.{InRange}
use nqbook.Feature.Engine.{SamplerTemplate}
use nqbook.Feature.NewEngine.{Checked}
use nqbook.Feature.Catalog.{
  ColumnInfo, NamedTemplate, contains, find_column, find_template, all_sampled, sampled,
}

-- The sampled columns carry the given names in the catalog's columns.
abbrev pub Labelled : List ColumnInfo → List Text → List SamplerColumn → Type 0
Labelled columns [] [] = Unit {0}
Labelled columns [] (c ∷ cs) = ⊥
Labelled columns (n ∷ ns) [] = ⊥
Labelled columns (n ∷ ns) (c ∷ cs) =
    ((i : ColumnInfo) × (get_elem? columns c.index ≡ some i) × (i.name ≡ n) × (i.kind ≡ c.kind))
    × Labelled columns ns cs

abbrev pub AllLabelled : List ColumnInfo → List NamedTemplate → Type 0
AllLabelled columns [] = Unit {0}
AllLabelled columns (t ∷ ts) = Labelled columns t.names t.template.columns × AllLabelled columns ts

-- no text twice
abbrev pub Distinct : List Text → Type 0
Distinct [] = Unit {0}
Distinct (s ∷ ss) = (contains ss s ≡ false) × Distinct ss

get_elem?-length :
    {A : Type 0} (xs : List A) (i : ℕ) (x : A) → get_elem? xs i ≡ some x → i < length xs
get_elem?-length [] i x h = cc
get_elem?-length (y ∷ ys) zero x h = omega arith
get_elem?-length (y ∷ ys) (suc i) x h = omega (arith, get_elem?-length ys i x h)

pub Labelled-InRange :
    (columns : List ColumnInfo) (ns : List Text) (cs : List SamplerColumn)
    → Labelled columns ns cs
    → InRange cs (length columns)
Labelled-InRange columns [] [] h = tt
Labelled-InRange columns [] (c ∷ cs) h = absurd h
Labelled-InRange columns (n ∷ ns) [] h = absurd h
Labelled-InRange columns (n ∷ ns) (c ∷ cs) ((i, found, _, _), h) =
    (get_elem?-length columns c.index i found, Labelled-InRange columns ns cs h)

pub get_elem?-append_right :
    {A : Type 0} (xs : List A) (y : A) (ys : List A) → get_elem? (xs ++ y ∷ ys) (length xs) ≡ some y
get_elem?-append_right [] y ys = refl
get_elem?-append_right (x ∷ xs) y ys = get_elem?-append_right xs y ys

pub append-cons :
    {A : Type 0} (xs : List A) (y : A) (ys : List A) → xs ++ y ∷ ys ≡ (xs ++ y ∷ []) ++ ys
append-cons [] y ys = refl
append-cons (x ∷ xs) y ys = ap (◌∷◌ x) (append-cons xs y ys)

-- A sampler that names no columns has them all.
pub all_sampled-Labelled :
    (front cs : List ColumnInfo)
    → Labelled (front ++ cs) (all_sampled cs (length front)).0 (all_sampled cs (length front)).1
unfolding all_sampled
all_sampled-Labelled front [] = tt
all_sampled-Labelled front (c ∷ cs) = (
  (c, get_elem?-append_right front c cs, refl, refl),
  subst (λ (r : List Text × List SamplerColumn). Labelled (front ++ c ∷ cs) r.0 r.1)
      (ap (all_sampled cs) (length-append front (c ∷ []) ∙ omega arith))
      (subst
        (λ (l : List ColumnInfo).
          Labelled l (all_sampled cs (length (front ++ c ∷ []))).0
            (all_sampled cs (length (front ++ c ∷ []))).1)
        (sym (append-cons front c cs)) (all_sampled-Labelled (front ++ c ∷ []) cs)),
)

find_column-found :
    (cs : List ColumnInfo) (name : Text) (i k : ℕ)
    → find_column cs name i ≡ some k
    → (j : ℕ) × (k ≡ i + j) × (c : ColumnInfo) × (get_elem? cs j ≡ some c) × (c.name ≡ name)
unfolding find_column
find_column-found [] name i k h = cc
find_column-found (c ∷ cs) name i k h = elim (Bool-cases (eq_text c.name name)) [
  | inl here ↦ (0, ground (arith, h, here), c, refl, eq_text→≡ c.name name here)
  | inr later ↦
      let (j, at, d, found, same) = find_column-found cs name (suc i) k (rw later at h) in
      (suc j, omega arith, d, found, same)
]

unfoldable pub ReadsNames : List ColumnInfo → List Text → List Text × List SamplerColumn → Type 0
ReadsNames columns ns r = (r.0 ≡ ns) × Labelled columns r.0 r.1

pub sampled-Labelled :
    (columns : List ColumnInfo) (ns : List Text) (r : List Text × List SamplerColumn)
    → sampled columns ns ≡ ok r
    → ReadsNames columns ns r
unfolding sampled ReadsNames
sampled-Labelled columns [] r h = subst (ReadsNames columns []) (ok_injective h) (refl, tt)
sampled-Labelled columns (n ∷ ns) r h = elim (Option-cases (find_column columns n 0)) [
  | inl missing ↦ absurd (cc (rw missing at h))
  | inr (i, found) ↦
      let (j, at, c, here, same) = find_column-found columns n 0 i found in
      let here' : get_elem? columns i ≡ some c = ap (get_elem? columns) (at ∙ omega arith) ∙ here in
      elim (Result-cases (sampled columns ns)) [
        | inr (e, thrown) ↦ absurd (cc (rw (found, here', thrown) at h))
        | inl (rest, more) ↦
            let (names, labels) = sampled-Labelled columns ns rest more in
            subst (ReadsNames columns (n ∷ ns)) (ok_injective (rw (found, here', more) at h))
              (ap₂ ◌∷◌ same names, ((c, here', refl, refl), labels))
      ]
]

pub find_template-contains :
    (ts : List NamedTemplate) (name : Text)
    → is_some (find_template ts name) ≡ false
    → contains (map (λ (t : NamedTemplate). t.name) ts) name ≡ false
unfolding find_template contains
find_template-contains [] name h = refl
find_template-contains (t ∷ ts) name h = elim (Bool-cases (eq_text t.name name)) [
  | inl same ↦ absurd (cc (rw same at h))
  | inr other ↦ rw other (find_template-contains ts name (rw other at h))
]

contains-append :
    (ss : List Text) (s t : Text)
    → contains ss t ≡ false
    → eq_text s t ≡ false
    → contains (ss ++ s ∷ []) t ≡ false
unfolding contains
contains-append [] s t h k = rw k refl
contains-append (r ∷ rs) s t h k = ground (arith, contains-append rs s t)

eq_text_sym : (s t : Text) → eq_text s t ≡ eq_text t s
unfolding eq_text
eq_text_sym [] [] = refl
eq_text_sym [] (d ∷ t) = refl
eq_text_sym (c ∷ s) [] = refl
eq_text_sym (c ∷ s) (d ∷ t) = ground (arith, eq_text_sym s t)

pub Distinct-append :
    (ss : List Text) (s : Text) → Distinct ss → contains ss s ≡ false → Distinct (ss ++ s ∷ [])
unfolding contains
Distinct-append [] s d h = (refl, tt)
Distinct-append (r ∷ rs) s (fresh, d) h = (
  contains-append rs s r fresh (ground (arith, eq_text_sym r s)),
  Distinct-append rs s d (ground arith),
)

pub Checked-append :
    (ts : List SamplerTemplate) (t : SamplerTemplate) (n : ℕ)
    → Checked ts n
    → InRange t.columns n
    → pos 0 <ℤ t.spec.every
    → Checked (ts ++ t ∷ []) n
Checked-append [] t n h inside positive = (inside, positive, tt)
Checked-append (r ∷ rs) t n (a, b, h) inside positive =
    (a, b, Checked-append rs t n h inside positive)

pub AllLabelled-append :
    (columns : List ColumnInfo) (ts : List NamedTemplate) (t : NamedTemplate)
    → AllLabelled columns ts
    → Labelled columns t.names t.template.columns
    → AllLabelled columns (ts ++ t ∷ [])
AllLabelled-append columns [] t h k = (k, tt)
AllLabelled-append columns (r ∷ rs) t (l, h) k = (l, AllLabelled-append columns rs t h k)

pub map-append_one :
    {A B : Type 0} (f : A → B) (xs : List A) (x : A) → map f (xs ++ x ∷ []) ≡ map f xs ++ f x ∷ []
map-append_one f [] x = refl
map-append_one f (y ∷ ys) x = ap (◌∷◌ (f y)) (map-append_one f ys x)

pub Checked-is_nil :
    (ts : List NamedTemplate) (n : ℕ)
    → is_nil ts ≡ true
    → Checked (map (λ (t : NamedTemplate). t.template) ts) n
Checked-is_nil [] n h = tt
Checked-is_nil (t ∷ ts) n h = cc

pub AllLabelled-is_nil :
    (columns : List ColumnInfo) (ts : List NamedTemplate)
    → is_nil ts ≡ true
    → AllLabelled columns ts
AllLabelled-is_nil columns [] h = tt
AllLabelled-is_nil columns (t ∷ ts) h = cc

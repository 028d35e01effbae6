-- ===== src/Config/Blanks.antt =====
-- src/Config.cpp: what Trim takes and what it leaves.
use nqbook.Prelude.{
  ℕ, ◌≡◌, refl, ap, ◌∙◌, true, false, ◌&&◌, [], ◌∷◌, ◌++◌, arith, Bool-cases, inl, inr,
}
use nqbook.Prelude.Text.{Text, is_nil, is_nil-append_right}
use nqbook.Config.{is_blank, trim_front, trim_back, trim}

-- no blank in front
abbrev pub Flush : Text → Type 0
Flush [] = Unit {0}
Flush (c ∷ s) = is_blank c ≡ false

-- no blank at the end
abbrev pub Tight : Text → Type 0
Tight s = trim_back s ≡ s

trim_front-Flush : (s : Text) → Flush (trim_front s)
unfolding trim_front
trim_front-Flush [] = tt
trim_front-Flush (c ∷ s) = elim (Bool-cases (is_blank c)) [
  | inl blank ↦ rw blank (trim_front-Flush s)
  | inr solid ↦ rw solid solid
]

Flush-trim_front : (s : Text) → Flush s → trim_front s ≡ s
unfolding trim_front
Flush-trim_front [] h = refl
Flush-trim_front (c ∷ s) h = rw h refl

-- Nothing but a blank is taken at the end.
pub trim_back_cons : (c : ℕ) (s : Text) → is_blank c ≡ false → trim_back (c ∷ s) ≡ c ∷ trim_back s
unfolding trim_back
trim_back_cons c s h = rw h refl

trim_back-Flush : (s : Text) → Flush s → Flush (trim_back s)
unfolding trim_back
trim_back-Flush [] h = tt
trim_back-Flush (c ∷ s) h = rw (trim_back_cons c s h) h

trim_back-Tight : (s : Text) → Tight (trim_back s)
unfolding trim_back
trim_back-Tight [] = refl
trim_back-Tight (c ∷ s) = elim (Bool-cases (is_blank c && is_nil (trim_back s))) [
  | inl gone ↦ rw gone refl
  | inr kept ↦ rw kept (rw (trim_back-Tight s, kept) refl)
]

-- A text with no blank at either end is left as it is.
pub trim-Tight : (s : Text) → Flush s → Tight s → trim s ≡ s
unfolding trim
trim-Tight s h k = ap trim_back (Flush-trim_front s h) ∙ k

-- The end decides.
pub append-Tight : (s t : Text) → is_nil t ≡ false → Tight t → Tight (s ++ t)
unfolding trim_back
append-Tight [] t h k = k
append-Tight (c ∷ s) t h k = rw (append-Tight s t h k) (ground (arith, is_nil-append_right s t h))

abbrev pub AllBlank : Text → Type 0
AllBlank [] = Unit {0}
AllBlank (c ∷ s) = (is_blank c ≡ true) × AllBlank s

trim_front-parts : (s : Text) → (a : Text) × (s ≡ a ++ trim_front s) × AllBlank a
unfolding trim_front
trim_front-parts [] = ([], refl, tt)
trim_front-parts (c ∷ s) = elim (Bool-cases (is_blank c)) [
  | inl blank ↦
      let (a, same, all) = trim_front-parts s in (c ∷ a, rw blank (ap (◌∷◌ c) same), (blank, all))
  | inr solid ↦ ([], rw solid refl, tt)
]

is_nil→≡ : (s : Text) → is_nil s ≡ true → s ≡ []
is_nil→≡ [] h = refl
is_nil→≡ (c ∷ s) h = cc

trim_back-parts : (s : Text) → (b : Text) × (s ≡ trim_back s ++ b) × AllBlank b
unfolding trim_back
trim_back-parts [] = ([], refl, tt)
trim_back-parts (c ∷ s) =
    let (b, same, all) = trim_back-parts s in
    elim (Bool-cases (is_blank c && is_nil (trim_back s))) [
      | inl gone ↦
          let none_left : trim_back s ≡ [] = is_nil→≡ (trim_back s) (ground arith) in
          (
            c ∷ b,
            rw gone (ap (◌∷◌ c) (same ∙ ap (λ (t : Text). t ++ b) none_left)),
            (ground arith, all),
          )
      | inr kept ↦ (b, rw kept (ap (◌∷◌ c) same), all)
    ]

-- A text is what Trim leaves of it, with blanks on both sides, and what Trim leaves has none at
-- either end.
pub trim-parts :
    (s : Text)
    → (a : Text) × (b : Text) × (s ≡ a ++ (trim s ++ b))
      × AllBlank a
      × AllBlank b
      × Flush (trim s)
      × Tight (trim s)
unfolding trim
trim-parts s =
    let (a, front, blank_a) = trim_front-parts s in
    let (b, back, blank_b) = trim_back-parts (trim_front s) in
    (
      a,
      b,
      front ∙ ap (◌++◌ a) back,
      blank_a,
      blank_b,
      trim_back-Flush (trim_front s) (trim_front-Flush s),
      trim_back-Tight (trim_front s),
    )

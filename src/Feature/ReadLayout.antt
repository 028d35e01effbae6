-- ===== src/Feature/ReadLayout.antt =====
-- ReadAll of the engine: where each instance has its values, and what a read of every one leaves.
use mathlib.Core.List.{append-nil, append_assoc}
use nqbook.Prelude.{
  ℕ, ◌+◌, ◌≤◌, ◌≡◌, refl, sym, ap, ◌∙◌, List, [], ◌∷◌, ◌++◌, take, drop, length, length-append,
  length-take, length-drop, take-append, take_all, map, arith,
}
use nqbook.Nlib.{Nlib}
use nqbook.Orderbook.Book.{Book}
use nqbook.Feature.Double.{Double}
use nqbook.Feature.Instances.{Instances}
use nqbook.Feature.Sampler.{V}
use nqbook.Feature.Engine.{write_at, read_each}

module _ {nlib : Nlib} {D : Double} (P : Instances nlib D) where
  -- Each instance has its columns behind those of the one before it, the first from `start` on, and
  -- they end at `n`: no two share a value, and every value from `start` on is of an instance.
  abbrev pub Laid : List (Instances.Instance P) → List ℕ → ℕ → ℕ → Type 0
  Laid [] [] start n = start ≡ n
  Laid [] (o ∷ os) start n = ⊥
  Laid (i ∷ is) [] start n = ⊥
  Laid (i ∷ is) (o ∷ os) start n = (o ≡ start) × Laid is os (start + P.ncol i) n

  -- an instance behind a read
  abbrev pub after : Book nlib → Instances.Instance P → Instances.Instance P
  after b i = (P.read i b).1

  -- the values that a read of every instance gives, in their order
  unfoldable pub all_read : Book nlib → List (Instances.Instance P) → List (V D)
  all_read b [] = []
  all_read b (i ∷ is) = (P.read i b).0 ++ all_read b is

  Laid-≤ :
      (is : List (Instances.Instance P)) (os : List ℕ) (start n : ℕ)
      → Laid is os start n
      → start ≤ n
  Laid-≤ [] [] start n k = omega (arith, k)
  Laid-≤ [] (o ∷ os) start n k = absurd k
  Laid-≤ (i ∷ is) [] start n k = absurd k
  Laid-≤ (i ∷ is) (o ∷ os) start n (_, k) = omega (arith, Laid-≤ is os (start + P.ncol i) n k)

  pub map-Laid :
      (f : Instances.Instance P → Instances.Instance P) (is : List (Instances.Instance P))
      (os : List ℕ) (start n : ℕ)
      → ((i : Instances.Instance P) → P.ncol (f i) ≡ P.ncol i)
      → Laid is os start n
      → Laid (map f is) os start n
  map-Laid f [] [] start n same k = k
  map-Laid f [] (o ∷ os) start n same k = k
  map-Laid f (i ∷ is) [] start n same k = k
  map-Laid f (i ∷ is) (o ∷ os) start n same (at, k) =
      (at, rw (same i) (map-Laid f is os (start + P.ncol i) n same k))

  pub length-all_read :
      (b : Book nlib) (is : List (Instances.Instance P)) (os : List ℕ) (start n : ℕ)
      → Laid is os start n
      → start + length (all_read b is) ≡ n
  unfolding all_read
  length-all_read b [] [] start n k = omega (arith, k)
  length-all_read b [] (o ∷ os) start n k = absurd k
  length-all_read b (i ∷ is) [] start n k = absurd k
  length-all_read b (i ∷ is) (o ∷ os) start n (_, k) = omega (
    arith,
    length-append (P.read i b).0 (all_read b is),
    P.length-read i b,
    length-all_read b is os (start + P.ncol i) n k,
  )

  length-write_at :
      (values : List (V D)) (off : ℕ) (row : List (V D))
      → off + length row ≤ length values
      → length (write_at P values off row) ≡ length values
  unfolding write_at
  length-write_at values off row fits = omega (
    arith,
    length-append (take off values) (row ++ drop (off + length row) values),
    length-append row (drop (off + length row) values),
    length-take off values,
    length-drop (off + length row) values,
  )

  take-write_at :
      (values : List (V D)) (off k : ℕ) (row : List (V D))
      → length row ≡ k
      → off + k ≤ length values
      → take (off + k) (write_at P values off row) ≡ take off values ++ row
  unfolding write_at
  take-write_at values off k row same fits =
      let rest : List (V D) = drop (off + length row) values in
      rw (sym (append_assoc (take off values) row rest)) (
        take-append (off + k) (take off values ++ row) rest
          (omega (arith, length-append (take off values) row, length-take off values, same)))

  -- The loop of ReadAll writes the values of every instance behind one another.
  pub read_each_lem :
      (b : Book nlib) (is : List (Instances.Instance P)) (os : List ℕ) (values : List (V D))
      (start n : ℕ)
      → length values ≡ n
      → Laid is os start n
      → read_each P b is os values ≡ (map (after b) is, take start values ++ all_read b is)
  unfolding read_each all_read
  read_each_lem b [] [] values start n e k =
      ap (λ (l : List (V D)). ([], l))
        (sym (append-nil (take start values) ∙ take_all start values (omega (arith, e, k))))
  read_each_lem b [] (o ∷ os) values start n e k = absurd k
  read_each_lem b (i ∷ is) [] values start n e k = absurd k
  read_each_lem b (i ∷ is) (o ∷ os) values start n e (at, k) =
      let row : List (V D) = (P.read i b).0 in
      let inside : start + P.ncol i ≤ length values =
        omega (arith, Laid-≤ is os (start + P.ncol i) n k, e) in
      let width = P.length-read i b in
      let written = length-write_at values start row (omega (arith, width, inside)) in
      let rest =
        read_each_lem b is os (write_at P values start row) (start + P.ncol i) n (written ∙ e) k in
      let front = take-write_at values start (P.ncol i) row width inside in
      rw (at, rest, front, append_assoc (take start values) row (all_read b is)) refl

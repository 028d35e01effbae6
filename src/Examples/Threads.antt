-- ===== src/Examples/Threads.antt =====
-- An instance of the queue: a list and a bound.
use nqbook.Prelude.{
  ℕ, ◌≤◌, ◌≡◌, refl, List, [], ◌∷◌, ◌++◌, Option, none, some, length, ltb, arith, if◌then◌else◌,
}
use nqbook.Prelude.Text.{is_nil}
use nqbook.Nlib.SingleQueue.{SingleQueue}

pub record Bounded (A : Type 0) : Type 0 where
  pub bound : ℕ
  pub held : List A

abbrev pub push_bounded : {A : Type 0} → Bounded A → A → Option (Bounded A)
push_bounded q a =
    if ltb (length q.held) q.bound then some (record q { held = q.held ++ a ∷ [] }) else none

abbrev pub pop_held : {A : Type 0} → ℕ → List A → Option (A × Bounded A)
pop_held n [] = none
pop_held n (a ∷ rest) = some (a, record { bound = n; held = rest })

pub items-push_bounded :
    {A : Type 0} (q q' : Bounded A) (a : A)
    → push_bounded q a ≡ some q'
    → q'.held ≡ q.held ++ a ∷ []
items-push_bounded q q' a h = ground (arith, h)

pub push_bounded_full :
    {A : Type 0} (q : Bounded A) (a : A) → push_bounded q a ≡ none → q.bound ≤ length q.held
push_bounded_full q a h = ground (arith, h)

pub items-pop_held :
    {A : Type 0} (n : ℕ) (held : List A) (q' : Bounded A) (a : A)
    → pop_held n held ≡ some (a, q')
    → held ≡ a ∷ q'.held
items-pop_held n [] q' a h = cc
items-pop_held n (b ∷ rest) q' a h = cc

pub pop_held_empty : {A : Type 0} (n : ℕ) (held : List A) → pop_held n held ≡ none → held ≡ []
pop_held_empty n [] h = refl
pop_held_empty n (a ∷ rest) h = cc

abbrev pub bounded : (A : Type 0) → SingleQueue A
bounded A = record {
  Queue = Bounded A;
  make = λ n. record { bound = n; held = [] };
  items = λ q. q.held;
  capacity = λ q. q.bound;
  try_push = push_bounded;
  try_pop = λ q. pop_held q.bound q.held;
  is_empty = λ q. is_nil q.held;
  items-make = λ n. refl;
  items-try_push = items-push_bounded;
  try_push_full = push_bounded_full;
  items-try_pop = λ q q' a h. items-pop_held q.bound q.held q' a h;
  try_pop_empty = λ q h. pop_held_empty q.bound q.held h;
  is_empty-items = λ q. refl;
}

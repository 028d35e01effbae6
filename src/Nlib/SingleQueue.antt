-- ===== src/Nlib/SingleQueue.antt =====
-- nlib::single_queue, which the repository does not hold: a bounded queue of one producer and one
-- consumer, a parameter with its laws. `items` is what it holds, the oldest first.
use nqbook.Prelude.{Bool, ℕ, ◌≤◌, ◌≡◌, List, [], ◌∷◌, ◌++◌, Option, none, some, length}
use nqbook.Prelude.Text.{is_nil}

pub record SingleQueue (A : Type 0) : Type 1 where
  pub Queue : Type 0
  pub make : ℕ → Queue
  pub items : Queue → List A
  pub capacity : Queue → ℕ
  pub try_push : Queue → A → Option Queue
  pub try_pop : Queue → Option (A × Queue)
  pub is_empty : Queue → Bool
  pub items-make : (n : ℕ) → items (make n) ≡ []
  pub items-try_push :
      (q q' : Queue) (a : A) → try_push q a ≡ some q' → items q' ≡ items q ++ a ∷ []
  pub try_push_full : (q : Queue) (a : A) → try_push q a ≡ none → capacity q ≤ length (items q)
  pub items-try_pop : (q q' : Queue) (a : A) → try_pop q ≡ some (a, q') → items q ≡ a ∷ items q'
  pub try_pop_empty : (q : Queue) → try_pop q ≡ none → items q ≡ []
  pub is_empty-items : (q : Queue) → is_empty q ≡ is_nil (items q)

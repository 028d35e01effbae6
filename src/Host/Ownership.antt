-- ===== src/Host/Ownership.antt =====
-- shared/nqcppsdk/nq/feature_host.hpp and adapter_host.hpp: PluginInstance and AdapterInstance, the
-- objects that own a state of a plugin. A state is a number, the states in the order in which they
-- were made, by Create or by other code that hands them to the constructor.
use nqbook.Prelude.{ℕ, zero, suc, List, [], ◌∷◌, ◌++◌, Option, none, some, set, ◌==◌, if◌then◌else◌}

-- the objects, each with its state_, the states that nq_destroy has been called on, and the number
-- of states made so far
pub record Owners : Type 0 where
  pub held : List (Option ℕ)
  pub destroyed : List ℕ
  pub made : ℕ

-- `state_` of object `i`; an object that is not there has none
unfoldable pub state_of : List (Option ℕ) → ℕ → Option ℕ
state_of [] i = none
state_of (o ∷ os) zero = o
state_of (o ∷ os) (suc i) = state_of os i

-- Release, up to the reset of the state
unfoldable pub destroy_state : Option ℕ → List ℕ → List ℕ
destroy_state none destroyed = destroyed
destroy_state (some s) destroyed = s ∷ destroyed

-- the constructor on a state
unfoldable pub construct_instance : Owners → ℕ → Owners
construct_instance w s = record w { held = w.held ++ some s ∷ [] }

-- Create on a successful nq_init
unfoldable pub create_instance : Owners → Owners
create_instance w = construct_instance (record w { made = suc w.made }) w.made

-- the move constructor from object `j`
unfoldable pub move_construct : Owners → ℕ → Owners
move_construct w j = record w { held = set w.held j none ++ state_of w.held j ∷ [] }

-- Release of object `i`
unfoldable pub release : Owners → ℕ → Owners
release w i = record w {
  held = set w.held i none;
  destroyed = destroy_state (state_of w.held i) w.destroyed;
}

-- the move assignment to object `i` from object `j`
unfoldable pub move_assign : Owners → ℕ → ℕ → Owners
unfolding release
move_assign w i j = if i == j then w else record (release w i) {
  held = set (set (release w i).held j none) i (state_of (release w i).held j);
}

pub data Op : Type 0 where
  create : Op
  construct : ℕ → Op
  move_to_new : ℕ → Op
  assign : ℕ → ℕ → Op
  destroy : ℕ → Op

-- what a program does with instances: each of the operations, the destructor among them; the state
-- given to the constructor has been made elsewhere
unfoldable pub perform : Owners → Op → Owners
perform w create = create_instance w
perform w (construct s) = construct_instance (record w { made = suc w.made }) s
perform w (move_to_new j) = move_construct w j
perform w (assign i j) = move_assign w i j
perform w (destroy i) = release w i

unfoldable pub perform_all : Owners → List Op → Owners
perform_all w [] = w
perform_all w (o ∷ os) = perform_all (perform w o) os

abbrev pub no_owners : Owners
no_owners = record { held = []; destroyed = []; made = 0 }

-- ===== src/Host/OneOwner.antt =====
-- shared/nqcppsdk/nq/feature_host.hpp and adapter_host.hpp: the owners of the states of a plugin.
use nqbook.Prelude.{
  ℕ, zero, suc, ◌+◌, ◌<◌, ◌≡◌, refl, sym, subst, ap, ◌∙◌, length-set, false, List, [], ◌∷◌, ◌++◌,
  Option, none, some, length, set, ◌==◌, ltb, if◌then◌else◌, arith, Bool-cases, inl, inr,
}
use nqbook.Host.Ownership.{
  Owners, state_of, destroy_state, construct_instance, create_instance, move_construct, release,
  move_assign, Op, create, construct, move_to_new, assign, destroy, perform, perform_all, no_owners,
}

-- whether an object holds the state `s`
abbrev holds : ℕ → Option ℕ → ℕ
holds s none = 0
holds s (some t) = if t == s then 1 else 0

-- how many objects hold it
abbrev pub owners_of : ℕ → List (Option ℕ) → ℕ
owners_of s [] = 0
owners_of s (o ∷ os) = holds s o + owners_of s os

-- how often it has been destroyed
abbrev pub times : ℕ → List ℕ → ℕ
times s [] = 0
times s (t ∷ ts) = (if t == s then 1 else 0) + times s ts

-- Every state that was made has either one owner or been destroyed once; others have neither.
abbrev pub OneOwner : Owners → Type 0
OneOwner w = (s : ℕ) → owners_of s w.held + times s w.destroyed ≡ (if ltb s w.made then 1 else 0)

owners_of-append :
    (s : ℕ) (os ps : List (Option ℕ)) → owners_of s (os ++ ps) ≡ owners_of s os + owners_of s ps
owners_of-append s [] ps = omega arith
owners_of-append s (o ∷ os) ps = omega (arith, owners_of-append s os ps)

owners_of-set :
    (s : ℕ) (os : List (Option ℕ)) (i : ℕ)
    → owners_of s (set os i none) + holds s (state_of os i) ≡ owners_of s os
unfolding state_of
owners_of-set s [] i = refl
owners_of-set s (o ∷ os) zero = omega arith
owners_of-set s (o ∷ os) (suc i) = omega (arith, owners_of-set s os i)

times-destroy_state :
    (s : ℕ) (o : Option ℕ) (ts : List ℕ) → times s (destroy_state o ts) ≡ holds s o + times s ts
unfolding destroy_state
times-destroy_state s none ts = omega arith
times-destroy_state s (some t) ts = refl

create_instance-OneOwner : (w : Owners) → OneOwner w → OneOwner (create_instance w)
unfolding create_instance construct_instance
create_instance-OneOwner w k s = ground (arith, k s, owners_of-append s w.held (some w.made ∷ []))

move_construct-OneOwner : (w : Owners) (j : ℕ) → OneOwner w → OneOwner (move_construct w j)
unfolding move_construct
move_construct-OneOwner w j k s = omega (
  arith,
  k s,
  owners_of-append s (set w.held j none) (state_of w.held j ∷ []),
  owners_of-set s w.held j,
)

release-OneOwner : (w : Owners) (i : ℕ) → OneOwner w → OneOwner (release w i)
unfolding release
release-OneOwner w i k s =
    omega
      (arith, k s, owners_of-set s w.held i, times-destroy_state s (state_of w.held i) w.destroyed)

owners_of-set_value :
    (s : ℕ) (os : List (Option ℕ)) (i : ℕ) (v : Option ℕ)
    → i < length os
    → owners_of s (set os i v) + holds s (state_of os i) ≡ owners_of s os + holds s v
unfolding state_of
owners_of-set_value s [] i v h = absurd (omega arith)
owners_of-set_value s (o ∷ os) zero v h = omega arith
owners_of-set_value s (o ∷ os) (suc i) v h =
    omega (arith, owners_of-set_value s os i v (omega arith))

state_of-set_self : (os : List (Option ℕ)) (i : ℕ) → state_of (set os i none) i ≡ none
unfolding state_of
state_of-set_self [] i = refl
state_of-set_self (o ∷ os) zero = refl
state_of-set_self (o ∷ os) (suc i) = state_of-set_self os i

state_of-set_ne :
    (os : List (Option ℕ)) (i j : ℕ) (v : Option ℕ)
    → (i == j) ≡ false
    → state_of (set os j v) i ≡ state_of os i
unfolding state_of
state_of-set_ne [] i j v h = refl
state_of-set_ne (o ∷ os) zero zero v h = ground arith
state_of-set_ne (o ∷ os) zero (suc j) v h = refl
state_of-set_ne (o ∷ os) (suc i) zero v h = refl
state_of-set_ne (o ∷ os) (suc i) (suc j) v h = state_of-set_ne os i j v (ground arith)

-- the write of a state over an empty one
swapped :
    (s : ℕ) (os : List (Option ℕ)) (i j : ℕ)
    → i < length os
    → (i == j) ≡ false
    → state_of os i ≡ none
    → owners_of s (set (set os j none) i (state_of os j)) ≡ owners_of s os
swapped s os i j h ne empty =
    let gone : holds s (state_of (set os j none) i) ≡ 0 =
      ap (holds s) (state_of-set_ne os i j none ne ∙ empty) in
    omega (
      arith,
      gone,
      owners_of-set s os j,
      owners_of-set_value s (set os j none) i (state_of os j) (omega (arith, length-set os j none)),
    )

move_assign-OneOwner :
    (w : Owners) (i j : ℕ) → i < length w.held → OneOwner w → OneOwner (move_assign w i j)
unfolding move_assign release
move_assign-OneOwner w i j h k s = elim (Bool-cases (i == j)) [
  | inl same ↦ rw same (k s)
  | inr ne ↦ rw ne (
      omega (
        arith,
        k s,
        owners_of-set s w.held i,
        times-destroy_state s (state_of w.held i) w.destroyed,
        swapped s (set w.held i none) i j (omega (arith, length-set w.held i none)) ne
            (state_of-set_self w.held i),
      ))
]

-- The objects that are assigned to are there, and a state that is given to the constructor is new.
abbrev pub AllThere : Owners → List Op → Type 0
AllThere w [] = Unit {0}
AllThere w (create ∷ os) = AllThere (perform w create) os
AllThere w (construct s ∷ os) = (s ≡ w.made) × AllThere (perform w (construct s)) os
AllThere w (move_to_new j ∷ os) = AllThere (perform w (move_to_new j)) os
AllThere w (assign i j ∷ os) = (i < length w.held) × AllThere (perform w (assign i j)) os
AllThere w (destroy i ∷ os) = AllThere (perform w (destroy i)) os

-- Whatever a program does with instances, where the objects that it assigns to are there and the
-- constructor is given new states, each state has one owner or has been destroyed once, and
-- never both: no state is destroyed twice, and none is lost.
pub perform_all-OneOwner :
    (w : Owners) (os : List Op) → AllThere w os → OneOwner w → OneOwner (perform_all w os)
unfolding perform_all perform
perform_all-OneOwner w [] t k = k
perform_all-OneOwner w (create ∷ os) t k =
    perform_all-OneOwner (create_instance w) os t (create_instance-OneOwner w k)
perform_all-OneOwner w (construct s ∷ os) (new, t) k =
    perform_all-OneOwner (perform w (construct s)) os t (
      subst (λ (s : ℕ). OneOwner (construct_instance (record w { made = suc w.made }) s)) (sym new)
        (unfold create_instance in create_instance-OneOwner w k))
perform_all-OneOwner w (move_to_new j ∷ os) t k =
    perform_all-OneOwner (move_construct w j) os t (move_construct-OneOwner w j k)
perform_all-OneOwner w (assign i j ∷ os) (h, t) k =
    perform_all-OneOwner (move_assign w i j) os t (move_assign-OneOwner w i j h k)
perform_all-OneOwner w (destroy i ∷ os) t k =
    perform_all-OneOwner (release w i) os t (release-OneOwner w i k)

pub no_owners-OneOwner : OneOwner no_owners
no_owners-OneOwner s = ground arith

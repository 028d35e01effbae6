-- ===== src/Examples/Environment.antt =====
-- An instance of the nlib parameters: an id map as a function, and pools of 1024 addresses.
use nqbook.Prelude.{
  ℕ, suc, ◌+◌, ◌*◌, ◌/◌, ◌%◌, ◌<◌, ◌≡◌, refl, ◌&&◌, ◌⊎◌, Option, none, some, arith, ltb, ◌==◌, Bool,
  Bool-cases, inl, inr, ap, if◌then◌else◌,
}
use nqbook.Nlib.{Ptr, IdMap, MemoryPool, Nlib}

abbrev function_map : IdMap
function_map = record {
  Map = ℕ → Option Ptr;
  empty = λ j. none;
  find = λ m j. m j;
  try_emplace = λ m i p j. if i == j then some p else m j;
  erase = λ m i j. if i == j then none else m j;
  find-empty = λ j. refl;
  find-try_emplace = λ m i p j h. refl;
  find-erase = λ m i j. refl;
}

pub record Block : Type 0 where
  pub number : ℕ
  pub capacity : ℕ
  pub used : ℕ

abbrev pub room : Block → Bool
room s = ltb s.used s.capacity && ltb s.used 1024

abbrev pub allocate : Block → Option Ptr × Block
allocate s =
    if room s then (some (s.number * 1024 + s.used), record s { used = suc s.used }) else (none, s)

abbrev pub Gave : Block → Ptr → Type 0
Gave s p = (p / 1024 ≡ s.number) × (p % 1024 < s.used)

pub not-Gave_fresh : (s : Block) (p : Ptr) → (allocate s).0 ≡ some p → ¬ Gave s p
not-Gave_fresh s p e g = ground arith

address-eq : (n k p : ℕ) → p / 1024 ≡ n → p % 1024 ≡ k → n * 1024 + k ≡ p
address-eq n k p q r = omega arith

pub Gave-after :
    (s : Block) (p : Ptr) → Gave (allocate s).1 p → Gave s p ⊎ ((allocate s).0 ≡ some p)
Gave-after s p g = elim (Bool-cases (room s)) [
  | inl e ↦ elim (Bool-cases (ltb (p % 1024) s.used)) [
    | inl old ↦ inl (ground arith)
    | inr new ↦ rw e (inr (ap some (address-eq s.number s.used p (ground arith) (ground arith))))
  ]
  | inr e ↦ inl (ground arith)
]

pub Gave-before :
    (s : Block) (p : Ptr) → Gave s p ⊎ ((allocate s).0 ≡ some p) → Gave (allocate s).1 p
Gave-before s p g = ground arith

pub number-allocate : (s : Block) → (allocate s).1.number ≡ s.number
number-allocate s = ground arith

pub first_address :
    (n c : ℕ)
    → 0 < c
    → (p : Ptr) × ((allocate (record { number = n; capacity = c; used = 0 })).0 ≡ some p)
first_address n c h = (n * 1024 + 0, ground arith)

abbrev blocks : MemoryPool
blocks = record {
  Slab = Block;
  make = λ n c. record { number = n; capacity = c; used = 0 };
  number = λ s. s.number;
  allocate = allocate;
  Gave = Gave;
  number-make = λ n c. refl;
  number-allocate = number-allocate;
  not-Gave-make = λ n c p g. omega arith;
  not-Gave_fresh = not-Gave_fresh;
  Gave-allocate = λ s p. (Gave-after s p, Gave-before s p);
  Gave_apart = λ s t p g h. omega arith;
  allocate-make = first_address;
}

abbrev pub nlib : Nlib
nlib = record { ids = function_map; slabs = blocks }

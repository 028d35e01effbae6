-- ===== src/Orderbook/Queues.antt =====
-- What the levels of a book stand for: a queue of orders for each side and price.
use nqbook.Prelude.{
  ◌⊎◌, sym, ap, ◌∙◌, subst, Bool-cases, inl, inr, ℕ, ◌≡◌, refl, Bool, true, false, ◌&&◌, List, [],
  ◌∷◌, ◌++◌, Option, none, some, arith, ◌==◌, length, if◌then◌else◌,
}
use nqbook.Prelude.Int.{ℤ, pos, ◌+ℤ◌, ◌<ℤ◌, eqb_ℤ, eqb_ℤ→eq, eqb_ℤ_refl, int_laws}
use nqbook.Abi.{is_bid}
use nqbook.Nlib.{Ptr}
use nqbook.Orderbook.PriceLevels.{LevelRef, Level}
use nqbook.Orderbook.Memory.{Order, Heap}
use nqbook.Orderbook.Segments.{has, Distinct, Seg, Seg-same}

abbrev pub eq_side : Bool → Bool → Bool
eq_side true b = b
eq_side false true = false
eq_side false false = true

abbrev pub eq_ref : LevelRef → LevelRef → Bool
eq_ref r s = eq_side r.is_bids s.is_bids && eqb_ℤ r.at s.at

pub eq_ref→eq : (r s : LevelRef) → eq_ref r s ≡ true → r ≡ s
eq_ref→eq r s e = ground (arith, eqb_ℤ→eq r.at s.at)

pub eq_ref_refl : (r : LevelRef) → eq_ref r r ≡ true
eq_ref_refl r = ground (arith, eqb_ℤ_refl r.at)

-- the quantity of a queue
unfoldable pub total : Heap → List Ptr → ℤ
total h [] = pos 0
total h (x ∷ xs) = (h x).qty +ℤ total h xs

pub total-nil : (h : Heap) → total h [] ≡ pos 0
unfolding total
total-nil h = refl

pub total-append : (h : Heap) (xs ys : List Ptr) → total h (xs ++ ys) ≡ total h xs +ℤ total h ys
unfolding total
total-append h [] ys = omega int_laws
total-append h (x ∷ xs) ys = rw (total-append h xs ys) (omega int_laws)

pub total-same :
    (g h : Heap) (xs : List Ptr)
    → ((a : Ptr) → has a xs ≡ true → (g a).qty ≡ (h a).qty)
    → total g xs ≡ total h xs
unfolding total
total-same g h [] same = refl
total-same g h (x ∷ xs) same =
    rw (same x (ground arith), total-same g h xs (λ a i. same a (ground arith)))

-- A level's fields describe its queue.
pub record Holds (h : Heap) (r : LevelRef) (xs : List Ptr) (lv : Level) : Type 0 where
  pub priced : lv.price ≡ r.at
  pub chain : Seg h none xs lv.head lv.tail none
  pub counted : lv.count ≡ length xs
  pub summed : lv.qty ≡ total h xs

-- An order of a queue points back at its level, with the level's side and price.
pub record Own (v : Order) (r : LevelRef) : Type 0 where
  pub level : v.level ≡ some r
  pub price : v.price ≡ r.at
  pub side : is_bid v.side ≡ r.is_bids
  pub positive : pos 0 <ℤ v.qty

abbrev pub Queues : Type 0
Queues = LevelRef → List Ptr

-- A price without a level has no order.
abbrev pub Describes : Heap → LevelRef → List Ptr → Option Level → Type 0
Describes h r xs none = xs ≡ []
Describes h r xs (some lv) = Holds h r xs lv

pub record Linked (h : Heap) (L : LevelRef → Option Level) (Q : Queues) : Type 0 where
  pub described : (r : LevelRef) → Describes h r (Q r) (L r)
  pub distinct : (r : LevelRef) → Distinct (Q r)
  pub own : (r : LevelRef) (a : Ptr) → has a (Q r) ≡ true → Own (h a) r

pub present :
    {h : Heap} {L : LevelRef → Option Level} {Q : Queues} (k : Linked h L Q) (r : LevelRef)
    (lv : Level)
    → L r ≡ some lv
    → Holds h r (Q r) lv
present {h} {Q} k r lv e = subst (Describes h r (Q r)) e (k.described r)

-- No order stands in two queues.
pub queue-eq :
    {h : Heap} {L : LevelRef → Option Level} {Q : Queues} (k : Linked h L Q) (r s : LevelRef)
    (a : Ptr)
    → has a (Q r) ≡ true
    → has a (Q s) ≡ true
    → r ≡ s
queue-eq k r s a i j = cc (Own.level (k.own r a i), Own.level (k.own s a j))

pub eq_of_== : (a b : ℕ) → (a == b) ≡ true → a ≡ b
eq_of_== a b e = ground arith

pub ==_refl : (a : ℕ) → (a == a) ≡ true
==_refl a = ground arith

pub queues_apart :
    {h : Heap} {L : LevelRef → Option Level} {Q : Queues} (k : Linked h L Q) (r s : LevelRef)
    → eq_ref r s ≡ false
    → (a b : Ptr) → has a (Q r) ≡ true
    → has b (Q s) ≡ true
    → (a == b) ≡ false
queues_apart {Q} k r s ne a b i j = elim (Bool-cases (a == b)) [
  | inl e ↦
      let same = queue-eq k r s b (subst (λ (x : Ptr). has x (Q r) ≡ true) (eq_of_== a b e) i) j in
      let self : eq_ref r r ≡ false = subst (λ (t : LevelRef). eq_ref r t ≡ false) (sym same) ne in
      cc (eq_ref_refl r)
  | inr e ↦ e
]

pub ne_of_members :
    (o a : Ptr) (xs : List Ptr) → has o xs ≡ false → has a xs ≡ true → (o == a) ≡ false
ne_of_members o a xs off i = elim (Bool-cases (o == a)) [
  | inl e ↦ cc (subst (λ (x : Ptr). has x xs ≡ false) (eq_of_== o a e) off)
  | inr e ↦ e
]

-- A queue is described alike in two heaps that agree on its orders.
pub Holds-same :
    (g h : Heap) (r : LevelRef) (xs : List Ptr) (lv : Level)
    → ((a : Ptr) → has a xs ≡ true → g a ≡ h a)
    → Holds h r xs lv
    → Holds g r xs lv
Holds-same g h r xs lv same k = record {
  priced = k.priced;
  chain = Seg-same g h none xs lv.head lv.tail none same k.chain;
  counted = k.counted;
  summed = k.summed ∙ sym (total-same g h xs (λ a i. ap (λ (v : Order). v.qty) (same a i)));
}

-- an order with the same data at the same level; its links may differ
pub record Alike (v w : Order) : Type 0 where
  pub id : v.id ≡ w.id
  pub price : v.price ≡ w.price
  pub qty : v.qty ≡ w.qty
  pub ts : v.ts ≡ w.ts
  pub side : v.side ≡ w.side
  pub level : v.level ≡ w.level

pub Own-Alike : {v w : Order} {r : LevelRef} → Alike v w → Own w r → Own v r
Own-Alike {v} {w} {r} e k = ground arith

pub Describes-same :
    (g h : Heap) (r : LevelRef) (xs : List Ptr) (o : Option Level)
    → ((a : Ptr) → has a xs ≡ true → g a ≡ h a)
    → Describes h r xs o
    → Describes g r xs o
Describes-same g h r xs none same k = k
Describes-same g h r xs (some lv) same k = Holds-same g h r xs lv same k

-- the queues with another one for `r`
abbrev pub set_queue : Queues → LevelRef → List Ptr → Queues
set_queue Q r xs s = if eq_ref r s then xs else Q s

pub set_queue_self :
    (Q : Queues) (r : LevelRef) (xs : List Ptr)
    → Q r ≡ xs
    → (s : LevelRef) → set_queue Q r xs s ≡ Q s
set_queue_self Q r xs e s = elim (Bool-cases (eq_ref r s)) [
  | inl same ↦ rw same (sym e ∙ ap Q (eq_ref→eq r s same))
  | inr ne ↦ rw ne refl
]

-- A change of one queue, of its level and of its orders.
pub Linked-set_queue :
    {h : Heap} {L : LevelRef → Option Level} {Q : Queues} (k : Linked h L Q) (g : Heap)
    (L' : LevelRef → Option Level) (r : LevelRef) (xs : List Ptr) (lv : Option Level)
    → ((s : LevelRef) → L' s ≡ (if eq_ref r s then lv else L s))
    → Describes g r xs lv
    → Distinct xs
    → ((a : Ptr) → has a xs ≡ true → Own (g a) r)
    → ((s : LevelRef) (a : Ptr) → eq_ref r s ≡ false → has a (Q s) ≡ true → g a ≡ h a)
    → Linked g L' (set_queue Q r xs)
Linked-set_queue {h} {L} {Q} k g L' r xs lv put describes distinct own same = record {
  described = λ s. elim (Bool-cases (eq_ref r s)) [
    | inl e ↦
        rw (put s, e) (subst (λ (t : LevelRef). Describes g t xs lv) (eq_ref→eq r s e) describes)
    | inr e ↦ rw (put s, e) (Describes-same g h s (Q s) (L s) (λ a i. same s a e i) (k.described s))
  ];
  distinct =
      λ s. elim (Bool-cases (eq_ref r s)) [ inl e ↦ rw e distinct | inr e ↦ rw e (k.distinct s) ];
  own = λ s a. elim (Bool-cases (eq_ref r s)) [
    | inl e ↦ rw e λ i. subst (Own (g a)) (eq_ref→eq r s e) (own a i)
    | inr e ↦ rw e λ i. subst (λ (v : Order). Own v s) (sym (same s a e i)) (k.own s a i)
  ];
}

-- Where an order stands after a change of one queue.
pub has-set_queue :
    (Q : Queues) (r s : LevelRef) (xs : List Ptr) (a : Ptr)
    → has a (set_queue Q r xs s) ≡ true
    → ((r ≡ s) × (has a xs ≡ true)) ⊎ ((eq_ref r s ≡ false) × (has a (Q s) ≡ true))
has-set_queue Q r s xs a i = elim (Bool-cases (eq_ref r s)) [
  | inl e ↦ inl (eq_ref→eq r s e, rw e at i)
  | inr e ↦ inr (e, rw e at i)
]

-- Only the orders of the queues matter.
pub Linked-same :
    {h : Heap} {L : LevelRef → Option Level} {Q : Queues} (g : Heap)
    → ((s : LevelRef) (a : Ptr) → has a (Q s) ≡ true → g a ≡ h a)
    → Linked h L Q
    → Linked g L Q
Linked-same {h} {L} {Q} g same k = record {
  described = λ r. Describes-same g h r (Q r) (L r) (same r) (k.described r);
  distinct = k.distinct;
  own = λ r a i. subst (λ (v : Order). Own v r) (sym (same r a i)) (k.own r a i);
}

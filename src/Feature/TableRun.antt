-- ===== src/Feature/TableRun.antt =====
-- The table of pipelines on a feed: every event finds its entry, and every operation returns.
use nqbook.Prelude.{
  ℕ, zero, suc, ◌+◌, ◌-◌, ◌<◌, ◌^◌, ◌≡◌, refl, sym, ap, ◌∙◌, subst, Bool, true, false, List, [],
  ◌∷◌, ◌++◌, Option, none, some, length, length-append, get_elem?, set, ◌==◌, leb, if◌then◌else◌,
  arith, Bool-cases, inl, inr, ◌⊎◌,
}
use native.Mathlib.Nat.{mod-eq_of_lt}
use nqbook.Nlib.{Nlib}
use nqbook.Orderbook.Entries.{Entry}
use nqbook.Feature.Double.{Double}
use nqbook.Feature.Instances.{Instances}
use nqbook.Feature.Pipeline.{Pipeline}
use nqbook.Feature.PipelineRun.{PipelineOk}
use nqbook.Feature.PipelineTable.{
  TableEntry, Table, entries_from, grow_entries, new_size, next_id, at_entry, each_live,
}

get_elem?-set :
    {A : Type 0} (xs : List A) (i j : ℕ) (e v : A)
    → get_elem? xs i ≡ some e
    → get_elem? (set xs i v) j ≡ (if i == j then some v else get_elem? xs j)
get_elem?-set [] i j e v k = cc
get_elem?-set (x ∷ xs) zero zero e v k = refl
get_elem?-set (x ∷ xs) zero (suc j) e v k = ground arith
get_elem?-set (x ∷ xs) (suc i) zero e v k = ground arith
get_elem?-set (x ∷ xs) (suc i) (suc j) e v k = ground (arith, get_elem?-set xs i j e v k)

pub get_elem?-some :
    {A : Type 0} (xs : List A) (i : ℕ) → i < length xs → (e : A) × (get_elem? xs i ≡ some e)
get_elem?-some [] i lt = absurd (omega arith)
get_elem?-some (x ∷ xs) zero lt = (x, refl)
get_elem?-some (x ∷ xs) (suc i) lt = get_elem?-some xs i (omega arith)

get_elem?-append :
    {A : Type 0} (xs ys : List A) (i : ℕ) (e : A)
    → get_elem? xs i ≡ some e
    → get_elem? (xs ++ ys) i ≡ some e
get_elem?-append [] ys i e k = cc
get_elem?-append (x ∷ xs) ys zero e k = k
get_elem?-append (x ∷ xs) ys (suc i) e k = get_elem?-append xs ys i e k

size : (old i : ℕ) → i + 1 < 2 ^ 32 → leb old i ≡ true → i < old + (new_size i old - old)
unfolding new_size next_id
size old i small beyond = ground (arith, mod-eq_of_lt {n = i + 1} {m = 2 ^ 32} small)

module _ {nlib : Nlib} {D : Double} (P : Instances nlib D) (n : ℕ) where
  -- an entry with a pipeline
  abbrev pub Open : List (TableEntry P) → ℕ → Type 0
  Open es i =
      (e : TableEntry P) × (p : Pipeline P) × (get_elem? es i ≡ some e) × (e.pipeline ≡ some p)

  abbrev pub AllOpen : List (TableEntry P) → List ℕ → Type 0
  AllOpen es [] = Unit {0}
  AllOpen es (i ∷ is) = Open es i × AllOpen es is

  -- Every pipeline of the entries is in step, over the orders of its instrument.
  abbrev pub Good : (ℕ → List Entry) → List (TableEntry P) → Type 0
  Good books es =
      (i : ℕ) (e : TableEntry P) (p : Pipeline P)
      → get_elem? es i ≡ some e
      → e.pipeline ≡ some p
      → PipelineOk P p (books i) n

  -- The pipelines are in step over `books`, the orders of each instrument, which has none before
  -- its pipeline is open. Those in `live` are open.
  pub record TableOk (t : Table P) (books : ℕ → List Entry) : Type 0 where
    pub good : Good books t.entries
    pub live : AllOpen t.entries t.live
    pub closed : (i : ℕ) → Open t.entries i ⊎ (books i ≡ [])

  pub AllOpen-keeps :
      (es fs : List (TableEntry P)) (is : List ℕ)
      → ((i : ℕ) → Open es i → Open fs i)
      → AllOpen es is
      → AllOpen fs is
  AllOpen-keeps es fs [] keeps k = tt
  AllOpen-keeps es fs (i ∷ is) keeps (o, k) = (keeps i o, AllOpen-keeps es fs is keeps k)

  pub AllOpen-snoc :
      (es : List (TableEntry P)) (is : List ℕ) (i : ℕ)
      → AllOpen es is
      → Open es i
      → AllOpen es (is ++ i ∷ [])
  AllOpen-snoc es [] i k o = (o, tt)
  AllOpen-snoc es (j ∷ is) i (o, k) p = (o, AllOpen-snoc es is i k p)

  -- A write of an entry with a pipeline in step, which changes the orders of its instrument only.
  pub set-Open :
      (es : List (TableEntry P)) (i : ℕ) (e v : TableEntry P) (q : Pipeline P)
      (books books' : ℕ → List Entry)
      → get_elem? es i ≡ some e
      → v.pipeline ≡ some q
      → PipelineOk P q (books' i) n
      → ((j : ℕ) → (i == j) ≡ false → books' j ≡ books j)
      → Good books es
      → Good books' (set es i v) × ((j : ℕ) → Open es j → Open (set es i v) j) × Open (set es i v) i
  set-Open es i e v q books books' at has ok others good = (
    λ j d p found piped. elim (Bool-cases (i == j)) [
      | inl same ↦
          let new : v ≡ d = ground (arith, get_elem?-set es i j e v at) in
          let one : q ≡ p = ground (arith, ap (λ (d : TableEntry P). d.pipeline) new) in
          let here : i ≡ j = ground arith in
          subst (λ (j : ℕ). PipelineOk P p (books' j) n) here
            (subst (λ (p : Pipeline P). PipelineOk P p (books' i) n) one ok)
      | inr ne ↦
          subst (λ (orders : List Entry). PipelineOk P p orders n) (sym (others j ne))
            (good j d p (sym (elsewhere j ne) ∙ found) piped)
    ],
    λ j (d, p, found, piped). elim (Bool-cases (i == j)) [
      | inl same ↦ (
        v,
        q,
        get_elem?-set es i j e v at ∙ ap (λ (t : Bool). if t then some v else get_elem? es j) same,
        has,
      )
      | inr ne ↦ (d, p, elsewhere j ne ∙ found, piped)
    ],
    (v, q, get_elem?-set es i i e v at ∙ ground arith, has),
  )
    where
      elsewhere : (j : ℕ) → (i == j) ≡ false → get_elem? (set es i v) j ≡ get_elem? es j
      elsewhere j ne =
          get_elem?-set es i j e v at ∙ ap (λ (t : Bool). if t then some v else get_elem? es j) ne

  -- a step of a pipeline that returns in step
  abbrev Steady : (Pipeline P → Option (Pipeline P)) → Type 0
  Steady f =
      (p : Pipeline P) (orders : List Entry)
      → PipelineOk P p orders n
      → (p' : Pipeline P) × (f p ≡ some p') × PipelineOk P p' orders n

  at_entry-Open :
      (f : Pipeline P → Option (Pipeline P))
      → Steady f
      → (books : ℕ → List Entry) (es : List (TableEntry P)) (i : ℕ) → Good books es
      → Open es i
      → (es' : List (TableEntry P)) × (at_entry P f es i ≡ some es')
        × Good books es'
        × ((j : ℕ) → Open es j → Open es' j)
  unfolding at_entry
  at_entry-Open f steady books es i good (e, p, found, piped) =
      let (p', stepped, ok') = steady p (books i) (good i e p found piped) in
      let v : TableEntry P = record e { pipeline = some p' } in
      let (good', keeps, here) =
        set-Open es i e v p' books books found refl ok' (λ j ne. refl) good in
      (set es i v, rw (found, piped, stepped) refl, good', keeps)

  pub each_live-Open :
      (f : Pipeline P → Option (Pipeline P))
      → Steady f
      → (books : ℕ → List Entry) (is : List ℕ) (es : List (TableEntry P)) → Good books es
      → AllOpen es is
      → (es' : List (TableEntry P)) × (each_live P f is es ≡ some es')
        × Good books es'
        × ((j : ℕ) → Open es j → Open es' j)
  unfolding each_live
  each_live-Open f steady books [] es good k = (es, refl, good, λ j o. o)
  each_live-Open f steady books (i ∷ is) es good (o, k) =
      let (es1, first, good1, keeps1) = at_entry-Open f steady books es i good o in
      let (es2, rest, good2, keeps2) =
        each_live-Open f steady books is es1 good1 (AllOpen-keeps es es1 is keeps1 k) in
      (es2, rw (first, rest) refl, good2, λ j o. keeps2 j (keeps1 j o))

  pub entries_from-none :
      (start k i : ℕ) (e : TableEntry P)
      → get_elem? (entries_from P start k) i ≡ some e
      → e.pipeline ≡ none
  unfolding entries_from
  entries_from-none start zero i e found = cc
  entries_from-none start (suc k) zero e found = ground (arith, found)
  entries_from-none start (suc k) (suc i) e found = entries_from-none (suc start) k i e found

  pub length-entries_from : (start k : ℕ) → length (entries_from P start k) ≡ k
  unfolding entries_from
  length-entries_from start zero = refl
  length-entries_from start (suc k) = ap suc (length-entries_from (suc start) k)

  old_entry :
      (es : List (TableEntry P)) (start k i : ℕ) (e : TableEntry P) (p : Pipeline P)
      → get_elem? (es ++ entries_from P start k) i ≡ some e
      → e.pipeline ≡ some p
      → get_elem? es i ≡ some e
  old_entry [] start k i e p found piped = cc (entries_from-none start k i e found, piped)
  old_entry (d ∷ es) start k zero e p found piped = found
  old_entry (d ∷ es) start k (suc i) e p found piped = old_entry es start k i e p found piped

  -- The table grows past the instrument, and keeps its pipelines.
  pub grow_entries-Open :
      (books : ℕ → List Entry) (es : List (TableEntry P)) (i : ℕ)
      → i + 1 < 2 ^ 32
      → Good books es
      → (i < length (grow_entries P es i))
        × Good books (grow_entries P es i)
        × ((j : ℕ) → Open es j → Open (grow_entries P es i) j)
  unfolding grow_entries new_size next_id
  grow_entries-Open books es i small good = elim (Bool-cases (leb (length es) i)) [
    | inr fits ↦ rw fits (ground arith, good, λ j o. o)
    | inl beyond ↦ rw beyond (
      omega (
        arith,
        length-append es _,
        length-entries_from (length es) (new_size i (length es) - length es),
        size (length es) i small beyond,
      ),
      λ j e p found piped. good j e p (old_entry es _ _ j e p found piped) piped,
      λ j (e, p, found, piped). (e, p, get_elem?-append es _ j e found, piped),
    )
  ]

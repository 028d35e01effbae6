-- ===== src/Adapter/Discovery.antt =====
-- src/Adapter/AdapterEngine.cpp: Discover, and the entries of the instruments.

use nqbook.Prelude.{
  ℕ, ◌≡◌, refl, sym, ◌∙◌, true, ◌||◌, List, [], ◌∷◌, ◌++◌, Option, is_some, ◌==◌, arith, Bool-cases,
  inl, inr,
}
use nqbook.Abi.{Mbo}
use nqbook.Nlib.SingleQueue.{SingleQueue}
use nqbook.Feature.Instances.{Instrument}
use nqbook.Adapter.{
  Adapters, AdapterEngine, seen_before, lookup_instrument, emplace_instrument, discover, described,
}

abbrev pub Known : List (ℕ × Option Instrument) → List Mbo → Type 0
Known is [] = Unit {0}
Known is (m ∷ ms) = (is_some (lookup_instrument is m.instrument) ≡ true) × Known is ms

pub Known-append :
    (is : List (ℕ × Option Instrument)) (ms : List Mbo) (m : Mbo)
    → Known is ms
    → is_some (lookup_instrument is m.instrument) ≡ true
    → Known is (ms ++ m ∷ [])
Known-append is [] m k h = (h, tt)
Known-append is (n ∷ ns) m (j, k) h = (j, Known-append is ns m k h)

lookup-emplace :
    (is : List (ℕ × Option Instrument)) (id j : ℕ) (o : Option Instrument)
    → is_some (lookup_instrument (emplace_instrument is id o) j)
      ≡ (id == j || is_some (lookup_instrument is j))
unfolding lookup_instrument emplace_instrument
lookup-emplace [] id j o = ground arith
lookup-emplace ((i, p) ∷ is) id j o = ground (arith, lookup-emplace is id j o)

Known-emplace :
    (is : List (ℕ × Option Instrument)) (id : ℕ) (o : Option Instrument) (ms : List Mbo)
    → Known is ms
    → Known (emplace_instrument is id o) ms
Known-emplace is id o [] k = tt
Known-emplace is id o (m ∷ ms) (h, k) =
    (ground (arith, lookup-emplace is id m.instrument o), Known-emplace is id o ms k)

module _ (A : Adapters) (Q : SingleQueue Mbo) where
  -- the instruments that were asked for are those with an entry
  abbrev pub Asked : List ℕ → List (ℕ × Option Instrument) → Type 0
  Asked seen is = (id : ℕ) → seen_before seen id ≡ is_some (lookup_instrument is id)

  -- Discover leaves an entry for the instrument, and the entries that were there.
  pub discover-Known :
      (e : AdapterEngine A Q) (id : ℕ) (ms : List Mbo)
      → Asked e.seen e.instruments
      → Known e.instruments ms
      → Asked (discover A Q e id).seen (discover A Q e id).instruments
        × (is_some (lookup_instrument (discover A Q e id).instruments id) ≡ true)
        × Known (discover A Q e id).instruments ms
  unfolding discover
  discover-Known e id ms asked known = elim (Bool-cases (seen_before e.seen id)) [
    | inl old ↦ rw old (asked, sym (asked id) ∙ old, known)
    | inr new ↦
        let o = described id (A.instrument e.adapter id).0 in
        rw new (
          λ j. unfold seen_before in ground (arith, asked j, lookup-emplace e.instruments id j o),
          ground (arith, lookup-emplace e.instruments id id o),
          Known-emplace e.instruments id o ms known,
        )
  ]

  -- Discover leaves the queue, the counters and the flags.
  pub discover-same :
      (e : AdapterEngine A Q) (id : ℕ)
      → ((discover A Q e id).queue ≡ e.queue)
        × ((discover A Q e id).pushed ≡ e.pushed)
        × ((discover A Q e id).ended ≡ e.ended)
  unfolding discover
  discover-same e id = elim (Bool-cases (seen_before e.seen id)) [
    | inl old ↦ rw old (refl, refl, refl)
    | inr new ↦ rw new (refl, refl, refl)
  ]

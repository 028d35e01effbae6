-- ===== src/Feature/TableFeed.antt =====
-- src/PipelineTable.cpp: Close and Consume on a table whose pipelines are in step.
use nqbook.Prelude.{
  ℕ, zero, suc, ◌+◌, ◌<◌, ◌^◌, ◌≡◌, refl, sym, subst, ◌∙◌, List, [], ◌∷◌, some, length, take,
  if◌then◌else◌, ◌==◌, Bool-cases, inl, inr, ◌⊎◌,
}
use nqbook.Abi.{Mbo}
use nqbook.Nlib.{Nlib}
use nqbook.Orderbook.Application.{replay}
use nqbook.Orderbook.Entries.{Entry}
use nqbook.Feature.Double.{Double}
use nqbook.Feature.Instances.{Instances}
use nqbook.Feature.NewEngine.{Checked}
use nqbook.Feature.Pipeline.{pipeline_close}
use nqbook.Feature.PipelineRun.{PipelineOk, pipeline_close-PipelineOk}
use nqbook.Feature.PipelineTable.{TableEntry, Table, Setup, table_close, table_consume, new_table}
use nqbook.Feature.TableApply.{route, table_apply-TableOk}
use nqbook.Feature.Resolving.{columns}
use nqbook.Feature.TableRun.{TableOk, Open, AllOpen-keeps, each_live-Open, entries_from-none}

-- the events of `ms` on the instrument `i`
unfoldable pub of_instrument : ℕ → List Mbo → List Mbo
of_instrument i [] = []
of_instrument i (m ∷ ms) =
    let rest = of_instrument i ms in if m.instrument == i then m ∷ rest else rest

-- The instruments of a feed are below 2 ^ 32 - 1.
abbrev pub Numbered : List Mbo → Type 0
Numbered [] = Unit {0}
Numbered (m ∷ ms) = (m.instrument + 1 < 2 ^ 32) × Numbered ms

-- An instrument sees its own events only.
pub replay-route :
    (books : ℕ → List Entry) (m : Mbo) (ms : List Mbo) (i : ℕ)
    → replay (route books m i) (of_instrument i ms) ≡ replay (books i) (of_instrument i (m ∷ ms))
unfolding route of_instrument replay
replay-route books m ms i = elim (Bool-cases (m.instrument == i)) [
  | inl same ↦ simp same
  | inr ne ↦ simp ne
]

module _ {nlib : Nlib} {D : Double} (P : Instances nlib D) (c : Setup P) where
  pub TableOk-agree :
      (t : Table P) (books books' : ℕ → List Entry)
      → ((i : ℕ) → books i ≡ books' i)
      → TableOk P (columns P c) t books
      → TableOk P (columns P c) t books'
  TableOk-agree t books books' agree ok = record {
    good = λ i e p found piped.
        subst (λ (orders : List Entry). PipelineOk P p orders (columns P c)) (agree i)
          (ok.good i e p found piped);
    live = ok.live;
    closed =
        λ i. elim (ok.closed i) [ inl o ↦ inl o | inr none_yet ↦ inr (sym (agree i) ∙ none_yet) ];
  }

  keep_closed :
      (es fs : List (TableEntry P)) (books : ℕ → List Entry)
      → ((j : ℕ) → Open P (columns P c) es j → Open P (columns P c) fs j)
      → ((j : ℕ) → Open P (columns P c) es j ⊎ (books j ≡ []))
      → (j : ℕ) → Open P (columns P c) fs j ⊎ (books j ≡ [])
  keep_closed es fs books keeps closed j = elim (closed j) [
    | inl o ↦ inl (keeps j o)
    | inr none_yet ↦ inr none_yet
  ]

  -- Close, on a table whose pipelines are in step, returns, and leaves the orders of every
  -- instrument.
  pub table_close-TableOk :
      (t : Table P) (books : ℕ → List Entry)
      → TableOk P (columns P c) t books
      → (t' : Table P) × (table_close P t ≡ some t') × TableOk P (columns P c) t' books
  unfolding table_close
  table_close-TableOk t books ok =
      let (es, closed, good, keeps) =
        each_live-Open P (columns P c) (pipeline_close P)
          (λ p orders in_step. pipeline_close-PipelineOk P p orders (columns P c) in_step) books
          t.live t.entries ok.good ok.live in
      (
        record t { entries = es },
        rw closed refl,
        record {
          good = good;
          live = AllOpen-keeps P (columns P c) t.entries es t.live keeps ok.live;
          closed = keep_closed t.entries es books keeps ok.closed;
        },
      )

  -- Consume, on a table whose pipelines are in step and a feed of instruments below 2 ^ 32 - 1,
  -- returns. It takes the first `max` events, or all where there are fewer, and leaves the table in
  -- step over the orders that each instrument has behind its own events among them.
  pub table_consume-TableOk :
      (t : Table P) (books : ℕ → List Entry) (ms : List Mbo) (max : ℕ)
      → Checked c.templates (columns P c)
      → Numbered ms
      → TableOk P (columns P c) t books
      → (t' : Table P) × (table_consume P c t ms max ≡ some (length (take max ms), t'))
        × TableOk P (columns P c) t' (λ i. replay (books i) (of_instrument i (take max ms)))
  unfolding table_consume of_instrument replay
  table_consume-TableOk t books [] zero k small ok = (t, refl, ok)
  table_consume-TableOk t books [] (suc max) k small ok = (t, refl, ok)
  table_consume-TableOk t books (m ∷ ms) zero k small ok = (t, refl, ok)
  table_consume-TableOk t books (m ∷ ms) (suc max) k (first, rest) ok =
      let (t1, applied, ok1, events, ts) = table_apply-TableOk P c t books m k first ok in
      let (t2, consumed, ok2) = table_consume-TableOk t1 (route books m) ms max k rest ok1 in
      (
        t2,
        rw (applied, consumed) refl,
        TableOk-agree t2 _ _ (replay-route books m (take max ms)) ok2,
      )

  -- A new table is in step over no orders at all.
  pub new_table-TableOk : (slots : ℕ) → TableOk P (columns P c) (new_table P slots) (λ i. [])
  unfolding new_table
  new_table-TableOk slots = record {
    good = λ i e p found piped.
        absurd (cc (entries_from-none P (columns P c) 0 slots i e found, piped));
    live = tt;
    closed = λ i. inr refl;
  }

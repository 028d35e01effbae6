-- ===== src/Feature/TableApply.antt =====
-- src/PipelineTable.cpp: Apply on a table whose pipelines are in step.
use nqbook.Prelude.{
  ℕ, ◌+◌, ◌<◌, ◌^◌, ◌≡◌, refl, sym, ap, subst, ◌∙◌, false, List, [], some, set, get_elem?,
  if◌then◌else◌, ◌==◌, arith, Bool-cases, inl, inr, ◌⊎◌,
}
use nqbook.Abi.{Mbo}
use nqbook.Nlib.{Nlib}
use nqbook.Orderbook.Book.{inc64}
use nqbook.Orderbook.Entries.{Entry}
use nqbook.Orderbook.Priority.{react}
use nqbook.Feature.Double.{Double}
use nqbook.Feature.Instances.{Instances}
use nqbook.Feature.NewEngine.{Checked}
use nqbook.Feature.Pipeline.{pipeline_apply, Pipeline, pipeline_advance}
use nqbook.Feature.PipelineRun.{PipelineOk, advance-PipelineOk, pipeline_apply-PipelineOk}
use nqbook.Feature.PipelineTable.{
  TableEntry, Table, Setup, count_instrument, count_feed, table_apply,
}
use nqbook.Feature.Resolving.{columns, resolve-TableOk}
use nqbook.Feature.TableRun.{TableOk, Good, Open, AllOpen-keeps, set-Open, each_live-Open}

-- the orders of every instrument behind an event, which reaches the book of its instrument only
unfoldable pub route : (ℕ → List Entry) → Mbo → ℕ → List Entry
route books m i = if m.instrument == i then (react (books i) m).1 else books i

route_here :
    (books : ℕ → List Entry) (m : Mbo)
    → route books m m.instrument ≡ (react (books m.instrument) m).1
unfolding route
route_here books m = ground arith

route_elsewhere :
    (books : ℕ → List Entry) (m : Mbo) (j : ℕ)
    → (m.instrument == j) ≡ false
    → route books m j ≡ books j
unfolding route
route_elsewhere books m j ne = rw ne refl

module _ {nlib : Nlib} {D : Double} (P : Instances nlib D) (c : Setup P) where
  -- the last call of Apply, on the pipeline of the event's instrument
  applied-Open :
      (es : List (TableEntry P)) (books : ℕ → List Entry) (m : Mbo)
      → Good P (columns P c) books es
      → Open P (columns P c) es m.instrument
      → (e : TableEntry P) × (p : Pipeline P) × (p' : Pipeline P) × (get_elem? es m.instrument
          ≡ some e)
        × (e.pipeline ≡ some p)
        × (pipeline_apply P p m ≡ some ((react (books m.instrument) m).0, p'))
        × Good P
            (columns P c)
            (route books m)
            (set es m.instrument (record e { pipeline = some p' }))
        × ((j : ℕ)
            → Open P (columns P c) es j
            → Open P (columns P c) (set es m.instrument (record e { pipeline = some p' })) j)
        × Open P (columns P c) (set es m.instrument (record e { pipeline = some p' })) m.instrument
  applied-Open es books m good (e, p, found, piped) =
      let i = m.instrument in
      let (p', applied, in_step) =
        pipeline_apply-PipelineOk P p (books i) (columns P c) (good i e p found piped) m in
      let w : TableEntry P = record e { pipeline = some p' } in
      let (good', keeps, here) =
        set-Open P (columns P c) es i e w p' books (route books m) found refl
          (subst (λ (orders : List Entry). PipelineOk P p' orders (columns P c))
            (sym (route_here books m)) in_step)
          (route_elsewhere books m) good in
      (e, p, p', found, piped, applied, good', keeps, here)

  route-closed :
      (es fs : List (TableEntry P)) (books : ℕ → List Entry) (m : Mbo)
      → ((j : ℕ) → Open P (columns P c) es j → Open P (columns P c) fs j)
      → Open P (columns P c) fs m.instrument
      → ((j : ℕ) → Open P (columns P c) es j ⊎ (books j ≡ []))
      → (j : ℕ) → Open P (columns P c) fs j ⊎ (route books m j ≡ [])
  route-closed es fs books m keeps here closed j = elim (Bool-cases (m.instrument == j)) [
    | inl same ↦ inl (subst (λ (j : ℕ). Open P (columns P c) fs j) (ground arith) here)
    | inr ne ↦ elim (closed j) [
      | inl o ↦ inl (keeps j o)
      | inr none_yet ↦ inr (route_elsewhere books m j ne ∙ none_yet)
    ]
  ]

  -- Apply, on a table whose pipelines are in step and an instrument below 2 ^ 32 - 1, returns. It
  -- fills what the reaction of the orders of that instrument fills, and leaves a table in step over
  -- the orders of the reaction there, and over the same orders at every other instrument. The feed
  -- counts one event more, the last at the time of the event.
  pub table_apply-TableOk :
      (t : Table P) (books : ℕ → List Entry) (m : Mbo)
      → Checked c.templates (columns P c)
      → m.instrument + 1 < 2 ^ 32
      → TableOk P (columns P c) t books
      → (t' : Table P) × (table_apply P c t m ≡ some ((react (books m.instrument) m).0, t'))
        × TableOk P (columns P c) t' (route books m)
        × (t'.stats.events ≡ inc64 t.stats.events)
        × (t'.stats.last_ts ≡ m.ts)
  unfolding table_apply count_feed inc64
  table_apply-TableOk t books m k small ok =
      let i = m.instrument in
      let (t1, resolved, ok1, (e, p, found, piped), same_events) =
        resolve-TableOk P c t books i k small ok in
      let v : TableEntry P = record e { stats = count_instrument e.stats m.ts } in
      let es1 = set t1.entries i v in
      let (good2, keeps2, here2) =
        set-Open P (columns P c) t1.entries i e v p books books found piped
          (ok1.good i e p found piped) (λ j ne. refl) ok1.good in
      let (es3, advanced, good3, keeps3) =
        each_live-Open P (columns P c) (λ p. pipeline_advance P p m.ts)
          (λ p orders in_step. advance-PipelineOk P p orders (columns P c) in_step m.ts) books
          t1.live es1 good2
          (AllOpen-keeps P (columns P c) t1.entries es1 t1.live keeps2 ok1.live) in
      let (e4, p4, p5, found4, piped4, applied, good5, keeps5, here5) =
        applied-Open es3 books m good3 (keeps3 i here2) in
      let w : TableEntry P = record e4 { pipeline = some p5 } in
      let keeps : (j : ℕ)
          → Open P (columns P c) t1.entries j
          → Open P (columns P c) (set es3 i w) j =
        λ j o. keeps5 j (keeps3 j (keeps2 j o)) in
      (
        record { entries = set es3 i w; live = t1.live; stats = count_feed t1.stats m.ts },
        rw (resolved, found, advanced, found4, piped4, applied) refl,
        record {
          good = good5;
          live = AllOpen-keeps P (columns P c) t1.entries (set es3 i w) t1.live keeps ok1.live;
          closed = route-closed t1.entries (set es3 i w) books m keeps here5 ok1.closed;
        },
        ap inc64 same_events,
        refl,
      )

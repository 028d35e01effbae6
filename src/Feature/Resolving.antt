-- ===== src/Feature/Resolving.antt =====
-- src/PipelineTable.cpp: Resolve, which opens the pipeline of an instrument on a growing table.
use nqbook.Prelude.{
  ℕ, zero, suc, ◌+◌, ◌-◌, ◌*◌, ◌<◌, ◌≤◌, ◌^◌, ◌≡◌, refl, sym, subst, List, [], ◌∷◌, none, some,
  length, length-append, get_elem?, set, is_some, leb, arith, Option-cases, Bool-cases, inl, inr,
}
use nqbook.Nlib.{Nlib}
use nqbook.Orderbook.Entries.{Entry}
use nqbook.Orderbook.Book.{new_book}
use nqbook.Orderbook.Application.{new_book-Shows}
use nqbook.Feature.Double.{Double}
use nqbook.Feature.Instances.{Instrument, Instances}
use nqbook.Feature.NewEngine.{Checked, all_columns, new_engine-EngineOk}
use nqbook.Feature.PipelineRun.{PipelineOk}
use nqbook.Feature.PipelineTable.{
  TableEntry, Table, Setup, grow_entries, new_size, next_id, new_pipeline, open_entry, resolve,
  entries_from, unknown_instrument,
}
use nqbook.Feature.TableRun.{
  TableOk, Open, AllOpen-keeps, AllOpen-snoc, set-Open, grow_entries-Open, get_elem?-some,
  length-entries_from,
}

last_size : (old : ℕ) → new_size (2 ^ 32 - 1) old ≤ old * 2
unfolding new_size next_id
last_size old = ground arith

get_elem?-none : {A : Type 0} (xs : List A) (i : ℕ) → length xs ≤ i → get_elem? xs i ≡ none
get_elem?-none [] i beyond = refl
get_elem?-none (x ∷ xs) zero beyond = absurd (omega arith)
get_elem?-none (x ∷ xs) (suc i) beyond = get_elem?-none xs i (omega arith)

module _ {nlib : Nlib} {D : Double} (P : Instances nlib D) (c : Setup P) where
  -- the columns of the catalog
  abbrev pub columns : ℕ
  columns = all_columns P c.plugins

  new_pipeline-PipelineOk :
      (spec : Instrument)
      → Checked c.templates columns
      → PipelineOk P (new_pipeline P c spec) [] columns
  unfolding new_pipeline
  new_pipeline-PipelineOk spec k = record {
    shows = new_book-Shows c.memory c.expected_orders;
    engine =
        (new_engine-EngineOk P (new_book c.memory c.expected_orders) c.plugins c.templates spec
          c.has_sink k).0;
  }

  open_entry-TableOk :
      (t : Table P) (books : ℕ → List Entry) (i : ℕ) (e : TableEntry P)
      → Checked c.templates columns
      → TableOk P columns t books
      → get_elem? t.entries i ≡ some e
      → books i ≡ []
      → TableOk P columns (open_entry P c t i e) books
        × Open P columns (open_entry P c t i e).entries i
  unfolding open_entry
  open_entry-TableOk t books i e k ok found fresh =
      let spec : Instrument = elim (c.resolver i) [ none ↦ unknown_instrument i | some s ↦ s ] in
      let v : TableEntry P = record e {
        pipeline = some (new_pipeline P c spec);
        stats = record e.stats { resolved = is_some (c.resolver i) };
      } in
      let (good, keeps, here) =
        set-Open P columns t.entries i e v (new_pipeline P c spec) books books found refl
          (subst (λ (orders : List Entry). PipelineOk P (new_pipeline P c spec) orders columns)
            (sym fresh) (new_pipeline-PipelineOk spec k))
          (λ j ne. refl) ok.good in
      (
        record {
          good = good;
          live =
              AllOpen-snoc P columns (set t.entries i v) t.live i
                (AllOpen-keeps P columns t.entries (set t.entries i v) t.live keeps ok.live) here;
          closed =
              λ j. elim (ok.closed j) [ inl o ↦ inl (keeps j o) | inr none_yet ↦ inr none_yet ];
        },
        here,
      )

  open_entry-events :
      (t : Table P) (i : ℕ) (e : TableEntry P)
      → (open_entry P c t i e).stats.events ≡ t.stats.events
  unfolding open_entry
  open_entry-events t i e = elim (Bool-cases (is_some (c.resolver i))) [
    | inl known ↦ simp known
    | inr unknown ↦ simp unknown
  ]

  -- Resolve finds or opens the pipeline of any instrument below 2 ^ 32 - 1.
  pub resolve-TableOk :
      (t : Table P) (books : ℕ → List Entry) (i : ℕ)
      → Checked c.templates columns
      → i + 1 < 2 ^ 32
      → TableOk P columns t books
      → (t' : Table P) × (resolve P c t i ≡ some t')
        × TableOk P columns t' books
        × Open P columns t'.entries i
        × (t'.stats.events ≡ t.stats.events)
  unfolding resolve
  resolve-TableOk t books i k small ok =
      let (inside, good, keeps) = grow_entries-Open P columns books t.entries i small ok.good in
      let t1 : Table P = record t { entries = grow_entries P t.entries i } in
      let ok1 : TableOk P columns t1 books = record {
        good = good;
        live = AllOpen-keeps P columns t.entries t1.entries t.live keeps ok.live;
        closed = λ j. elim (ok.closed j) [ inl o ↦ inl (keeps j o) | inr none_yet ↦ inr none_yet ];
      } in
      let (e, found) = get_elem?-some (grow_entries P t.entries i) i inside in
      elim (Option-cases e.pipeline) [
        | inl shut ↦ elim (ok1.closed i) [
          | inl (d, p, at, piped) ↦ absurd (cc (found, at, shut, piped))
          | inr none_yet ↦
              let (ok2, here) = open_entry-TableOk t1 books i e k ok1 found none_yet in
              (open_entry P c t1 i e, rw (found, shut) refl, ok2, here, open_entry-events t1 i e)
        ]
        | inr (p, piped) ↦ (t1, rw (found, piped) refl, ok1, (e, p, found, piped), refl)
      ]

  grow_last : (es : List (TableEntry P)) → length (grow_entries P es (2 ^ 32 - 1)) ≤ length es * 2
  unfolding grow_entries
  grow_last es = elim (Bool-cases (leb (length es) (2 ^ 32 - 1))) [
    | inr fits ↦ rw fits (omega arith)
    | inl beyond ↦ rw beyond (
        omega (
          arith,
          length-append es
              (entries_from P (length es) (new_size (2 ^ 32 - 1) (length es) - length es)),
          length-entries_from P 0 (length es) (new_size (2 ^ 32 - 1) (length es) - length es),
          last_size (length es),
        ))
  ]

  -- Resolve of instrument 2 ^ 32 - 1, on a table with fewer than 2 ^ 31 entries, accesses past the
  -- end of the entries: the new size counts `instrument + 1` as 0.
  pub resolve_past_end :
      (t : Table P) → length t.entries < 2 ^ 31 → resolve P c t (2 ^ 32 - 1) ≡ none
  unfolding resolve
  resolve_past_end t few =
      let short : length (grow_entries P t.entries (2 ^ 32 - 1)) ≤ 2 ^ 32 - 1 =
        omega (arith, grow_last t.entries) in
      rw (get_elem?-none (grow_entries P t.entries (2 ^ 32 - 1)) (2 ^ 32 - 1) short) refl

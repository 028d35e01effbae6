-- ===== src/Examples/Tables.antt =====
-- The theorems on a feed of several instruments, with the plugin that counts events.
use nqbook.Prelude.{ℕ, ◌-◌, ◌^◌, ◌≡◌, false, List, [], ◌∷◌, none, some, arith, take, length}
use nqbook.Abi.{Mbo}
use nqbook.Orderbook.Application.{replay}
use nqbook.Orderbook.Book.{inc64}
use nqbook.Orderbook.Entries.{Entry}
use nqbook.Orderbook.Priority.{react}
use nqbook.Feature.NewEngine.{Checked, all_columns}
use nqbook.Feature.PipelineTable.{
  Table, Setup, new_table, entries_from, resolve, table_apply, table_consume,
}
use nqbook.Feature.TableRun.{TableOk}
use nqbook.Feature.Resolving.{columns, resolve_past_end}
use nqbook.Feature.TableApply.{route, table_apply-TableOk}
use nqbook.Feature.TableFeed.{Numbered, of_instrument, new_table-TableOk, table_consume-TableOk}
use nqbook.Examples.Books.{five_orders}
use nqbook.Examples.Applications.{memory, sale}
use nqbook.Examples.Pipelines.{counter, templates, plugins}

abbrev pub setup : Setup counter
setup = record {
  plugins = plugins;
  templates = templates;
  resolver = λ i. none;
  expected_orders = 4;
  has_sink = false;
  memory = memory;
}

abbrev none_yet : ℕ → List Entry
none_yet i = []

abbrev table : Table counter
table = new_table counter 1

-- events of two instruments, the second past the end of the table
abbrev mixed : List Mbo
mixed = record sale { instrument = 5 } ∷ sale ∷ five_orders

pub checked : Checked templates (columns counter setup)
unfolding all_columns
checked = ((omega arith, (omega arith, tt)), omega arith, ((omega arith, tt), omega arith, tt))

mixed-Numbered : Numbered mixed
mixed-Numbered = (
  omega arith,
  (omega arith, (omega arith, (omega arith, (omega arith, (omega arith, (omega arith, tt)))))),
)

table_consume-TableOk_example :
    (t' : Table counter) × (table_consume counter setup table mixed 6
      ≡ some (length (take 6 mixed), t'))
    × TableOk counter
        (columns counter setup)
        t'
        (λ i. replay (none_yet i) (of_instrument i (take 6 mixed)))
table_consume-TableOk_example =
    table_consume-TableOk counter setup table none_yet mixed 6 checked mixed-Numbered
      (new_table-TableOk counter setup 1)

-- the table behind the events
abbrev fed :
    (t' : Table counter) × (table_consume counter setup table mixed 6
      ≡ some (length (take 6 mixed), t'))
    × TableOk counter
        (columns counter setup)
        t'
        (λ i. replay (none_yet i) (of_instrument i (take 6 mixed)))
fed =
    table_consume-TableOk counter setup table none_yet mixed 6 checked mixed-Numbered
      (new_table-TableOk counter setup 1)

abbrev books : ℕ → List Entry
books i = replay (none_yet i) (of_instrument i (take 6 mixed))

table_apply-TableOk_example :
    (t' : Table counter) × (table_apply counter setup fed.0 sale
      ≡ some ((react (books sale.instrument) sale).0, t'))
    × TableOk counter (columns counter setup) t' (route books sale)
    × (t'.stats.events ≡ inc64 fed.0.stats.events)
    × (t'.stats.last_ts ≡ sale.ts)
table_apply-TableOk_example =
    table_apply-TableOk counter setup fed.0 books sale checked (omega arith) fed.2

resolve_past_end_example : resolve counter setup table (2 ^ 32 - 1) ≡ none
unfolding new_table entries_from
resolve_past_end_example = resolve_past_end counter setup table (omega arith)

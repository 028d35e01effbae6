-- ===== src/Csv.antt =====
-- src/Writer/CsvWriter.cpp: the text of the CSV file of a sampler. The files themselves and the
-- printing of numbers are left out: `show_ts` and `show_value` are `%lld` and `%.17g`. A `%s` takes the
-- `c_str()` of a text, up to its first null character.
pub mod Reading
use nqbook.Prelude.{
  ℕ, suc, Bool, true, false, ◌||◌, List, [], ◌∷◌, ◌++◌, Option, none, some, get_elem?, ◌==◌,
  if◌then◌else◌,
}
use nqbook.Prelude.Int.{ℤ}
use nqbook.Prelude.Text.{Text, codes, decimal}
use nqbook.Params.{c_str}
use nqbook.Nlib.{Nlib}
use nqbook.Feature.Double.{Double}
use nqbook.Feature.Instances.{Instances}
use nqbook.Feature.RowBuffer.{RowBuffer}
use nqbook.Feature.PipelineTable.{TableEntry}

-- a character that find_first_of looks for
unfoldable pub is_special : ℕ → Bool
is_special c = c == b',' || (c == b'"' || c == 10)

unfoldable pub has_special : Text → Bool
has_special [] = false
has_special (c ∷ s) = is_special c || has_special s

-- the loop of CsvString
unfoldable pub double_quotes : Text → Text
double_quotes [] = []
double_quotes (c ∷ s) =
    let rest = double_quotes s in if c == b'"' then b'"' ∷ b'"' ∷ rest else c ∷ rest

-- CsvString
unfoldable pub csv_string : Text → Text
csv_string s = if has_special s then b'"' ∷ (double_quotes s ++ b'"' ∷ []) else s

-- the fields behind the first ones of a line, each behind its comma, and the end of the line
unfoldable pub csv_names : List Text → Text
csv_names [] = 10 ∷ []
csv_names (n ∷ ns) = b',' ∷ (c_str (csv_string n) ++ csv_names ns)

-- the first line of a file
unfoldable pub csv_header : List Text → Text
csv_header names = codes "instrument,symbol,ts" ++ csv_names names

module _ {V : Type 0} (show_ts : ℤ → Text) (show_value : V → Text) where
  unfoldable pub csv_values : List V → Text
  csv_values [] = 10 ∷ []
  csv_values (v ∷ vs) = b',' ∷ (show_value v ++ csv_values vs)

  -- the lines of the rows of a buffer, with their times
  unfoldable pub csv_row : ℕ → Text → ℤ → List V → Text
  csv_row id symbol ts values =
      decimal id
      ++ (b',' ∷ (c_str (csv_string symbol) ++ (b',' ∷ (show_ts ts ++ csv_values values))))

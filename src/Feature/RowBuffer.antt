-- ===== src/Feature/RowBuffer.antt =====
-- include/Feature/RowBuffer.h: rows of a fixed width in one flat array, and their times.
use nqbook.Prelude.{ℕ, ◌+◌, ◌*◌, List, [], ◌∷◌, ◌++◌, length, take, drop, get_elem?, Option}
use nqbook.Prelude.Int.{ℤ}

-- `columns_` is known by its length.
pub record RowBuffer (V : Type 0) : Type 0 where
  pub ncol : ℕ
  pub ts : List ℤ
  pub values : List V

module _ {V : Type 0} where
  unfoldable pub new_buffer : ℕ → RowBuffer V
  new_buffer n = record { ncol = n; ts = []; values = [] }

  unfoldable pub row_count : RowBuffer V → ℕ
  row_count b = length b.ts

  -- RowBuffer::Push
  unfoldable pub push_row : RowBuffer V → ℤ → List V → RowBuffer V
  push_row b t row = record b { ts = b.ts ++ t ∷ []; values = b.values ++ row }

  -- RowBuffer::Row, with what stands in the array there
  unfoldable pub row_at : RowBuffer V → ℕ → List V
  row_at b i = take b.ncol (drop (i * b.ncol) b.values)

  -- RowBuffer::At
  unfoldable pub value_at : RowBuffer V → ℕ → ℕ → Option V
  value_at b i j = get_elem? b.values (i * b.ncol + j)

  -- RowBuffer::Clear
  unfoldable pub clear_buffer : RowBuffer V → RowBuffer V
  clear_buffer b = record b { ts = []; values = [] }

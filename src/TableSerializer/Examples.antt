-- ===== src/TableSerializer/Examples.antt =====
-- The theorems on tables at a concrete table.
use pxp_rpc.Base.{ℕ, ◌<◌, ◌≡◌, refl, List, [], ◌∷◌, none, some, arith, length, All, inl, ◌>>=◌}
use pxp_rpc.Base.Bytes.{words_bytes, le_bytes}
use pxp_rpc.Serializer.Write.{varint_bytes}
use pxp_rpc.CppSerializer.{build}
use pxp_rpc.TableSerializer.{Cell, ColumnType, column_type, Table, new_table, build_ser, build_flag}
use pxp_rpc.TableSerializer.Load.{load}
use pxp_rpc.TableSerializer.Wire.{
  Fits, AreColumns, table_bytes, columns_bytes, cell_bytes, encode_all,
}
use pxp_rpc.TableSerializer.RoundTrip.{IsTable, load-build_ser}
use pxp_rpc.TableSerializer.Rows.{add_row, get_row}
use pxp_rpc.TableSerializer.Rows.Laws.{add_values, add_values-add_row, get_row-add_row}

-- What fresh memory holds.
abbrev zeros : ℕ → ℕ
zeros i = 0

-- An int, a string and a bool column ("isc"), two rows.
abbrev sample : Table
sample = record {
  ser = none;
  flag = 0;
  row_cnt = 2;
  columns_type = 105 ∷ 115 ∷ 99 ∷ [];
  columns_name = [];
  cols =
      (Cell.int 7 ∷ Cell.int 9 ∷ [])
      ∷ (Cell.string (104 ∷ []) ∷ Cell.string [] ∷ [])
      ∷ (Cell.int 0 ∷ Cell.int 1 ∷ [])
      ∷ [];
  pos_x = none;
}

sample-IsTable : IsTable sample
unfolding column_type
sample-IsTable = record {
  columns =
      AreColumns.more ColumnType.int refl (Fits.int (omega arith), (Fits.int (omega arith), tt))
        refl
        (AreColumns.more ColumnType.string refl
          (Fits.string (omega arith), (Fits.string (omega arith), tt)) refl
          (AreColumns.more ColumnType.bool refl (Fits.no, (Fits.yes, tt)) refl AreColumns.done));
  few_rows = omega arith;
  rows_255 = omega arith;
  type_255 = omega arith;
  named = inl refl;
  names_255 = tt;
}

load-build_ser_example :
    (build_ser zeros sample >>= λ r. load new_table (build r.0))
    ≡ some (record new_table {
      ser = none;
      flag = build_flag sample;
      row_cnt = 2;
      columns_type = sample.columns_type;
      columns_name = [];
      cols = sample.cols;
    })
unfolding new_table table_bytes columns_bytes column_type cell_bytes encode_all words_bytes le_bytes
    varint_bytes build_flag
load-build_ser_example = load-build_ser zeros sample new_table sample-IsTable refl (omega arith)

abbrev new_row : List Cell
new_row = Cell.int 5 ∷ Cell.string (120 ∷ []) ∷ Cell.int 1 ∷ []

add_values-add_row_example :
    add_values sample new_row ≡ (add_row sample new_row >>= λ u. some (record u { pos_x = some 2 }))
add_values-add_row_example =
    add_values-add_row sample (Cell.int 7 ∷ Cell.int 9 ∷ [])
      ((Cell.string (104 ∷ []) ∷ Cell.string [] ∷ []) ∷ (Cell.int 0 ∷ Cell.int 1 ∷ []) ∷ [])
      (Cell.int 5) (Cell.string (120 ∷ []) ∷ Cell.int 1 ∷ []) refl refl refl (inl refl)

get_row-add_row_example :
    (u : Table) × (add_row sample new_row ≡ some u)
    × (get_row u 2 ≡ some new_row)
    × ((i : ℕ) → i < 2 → get_row u i ≡ get_row sample i)
    × All (λ col. length col ≡ u.row_cnt) u.cols
get_row-add_row_example =
    get_row-add_row sample new_row (refl, (refl, (refl, tt))) refl refl (omega arith)

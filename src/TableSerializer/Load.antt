-- ===== src/TableSerializer/Load.antt =====
-- `load` of class TableSerializer, c/include/pxprpc_ext.hpp.
use pxp_rpc.Base.{
  ℕ, zero, suc, ◌%◌, ◌^◌, List, [], ◌∷◌, ◌++◌, Option, none, some, map, length, ltb, ◌==◌,
  if◌then◌else◌, ◌>>=◌,
}
use pxp_rpc.Base.Bytes.{read}
use pxp_rpc.Serializer.{Ser}
use pxp_rpc.CppSerializer.{
  get_int_vec, get_long_vec, get_float_vec, get_double_vec, get_varint, get_bytes, get_string,
  prepare_unserializing,
}
use pxp_rpc.TableSerializer.{Cell, ColumnType, column_type, Table}

-- The loops that read a value at a time. The iterations are those of `i1<n` for a signed `n`.
unfoldable pub get_list {ℓ} :
    {A : Type ℓ} → (Ser → Option (A × Ser)) → ℕ → Ser → Option (List A × Ser)
get_list get zero s = some ([], s)
get_list get (suc n) s = do (x, s1) ← get s; (xs, s2) ← get_list get n s1; some (x ∷ xs, s2)

abbrev pub rounds : ℕ → ℕ
rounds n = if ltb n (2 ^ 31) then n else 0

-- The bytes of a cell are read with the cell; the code reads them when the cell is used.
unfoldable pub get_cell_bytes : Ser → Option (Cell × Ser)
get_cell_bytes s = do
  (off, size, t) ← get_bytes s
  bs ← read t.buf off size
  some (Cell.bytes bs, t)

unfoldable pub get_cell_string : Ser → Option (Cell × Ser)
get_cell_string s = get_string s >>= λ r. some (Cell.string r.0, r.1)

unfoldable pub get_cell_bool : Ser → Option (Cell × Ser)
get_cell_bool s = get_varint s >>= λ r. some (Cell.int (if r.0 == 0 then 0 else 1), r.1)

-- A vector of numbers as a column.
abbrev pub as_cells : (ℕ → Cell) → List ℕ × Ser → List Cell × Ser
as_cells make r = (map make r.0, r.1)

unfoldable pub get_column : ColumnType → ℕ → Ser → Option (List Cell × Ser)
get_column ColumnType.int n s = get_int_vec s n >>= λ r. some (as_cells Cell.int r)
get_column ColumnType.long n s = get_long_vec s n >>= λ r. some (as_cells Cell.long r)
get_column ColumnType.float n s = get_float_vec s n >>= λ r. some (as_cells Cell.float r)
get_column ColumnType.double n s = get_double_vec s n >>= λ r. some (as_cells Cell.double r)
get_column ColumnType.bytes n s = get_list get_cell_bytes (rounds n) s
get_column ColumnType.string n s = get_list get_cell_string (rounds n) s
get_column ColumnType.bool n s = get_list get_cell_bool (rounds n) s

-- The loop over the letters: the columns to push behind those that are there.
unfoldable pub get_columns : List ℕ → ℕ → Ser → Option (List (List Cell) × Ser)
get_columns [] n s = some ([], s)
get_columns (letter ∷ letters) n s = elim (column_type letter) [
  | none ↦ get_columns letters n s
  | some k ↦ get_column k n s >>= λ r. get_columns letters n r.1 >>= λ q. some (r.0 ∷ q.0, q.1)
]

-- `load()` from the serializer `s`.
unfoldable pub load_from : Table → Ser → Option (Table × Ser)
load_from t s = do
  (flag, s1) ← get_varint s
  (row_cnt, s2) ← get_varint s1
  (columns_type, s3) ← get_string s2
  (columns_name, s4) ←
      (if flag % 2 == 0 then get_list get_string (length columns_type) s3 else some ([], s3))
  (cols, s5) ← get_columns columns_type row_cnt s4
  some (
    record t {
      flag = flag;
      row_cnt = row_cnt;
      columns_type = columns_type;
      columns_name = columns_name;
      cols = t.cols ++ cols;
    },
    s5,
  )

-- `load(data)`: the serializer is made for the packet and deleted afterwards.
unfoldable pub load : Table → List ℕ → Option Table
load t data1 = load_from t (prepare_unserializing data1) >>= λ r. some (record (r.0) { ser = none })

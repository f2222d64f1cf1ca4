-- ===== src/TableSerializer.antt =====
-- class TableSerializer of c/include/pxprpc_ext.hpp. `none` is undefined behaviour of the C++ code or
-- an exception that nothing catches. A `char` is its code, a `std::string` a list of bytes.
pub mod Load
pub mod Rows
pub mod Wire
pub mod Columns
pub mod RoundTrip
mod Examples
use pxp_rpc.Base.{
  ℕ, zero, suc, ◌+◌, ◌%◌, ◌^◌, Bool, true, false, List, [], ◌∷◌, ◌++◌, Option, none, some, map,
  length, get_elem?, set, ltb, leb, ◌==◌, if◌then◌else◌, ◌>>=◌,
}
use pxp_rpc.Serializer.{Ser}
use pxp_rpc.CppSerializer.{
  put_int, put_long, put_float, put_double, put_varint, put_bytes, put_string, prepare_serializing,
}

-- `TableCellValue`: the member of the union that was set, as a bit pattern, or `str`. A `bool` is set
-- through the constructor of `int32_t`. `bytes` is what the pointer addresses.
pub data Cell : Type 0 where
  int long float double : ℕ → Cell
  bytes string : List ℕ → Cell

-- `bytes.length` of a cell built from a size; the other member reads of the union.
unfoldable pub as_i32 : Cell → Option ℕ
as_i32 (Cell.int v) = some v
as_i32 (Cell.long v) = some (v % 2 ^ 32)
as_i32 (Cell.float v) = some v
as_i32 (Cell.double v) = some (v % 2 ^ 32)
as_i32 _ = none

unfoldable pub as_i64 : Cell → Option ℕ
as_i64 (Cell.long v) = some v
as_i64 (Cell.double v) = some v
as_i64 _ = none

-- `bool2` is the lowest byte, and must be 0 or 1.
unfoldable pub as_bool : Cell → Option Bool
as_bool c = do
  v ← as_i32 c
  if v % 2 ^ 8 == 0 then some false else if v % 2 ^ 8 == 1 then some true else none

unfoldable pub as_bytes : Cell → Option (List ℕ)
as_bytes (Cell.bytes bs) = some bs
as_bytes _ = none

-- `str` is empty unless it was set.
unfoldable pub as_str : Cell → List ℕ
as_str (Cell.string bs) = bs
as_str _ = []

-- The letters of `columnsType` that the switches know.
pub data ColumnType : Type 0 where
  int long float double bytes string bool : ColumnType

unfoldable pub column_type : ℕ → Option ColumnType
column_type c =
    if c == 105
    then some ColumnType.int
    else if c == 108
    then some ColumnType.long
    else if c == 102
    then some ColumnType.float
    else if c == 100
    then some ColumnType.double
    else if c == 98
    then some ColumnType.bytes
    else if c == 115
    then some ColumnType.string
    else if c == 99
    then some ColumnType.bool
    else none

-- The members of the class; `row_cnt` is a bit pattern, and `pos_x` is `none` for -1.
pub record Table : Type 0 where
  pub ser : Option Ser
  pub flag : ℕ
  pub row_cnt : ℕ
  pub columns_type : List ℕ
  pub columns_name : List (List ℕ)
  pub cols : List (List Cell)
  pub pos_x : Option ℕ

unfoldable pub new_table : Table
new_table = record {
  ser = none;
  flag = 0;
  row_cnt = 0;
  columns_type = [];
  columns_name = [];
  cols = [];
  pos_x = none;
}

unfoldable pub bind_serializer : Table → Ser → Table
bind_serializer t s = record t { ser = some s }

-- The local `flag` of `buildSer`.
unfoldable pub build_flag : Table → ℕ
build_flag t =
    if length t.columns_name == 0 then (if length t.columns_type == 0 then 0 else 1) else 0

module _ (junk : ℕ → ℕ) where
  -- The body of the loop over a column.
  unfoldable pub put_cell : ColumnType → Ser → Cell → Option Ser
  put_cell ColumnType.int s c = as_i32 c >>= λ v. put_int junk s v
  put_cell ColumnType.long s c = as_i64 c >>= λ v. put_long junk s v
  put_cell ColumnType.float s c = as_i32 c >>= λ v. put_float junk s v
  put_cell ColumnType.double s c = as_i64 c >>= λ v. put_double junk s v
  put_cell ColumnType.bytes s c = as_bytes c >>= λ bs. put_bytes junk s bs
  put_cell ColumnType.string s c = put_string junk s (as_str c)
  put_cell ColumnType.bool s c = as_bool c >>= λ b. put_varint junk s (if b then 1 else 0)

  unfoldable pub put_cells : ColumnType → Ser → List Cell → Option Ser
  put_cells k s [] = some s
  put_cells k s (c ∷ cs) = put_cell k s c >>= λ s1. put_cells k s1 cs

  -- A letter that the switch does not know writes nothing.
  unfoldable pub put_column : Table → ℕ → ℕ → Ser → Option Ser
  put_column t i letter s = elim (column_type letter) [
    | none ↦ some s
    | some k ↦ get_elem? t.cols i >>= λ col. put_cells k s col
  ]

  unfoldable pub put_columns : Table → ℕ → List ℕ → Ser → Option Ser
  put_columns t i [] s = some s
  put_columns t i (letter ∷ letters) s =
      put_column t i letter s >>= λ s1. put_columns t (suc i) letters s1

  unfoldable pub put_strings : Ser → List (List ℕ) → Option Ser
  put_strings s [] = some s
  put_strings s (name ∷ names) = put_string junk s name >>= λ s1. put_strings s1 names

  unfoldable pub bound_ser : Table → Ser
  bound_ser t = elim t.ser [ none ↦ prepare_serializing junk 16 | some s ↦ s ]

  unfoldable pub put_table : Table → Ser → Option Ser
  put_table t s = do
    s1 ← put_varint junk s (build_flag t)
    s2 ← put_varint junk s1 t.row_cnt
    s3 ← put_string junk s2 t.columns_type
    s4 ← (if build_flag t == 1 then some s3 else put_strings s3 t.columns_name)
    put_columns t 0 t.columns_type s4

  -- `buildSer`: the table stays bound to the serializer, which it answers.
  unfoldable pub build_ser : Table → Option (Ser × Table)
  build_ser t = put_table t (bound_ser t) >>= λ s. some (s, record t { ser = some s })

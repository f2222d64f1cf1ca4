-- ===== src/TableSerializer/Rows.antt =====
-- The rows of class TableSerializer, c/include/pxprpc_ext.hpp.
pub mod Laws
use pxp_rpc.Base.{
  ℕ, zero, suc, ◌+◌, ◌-◌, ◌%◌, ◌^◌, Bool, true, false, List, [], ◌∷◌, ◌++◌, Option, none, some,
  length, get_elem?, ltb, leb, ◌==◌, if◌then◌else◌, ◌>>=◌, replicate,
}
use pxp_rpc.TableSerializer.{Cell, Table}

-- `rowCnt` plus one, which must not overflow.
unfoldable pub one_more : ℕ → Option ℕ
one_more n = if n == 2 ^ 31 - 1 then none else some ((n + 1) % 2 ^ 32)

-- The loop of `addRow` over `n` columns.
unfoldable pub push_cells : ℕ → List (List Cell) → List Cell → Option (List (List Cell))
push_cells zero cols row = some cols
push_cells (suc n) [] row = none
push_cells (suc n) (col ∷ cols) [] = none
push_cells (suc n) (col ∷ cols) (c ∷ row) =
    push_cells n cols row >>= λ r. some ((col ++ (c ∷ [])) ∷ r)

unfoldable pub add_row : Table → List Cell → Option Table
add_row t row = do
  cols ← push_cells (length t.columns_type) t.cols row
  n ← one_more t.row_cnt
  some (record t { cols = cols; row_cnt = n })

unfoldable pub cells_at : List (List Cell) → ℕ → Option (List Cell)
cells_at [] i = some []
cells_at (col ∷ cols) i = do c ← get_elem? col i; row ← cells_at cols i; some (c ∷ row)

unfoldable pub get_row : Table → ℕ → Option (List Cell)
get_row t i = cells_at t.cols i

-- The column that `moveToNextValuePosX` goes to.
abbrev pub after : Option ℕ → ℕ
after none = 0
after (some p) = suc p

unfoldable pub next_pos : Table → ℕ
next_pos t = if leb (length t.cols) (after t.pos_x) then 0 else after t.pos_x

unfoldable pub move_to_next_value_pos_x : Table → Option Table
move_to_next_value_pos_x t =
    if next_pos t == 0
    then (one_more t.row_cnt >>= λ n. some (record t { pos_x = some 0; row_cnt = n }))
    else some (record t { pos_x = some (next_pos t) })

-- `cols[i].push_back(c)`
unfoldable pub push_at : List (List Cell) → ℕ → Cell → Option (List (List Cell))
push_at [] i c = none
push_at (col ∷ cols) zero c = some ((col ++ (c ∷ [])) ∷ cols)
push_at (col ∷ cols) (suc i) c = push_at cols i c >>= λ r. some (col ∷ r)

-- `addValue`; the cell is the one that the argument makes.
unfoldable pub add_value : Table → Cell → Option Table
add_value t c = do
  u ← move_to_next_value_pos_x t
  p ← u.pos_x
  cols ← push_at u.cols p c
  some (record u { cols = cols })

unfoldable pub set_columns_info : Table → List ℕ → List (List ℕ) → Table
set_columns_info t columns_type columns_name = record t {
  columns_type = columns_type;
  columns_name = columns_name;
  cols = t.cols ++ replicate (length columns_type - length t.cols) [];
}

-- A row as a map, first entry of a name first: `emplace` does not replace.
unfoldable pub row_map : List (List ℕ) → List (List Cell) → ℕ → Option (List (List ℕ × Cell))
row_map names [] i = some []
row_map [] (col ∷ cols) i = none
row_map (name ∷ names) (col ∷ cols) i = do
  c ← get_elem? col i
  entries ← row_map names cols i
  some ((name, c) ∷ entries)

unfoldable pub row_maps :
    List (List ℕ) → List (List Cell) → ℕ → ℕ → Option (List (List (List ℕ × Cell)))
row_maps names cols i zero = some []
row_maps names cols i (suc n) = do
  m ← row_map names cols i
  ms ← row_maps names cols (suc i) n
  some (m ∷ ms)

unfoldable pub to_map_array : Table → Option (List (List (List ℕ × Cell)))
to_map_array t = row_maps t.columns_name t.cols 0 (if ltb t.row_cnt (2 ^ 31) then t.row_cnt else 0)

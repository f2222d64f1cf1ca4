-- ===== src/TableSerializer/Wire.antt =====
-- What `buildSer` of class TableSerializer (c/include/pxprpc_ext.hpp) writes.
use pxp_rpc.Base.{
  ◌⊎◌, ◌∙◌, inl, inr, get_elem?-append, ℕ, suc, ◌+◌, ◌^◌, ◌≤◌, ◌<◌, ◌≡◌, ◌≢◌, refl, sym, List, [],
  ◌∷◌, ◌++◌, Option, none, some, length, append-nil, append_assoc, arith, All, length-append,
  get_elem?, ◌==◌, if◌then◌else◌, ◌>>=◌,
}
use pxp_rpc.Base.Bytes.{words_bytes, length-words_bytes}
use pxp_rpc.Serializer
use pxp_rpc.Serializer.{Ser}
use pxp_rpc.Serializer.Write.{
  IsValid, Appends-trans, Puts, max_packet, varint_bytes, put_words-Puts, put_varint-Puts,
  put_bytes-Puts,
}
use pxp_rpc.CppSerializer.{
  put_int, put_long, put_float, put_double, put_varint, put_bytes, put_string,
}
use pxp_rpc.TableSerializer.{
  Cell, ColumnType, column_type, Table, as_i32, as_i64, as_bool, as_bytes, as_str, put_cell,
  put_cells, put_column, put_columns, put_strings, build_flag, put_table,
}

-- The cells that a column of each type may hold. A byte string of 255 bytes is none of them.
pub data Fits : ColumnType → Cell → Type 0 where
  int : {v : ℕ} → v < 2 ^ 32 → Fits ColumnType.int (Cell.int v)
  long : {v : ℕ} → v < 2 ^ 64 → Fits ColumnType.long (Cell.long v)
  float : {v : ℕ} → v < 2 ^ 32 → Fits ColumnType.float (Cell.float v)
  double : {v : ℕ} → v < 2 ^ 64 → Fits ColumnType.double (Cell.double v)
  bytes : {bs : List ℕ} → length bs ≢ 255 → Fits ColumnType.bytes (Cell.bytes bs)
  string : {bs : List ℕ} → length bs ≢ 255 → Fits ColumnType.string (Cell.string bs)
  no : Fits ColumnType.bool (Cell.int 0)
  yes : Fits ColumnType.bool (Cell.int 1)

abbrev pub string_bytes : List ℕ → List ℕ
string_bytes bs = varint_bytes (length bs) ++ bs

unfoldable pub cell_bytes : ColumnType → Cell → List ℕ
cell_bytes ColumnType.bool (Cell.int v) = varint_bytes v
cell_bytes k (Cell.int v) = words_bytes 4 (v ∷ [])
cell_bytes k (Cell.float v) = words_bytes 4 (v ∷ [])
cell_bytes k (Cell.long v) = words_bytes 8 (v ∷ [])
cell_bytes k (Cell.double v) = words_bytes 8 (v ∷ [])
cell_bytes k (Cell.bytes bs) = string_bytes bs
cell_bytes k (Cell.string bs) = string_bytes bs

-- The encodings of the values, one after the other.
unfoldable pub encode_all {ℓ} : {A : Type ℓ} → (A → List ℕ) → List A → List ℕ
encode_all enc [] = []
encode_all enc (x ∷ xs) = enc x ++ encode_all enc xs

abbrev pub cells_bytes : ColumnType → List Cell → List ℕ
cells_bytes k = encode_all (cell_bytes k)

abbrev pub strings_bytes : List (List ℕ) → List ℕ
strings_bytes = encode_all string_bytes

-- The columns, one for each letter, and all letters known.
unfoldable pub columns_bytes : List ℕ → List (List Cell) → List ℕ
columns_bytes [] cols = []
columns_bytes (letter ∷ letters) [] = []
columns_bytes (letter ∷ letters) (col ∷ cols) =
    (elim (column_type letter) [ none ↦ [] | some k ↦ cells_bytes k col ])
    ++ columns_bytes letters cols

-- `n` rows of cells that fit the letters.
pub data AreColumns (n : ℕ) : List ℕ → List (List Cell) → Type 0 where
  done : AreColumns n [] []
  more :
      {letter : ℕ} {letters : List ℕ} {col : List Cell} {cols : List (List Cell)} (k : ColumnType)
      → column_type letter ≡ some k
      → All (Fits k) col
      → length col ≡ n
      → AreColumns n letters cols
      → AreColumns n (letter ∷ letters) (col ∷ cols)

unfoldable pub table_bytes : Table → List ℕ
table_bytes t =
    varint_bytes (build_flag t)
    ++ (varint_bytes t.row_cnt
        ++ (string_bytes t.columns_type
            ++ (strings_bytes t.columns_name ++ columns_bytes t.columns_type t.cols)))

abbrev flag_of : List (List ℕ) → List ℕ → ℕ
flag_of names letters = if length names == 0 then (if length letters == 0 then 0 else 1) else 0

flag_cases :
    (names : List (List ℕ)) (letters : List ℕ)
    → ((flag_of names letters ≡ 1) × (names ≡ []))
      ⊎ ((flag_of names letters ≡ 0) × (length names ≡ 0 → length letters ≡ 0))
flag_cases [] [] = inr (refl, λ h. refl)
flag_cases [] (x ∷ xs) = inl (ground arith, refl)
flag_cases (n ∷ ns) letters = inr (ground arith, λ h. absurd (omega arith))

-- A table without column names says so, unless it has no columns.
pub build_flag-cases :
    (t : Table)
    → ((build_flag t ≡ 1) × (t.columns_name ≡ []))
      ⊎ ((build_flag t ≡ 0) × (length t.columns_name ≡ 0 → length t.columns_type ≡ 0))
unfolding build_flag
build_flag-cases t = flag_cases t.columns_name t.columns_type

-- Two writes in a row, while the packet stays within 2^30 bytes.
Puts-then :
    {s : Ser} (as1 bs : List ℕ) (m : Option Ser) (f : Ser → Option Ser)
    → s.pos + length (as1 ++ bs) ≤ max_packet
    → Puts s as1 m
    → ((t : Ser) → IsValid t → t.pos + length bs ≤ max_packet → Puts t bs (f t))
    → Puts s (as1 ++ bs) (m >>= f)
Puts-then {s} xs bs m f h (t, e, at) g =
    let (u, eu, au) = g t at.valid (omega (arith, at.moved, length-append xs bs)) in
    (u, rw e eu, Appends-trans at au)

module _ (junk : ℕ → ℕ) where
  put_cell-Puts :
      (k : ColumnType) (c : Cell) (s : Ser)
      → Fits k c
      → IsValid s
      → s.pos + length (cell_bytes k c) ≤ max_packet
      → Puts s (cell_bytes k c) (put_cell junk k s c)
  unfolding put_cell cell_bytes as_i32 as_i64 as_bool as_bytes as_str put_int put_long put_float
      put_double put_varint put_bytes put_string Serializer.put_int Serializer.put_long
      Serializer.put_float Serializer.put_double
  put_cell-Puts k c s (Fits.int {v} f) a h =
      put_words-Puts junk 4 s (v ∷ []) a (omega (arith, length-words_bytes 4 (v ∷ [])))
  put_cell-Puts k c s (Fits.long {v} f) a h =
      put_words-Puts junk 8 s (v ∷ []) a (omega (arith, length-words_bytes 8 (v ∷ [])))
  put_cell-Puts k c s (Fits.float {v} f) a h =
      put_words-Puts junk 4 s (v ∷ []) a (omega (arith, length-words_bytes 4 (v ∷ [])))
  put_cell-Puts k c s (Fits.double {v} f) a h =
      put_words-Puts junk 8 s (v ∷ []) a (omega (arith, length-words_bytes 8 (v ∷ [])))
  put_cell-Puts k c s (Fits.bytes {bs} f) a h =
      put_bytes-Puts junk s bs a (omega (arith, length-append (varint_bytes (length bs)) bs))
  put_cell-Puts k c s (Fits.string {bs} f) a h =
      put_bytes-Puts junk s bs a (omega (arith, length-append (varint_bytes (length bs)) bs))
  put_cell-Puts k c s Fits.no a h = put_varint-Puts junk s 0 a h
  put_cell-Puts k c s Fits.yes a h = put_varint-Puts junk s 1 a h

  nothing-Puts : (s : Ser) → IsValid s → Puts s [] (some s)
  nothing-Puts s a =
      (s, refl, record { valid = a; moved = omega arith; packet = sym (append-nil _) })

  put_cells-Puts :
      (k : ColumnType) (cs : List Cell) (s : Ser)
      → All (Fits k) cs
      → IsValid s
      → s.pos + length (cells_bytes k cs) ≤ max_packet
      → Puts s (cells_bytes k cs) (put_cells junk k s cs)
  unfolding put_cells encode_all
  put_cells-Puts k [] s f a h = nothing-Puts s a
  put_cells-Puts k (c ∷ cs) s (f, fs) a h =
      Puts-then (cell_bytes k c) (cells_bytes k cs) _ _ h
        (put_cell-Puts k c s f a (omega (arith, length-append (cell_bytes k c) (cells_bytes k cs))))
        (λ t b g. put_cells-Puts k cs t fs b g)

  put_strings-Puts :
      (names : List (List ℕ)) (s : Ser)
      → IsValid s
      → s.pos + length (strings_bytes names) ≤ max_packet
      → Puts s (strings_bytes names) (put_strings junk s names)
  unfolding put_strings encode_all put_string put_bytes
  put_strings-Puts [] s a h = nothing-Puts s a
  put_strings-Puts (bs ∷ names) s a h =
      Puts-then (string_bytes bs) (strings_bytes names) _ _ h
        (put_bytes-Puts junk s bs a (
          omega (
            arith,
            length-append (string_bytes bs) (strings_bytes names),
            length-append (varint_bytes (length bs)) bs,
          )))
        (λ t b g. put_strings-Puts names t b g)

  put_column_lem :
      (t : Table) (i letter : ℕ) (s : Ser) (k : ColumnType) (col : List Cell)
      → column_type letter ≡ some k
      → get_elem? t.cols i ≡ some col
      → put_column junk t i letter s ≡ put_cells junk k s col
  unfolding put_column
  put_column_lem t i letter s k col e found = rw (e, found, put_column) refl

  -- The columns from `i` on, where `before` are the first `i` columns of the table.
  put_columns-Puts :
      {n : ℕ} (t : Table) (before : List (List Cell)) {letters : List ℕ} {cols : List (List Cell)}
      (i : ℕ) (s : Ser)
      → t.cols ≡ before ++ cols
      → i ≡ length before
      → AreColumns n letters cols
      → IsValid s
      → s.pos + length (columns_bytes letters cols) ≤ max_packet
      → Puts s (columns_bytes letters cols) (put_columns junk t i letters s)
  unfolding put_columns columns_bytes
  put_columns-Puts t before i s same here AreColumns.done a h = nothing-Puts s a
  put_columns-Puts t before i s same here
        (AreColumns.more {letter} {letters} {col} {cols} k e fits len rest) a h =
      let found : get_elem? t.cols i ≡ some col =
        rw (same, here) (get_elem?-append before cols col) in
      let room : s.pos + length (cells_bytes k col ++ columns_bytes letters cols) ≤ max_packet =
        rw e at h in
      let next : length (before ++ (col ∷ [])) ≡ suc (length before) =
        omega (arith, length-append before (col ∷ [])) in
      let step = put_column_lem t i letter s k col e found in
      rw e (
        Puts-then (cells_bytes k col) (columns_bytes letters cols) (put_column junk t i letter s) _
          room
          (rw step (
            put_cells-Puts k col s fits a (
              omega (arith, room, length-append (cells_bytes k col) (columns_bytes letters cols)))))
          (λ u b g.
            put_columns-Puts t (before ++ (col ∷ [])) (suc i) u
              (same ∙ sym (append_assoc before (col ∷ []) cols)) (omega (arith, next, here)) rest b
              g))

  put_names-Puts :
      (t : Table) (s : Ser)
      → IsValid s
      → s.pos + length (strings_bytes t.columns_name) ≤ max_packet
      → Puts s
          (strings_bytes t.columns_name)
          (if build_flag t == 1 then some s else put_strings junk s t.columns_name)
  unfolding encode_all
  put_names-Puts t s a h = elim (build_flag-cases t) [
    | inl (e, none1) ↦ rw (e, none1) (nothing-Puts s a)
    | inr (e, _) ↦ rw e (put_strings-Puts t.columns_name s a h)
  ]

  -- A well-formed table of at most 2^30 bytes on the wire is written without leaving the block.
  pub put_table-Puts :
      (t : Table) (s : Ser)
      → AreColumns t.row_cnt t.columns_type t.cols
      → IsValid s
      → s.pos + length (table_bytes t) ≤ max_packet
      → Puts s (table_bytes t) (put_table junk t s)
  unfolding put_table table_bytes put_varint put_string put_bytes
  put_table-Puts t s cols a h =
      let a1 = varint_bytes (build_flag t) in
      let a2 = varint_bytes t.row_cnt in
      let a3 = string_bytes t.columns_type in
      let a4 = strings_bytes t.columns_name in
      let a5 = columns_bytes t.columns_type t.cols in
      let l5 = length-append a4 a5 in
      let l4 = length-append a3 (a4 ++ a5) in
      let l3 = length-append a2 (a3 ++ (a4 ++ a5)) in
      let l2 = length-append a1 (a2 ++ (a3 ++ (a4 ++ a5))) in
      let l1 = length-append (varint_bytes (length t.columns_type)) t.columns_type in
      Puts-then a1 (a2 ++ (a3 ++ (a4 ++ a5))) _ _ h
        (put_varint-Puts junk s (build_flag t) a (omega (arith, l2, h)))
        λ s1 v1 h1.
          Puts-then a2 (a3 ++ (a4 ++ a5)) _ _ h1
            (put_varint-Puts junk s1 t.row_cnt v1 (omega (arith, l3, h1)))
            λ s2 v2 h2.
              Puts-then a3 (a4 ++ a5) _ _ h2
                (put_bytes-Puts junk s2 t.columns_type v2 (omega (arith, l4, l1, h2)))
                λ s3 v3 h3.
                  Puts-then a4 a5 _ _ h3 (put_names-Puts t s3 v3 (omega (arith, l5, h3)))
                    λ s4 v4 h4. put_columns-Puts t [] 0 s4 refl refl cols v4 h4

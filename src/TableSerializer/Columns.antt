-- ===== src/TableSerializer/Columns.antt =====
-- What `load` of class TableSerializer (c/include/pxprpc_ext.hpp) reads from the bytes of a column.
use pxp_rpc.Base.{
  ℕ, suc, ◌^◌, ◌<◌, ◌≡◌, refl, sym, ap, ◌∙◌, true, List, [], ◌∷◌, ◌++◌, Option, some, map, length,
  append-nil, append_assoc, arith, All, ltb, ◌>>=◌,
}
use pxp_rpc.Base.Bytes.{words_bytes, le_bytes}
use pxp_rpc.Serializer
use pxp_rpc.Serializer.{Ser, prepare_unser, prepare_ser}
use pxp_rpc.Serializer.Read.{At, Gets, get_words-Gets, get_varint-Gets, get_bytes-Gets}
use pxp_rpc.CppSerializer.{
  get_bytes, get_int_vec, get_long_vec, get_float_vec, get_double_vec, get_vec, get_varint,
}
use pxp_rpc.CppSerializer.RoundTrip.{get_string-Gets}
use pxp_rpc.TableSerializer.{Cell, ColumnType, column_type}
use pxp_rpc.TableSerializer.Load.{
  get_list, rounds, get_cell_bytes, get_cell_string, get_cell_bool, get_column, get_columns,
}
use pxp_rpc.TableSerializer.Wire.{
  Fits, cell_bytes, encode_all, cells_bytes, columns_bytes, AreColumns,
}

-- Reading the values one by one.
pub get_list-Gets {ℓ κ} :
    {A : Type ℓ} (P : A → Type κ) (get : Ser → Option (A × Ser)) (enc : A → List ℕ)
    → ((x : A) (s : Ser) (pre rest : List ℕ)
        → P x
        → At s pre (enc x ++ rest)
        → Gets pre (enc x) rest x (get s))
    → (xs : List A) {s : Ser} {pre rest : List ℕ} → All P xs
    → At s pre (encode_all enc xs ++ rest)
    → Gets pre (encode_all enc xs) rest xs (get_list get (length xs) s)
unfolding get_list encode_all
get_list-Gets P get enc one [] {s} ps a = (s, refl, rw append-nil a)
get_list-Gets P get enc one (x ∷ xs) {s} {pre} {rest} (p, ps) a =
    let (t, e, at) = one x s pre (encode_all enc xs ++ rest) p (rw append_assoc at a) in
    let (u, f, au) = get_list-Gets P get enc one xs ps at in
    (u, rw (e, f) refl, rw append_assoc at au)

-- Cells of a number type, as the words of a vector.
record Words (k : ColumnType) (make : ℕ → Cell) (w : ℕ) (cs : List Cell) : Type 0 where
  values : List ℕ
  same : cs ≡ map make values
  fit : All (λ v. v < 256 ^ w) values
  bytes : cells_bytes k cs ≡ words_bytes w values

Fits-Words :
    (k : ColumnType) (make : ℕ → Cell) (w : ℕ)
    → ((c : Cell)
        → Fits k c
        → (v : ℕ) × (c ≡ make v) × (v < 256 ^ w) × (cell_bytes k c ≡ le_bytes w v))
    → (cs : List Cell) → All (Fits k) cs
    → Words k make w cs
unfolding encode_all words_bytes
Fits-Words k make w one [] h = record { values = []; same = refl; fit = tt; bytes = refl }
Fits-Words k make w one (c ∷ cs) (h, hs) =
    let (v, e, small, b) = one c h in
    let r = Fits-Words k make w one cs hs in
    record {
      values = v ∷ r.values;
      same = rw (e, r.same) refl;
      fit = (small, r.fit);
      bytes = rw (b, r.bytes) refl;
    }

one_int :
    (c : Cell)
    → Fits ColumnType.int c
    → (v : ℕ) × (c ≡ Cell.int v) × (v < 256 ^ 4) × (cell_bytes ColumnType.int c ≡ le_bytes 4 v)
unfolding cell_bytes words_bytes
one_int c (Fits.int {v} h) = (v, refl, h, append-nil _)

one_long :
    (c : Cell)
    → Fits ColumnType.long c
    → (v : ℕ) × (c ≡ Cell.long v) × (v < 256 ^ 8) × (cell_bytes ColumnType.long c ≡ le_bytes 8 v)
unfolding cell_bytes words_bytes
one_long c (Fits.long {v} h) = (v, refl, h, append-nil _)

one_float :
    (c : Cell)
    → Fits ColumnType.float c
    → (v : ℕ) × (c ≡ Cell.float v) × (v < 256 ^ 4) × (cell_bytes ColumnType.float c ≡ le_bytes 4 v)
unfolding cell_bytes words_bytes
one_float c (Fits.float {v} h) = (v, refl, h, append-nil _)

one_double :
    (c : Cell)
    → Fits ColumnType.double c
    → (v : ℕ) × (c ≡ Cell.double v)
      × (v < 256 ^ 8)
      × (cell_bytes ColumnType.double c ≡ le_bytes 8 v)
unfolding cell_bytes words_bytes
one_double c (Fits.double {v} h) = (v, refl, h, append-nil _)

length-map {ℓ κ} :
    {A : Type ℓ} {B : Type κ} (f : A → B) (xs : List A) → length (map f xs) ≡ length xs
length-map f [] = refl
length-map f (x ∷ xs) = ap suc (length-map f xs)

-- A vector of words as a column.
vector-Gets :
    {k : ColumnType} {make : ℕ → Cell} (w : ℕ) (cs : List Cell) {s : Ser} {pre rest : List ℕ}
    → Words k make w cs
    → At s pre (cells_bytes k cs ++ rest)
    → length cs < 2 ^ 31
    → Gets pre (cells_bytes k cs) rest cs (
        get_vec (λ t n. Serializer.get_words w t n) s (length cs) >>= λ r. some (map make r.0, r.1))
unfolding get_vec
vector-Gets {make = make} w cs {s} {pre} {rest} r a small =
    let n : length cs ≡ length r.values = ap length r.same ∙ length-map make r.values in
    let (t, e, at) = get_words-Gets w r.values (rw r.bytes at a) r.fit in
    let fits : ltb (length cs) (2 ^ 31) ≡ true = ground arith in
    (t, rw (get_vec, fits, n, e) (ap (λ x. some (x, t)) (sym r.same)), rw r.bytes at)

string_cell-Gets :
    (c : Cell) (s : Ser) (pre rest : List ℕ)
    → Fits ColumnType.string c
    → At s pre (cell_bytes ColumnType.string c ++ rest)
    → Gets pre (cell_bytes ColumnType.string c) rest c (get_cell_string s)
unfolding get_cell_string cell_bytes
string_cell-Gets c s pre rest (Fits.string {bs} ne) a =
    let (t, e, at) = get_string-Gets bs a ne in (t, rw e refl, at)

bytes_cell-Gets :
    (c : Cell) (s : Ser) (pre rest : List ℕ)
    → Fits ColumnType.bytes c
    → At s pre (cell_bytes ColumnType.bytes c ++ rest)
    → Gets pre (cell_bytes ColumnType.bytes c) rest c (get_cell_bytes s)
unfolding get_cell_bytes cell_bytes get_bytes
bytes_cell-Gets c s pre rest (Fits.bytes {bs} ne) a =
    let (t, off, e, r, at) = get_bytes-Gets bs a ne in (t, rw (e, r) refl, at)

bool_cell-Gets :
    (c : Cell) (s : Ser) (pre rest : List ℕ)
    → Fits ColumnType.bool c
    → At s pre (cell_bytes ColumnType.bool c ++ rest)
    → Gets pre (cell_bytes ColumnType.bool c) rest c (get_cell_bool s)
unfolding get_cell_bool cell_bytes get_varint
bool_cell-Gets c s pre rest Fits.no a =
    let (t, e, at) = get_varint-Gets 0 a (omega arith) (omega arith) in (t, rw e refl, at)
bool_cell-Gets c s pre rest Fits.yes a =
    let (t, e, at) = get_varint-Gets 1 a (omega arith) (omega arith) in (t, rw e refl, at)

rounds_lem : (n : ℕ) → n < 2 ^ 31 → rounds n ≡ n
rounds_lem n h = ground arith

get_column-Gets :
    (k : ColumnType) (cs : List Cell) {s : Ser} {pre rest : List ℕ}
    → All (Fits k) cs
    → At s pre (cells_bytes k cs ++ rest)
    → length cs < 2 ^ 31
    → Gets pre (cells_bytes k cs) rest cs (get_column k (length cs) s)
unfolding get_column get_int_vec get_long_vec get_float_vec get_double_vec Serializer.get_int
    Serializer.get_long Serializer.get_float Serializer.get_double
get_column-Gets ColumnType.int cs f a h =
    vector-Gets 4 cs (Fits-Words ColumnType.int Cell.int 4 one_int cs f) a h
get_column-Gets ColumnType.long cs f a h =
    vector-Gets 8 cs (Fits-Words ColumnType.long Cell.long 8 one_long cs f) a h
get_column-Gets ColumnType.float cs f a h =
    vector-Gets 4 cs (Fits-Words ColumnType.float Cell.float 4 one_float cs f) a h
get_column-Gets ColumnType.double cs f a h =
    vector-Gets 8 cs (Fits-Words ColumnType.double Cell.double 8 one_double cs f) a h
get_column-Gets ColumnType.bytes cs f a h = rw (rounds_lem (length cs) h) (
    get_list-Gets (Fits ColumnType.bytes) get_cell_bytes (cell_bytes ColumnType.bytes)
      bytes_cell-Gets cs f a)
get_column-Gets ColumnType.string cs f a h = rw (rounds_lem (length cs) h) (
    get_list-Gets (Fits ColumnType.string) get_cell_string (cell_bytes ColumnType.string)
      string_cell-Gets cs f a)
get_column-Gets ColumnType.bool cs f a h = rw (rounds_lem (length cs) h) (
    get_list-Gets (Fits ColumnType.bool) get_cell_bool (cell_bytes ColumnType.bool) bool_cell-Gets
      cs f a)

columns_bytes_lem :
    (letter : ℕ) (letters : List ℕ) (col : List Cell) (cols : List (List Cell)) (k : ColumnType)
    → column_type letter ≡ some k
    → columns_bytes (letter ∷ letters) (col ∷ cols)
      ≡ cells_bytes k col ++ columns_bytes letters cols
unfolding columns_bytes
columns_bytes_lem letter letters col cols k e = rw (e, columns_bytes) refl

get_columns_lem :
    (letter : ℕ) (letters : List ℕ) (n : ℕ) (s t u : Ser) (k : ColumnType) (col : List Cell)
    (cols : List (List Cell))
    → column_type letter ≡ some k
    → get_column k n s ≡ some (col, t)
    → get_columns letters n t ≡ some (cols, u)
    → get_columns (letter ∷ letters) n s ≡ some (col ∷ cols, u)
unfolding get_columns
get_columns_lem letter letters n s t u k col cols e et eu = rw (get_columns, e, et, eu) refl

pub get_columns-Gets :
    {n : ℕ} {letters : List ℕ} {cols : List (List Cell)} {s : Ser} {pre rest : List ℕ}
    → AreColumns n letters cols
    → n < 2 ^ 31
    → At s pre (columns_bytes letters cols ++ rest)
    → Gets pre (columns_bytes letters cols) rest cols (get_columns letters n s)
unfolding get_columns columns_bytes
get_columns-Gets {s = s} AreColumns.done h a = (s, refl, rw append-nil a)
get_columns-Gets {n} {s = s} {pre = pre} {rest = rest}
      (AreColumns.more {letter} {letters} {col} {cols} k e fits len others) h a =
    let b = columns_bytes_lem letter letters col cols k e in
    let a' : At s pre (cells_bytes k col ++ (columns_bytes letters cols ++ rest)) =
      rw append_assoc at (rw b at a) in
    let (t, et, at) = get_column-Gets k col fits a' (omega (arith, len)) in
    let (u, eu, au) = get_columns-Gets others h at in
    (
      u,
      get_columns_lem letter letters n s t u k col cols e (rw len at et) eu,
      rw b (rw append_assoc at au),
    )

-- ===== src/TableSerializer/RoundTrip.antt =====
-- A table that class TableSerializer (c/include/pxprpc_ext.hpp) writes is read back.
use pxp_rpc.Base.{
  ℕ, ◌%◌, ◌^◌, ◌≤◌, ◌<◌, ◌≡◌, ◌≢◌, refl, sym, ap, ◌∙◌, List, [], ◌++◌, none, some, length,
  append-nil, append_assoc, arith, All, ◌==◌, if◌then◌else◌, ◌>>=◌, ◌⊎◌, inl, inr,
}
use pxp_rpc.Serializer.{Ser, prepare_unser, prepare_ser}
use pxp_rpc.Serializer.Write.{
  max_packet, varint_bytes, prepare_ser-IsValid, prepare_ser-pos, prepare_ser-packet,
}
use pxp_rpc.Serializer.Read.{At, Gets, prepare_unser-At, get_varint-Gets}
use pxp_rpc.CppSerializer.{
  get_varint, get_string, build, prepare_serializing, prepare_unserializing,
}
use pxp_rpc.CppSerializer.RoundTrip.{get_string-Gets}
use pxp_rpc.TableSerializer.{Table, build_flag, build_ser, bound_ser}
use pxp_rpc.TableSerializer.Load.{get_list, load_from, load}
use pxp_rpc.TableSerializer.Wire.{
  string_bytes, encode_all, strings_bytes, columns_bytes, AreColumns, table_bytes, build_flag-cases,
  put_table-Puts,
}
use pxp_rpc.TableSerializer.Columns.{get_list-Gets, get_columns-Gets}

-- A table that can be written: its columns agree with its letters and its number of rows, and its
-- names, if it has any, with the number of columns. No count or length is 255.
pub record IsTable (t : Table) : Type 0 where
  pub columns : AreColumns t.row_cnt t.columns_type t.cols
  pub few_rows : t.row_cnt < 2 ^ 31
  pub rows_255 : t.row_cnt ≢ 255
  pub type_255 : length t.columns_type ≢ 255
  pub named : (t.columns_name ≡ []) ⊎ (length t.columns_name ≡ length t.columns_type)
  pub names_255 : All (λ name. length name ≢ 255) t.columns_name

-- The names that are read: none when the flag says so.
get_names-Gets :
    (t : Table) {s : Ser} {pre rest : List ℕ}
    → IsTable t
    → At s pre (strings_bytes t.columns_name ++ rest)
    → Gets pre (strings_bytes t.columns_name) rest t.columns_name (
        if build_flag t % 2 == 0
        then get_list get_string (length t.columns_type) s
        else some ([], s))
unfolding encode_all
get_names-Gets t {s} v a = elim (build_flag-cases t) [
  | inl (e, bare) ↦ rw (e, bare) (s, refl, rw append-nil (rw bare at a))
  | inr (e, empty) ↦
      let same : length t.columns_type ≡ length t.columns_name = elim v.named [
        | inl none1 ↦ empty (ap length none1) ∙ sym (ap length none1)
        | inr n ↦ sym n
      ] in
      rw (e, same)
        (get_list-Gets (λ name. length name ≢ 255) get_string string_bytes
          (λ name s1 pre1 rest1 ne b. get_string-Gets name b ne) t.columns_name v.names_255 a)
]

build_flag_small : (t : Table) → (build_flag t < 2 ^ 32) × (build_flag t ≢ 255)
build_flag_small t = elim (build_flag-cases t) [
  | inl (e, _) ↦ rw e (omega arith, omega arith)
  | inr (e, _) ↦ rw e (omega arith, omega arith)
]

-- What loading the bytes of a table leaves in the table it is loaded into.
load_from-Gets :
    (t old : Table) {s : Ser} {pre rest : List ℕ}
    → IsTable t
    → At s pre (table_bytes t ++ rest)
    → Gets pre
        (table_bytes t)
        rest
        (record old {
          flag = build_flag t;
          row_cnt = t.row_cnt;
          columns_type = t.columns_type;
          columns_name = t.columns_name;
          cols = old.cols ++ t.cols;
        })
        (load_from old s)
unfolding load_from table_bytes get_varint
load_from-Gets t old {s} {pre} {rest} v a =
    let a1 = varint_bytes (build_flag t) in
    let a2 = varint_bytes t.row_cnt in
    let a3 = string_bytes t.columns_type in
    let a4 = strings_bytes t.columns_name in
    let a5 = columns_bytes t.columns_type t.cols in
    let b : At s pre (a1 ++ (a2 ++ (a3 ++ (a4 ++ (a5 ++ rest))))) =
      rw
        (
          append_assoc a1 (a2 ++ (a3 ++ (a4 ++ a5))) rest,
          append_assoc a2 (a3 ++ (a4 ++ a5)) rest,
          append_assoc a3 (a4 ++ a5) rest,
          append_assoc a4 a5 rest,
        )
        at a in
    let (s1, e1, b1) =
      get_varint-Gets (build_flag t) b (build_flag_small t).0 (build_flag_small t).1 in
    let (s2, e2, b2) = get_varint-Gets t.row_cnt b1 (omega (arith, v.few_rows)) v.rows_255 in
    let (s3, e3, b3) = get_string-Gets t.columns_type b2 v.type_255 in
    let (s4, e4, b4) = get_names-Gets t v b3 in
    let (s5, e5, b5) = get_columns-Gets v.columns v.few_rows b4 in
    (
      s5,
      rw (load_from, e1, e2, e3, e4, e5) refl,
      rw
          (
            append_assoc (((pre ++ a1) ++ a2) ++ a3) a4 a5,
            append_assoc ((pre ++ a1) ++ a2) a3 (a4 ++ a5),
            append_assoc (pre ++ a1) a2 (a3 ++ (a4 ++ a5)),
            append_assoc pre a1 (a2 ++ (a3 ++ (a4 ++ a5))),
          )
          at b5,
    )

module _ (junk : ℕ → ℕ) where
  bound_ser_lem : (t : Table) → t.ser ≡ none → bound_ser junk t ≡ prepare_ser junk 16
  unfolding bound_ser prepare_serializing
  bound_ser_lem t h = ground arith

  -- A table that is not bound to a serializer, written by `buildSer` and loaded by `load` into any
  -- table: the rows, the letters, the names and the flag are those of the written table, and its
  -- columns stand behind the columns that were there.
  pub load-build_ser :
      (t old : Table)
      → IsTable t
      → t.ser ≡ none
      → length (table_bytes t) ≤ max_packet
      → (build_ser junk t >>= λ r. load old (build r.0))
        ≡ some (record old {
          ser = none;
          flag = build_flag t;
          row_cnt = t.row_cnt;
          columns_type = t.columns_type;
          columns_name = t.columns_name;
          cols = old.cols ++ t.cols;
        })
  unfolding build_ser load prepare_unserializing build
  load-build_ser t old v unbound fits =
      let ready = prepare_ser-IsValid junk 16 (omega arith) in
      let (s, e, as1) =
        put_table-Puts junk t (prepare_ser junk 16) v.columns ready
          (omega (arith, fits, prepare_ser-pos junk 16)) in
      let (packet, _) = prepare_ser-packet junk 16 (table_bytes t) s as1 in
      let begin : At (prepare_unser (table_bytes t)) [] (table_bytes t ++ []) =
        rw append-nil (prepare_unser-At (table_bytes t) (omega arith)) in
      let (u, f, au) = load_from-Gets t old v begin in
      rw (bound_ser_lem t unbound, e, packet, f) refl

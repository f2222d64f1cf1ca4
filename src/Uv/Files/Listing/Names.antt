-- ===== src/Uv/Files/Listing/Names.antt =====
-- A listing of a folder has no names (runtime_bridge/c-modules/pxprpc_libuv_rpc/init.hpp).
use std.Path.{fun_ext}
use pxp_rpc.Base.{
  ℕ, zero, suc, ◌+◌, ◌-◌, ◌^◌, ◌<◌, ◌≤◌, ◌≡◌, ◌≢◌, refl, sym, ap, ◌∙◌, List, [], ◌∷◌, ◌++◌, Option,
  none, some, ◌>>=◌, length, replicate, arith, append-nil, append_assoc, All, inr, length-replicate,
  >>=-eq-some,
}
use pxp_rpc.Serializer.{Ser}
use pxp_rpc.Serializer.Write.{max_packet}
use pxp_rpc.CppSerializer.{prepare_serializing, put_varint, build, put_string}
use pxp_rpc.TableSerializer.{
  put_strings, Cell, as_str, ColumnType, column_type, Table, new_table, build_flag, bound_ser,
  put_cell, put_cells, put_column, put_columns, put_table, build_ser,
}
use pxp_rpc.TableSerializer.Rows.{
  one_more, next_pos, move_to_next_value_pos_x, push_at, add_value, set_columns_info,
}
use pxp_rpc.TableSerializer.Load.{load}
use pxp_rpc.TableSerializer.Wire.{Fits, AreColumns, table_bytes}
use pxp_rpc.TableSerializer.RoundTrip.{IsTable, load-build_ser}
use pxp_rpc.Uv.Files.Listing.{EntryType, add_text, add_entries, entry_type_name, listing_table}

-- The table of the listing with its two columns.
abbrev listing : Option ℕ → ℕ → List Cell → List Cell → Table
listing pos n names types = record {
  ser = none;
  flag = 0;
  row_cnt = n;
  columns_type = 115 ∷ 115 ∷ [];
  columns_name = (110 ∷ 97 ∷ 109 ∷ 101 ∷ []) ∷ (116 ∷ 121 ∷ 112 ∷ 101 ∷ []) ∷ [];
  cols = names ∷ types ∷ [];
  pos_x = pos;
}

-- A row of the listing begins.
data RowEnd : Option ℕ → Type 0 where
  first_row : RowEnd none
  next_row : RowEnd (some 1)

one_more_lem : (n : ℕ) → n < 2 ^ 31 - 1 → one_more n ≡ some (suc n)
unfolding one_more
one_more_lem n h = ground arith

add_entry :
    {pos : Option ℕ} (n : ℕ) (names types : List Cell) (name type_name : List ℕ)
    → RowEnd pos
    → n < 2 ^ 31 - 1
    → (add_text (listing pos n names types) name >>= λ u. add_text u type_name)
      ≡ some (listing (some 1) (suc n) (names ++ (Cell.int 1 ∷ [])) (types ++ (Cell.int 1 ∷ [])))
unfolding add_text add_value move_to_next_value_pos_x next_pos push_at
add_entry n names types name type_name first_row h = rw (one_more_lem n h) refl
add_entry n names types name type_name next_row h = rw (one_more_lem n h) refl

abbrev ones : ℕ → List Cell
ones n = replicate n (Cell.int 1)

abbrev pub blanks : ℕ → List Cell
blanks n = replicate n (Cell.string [])

listing_same :
    (last : Option ℕ) {m n : ℕ} {a a' b b' : List Cell}
    → m ≡ n
    → a ≡ a'
    → b ≡ b'
    → listing last m a b ≡ listing last n a' b'
listing_same last {m} {n} {a} {a'} {b} {b'} p q r =
    ap (λ k. listing last k a b) p
    ∙ (ap (λ k. listing last n k b) q ∙ ap (λ k. listing last n a' k) r)

add_entries_lem :
    (es : List (List ℕ × EntryType)) (pos : Option ℕ) (n : ℕ) (names types : List Cell)
    → RowEnd pos
    → n + length es < 2 ^ 31 - 1
    → (last : Option ℕ) × (add_entries (listing pos n names types) es
        ≡ some
            (listing last (n + length es) (names ++ ones (length es)) (types ++ ones (length es))))
unfolding add_entries
add_entries_lem [] pos n names types e h = (
  pos,
  ap some (listing_same pos (omega arith) (sym (append-nil names)) (sym (append-nil types))),
)
add_entries_lem (x ∷ es) pos n names types e h =
    let one = Cell.int 1 ∷ [] in
    let (last, ran) =
      add_entries_lem es (some 1) (suc n) (names ++ one) (types ++ one) next_row (omega arith) in
    let (u, e1, e2) =
      >>=-eq-some (add_text (listing pos n names types) x.0) _
        (add_entry n names types x.0 (entry_type_name x.1) e (omega arith)) in
    (
      last,
      rw (e1, e2)
          (ran
            ∙ ap some (
                listing_same last (omega arith) (append_assoc names one (ones (length es)))
                  (append_assoc types one (ones (length es))))),
    )

-- A text column writes nothing of a number.
put_cells-ones :
    (junk : ℕ → ℕ) (n : ℕ) (s : Ser)
    → put_cells junk ColumnType.string s (ones n) ≡ put_cells junk ColumnType.string s (blanks n)
unfolding put_cells put_cell as_str
put_cells-ones junk zero s = refl
put_cells-ones junk (suc n) s =
    ap (λ k. put_string junk s [] >>= k) (fun_ext λ t. put_cells-ones junk n t)

put_columns-ones :
    (junk : ℕ → ℕ) (pos last : Option ℕ) (n : ℕ) (s : Ser)
    → put_columns junk (listing pos n (ones n) (ones n)) 0 (115 ∷ 115 ∷ []) s
      ≡ put_columns junk (listing last n (blanks n) (blanks n)) 0 (115 ∷ 115 ∷ []) s
unfolding put_columns put_column column_type
put_columns-ones junk pos last n s =
    ap
      (λ (m : Option Ser).
        m >>= λ s1. put_cells junk ColumnType.string s1 (ones n) >>= λ s2. some s2)
      (put_cells-ones junk n s)
    ∙ ap
        (λ (f : Ser → Option Ser).
          put_cells junk ColumnType.string s (blanks n) >>= λ s1. f s1 >>= λ s2. some s2)
        (fun_ext λ t. put_cells-ones junk n t)

-- The packet of a table.
abbrev pub packet_of : (ℕ → ℕ) → Table → Option (List ℕ)
packet_of junk t = build_ser junk t >>= λ r. some (build r.0)

packet_forgets :
    (m : Option Ser) (bind : Ser → Table)
    → ((m >>= λ s. some (s, bind s)) >>= λ (r : Ser × Table). some (build r.0))
      ≡ (m >>= λ s. some (build s))
packet_forgets none bind = refl
packet_forgets (some s) bind = refl

packet_of_lem :
    (junk : ℕ → ℕ) (t : Table)
    → packet_of junk t ≡ (put_table junk t (bound_ser junk t) >>= λ s. some (build s))
unfolding build_ser
packet_of_lem junk t =
    packet_forgets (put_table junk t (bound_ser junk t)) (λ s. record t { ser = some s })

packet_of-ones :
    (junk : ℕ → ℕ) (pos last : Option ℕ) (n : ℕ)
    → packet_of junk (listing pos n (ones n) (ones n))
      ≡ packet_of junk (listing last n (blanks n) (blanks n))
unfolding put_table bound_ser build_flag
packet_of-ones junk pos last n =
    let names = (110 ∷ 97 ∷ 109 ∷ 101 ∷ []) ∷ (116 ∷ 121 ∷ 112 ∷ 101 ∷ []) ∷ [] in
    packet_of_lem junk (listing pos n (ones n) (ones n))
    ∙ (ap
          (λ (f : Ser → Option Ser).
            (put_varint junk (prepare_serializing junk 16) 0 >>= λ s1.
            put_varint junk s1 n >>= λ s2.
            put_string junk s2 (115 ∷ 115 ∷ []) >>= λ s3. put_strings junk s3 names >>= f)
            >>= λ s. some (build s))
          (fun_ext λ s. put_columns-ones junk pos last n s)
        ∙ sym (packet_of_lem junk (listing last n (blanks n) (blanks n))))

blanks_fit : (n : ℕ) → All (Fits ColumnType.string) (blanks n)
blanks_fit zero = tt
blanks_fit (suc n) = (Fits.string (λ e. omega arith), blanks_fit n)

blank_IsTable :
    (pos : Option ℕ) (n : ℕ) → n < 2 ^ 31 → n ≢ 255 → IsTable (listing pos n (blanks n) (blanks n))
unfolding column_type
blank_IsTable pos n h ne = record {
  columns =
      AreColumns.more ColumnType.string refl (blanks_fit n) (length-replicate n (Cell.string [])) (
        AreColumns.more ColumnType.string refl (blanks_fit n) (length-replicate n (Cell.string []))
          AreColumns.done);
  few_rows = h;
  rows_255 = ne;
  type_255 = λ e. omega arith;
  named = inr refl;
  names_255 = ((λ e. omega arith), ((λ e. omega arith), tt));
}

-- What a caller loads from the answer of `fs_scandir`, or none.
abbrev pub loaded : (ℕ → ℕ) → List (List ℕ × EntryType) → Option Table
loaded junk entries =
    add_entries listing_table entries >>= λ t. packet_of junk t >>= λ bs. load new_table bs

loaded_packet :
    (m : Option (Ser × Table))
    → ((m >>= λ r. some (build r.0)) >>= λ bs. load new_table bs)
      ≡ (m >>= λ r. load new_table (build r.0))
loaded_packet none = refl
loaded_packet (some r) = refl

-- Of a folder with less than 2^31 - 1 entries, but not 255, whose listing takes at most 2^30 bytes, the
-- caller of `fs_scandir` gets a table with one row for each entry, in which all names and all types
-- are empty.
pub load-add_entries :
    (junk : ℕ → ℕ) (entries : List (List ℕ × EntryType))
    → length entries < 2 ^ 31 - 1
    → length entries ≢ 255
    → length (
        table_bytes
          (listing none (length entries) (blanks (length entries)) (blanks (length entries))))
      ≤ max_packet
    → (t : Table) × (loaded junk entries ≡ some t)
      × (t.row_cnt ≡ length entries)
      × (t.cols ≡ blanks (length entries) ∷ blanks (length entries) ∷ [])
unfolding set_columns_info new_table
load-add_entries junk entries few ne fits =
    let n = length entries in
    let (last, ran) = add_entries_lem entries none 0 [] [] first_row (omega arith) in
    let same : 0 + n ≡ n = omega arith in
    let full : add_entries listing_table entries ≡ some (listing last n (ones n) (ones n)) =
      ran ∙ ap some (listing_same last same refl refl) in
    let blank = listing none n (blanks n) (blanks n) in
    let got =
      load-build_ser junk blank new_table (blank_IsTable none n (omega arith) ne) refl fits in
    (
      _,
      ap (λ (m : Option Table). m >>= λ t. packet_of junk t >>= λ bs. load new_table bs) full
          ∙ (ap (λ (m : Option (List ℕ)). m >>= λ bs. load new_table bs)
                (packet_of-ones junk last none n)
              ∙ (loaded_packet (build_ser junk blank) ∙ got)),
      refl,
      refl,
    )

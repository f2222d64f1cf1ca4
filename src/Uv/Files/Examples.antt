-- ===== src/Uv/Files/Examples.antt =====
-- Calls on files with a concrete parameter, and the theorems on them.
use pxp_rpc.Base.{ℕ, ◌≡◌, refl, List, [], ◌∷◌, Option, none, some, arith}
use pxp_rpc.Base.Bytes.{words_bytes, le_bytes}
use pxp_rpc.Serializer.Write.{varint_bytes}
use pxp_rpc.CppSerializer.RoundTrip.{items_bytes, item_bytes}
use pxp_rpc.TableSerializer.{Table, column_type, build_flag}
use pxp_rpc.TableSerializer.Wire.{table_bytes, columns_bytes, cell_bytes, encode_all}
use pxp_rpc.RefPool.{Pool}
use pxp_rpc.Callable.{Object, dereference, object_on_free}
use pxp_rpc.Uv.Files.{Request}
use pxp_rpc.Uv.Files.Requests.{fs_call, request_items, fs_call-request_items}
use pxp_rpc.Uv.Files.Listing.{EntryType}
use pxp_rpc.Uv.Files.Listing.Names.{loaded, blanks, load-add_entries}

-- One open file, at reference 0.
abbrev one_file : Pool
one_file = record {
  refs = record { object = some 9; on_free = some object_on_free; next_free = none } ∷ [];
  free_entry = none;
  size = 1;
  calls = [];
}

abbrev descriptors : ℕ → Option ℕ
descriptors x = some 4

one_file-dereference : dereference one_file 0 ≡ some (some (Object.plain 9))
unfolding dereference
one_file-dereference = refl

abbrev hello : Request
hello = Request.write_file 4 10 (104 ∷ 105 ∷ [])

fs_call-request_items_example :
    fs_call
      (λ i. 0)
      one_file
      descriptors
      hello
      (record { raw = items_bytes (request_items 0 hello); ser = none })
    ≡ some hello
unfolding items_bytes item_bytes words_bytes le_bytes varint_bytes
fs_call-request_items_example =
    fs_call-request_items (λ i. 0) one_file descriptors one_file-dereference refl (omega arith)
      hello (refl, omega arith, λ e. omega arith) (omega arith)

abbrev folder : List (List ℕ × EntryType)
folder = ((97 ∷ []), EntryType.file) ∷ ((98 ∷ 99 ∷ []), EntryType.dir) ∷ []

load-add_entries_example :
    (t : Table) × (loaded (λ i. 0) folder ≡ some t)
    × (t.row_cnt ≡ 2)
    × (t.cols ≡ blanks 2 ∷ blanks 2 ∷ [])
unfolding table_bytes columns_bytes column_type cell_bytes encode_all words_bytes le_bytes
    varint_bytes build_flag
load-add_entries_example =
    load-add_entries (λ i. 0) folder (omega arith) (λ e. omega arith) (omega arith)

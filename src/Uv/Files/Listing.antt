-- ===== src/Uv/Files/Listing.antt =====
-- `fs_scandir` and `fs_stat` of runtime_bridge/c-modules/pxprpc_libuv_rpc/init.hpp, which answer tables.
pub mod Names
use pxp_rpc.Base.{
  ℕ, ◌+◌, ◌*◌, ◌^◌, ◌/◌, ◌%◌, Bool, true, false, List, [], ◌∷◌, Option, none, some, ltb, leb, ◌==◌,
  if◌then◌else◌, ◌>>=◌,
}
use pxp_rpc.CppSerializer.{build}
use pxp_rpc.TableSerializer.{Cell, Table, new_table, build_ser}
use pxp_rpc.TableSerializer.Rows.{add_value, set_columns_info}
use pxp_rpc.Callable.{Parameter}
use pxp_rpc.Uv.{Answer}
use pxp_rpc.Uv.Files.{next_c_string, Request, Result, failed}

-- `addValue` of a `const char *`: of its overloads C++ takes the one for `bool`, by a standard
-- conversion, before the one for `std::string`. The pointer is not NULL.
unfoldable pub add_text : Table → List ℕ → Option Table
add_text t text = add_value t (Cell.int 1)

-- `uv_dirent_t`
pub data EntryType : Type 0 where
  file dir link other : EntryType

abbrev pub file_name : List ℕ
file_name = 102 ∷ 105 ∷ 108 ∷ 101 ∷ []

abbrev pub dir_name : List ℕ
dir_name = 100 ∷ 105 ∷ 114 ∷ []

abbrev pub link_name : List ℕ
link_name = 108 ∷ 105 ∷ 110 ∷ 107 ∷ []

abbrev pub unknown_name : List ℕ
unknown_name = 117 ∷ 110 ∷ 107 ∷ 110 ∷ 111 ∷ 119 ∷ 110 ∷ []

unfoldable pub entry_type_name : EntryType → List ℕ
entry_type_name EntryType.file = file_name
entry_type_name EntryType.dir = dir_name
entry_type_name EntryType.link = link_name
entry_type_name EntryType.other = unknown_name

-- The loop of `fs_scandir`.
unfoldable pub add_entries : Table → List (List ℕ × EntryType) → Option Table
add_entries t [] = some t
add_entries t (e ∷ es) =
    add_text t e.0 >>= λ u. add_text u (entry_type_name e.1) >>= λ v. add_entries v es

abbrev pub listing_table : Table
listing_table =
    set_columns_info new_table (115 ∷ 115 ∷ [])
      ((110 ∷ 97 ∷ 109 ∷ 101 ∷ []) ∷ (116 ∷ 121 ∷ 112 ∷ 101 ∷ []) ∷ [])

-- `st_mode & S_IFREG`, and so on: a test of the bits of the constant.
unfoldable pub stat_type_name : ℕ → List ℕ
stat_type_name mode =
    let bit15 = mode / 2 ^ 15 % 2 == 1 in
    let bit14 = mode / 2 ^ 14 % 2 == 1 in
    let bit13 = mode / 2 ^ 13 % 2 == 1 in
    if bit15
    then file_name
    else if bit14
    then dir_name
    else if (if bit15 then true else bit13)
    then link_name
    else unknown_name

-- What libuv says of a file: `st_mode`, `st_size` and the time of the last change.
pub record Stat : Type 0 where
  pub mode : ℕ
  pub size : ℕ
  pub seconds : ℕ
  pub nanoseconds : ℕ

abbrev pub stat_table : Table
stat_table = set_columns_info new_table (108 ∷ 115 ∷ 108 ∷ 105 ∷ []) (
    (115 ∷ 105 ∷ 122 ∷ 101 ∷ [])
    ∷ (116 ∷ 121 ∷ 112 ∷ 101 ∷ [])
    ∷ (109 ∷ 116 ∷ 105 ∷ 109 ∷ 101 ∷ [])
    ∷ (109 ∷ 111 ∷ 100 ∷ 101 ∷ [])
    ∷ [])

unfoldable pub add_stat : Table → Stat → Option Table
add_stat t s = add_value t (Cell.long s.size) >>= λ t1.
    add_text t1 (stat_type_name s.mode) >>= λ t2.
    add_value t2 (Cell.long ((s.seconds * 1000 + s.nanoseconds / 1_000_000) % 2 ^ 64)) >>= λ t3.
    add_value t3 (Cell.int (s.mode % 2 ^ 31))

module _ (junk : ℕ → ℕ) where
  abbrev resolve_table : Option Table → Option Answer
  resolve_table t = t >>= λ u. build_ser junk u >>= λ r. some (Answer.bytes (build r.0))

  unfoldable pub fs_scandir :
      Parameter → Option (Request × (Result → List (List ℕ × EntryType) → Option Answer))
  fs_scandir para = next_c_string para >>= λ p. some (
    Request.scandir p.0,
    λ r entries.
        if failed r
        then some (Answer.error r.value)
        else resolve_table (add_entries listing_table entries),
  )

  unfoldable pub fs_stat : Parameter → Option (Request × (Result → Stat → Option Answer))
  fs_stat para = next_c_string para >>= λ p. some (
    Request.stat p.0,
    λ r s. if failed r then some (Answer.error r.value) else resolve_table (add_stat stat_table s),
  )

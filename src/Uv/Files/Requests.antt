-- ===== src/Uv/Files/Requests.antt =====
-- What a caller writes in the parameter of a call on files is what libuv is asked
-- (runtime_bridge/c-modules/pxprpc_libuv_rpc/init.hpp).
use pxp_rpc.Base.{
  ltb, ℕ, ◌^◌, ◌<◌, ◌≡◌, ◌≢◌, refl, sym, ap, ◌∙◌, Bool, true, false, List, [], ◌∷◌, ◌++◌, Option,
  none, some, ◌>>=◌, length, arith, ◌⊎◌, inl, inr, append_assoc,
}
use pxp_rpc.Base.Bytes.{read}
use pxp_rpc.CppSerializer.RoundTrip.{Item, item_bytes, items_bytes}
use pxp_rpc.RefPool.{Pool}
use pxp_rpc.Pipe.Servers.{same_name}
use pxp_rpc.Callable.{Parameter, Object, dereference}
use pxp_rpc.Uv.Files.Listing.{fs_scandir, fs_stat}
use pxp_rpc.Uv.Files.{
  Request, open_request, fs_open, fs_unlink, fs_mkdir, fs_rmdir, fs_rename, fs_readlink, fs_chmod,
  fs_read, fs_write, fs_ftruncate,
}
use pxp_rpc.Uv.Files.Reads.{
  IsText, start, next_string-Reads, next_c_string-Reads, next_int-Reads, next_long-Reads,
  next_bytes-Reads, next_file-Reads,
}

-- How a caller writes a request: `index` is its reference to the open file.
abbrev pub flag_of : Bool → Bool → List ℕ
flag_of true true = 119 ∷ []
flag_of true false = 114 ∷ 43 ∷ []
flag_of false create = 114 ∷ []

abbrev pub request_items : ℕ → Request → List Item
request_items index (Request.open_file path rw create mode) =
    Item.string path ∷ Item.string (flag_of rw create) ∷ []
request_items index (Request.read_file fd size offset) =
    Item.int index ∷ Item.int size ∷ Item.long offset ∷ []
request_items index (Request.write_file fd offset bytes) =
    Item.int index ∷ Item.long offset ∷ Item.string bytes ∷ []
request_items index (Request.unlink path) = Item.string path ∷ []
request_items index (Request.rmdir path) = Item.string path ∷ []
request_items index (Request.scandir path) = Item.string path ∷ []
request_items index (Request.stat path) = Item.string path ∷ []
request_items index (Request.readlink path) = Item.string path ∷ []
request_items index (Request.mkdir path mode) = Item.string path ∷ []
request_items index (Request.chmod path mode) = Item.string path ∷ Item.int mode ∷ []
request_items index (Request.rename path1 path2) = Item.string path1 ∷ Item.string path2 ∷ []
request_items index (Request.ftruncate fd offset) = Item.int index ∷ Item.long offset ∷ []

-- The requests that there are calls for, on the file `fd`; paths have no zero, and no length is 255.
abbrev pub IsRequest : ℕ → Request → Type 0
IsRequest fd (Request.open_file path rw create mode) =
    IsText path × (mode ≡ 438) × ((rw ≡ true) ⊎ (create ≡ false))
IsRequest fd (Request.read_file fd' size offset) = (fd' ≡ fd) × (size < 2 ^ 31) × (offset < 2 ^ 64)
IsRequest fd (Request.write_file fd' offset bytes) =
    (fd' ≡ fd) × (offset < 2 ^ 64) × (length bytes ≢ 255)
IsRequest fd (Request.unlink path) = IsText path
IsRequest fd (Request.rmdir path) = IsText path
IsRequest fd (Request.scandir path) = IsText path
IsRequest fd (Request.stat path) = IsText path
IsRequest fd (Request.readlink path) = IsText path
IsRequest fd (Request.mkdir path mode) = IsText path × (mode ≡ 438)
IsRequest fd (Request.chmod path mode) = IsText path × (mode < 2 ^ 32)
IsRequest fd (Request.rename path1 path2) = IsText path1 × IsText path2
IsRequest fd (Request.ftruncate fd' offset) = (fd' ≡ fd) × (offset < 2 ^ 64)

abbrev asked_of {ℓ} : {A : Type ℓ} → Option (Request × A) → Option Request
asked_of c = c >>= λ x. some x.0

-- What the call for a request asks of libuv.
abbrev pub fs_call : (ℕ → ℕ) → Pool → (ℕ → Option ℕ) → Request → Parameter → Option Request
fs_call junk pool fds (Request.open_file path rw create mode) p = asked_of (fs_open p)
fs_call junk pool fds (Request.read_file fd size offset) p = asked_of (fs_read pool fds p)
fs_call junk pool fds (Request.write_file fd offset bytes) p = asked_of (fs_write pool fds p)
fs_call junk pool fds (Request.unlink path) p = asked_of (fs_unlink p)
fs_call junk pool fds (Request.rmdir path) p = asked_of (fs_rmdir p)
fs_call junk pool fds (Request.scandir path) p = asked_of (fs_scandir junk p)
fs_call junk pool fds (Request.stat path) p = asked_of (fs_stat junk p)
fs_call junk pool fds (Request.readlink path) p = asked_of (fs_readlink p)
fs_call junk pool fds (Request.mkdir path mode) p = asked_of (fs_mkdir p)
fs_call junk pool fds (Request.chmod path mode) p = asked_of (fs_chmod p)
fs_call junk pool fds (Request.rename path1 path2) p = asked_of (fs_rename p)
fs_call junk pool fds (Request.ftruncate fd offset) p = asked_of (fs_ftruncate pool fds p)

open_request-flag_of :
    (path : List ℕ) (rw1 create : Bool)
    → (rw1 ≡ true) ⊎ (create ≡ false)
    → open_request path (flag_of rw1 create) ≡ Request.open_file path rw1 create 438
unfolding open_request same_name
open_request-flag_of path true true h = refl
open_request-flag_of path true false h = refl
open_request-flag_of path false false h = refl
open_request-flag_of path false true h =
    absurd (elim h [ inl e ↦ ground arith | inr e ↦ ground arith ])

length-flag_of : (rw1 create : Bool) → length (flag_of rw1 create) ≢ 255
length-flag_of true true e = omega arith
length-flag_of true false e = omega arith
length-flag_of false create e = omega arith

module _ (junk : ℕ → ℕ) (pool : Pool) (fds : ℕ → Option ℕ) {index x fd : ℕ}
    (found : dereference pool index ≡ some (some (Object.plain x))) (is_open : fds x ≡ some fd)
    (small : index < 2 ^ 32) where
  -- What the caller of a call on files writes in the parameter, of less than 2^31 bytes, its reference
  -- to an open file, paths without a zero, sizes and bytes, none of a length of 255, is what libuv is asked, for the
  -- file that the reference stands for.
  pub fs_call-request_items :
      (r : Request)
      → IsRequest fd r
      → length (items_bytes (request_items index r)) < 2 ^ 31
      → fs_call junk pool fds r (record { raw = items_bytes (request_items index r); ser = none })
        ≡ some r
  unfolding items_bytes fs_open fs_unlink fs_mkdir fs_rmdir fs_rename fs_readlink fs_chmod fs_read
      fs_write fs_ftruncate fs_scandir fs_stat
  fs_call-request_items (Request.open_file path rw1 create mode) (h, m, flags) room =
      let (q, e, at) = next_c_string-Reads _ [] path _ (start _ room) h in
      let (q2, e2, _) =
        next_string-Reads q _ (flag_of rw1 create) [] at (length-flag_of rw1 create) in
      rw (e, e2, open_request-flag_of path rw1 create flags)
        (ap (λ k. some (Request.open_file path rw1 create k)) (sym m))
  fs_call-request_items (Request.read_file fd' size offset) (same, hs, ho) room =
      let (q, e, at) = next_file-Reads pool fds found is_open small _ [] _ (start _ room) in
      let (q2, e2, at2) = next_int-Reads q _ _ size at (omega arith) in
      let (q3, e3, _) = next_long-Reads q2 _ [] offset at2 ho in
      let positive : ltb size (2 ^ 31) ≡ true = ground arith in
      rw (e, e2, e3, positive) (ap (λ k. some (Request.read_file k size offset)) (sym same))
  fs_call-request_items (Request.write_file fd' offset bytes) (same, ho, hb) room =
      let (q, e, at) = next_file-Reads pool fds found is_open small _ [] _ (start _ room) in
      let (q2, e2, at2) = next_long-Reads q _ _ offset at ho in
      let (off, q3, e3, there) = next_bytes-Reads q2 _ bytes [] at2 hb in
      let whole : q2.raw ≡ items_bytes (request_items index (Request.write_file fd' offset bytes)) =
        at2.1
        ∙ append_assoc (item_bytes (Item.int index)) (item_bytes (Item.long offset))
            (item_bytes (Item.string bytes) ++ []) in
      let bytes_read = ap (λ b. read b off (length bytes)) (sym whole) ∙ there in
      rw (e, e2, e3, bytes_read) (ap (λ k. some (Request.write_file k offset bytes)) (sym same))
  fs_call-request_items (Request.unlink path) h room =
      let (q, e, _) = next_c_string-Reads _ [] path [] (start _ room) h in rw e refl
  fs_call-request_items (Request.rmdir path) h room =
      let (q, e, _) = next_c_string-Reads _ [] path [] (start _ room) h in rw e refl
  fs_call-request_items (Request.scandir path) h room =
      let (q, e, _) = next_c_string-Reads _ [] path [] (start _ room) h in rw e refl
  fs_call-request_items (Request.stat path) h room =
      let (q, e, _) = next_c_string-Reads _ [] path [] (start _ room) h in rw e refl
  fs_call-request_items (Request.readlink path) h room =
      let (q, e, _) = next_c_string-Reads _ [] path [] (start _ room) h in rw e refl
  fs_call-request_items (Request.mkdir path mode) (h, m) room =
      let (q, e, _) = next_c_string-Reads _ [] path [] (start _ room) h in
      rw e (ap (λ k. some (Request.mkdir path k)) (sym m))
  fs_call-request_items (Request.chmod path mode) (h, m) room =
      let (q, e, at) = next_c_string-Reads _ [] path _ (start _ room) h in
      let (q2, e2, _) = next_int-Reads q _ [] mode at m in rw (e, e2) refl
  fs_call-request_items (Request.rename path1 path2) (h1, h2) room =
      let (q, e, at) = next_c_string-Reads _ [] path1 _ (start _ room) h1 in
      let (q2, e2, _) = next_c_string-Reads q _ path2 [] at h2 in rw (e, e2) refl
  fs_call-request_items (Request.ftruncate fd' offset) (same, ho) room =
      let (q, e, at) = next_file-Reads pool fds found is_open small _ [] _ (start _ room) in
      let (q2, e2, _) = next_long-Reads q _ [] offset at ho in
      rw (e, e2) (ap (λ k. some (Request.ftruncate k offset)) (sym same))

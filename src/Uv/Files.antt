-- ===== src/Uv/Files.antt =====
-- The calls on files of runtime_bridge/c-modules/pxprpc_libuv_rpc/init.hpp: each reads its parameter,
-- hands a request to libuv, and answers when libuv has a result. `none` is undefined behaviour, or an
-- exception that nothing catches.
pub mod Listing
pub mod Reads
pub mod Requests
mod Examples
use pxp_rpc.Base.{
  ℕ, ◌^◌, ◌/◌, ◌%◌, ◌+◌, ◌*◌, Bool, true, false, List, [], ◌∷◌, ◌++◌, Option, none, some, ltb, leb,
  ◌==◌, if◌then◌else◌, ◌>>=◌, take,
}
use pxp_rpc.Base.Bytes.{read}
use pxp_rpc.RefPool.{Pool}
use pxp_rpc.Pipe.Servers.{same_name}
use pxp_rpc.Callable.{
  Parameter, Object, next_string, next_int, next_long, next_bytes, next_object, as_serializer,
}
use pxp_rpc.Uv.{Answer}

-- What is asked of libuv. Of the flags of an open, `read_write` is O_RDWR instead of O_RDONLY, and
-- `create` is O_CREAT.
pub data Request : Type 0 where
  open_file : (path : List ℕ) (read_write create : Bool) (mode : ℕ) → Request
  read_file : (fd size offset : ℕ) → Request
  write_file : (fd offset : ℕ) (bytes : List ℕ) → Request
  unlink rmdir scandir stat readlink : (path : List ℕ) → Request
  mkdir chmod : (path : List ℕ) (mode : ℕ) → Request
  rename : (path1 path2 : List ℕ) → Request
  ftruncate : (fd offset : ℕ) → Request

-- `req->result`, 64 bits, the bytes that libuv has put in the buffer or as a string at `req->ptr`, and the address
-- of a new FileHandler.
pub record Result : Type 0 where
  pub value : ℕ
  pub bytes : List ℕ
  pub file : ℕ

abbrev pub failed : Result → Bool
failed r = leb (2 ^ 63) r.value

-- A call: its request, and its callback.
abbrev pub Call : Type 0
Call = Request × (Result → Answer)

abbrev pub or_error : (Result → Answer) → Result → Answer
or_error f r = if failed r then Answer.error r.value else f r

abbrev pub answer_nothing : Result → Answer
answer_nothing = or_error (λ r. Answer.nothing)

-- `flag` of `fs_open`: "r", "w" and "r+".
abbrev flag_w : List ℕ
flag_w = 119 ∷ []

abbrev flag_r_plus : List ℕ
flag_r_plus = 114 ∷ 43 ∷ []

unfoldable pub open_request : List ℕ → List ℕ → Request
open_request path flag =
    if same_name flag flag_w
    then Request.open_file path true true 438
    else if same_name flag flag_r_plus
    then Request.open_file path true false 438
    else Request.open_file path false false 438

-- `c_str` of a string ends at its first zero.
unfoldable pub c_str : List ℕ → List ℕ
c_str [] = []
c_str (b ∷ bs) = if b == 0 then [] else b ∷ c_str bs

unfoldable pub next_c_string : Parameter → Option (List ℕ × Parameter)
next_c_string para = next_string para >>= λ p. some (c_str p.0, p.1)

unfoldable pub fs_open : Parameter → Option Call
fs_open para = next_c_string para >>= λ p.
    next_string p.1 >>= λ f. some (open_request p.0 f.0, or_error (λ r. Answer.object r.file))

unfoldable pub fs_unlink : Parameter → Option Call
fs_unlink para = next_c_string para >>= λ p. some (Request.unlink p.0, answer_nothing)

unfoldable pub fs_mkdir : Parameter → Option Call
fs_mkdir para = next_c_string para >>= λ p. some (Request.mkdir p.0 438, answer_nothing)

unfoldable pub fs_rmdir : Parameter → Option Call
fs_rmdir para = next_c_string para >>= λ p. some (Request.rmdir p.0, answer_nothing)

unfoldable pub fs_rename : Parameter → Option Call
fs_rename para = next_c_string para >>= λ p.
    next_c_string p.1 >>= λ q. some (Request.rename p.0 q.0, answer_nothing)

unfoldable pub fs_readlink : Parameter → Option Call
fs_readlink para =
    next_c_string para >>= λ p. some (Request.readlink p.0, or_error (λ r. Answer.text r.bytes))

unfoldable pub fs_chmod : Parameter → Option Call
fs_chmod para =
    next_c_string para >>= λ p. next_int p.1 >>= λ m. some (Request.chmod p.0 m.0, answer_nothing)

-- The calls on an open file: `fds` has the `fd` of each FileHandler. A reference to nothing, or to
-- something else, is used all the same.
module _ (pool : Pool) (fds : ℕ → Option ℕ) where
  unfoldable pub next_file : Parameter → Option (ℕ × Parameter)
  next_file para = next_object pool para >>= λ o. elim o.0 [
    | none ↦ none
    | some (Object.plain x) ↦ fds x >>= λ fd. some (fd, o.1)
    | some (Object.named_function f) ↦ none
  ]

  -- `new char[size]` throws at a negative size.
  unfoldable pub fs_read : Parameter → Option Call
  fs_read para = next_file para >>= λ fh. next_int fh.1 >>= λ n. next_long n.1 >>= λ o.
      if ltb n.0 (2 ^ 31)
      then some
          (Request.read_file fh.0 n.0 o.0, or_error (λ r. Answer.bytes (take r.value r.bytes)))
      else none

  unfoldable pub fs_write : Parameter → Option Call
  fs_write para = next_file para >>= λ fh. next_long fh.1 >>= λ o. next_bytes o.1 >>= λ b.
      read para.raw b.0.0 b.0.1 >>= λ bs.
      some (Request.write_file fh.0 o.0 bs, or_error (λ r. Answer.number r.value))

  unfoldable pub fs_ftruncate : Parameter → Option Call
  fs_ftruncate para = next_file para >>= λ fh.
      next_long fh.1 >>= λ o. some (Request.ftruncate fh.0 o.0, answer_nothing)

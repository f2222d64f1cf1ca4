-- ===== src/Uv.antt =====
-- The objects that runtime_bridge/c-modules/pxprpc_libuv_rpc/init.hpp makes of libuv's handles, and
-- what calls of them are answered. libuv is outside: it runs the callbacks. A return of a call
-- (`AsyncReturn`) is a number, for its address.
pub mod Stream
pub mod Files
pub mod System
pub mod Process
pub mod Udp
mod Examples
use pxp_rpc.Base.{ℕ, ◌^◌, Bool, List, leb}

-- `resolve` of bytes, of a string, of an object, of a number and of nothing, and `reject` with
-- `uv_err_name` or with a message.
pub data Answer : Type 0 where
  bytes text : List ℕ → Answer
  object number error : ℕ → Answer
  nothing refused : Answer

-- `errcode<0` of a 32-bit number.
abbrev pub is_negative : ℕ → Bool
is_negative v = leb (2 ^ 31) v

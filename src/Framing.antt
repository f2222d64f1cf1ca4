-- ===== src/Framing.antt =====
-- The packets on a stream of c/pxprpc_libuv/pxprpc_libuv.c: four bytes of length and the packet. The
-- stream is outside: it calls `on_read` with the bytes that it put at `nextBuf`, at most `nextBuf.len`
-- and at least one, and `on_read_error` for a negative `nread`.
pub mod Laws
mod Examples
use mathlib.Core.List.{flatten}
use pxp_rpc.Base.{
  ℕ, zero, suc, ◌+◌, ◌-◌, ◌%◌, ◌^◌, Bool, true, false, List, [], ◌∷◌, ◌++◌, Option, none, some,
  length, drop, leb, ◌&&◌, ◌==◌, if◌then◌else◌, ◌>>=◌,
}
use pxp_rpc.Base.Bytes.{le_bytes, of_le}

-- What the callback of a receive finds: the packet, or an error.
pub data Outcome : Type 0 where
  packet : List ℕ → Outcome
  stream_error overlap : Outcome

-- The fields of `_pxprpc_libuv_sockconn` that a receive uses. `pending` is `recvBuf!=NULL`,
-- `length_field` the bytes of `recvBuf->length`, `block` the bytes that `recvBuf->base` has got so far,
-- if it is not NULL, and `len` is `nextBuf.len`. `outcomes` logs what the callbacks were called with.
pub record Reader : Type 0 where
  pub pending : Bool
  pub length_field : List ℕ
  pub block : Option (List ℕ)
  pub len : ℕ
  pub outcomes : List Outcome

-- `__sockAbsIo1Receive`
unfoldable pub receive : Reader → Reader
receive r =
    if r.pending
    then record r { outcomes = r.outcomes ++ (Outcome.overlap ∷ []) }
    else record r { pending = true; length_field = 0 ∷ 0 ∷ 0 ∷ 0 ∷ []; block = none; len = 4 }

abbrev pub finish : Reader → Outcome → Reader
finish r o = record r { pending = false; outcomes = r.outcomes ++ (o ∷ []) }

-- `__sockUvReadCb` for `nread>0`: any first read ends the length. It uses `recvBuf`, NULL or not.
unfoldable pub on_read : Reader → List ℕ → Option Reader
on_read r chunk =
    if r.pending && leb (length chunk) r.len
    then (elim r.block [
      | none ↦
          let field = chunk ++ drop (length chunk) r.length_field in
          some (record r { length_field = field; block = some []; len = of_le field })
      | some got ↦
          let left = r.len - length chunk in
          let r1 = record r { block = some (got ++ chunk); len = left } in
          some (if left == 0 then finish r1 (Outcome.packet (got ++ chunk)) else r1)
    ])
    else none

-- `__sockUvReadCb` for `nread<0`
unfoldable pub on_read_error : Reader → Reader
on_read_error r = finish (record r { block = none; len = 0 }) Outcome.stream_error

unfoldable pub on_reads : Reader → List (List ℕ) → Option Reader
on_reads r [] = some r
on_reads r (chunk ∷ chunks) = on_read r chunk >>= λ s. on_reads s chunks

-- `__sockAbsIo1Send`: the bytes handed to the stream; the size is an `int`.
unfoldable pub send : List (List ℕ) → List ℕ
send parts = le_bytes 4 (length (flatten parts) % 2 ^ 32) ++ flatten parts

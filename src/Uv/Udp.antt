-- ===== src/Uv/Udp.antt =====
-- class UvUdpWrap of runtime_bridge/c-modules/pxprpc_libuv_rpc/init.hpp: datagrams wait in a
-- serializer, each after its address, until a read takes them all.
pub mod Datagrams
use pxp_rpc.Base.{
  ℕ, ◌*◌, Bool, true, false, List, [], ◌∷◌, ◌++◌, Option, none, some, ltb, if◌then◌else◌, ◌>>=◌,
}
use pxp_rpc.Serializer.{Ser}
use pxp_rpc.CppSerializer.{prepare_serializing, put_bytes, build}
use pxp_rpc.Uv.{Answer, is_negative}
use pxp_rpc.Uv.Stream.{reject_all}

-- `answers` has the answers of reads, in order.
pub record Udp : Type 0 where
  pub read_buf : Option Ser
  pub read_waiting : List ℕ
  pub errcode : ℕ
  pub answers : List (ℕ × Answer)

abbrev pub new_udp : Udp
new_udp = record { read_buf = none; read_waiting = []; errcode = 0; answers = [] }

module _ (junk : ℕ → ℕ) where
  -- The body of the first `if` of `processing`.
  unfoldable pub resolve_datagrams : Udp → ℕ → List ℕ → Ser → Option Udp
  resolve_datagrams u ret rest s = put_bytes junk s [] >>= λ t. some (record u {
    read_buf = none;
    read_waiting = rest;
    answers = u.answers ++ ((ret, Answer.bytes (build t)) ∷ []);
  })

  -- The first `if` of `processing`: with a read waiting, `readBuf` is used, NULL or not.
  unfoldable pub hand_over_datagrams : Udp → Option Udp
  hand_over_datagrams u = elim u.read_waiting [
    | [] ↦ some u
    | ret ∷ rest ↦
        u.read_buf >>= λ s. if ltb 0 s.pos then resolve_datagrams u ret rest s else some u
  ]

  -- `processing`
  unfoldable pub udp_processing : Udp → Option Udp
  udp_processing u = hand_over_datagrams u >>= λ v. some (
      if is_negative v.errcode
      then record v {
        read_waiting = [];
        answers = v.answers ++ reject_all v.errcode v.read_waiting;
      }
      else v)

  -- `pushError`
  unfoldable pub udp_push_error : Udp → ℕ → Option Udp
  udp_push_error u code = udp_processing (record u { errcode = code })

  -- The serializer that `pushData` writes to.
  unfoldable pub current : Option Ser → Ser
  current none = prepare_serializing junk 32
  current (some s) = s

  -- `pushData`, with a `len` that is not negative, and the bytes of `addr` as a `sockaddr_storage`.
  unfoldable pub push_datagram : Udp → (addr bs : List ℕ) → Option Udp
  push_datagram u addr [] = some u
  push_datagram u addr (b ∷ bs) =
      let s = current u.read_buf in
      if ltb (1024 * 1024) s.pos
      then some (record u { read_buf = some s })
      else (put_bytes junk s addr >>= λ t.
          put_bytes junk t (b ∷ bs) >>= λ v. udp_processing (record u { read_buf = some v }))

  -- `pullData`
  unfoldable pub pull_datagrams : Udp → ℕ → Option Udp
  pull_datagrams u ret = udp_processing (record u { read_waiting = u.read_waiting ++ (ret ∷ []) })

-- ===== src/CppSerializer.antt =====
-- class Serializer of c/include/pxprpc_pp.hpp, a C++ face of the C serializer. `none` is undefined
-- behaviour or an exception that nothing catches. `std::string` is a list of bytes.
pub mod RoundTrip
pub mod Faults
mod Examples
use pxp_rpc.Base.{
  ℕ, ◌+◌, ◌^◌, ◌<◌, List, [], ◌∷◌, ◌++◌, Option, none, some, length, get_or, ltb, if◌then◌else◌,
  ◌>>=◌,
}
use pxp_rpc.Base.Bytes.{read}
use pxp_rpc.Serializer
use pxp_rpc.Serializer.{Ser}

-- `prepareUnserializing` and `fromPxpBytes`; the flag `serializing`, which nothing reads, is left out.
unfoldable pub prepare_unserializing : List ℕ → Ser
prepare_unserializing buf = Serializer.prepare_unser buf

-- `build` and `buildPxpBytes`: the packet.
unfoldable pub build : Ser → List ℕ
build s = Serializer.build s

-- One word through an array of one.
unfoldable pub first : List ℕ × Ser → Option (ℕ × Ser)
first (vs, t) = some (get_or vs 0 0, t)

unfoldable pub get_int : Ser → Option (ℕ × Ser)
get_int s = Serializer.get_int s 1 >>= first

unfoldable pub get_long : Ser → Option (ℕ × Ser)
get_long s = Serializer.get_long s 1 >>= first

unfoldable pub get_float : Ser → Option (ℕ × Ser)
get_float s = Serializer.get_float s 1 >>= first

unfoldable pub get_double : Ser → Option (ℕ × Ser)
get_double s = Serializer.get_double s 1 >>= first

unfoldable pub get_varint : Ser → Option (ℕ × Ser)
get_varint s = Serializer.get_varint s

-- The tuple of the size and the place of the bytes, as offset and size.
unfoldable pub get_bytes : Ser → Option (ℕ × ℕ × Ser)
get_bytes s = Serializer.get_bytes s

-- `std::vector vec(size)` throws at a negative size.
unfoldable pub get_vec : (Ser → ℕ → Option (List ℕ × Ser)) → Ser → ℕ → Option (List ℕ × Ser)
get_vec get s size = if ltb size (2 ^ 31) then get s size else none

unfoldable pub get_int_vec : Ser → ℕ → Option (List ℕ × Ser)
get_int_vec = get_vec Serializer.get_int

unfoldable pub get_long_vec : Ser → ℕ → Option (List ℕ × Ser)
get_long_vec = get_vec Serializer.get_long

unfoldable pub get_float_vec : Ser → ℕ → Option (List ℕ × Ser)
get_float_vec = get_vec Serializer.get_float

unfoldable pub get_double_vec : Ser → ℕ → Option (List ℕ × Ser)
get_double_vec = get_vec Serializer.get_double

-- The size is an `int`: `std::string(ptr, size)` throws at a negative one.
unfoldable pub get_string : Ser → Option (List ℕ × Ser)
get_string s = do
  (off, size, t) ← get_bytes s
  bs ← (if ltb size (2 ^ 31) then read t.buf off size else none)
  some (bs, t)

module _ (junk : ℕ → ℕ) where
  unfoldable pub put_int : Ser → ℕ → Option Ser
  put_int s val = Serializer.put_int junk s (val ∷ [])

  unfoldable pub put_long : Ser → ℕ → Option Ser
  put_long s val = Serializer.put_long junk s (val ∷ [])

  unfoldable pub put_float : Ser → ℕ → Option Ser
  put_float s val = Serializer.put_float junk s (val ∷ [])

  unfoldable pub put_double : Ser → ℕ → Option Ser
  put_double s val = Serializer.put_double junk s (val ∷ [])

  unfoldable pub prepare_serializing : ℕ → Ser
  prepare_serializing init_buf_size = Serializer.prepare_ser junk init_buf_size

  unfoldable pub put_varint : Ser → ℕ → Option Ser
  put_varint s val = Serializer.put_varint junk s val

  unfoldable pub put_bytes : Ser → List ℕ → Option Ser
  put_bytes s val = Serializer.put_bytes junk s val

  unfoldable pub put_string : Ser → List ℕ → Option Ser
  put_string s val = put_bytes s val

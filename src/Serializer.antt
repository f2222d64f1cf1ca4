-- ===== src/Serializer.antt =====
-- The packet serializer, c/pxprpc/serializer.c over `struct pxprpc_serializer` of
-- c/include/pxprpc.h. Each function takes `*ser` and returns the new `*ser`; `none` is undefined
-- behaviour of the C code (a block accessed outside its bounds, a signed overflow).
pub mod Write
pub mod Read
use pxp_rpc.Base.{
  ℕ, zero, suc, ◌+◌, ◌-◌, ◌*◌, ◌/◌, ◌%◌, ◌^◌, Bool, List, [], ◌∷◌, ◌++◌, Option, none, some, length,
  take, drop, ltb, leb, ◌==◌, if◌then◌else◌, ◌>>=◌,
}
use pxp_rpc.Base.Bytes.{read, write, le_bytes, of_le, words_bytes, bytes_words}

-- `struct pxprpc_serializer`; `buf` is the block that the pointer addresses.
pub record Ser : Type 0 where
  pub buf : List ℕ
  pub cap : ℕ
  pub pos : ℕ

-- uint32_t arithmetic.
abbrev pub add32 : ℕ → ℕ → ℕ
add32 a b = (a + b) % 2 ^ 32

abbrev pub sub32 : ℕ → ℕ → ℕ
sub32 a b = (a + 2 ^ 32 - b) % 2 ^ 32

-- `int newsize=ser->pos+remain; newsize+=newsize>>1;`: a size outside `int` is no size that
-- `realloc` can serve.
unfoldable pub grow : ℕ → ℕ → Option ℕ
grow pos remain =
    let n = add32 pos remain in
    if ltb n (2 ^ 31) then (if ltb (n + n / 2) (2 ^ 31) then some (n + n / 2) else none) else none

-- The copy and the advance of `pos` that every `put` ends in.
unfoldable pub poke : Ser → List ℕ → Option Ser
poke s bs = do
  buf' ← write s.buf s.pos bs
  some (record s { buf = buf'; pos = add32 s.pos (length bs) })

-- `junk i` is what byte `i` of a block holds before it is written.
module _ (junk : ℕ → ℕ) where
  unfoldable pub fresh : ℕ → ℕ → List ℕ
  fresh i zero = []
  fresh i (suc n) = junk i ∷ fresh (suc i) n

  unfoldable pub realloc : List ℕ → ℕ → List ℕ
  realloc buf n = take n buf ++ fresh (length buf) (n - length buf)

  unfoldable pub ensure_buf : Ser → ℕ → Option Ser
  ensure_buf s remain =
      if ltb (sub32 s.cap s.pos) remain
      then (grow s.pos remain >>= λ newsize.
          some (record s { buf = realloc s.buf newsize; cap = newsize }))
      else some s

  unfoldable pub prepare_ser : ℕ → Ser
  prepare_ser init_buf_size = record { buf = fresh 0 init_buf_size; cap = init_buf_size; pos = 0 }

  -- `put_int` to `put_double` differ in the word size `w` only. `w*count` is an `int`.
  unfoldable pub put_words : ℕ → Ser → List ℕ → Option Ser
  put_words w s val =
      if ltb (w * length val) (2 ^ 31)
      then (ensure_buf s (w * length val) >>= λ s1. poke s1 (words_bytes w val))
      else none

  unfoldable pub put_int : Ser → List ℕ → Option Ser
  put_int = put_words 4

  unfoldable pub put_long : Ser → List ℕ → Option Ser
  put_long = put_words 8

  unfoldable pub put_float : Ser → List ℕ → Option Ser
  put_float = put_words 4

  unfoldable pub put_double : Ser → List ℕ → Option Ser
  put_double = put_words 8

  unfoldable pub put_varint : Ser → ℕ → Option Ser
  put_varint s val =
      if leb val 0xff
      then (ensure_buf s 1 >>= λ s1. poke s1 (val ∷ []))
      else (ensure_buf s 5 >>= λ s1. poke s1 (0xff ∷ []) >>= λ s2. poke s2 (le_bytes 4 val))

  unfoldable pub put_bytes : Ser → List ℕ → Option Ser
  put_bytes s val = do s1 ← put_varint s (length val); s2 ← ensure_buf s1 (length val); poke s2 val

unfoldable pub prepare_unser : List ℕ → Ser
prepare_unser buf = record { buf = buf; cap = length buf; pos = 0 }

-- `*size` and the block; its first `*size` bytes are the packet.
unfoldable pub build : Ser → List ℕ
build s = take s.pos s.buf

unfoldable pub get_words : ℕ → Ser → ℕ → Option (List ℕ × Ser)
get_words w s count = do
  bs ← read s.buf s.pos (w * count)
  some (bytes_words w count bs, record s { pos = add32 s.pos (w * count) })

unfoldable pub get_int : Ser → ℕ → Option (List ℕ × Ser)
get_int = get_words 4

unfoldable pub get_long : Ser → ℕ → Option (List ℕ × Ser)
get_long = get_words 8

unfoldable pub get_float : Ser → ℕ → Option (List ℕ × Ser)
get_float = get_words 4

unfoldable pub get_double : Ser → ℕ → Option (List ℕ × Ser)
get_double = get_words 8

-- The wide form follows the byte 0xff.
unfoldable pub get_wide : Ser → Option (ℕ × Ser)
get_wide s = do bs ← read s.buf s.pos 4; some (of_le bs, record s { pos = add32 s.pos 4 })

unfoldable pub get_varint : Ser → Option (ℕ × Ser)
get_varint s = do
  b ← read s.buf s.pos 1
  let val = of_le b
  let s1 = record s { pos = add32 s.pos 1 }
  if val == 0xff then get_wide s1 else some (val, s1)

-- The offset of the bytes in the block (the returned pointer), and `*size`. Nothing is read.
unfoldable pub get_bytes : Ser → Option (ℕ × ℕ × Ser)
get_bytes s = do
  (size, s1) ← get_varint s
  some (s1.pos, size, record s1 { pos = add32 s1.pos size })

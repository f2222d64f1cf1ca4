-- ===== src/CppSerializer/Faults.antt =====
-- Where the serializers of c/pxprpc/serializer.c and c/include/pxprpc_pp.hpp go wrong: the value 255
-- and lengths that the packet does not have.
use pxp_rpc.Base.{
  ℕ, ◌^◌, ◌<◌, ◌≡◌, ◌≢◌, refl, ap, ◌∙◌, List, [], ◌∷◌, ◌++◌, none, some, arith, length, append-nil,
  ltb, ◌>>=◌, Bool-cases, inl, inr,
}
use pxp_rpc.Base.Bytes.{words_bytes, le_bytes, of_le-le_bytes, length-le_bytes}
use pxp_rpc.Serializer
use pxp_rpc.Serializer.{Ser, prepare_unser, prepare_ser}
use pxp_rpc.Serializer.Write.{
  Appends-trans, varint_bytes, put_words-Puts, put_varint-Puts, prepare_ser-IsValid,
  prepare_ser-pos, prepare_ser-packet,
}
use pxp_rpc.Serializer.Read.{
  At, read_past_end, prepare_unser-At, get_varint-Gets, get_varint_marked,
}
use pxp_rpc.CppSerializer.{
  put_int, put_varint, get_varint, get_string, get_bytes, build, prepare_serializing,
  prepare_unserializing,
}

varint_255 : varint_bytes 255 ≡ 0xff ∷ []
unfolding varint_bytes
varint_255 = refl

one_word : (v : ℕ) → words_bytes 4 (v ∷ []) ≡ le_bytes 4 v ++ []
unfolding words_bytes
one_word v = refl

-- After `putVarint(255)` and `putInt(v)`, `getVarint` answers `v` instead of 255, and takes all five
-- bytes of both values.
pub get_varint-put_255 :
    (junk : ℕ → ℕ) (n v : ℕ)
    → n < 2 ^ 31
    → v < 2 ^ 32
    → (u : Ser) × ((put_varint junk (prepare_serializing junk n) 255 >>= λ s.
          put_int junk s v >>= λ t. get_varint (prepare_unserializing (build t)))
        ≡ some (v, u))
      × (u.pos ≡ 5)
unfolding put_int put_varint get_varint build prepare_serializing prepare_unserializing
    Serializer.put_int
get_varint-put_255 junk n v hn hv =
    let s0 = prepare_ser junk n in
    let p0 = prepare_ser-pos junk n in
    let ready = prepare_ser-IsValid junk n hn in
    let (s, e, a) = put_varint-Puts junk s0 255 ready (rw varint_255 (omega (arith, p0))) in
    let s1 : s.pos ≡ 1 = omega (arith, p0, a.moved, ap length varint_255) in
    let (t, f, b) = put_words-Puts junk 4 s (v ∷ []) a.valid (rw s1 (omega arith)) in
    let (packet, _) = prepare_ser-packet junk n _ t (Appends-trans a b) in
    let written : build t ≡ 0xff ∷ (le_bytes 4 v ++ []) = packet ∙ rw (varint_255, one_word) refl in
    let start : At (prepare_unser (build t)) [] (0xff ∷ (le_bytes 4 v ++ [])) =
      rw written (prepare_unser-At _ (rw append-nil (omega (arith, length-le_bytes 4 v)))) in
    let (u, g, c) = get_varint_marked (le_bytes 4 v) start (length-le_bytes 4 v) in
    (u, rw (e, f, g, of_le-le_bytes 4 v hv) refl, omega (arith, c.here, length-le_bytes 4 v))

-- A string whose stated length `n` is more than the bytes that follow makes `getString` read past
-- the end of the packet: no check stops it.
pub get_string_short :
    {s : Ser} {pre : List ℕ} (n : ℕ) (bs : List ℕ)
    → At s pre (varint_bytes n ++ bs)
    → n < 2 ^ 32
    → n ≢ 255
    → length bs < n
    → get_string s ≡ none
unfolding get_string get_bytes Serializer.get_bytes
get_string_short {s} {pre} n bs a hn ne short =
    let (t, e, at) = get_varint-Gets n a hn ne in
    rw e (elim (Bool-cases (ltb n (2 ^ 31))) [
      | inl fits ↦ rw (fits, read_past_end n at short) refl
      | inr wide ↦ rw wide refl
    ])

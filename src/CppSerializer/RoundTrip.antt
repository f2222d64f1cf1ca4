-- ===== src/CppSerializer/RoundTrip.antt =====
-- Any sequence of values that class Serializer of c/include/pxprpc_pp.hpp writes, read back in order.
use pxp_rpc.Base.{
  ℕ, ◌+◌, ◌^◌, ◌≤◌, ◌<◌, ◌≡◌, ◌≢◌, refl, sym, List, [], ◌∷◌, ◌++◌, map, Option, some, true,
  append_assoc, append-nil, arith, length, length-append, All, ltb, ◌>>=◌,
}
use pxp_rpc.Base.Bytes.{words_bytes, length-words_bytes}
use pxp_rpc.Serializer
use pxp_rpc.Serializer.{Ser, prepare_ser, prepare_unser, get_words}
use pxp_rpc.Serializer.Write.{
  IsValid, Appends-trans, Puts, max_packet, varint_bytes, put_words-Puts, put_varint-Puts,
  put_bytes-Puts, prepare_ser-IsValid, prepare_ser-pos, prepare_ser-packet,
}
use pxp_rpc.Serializer.Read.{
  At, Gets, length-At, prepare_unser-At, get_words-Gets, get_varint-Gets, get_bytes-Gets,
}
use pxp_rpc.CppSerializer.{
  first, get_int, get_long, get_float, get_double, get_string, put_int, put_long, put_float,
  put_double, put_string, put_varint, get_varint, get_bytes, put_bytes, build, prepare_serializing,
  prepare_unserializing,
}

-- A value of the wire format; numbers are bit patterns.
pub data Item : Type 0 where
  int long float double varint : ℕ → Item
  string : List ℕ → Item

pub data Kind : Type 0 where
  int long float double varint string : Kind

unfoldable pub kind : Item → Kind
kind (Item.int v) = Kind.int
kind (Item.long v) = Kind.long
kind (Item.float v) = Kind.float
kind (Item.double v) = Kind.double
kind (Item.varint v) = Kind.varint
kind (Item.string bs) = Kind.string

-- The range of each value. 255 is no varint, nor the length of a string.
abbrev pub IsItem : Item → Type 0
IsItem (Item.int v) = v < 2 ^ 32
IsItem (Item.long v) = v < 2 ^ 64
IsItem (Item.float v) = v < 2 ^ 32
IsItem (Item.double v) = v < 2 ^ 64
IsItem (Item.varint v) = (v < 2 ^ 32) × (v ≢ 255)
IsItem (Item.string bs) = length bs ≢ 255

-- The bytes of each value on the wire.
unfoldable pub item_bytes : Item → List ℕ
item_bytes (Item.int v) = words_bytes 4 (v ∷ [])
item_bytes (Item.long v) = words_bytes 8 (v ∷ [])
item_bytes (Item.float v) = words_bytes 4 (v ∷ [])
item_bytes (Item.double v) = words_bytes 8 (v ∷ [])
item_bytes (Item.varint v) = varint_bytes v
item_bytes (Item.string bs) = varint_bytes (length bs) ++ bs

unfoldable pub items_bytes : List Item → List ℕ
items_bytes [] = []
items_bytes (i ∷ is) = item_bytes i ++ items_bytes is

-- The call that reads a value of a kind.
unfoldable pub get_item : Kind → Ser → Option (Item × Ser)
get_item Kind.int s = get_int s >>= λ r. some (Item.int r.0, r.1)
get_item Kind.long s = get_long s >>= λ r. some (Item.long r.0, r.1)
get_item Kind.float s = get_float s >>= λ r. some (Item.float r.0, r.1)
get_item Kind.double s = get_double s >>= λ r. some (Item.double r.0, r.1)
get_item Kind.varint s = get_varint s >>= λ r. some (Item.varint r.0, r.1)
get_item Kind.string s = get_string s >>= λ r. some (Item.string r.0, r.1)

unfoldable pub get_items : List Kind → Ser → Option (List Item × Ser)
get_items [] s = some ([], s)
get_items (k ∷ ks) s = do (i, t) ← get_item k s; (is, u) ← get_items ks t; some (i ∷ is, u)

pub one_word-Gets :
    (w v : ℕ) {s : Ser} {pre rest : List ℕ}
    → At s pre (words_bytes w (v ∷ []) ++ rest)
    → v < 256 ^ w
    → Gets pre (words_bytes w (v ∷ [])) rest v (get_words w s 1 >>= first)
unfolding first
one_word-Gets w v a h = let (t, e, at) = get_words-Gets w (v ∷ []) a (h, tt) in (t, rw e refl, at)

pub get_string-Gets :
    (bs : List ℕ) {s : Ser} {pre rest : List ℕ}
    → At s pre ((varint_bytes (length bs) ++ bs) ++ rest)
    → length bs ≢ 255
    → Gets pre (varint_bytes (length bs) ++ bs) rest bs (get_string s)
unfolding get_string get_bytes
get_string-Gets bs {s} {pre} {rest} a ne =
    let (t, off, e, r, at) = get_bytes-Gets bs a ne in
    let fits : ltb (length bs) (2 ^ 31) ≡ true = ground (
      arith,
      length-At a,
      length-append (varint_bytes (length bs) ++ bs) rest,
      length-append (varint_bytes (length bs)) bs,
    ) in
    (t, rw (e, fits, r) refl, at)

get_item-Gets :
    (i : Item) {s : Ser} {pre rest : List ℕ}
    → IsItem i
    → At s pre (item_bytes i ++ rest)
    → Gets pre (item_bytes i) rest i (get_item (kind i) s)
unfolding get_varint get_item item_bytes kind get_int get_long get_float get_double
    Serializer.get_int Serializer.get_long Serializer.get_float Serializer.get_double
get_item-Gets (Item.int v) h a = let (t, e, at) = one_word-Gets 4 v a h in (t, rw e refl, at)
get_item-Gets (Item.long v) h a = let (t, e, at) = one_word-Gets 8 v a h in (t, rw e refl, at)
get_item-Gets (Item.float v) h a = let (t, e, at) = one_word-Gets 4 v a h in (t, rw e refl, at)
get_item-Gets (Item.double v) h a = let (t, e, at) = one_word-Gets 8 v a h in (t, rw e refl, at)
get_item-Gets (Item.varint v) h a =
    let (t, e, at) = get_varint-Gets v a h.0 h.1 in (t, rw e refl, at)
get_item-Gets (Item.string bs) h a = let (t, e, at) = get_string-Gets bs a h in (t, rw e refl, at)

get_items-Gets :
    (is : List Item) {s : Ser} {pre : List ℕ} (rest : List ℕ)
    → All IsItem is
    → At s pre (items_bytes is ++ rest)
    → Gets pre (items_bytes is) rest is (get_items (map kind is) s)
unfolding get_items items_bytes
get_items-Gets [] {s} rest h a = (s, refl, rw append-nil a)
get_items-Gets (i ∷ is) {s} {pre} rest (hi, his) a =
    let (t, e, at) = get_item-Gets i hi (rw append_assoc at a) in
    let (u, f, au) = get_items-Gets is rest his at in (u, rw (e, f) refl, rw append_assoc at au)

module _ (junk : ℕ → ℕ) where
  unfoldable pub put_item : Ser → Item → Option Ser
  put_item s (Item.int v) = put_int junk s v
  put_item s (Item.long v) = put_long junk s v
  put_item s (Item.float v) = put_float junk s v
  put_item s (Item.double v) = put_double junk s v
  put_item s (Item.varint v) = put_varint junk s v
  put_item s (Item.string bs) = put_string junk s bs

  unfoldable pub put_items : Ser → List Item → Option Ser
  put_items s [] = some s
  put_items s (i ∷ is) = put_item s i >>= λ t. put_items t is

  put_item-Puts :
      (s : Ser) (i : Item)
      → IsValid s
      → s.pos + length (item_bytes i) ≤ max_packet
      → Puts s (item_bytes i) (put_item s i)
  unfolding put_varint put_bytes put_item item_bytes put_int put_long put_float put_double
      put_string Serializer.put_int Serializer.put_long Serializer.put_float Serializer.put_double
  put_item-Puts s (Item.int v) a h =
      put_words-Puts junk 4 s (v ∷ []) a (omega (arith, length-words_bytes 4 (v ∷ [])))
  put_item-Puts s (Item.long v) a h =
      put_words-Puts junk 8 s (v ∷ []) a (omega (arith, length-words_bytes 8 (v ∷ [])))
  put_item-Puts s (Item.float v) a h =
      put_words-Puts junk 4 s (v ∷ []) a (omega (arith, length-words_bytes 4 (v ∷ [])))
  put_item-Puts s (Item.double v) a h =
      put_words-Puts junk 8 s (v ∷ []) a (omega (arith, length-words_bytes 8 (v ∷ [])))
  put_item-Puts s (Item.varint v) a h = put_varint-Puts junk s v a h
  put_item-Puts s (Item.string bs) a h =
      put_bytes-Puts junk s bs a (omega (arith, length-append (varint_bytes (length bs)) bs))

  -- Writing a sequence of values neither leaves the block nor changes what was written before,
  -- keeps the serializer valid, and appends the bytes of the values in order, if the packet stays
  -- within 2^30 bytes.
  pub put_items-Puts :
      (s : Ser) (is : List Item)
      → IsValid s
      → s.pos + length (items_bytes is) ≤ max_packet
      → Puts s (items_bytes is) (put_items s is)
  unfolding put_items items_bytes
  put_items-Puts s [] a h =
      (s, refl, record { valid = a; moved = omega arith; packet = sym (append-nil _) })
  put_items-Puts s (i ∷ is) a h =
      let l = length-append (item_bytes i) (items_bytes is) in
      let (t, e, at) = put_item-Puts s i a (omega (arith, l)) in
      let (u, f, au) = put_items-Puts t is at.valid (omega (arith, l, at.moved)) in
      (u, rw e f, Appends-trans at au)

  -- A packet of at most 2^30 bytes, written from a fresh serializer of any initial size, is read
  -- back value by value, and the reader stops at its end.
  pub get_items-put_items :
      (n : ℕ) (is : List Item)
      → n < 2 ^ 31
      → All IsItem is
      → length (items_bytes is) ≤ max_packet
      → (u : Ser) × ((put_items (prepare_serializing junk n) is >>= λ t.
            get_items (map kind is) (prepare_unserializing (build t)))
          ≡ some (is, u))
        × (u.pos ≡ length (items_bytes is))
  unfolding prepare_serializing prepare_unserializing build
  get_items-put_items n is hn h fits =
      let ready = prepare_ser-IsValid junk n hn in
      let (t, e, at) =
        put_items-Puts (prepare_ser junk n) is ready (omega (arith, prepare_ser-pos junk n)) in
      let (packet, _) = prepare_ser-packet junk n (items_bytes is) t at in
      let start : At (prepare_unser (build t)) [] (items_bytes is ++ []) =
        rw (packet, append-nil) (prepare_unser-At (items_bytes is) (omega arith)) in
      let (u, f, au) = get_items-Gets is [] h start in (u, rw e f, au.here)

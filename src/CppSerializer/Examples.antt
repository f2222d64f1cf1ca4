-- ===== src/CppSerializer/Examples.antt =====
-- The theorems on the serializer at concrete packets.
use pxp_rpc.Base.{ℕ, ◌^◌, ◌≡◌, refl, List, [], ◌∷◌, map, some, arith, length, ◌>>=◌}
use pxp_rpc.Base.Bytes.{words_bytes, le_bytes}
use pxp_rpc.Serializer.{Ser, prepare_ser}
use pxp_rpc.Serializer.Write.{Puts, varint_bytes, prepare_ser-IsValid}
use pxp_rpc.CppSerializer.{
  put_int, put_varint, get_varint, build, prepare_serializing, prepare_unserializing,
}
use pxp_rpc.CppSerializer.RoundTrip.{
  Item, kind, items_bytes, item_bytes, get_items, put_items, put_items-Puts, get_items-put_items,
}
use pxp_rpc.CppSerializer.Faults.{get_varint-put_255}

-- What fresh memory holds.
abbrev zeros : ℕ → ℕ
zeros i = 0

abbrev sample : List Item
sample = Item.int 7 ∷ Item.varint 300 ∷ Item.string (104 ∷ 105 ∷ []) ∷ Item.double (2 ^ 63) ∷ []

items_bytes-sample :
    items_bytes sample
    ≡ 7 ∷ 0 ∷ 0 ∷ 0 ∷ 255 ∷ 44 ∷ 1 ∷ 0 ∷ 0 ∷ 2 ∷ 104 ∷ 105 ∷ 0 ∷ 0 ∷ 0 ∷ 0 ∷ 0 ∷ 0 ∷ 0 ∷ 128 ∷ []
unfolding items_bytes item_bytes words_bytes le_bytes varint_bytes
items_bytes-sample = refl

put_items-Puts_example :
    Puts (prepare_ser zeros 4) (items_bytes sample) (put_items zeros (prepare_ser zeros 4) sample)
unfolding prepare_ser items_bytes item_bytes words_bytes le_bytes varint_bytes
put_items-Puts_example =
    put_items-Puts zeros (prepare_ser zeros 4) sample (prepare_ser-IsValid zeros 4 (omega arith))
      (omega arith)

get_items-put_items_example :
    (u : Ser) × ((put_items zeros (prepare_serializing zeros 4) sample >>= λ t.
    get_items (map kind sample) (prepare_unserializing (build t)))
      ≡ some (sample, u))
    × (u.pos ≡ length (items_bytes sample))
unfolding items_bytes item_bytes words_bytes le_bytes varint_bytes
get_items-put_items_example =
    get_items-put_items zeros 4 sample (omega arith) (ground arith) (omega arith)

get_varint-put_255_example :
    (u : Ser) × ((put_varint zeros (prepare_serializing zeros 8) 255 >>= λ s.
    put_int zeros s 1 >>= λ t. get_varint (prepare_unserializing (build t)))
      ≡ some (1, u))
    × (u.pos ≡ 5)
get_varint-put_255_example = get_varint-put_255 zeros 8 1 (omega arith) (omega arith)

-- A length of 9 before two bytes.
abbrev cut_short : List ℕ
cut_short = 9 ∷ 104 ∷ 105 ∷ []

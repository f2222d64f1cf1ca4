-- ===== src/Serializer/Write.antt =====
-- What the `put` functions of c/pxprpc/serializer.c write, and that the block always has room.
use pxp_rpc.Base.{
  ℕ, zero, suc, ◌+◌, ◌-◌, ◌*◌, ◌/◌, ◌^◌, ◌≤◌, ◌<◌, ◌≡◌, refl, sym, ap, ◌∙◌, List, [], ◌∷◌, ◌++◌,
  Option, some, true, inl, inr, append_assoc, arith, length, take, drop, length-append, length-take,
  length-drop, take-append_length, take-append_le, Bool-cases, ltb, leb, if◌then◌else◌, ◌>>=◌,
}
use pxp_rpc.Base.Bytes.{write, le_bytes, words_bytes, length-le_bytes, length-words_bytes}
use pxp_rpc.Serializer.{
  Ser, sub32, grow, fresh, realloc, ensure_buf, prepare_ser, poke, put_words, put_varint, put_bytes,
  build,
}

-- The block has `cap` bytes, `pos` lies in it, and `cap` is an `int`.
pub record IsValid (s : Ser) : Type 0 where
  pub sized : length s.buf ≡ s.cap
  pub inside : s.pos ≤ s.cap
  pub small : s.cap < 2 ^ 31

-- The size up to which `pos+remain` grows by half without leaving `int`.
abbrev pub max_packet : ℕ
max_packet = 2 ^ 30

-- The bytes of a varint: one up to 0xff, else the mark 0xff and four.
unfoldable pub varint_bytes : ℕ → List ℕ
varint_bytes val = if leb val 0xff then val ∷ [] else 0xff ∷ le_bytes 4 val

-- `t` is `s` with `bs` written behind what `s` holds.
pub record Appends (s : Ser) (bs : List ℕ) (t : Ser) : Type 0 where
  pub valid : IsValid t
  pub moved : t.pos ≡ s.pos + length bs
  pub packet : build t ≡ build s ++ bs

abbrev pub Puts : Ser → List ℕ → Option Ser → Type 0
Puts s bs r = (t : Ser) × (r ≡ some t) × Appends s bs t

take-write :
    (buf bs : List ℕ) (pos : ℕ)
    → pos ≤ length buf
    → take (pos + length bs) (take pos buf ++ (bs ++ drop (pos + length bs) buf))
      ≡ take pos buf ++ bs
take-write buf bs pos h =
    ap (take (pos + length bs)) (sym (append_assoc (take pos buf) bs _))
    ∙ take-append_length (take pos buf ++ bs) _ _
        (omega (arith, length-append (take pos buf) bs, length-take pos buf))

-- `poke` in a block with room.
poke-Appends :
    (s : Ser) (bs : List ℕ)
    → IsValid s
    → s.pos + length bs ≤ s.cap
    → (t : Ser) × (poke s bs ≡ some t) × Appends s bs t × (t.cap ≡ s.cap)
unfolding poke write build
poke-Appends s bs v h = (
  record {
    buf = take s.pos s.buf ++ (bs ++ drop (s.pos + length bs) s.buf);
    cap = s.cap;
    pos = s.pos + length bs;
  },
  ground arith,
  record {
    valid = record { sized = same_size; inside = h; small = v.small };
    moved = refl;
    packet = take-write s.buf bs s.pos (omega arith);
  },
  refl,
)
  where
    same_size : length (take s.pos s.buf ++ (bs ++ drop (s.pos + length bs) s.buf)) ≡ s.cap
    same_size = omega (
      arith,
      length-append (take s.pos s.buf) (bs ++ drop (s.pos + length bs) s.buf),
      length-append bs (drop (s.pos + length bs) s.buf),
      length-take s.pos s.buf,
      length-drop (s.pos + length bs) s.buf,
    )

pub Appends-trans :
    {s t u : Ser} {bs cs : List ℕ} → Appends s bs t → Appends t cs u → Appends s (bs ++ cs) u
Appends-trans {bs = bs} {cs = cs} a b = record {
  valid = b.valid;
  moved = omega (arith, a.moved, b.moved, length-append bs cs);
  packet = b.packet ∙ rw (a.packet, append_assoc) refl;
}

-- Nothing written yet: the room made by `ensure_buf`.
Appends-after :
    {s t u : Ser} {bs : List ℕ}
    → t.pos ≡ s.pos
    → build t ≡ build s
    → Appends t bs u
    → Appends s bs u
Appends-after e f a = record {
  valid = a.valid;
  moved = omega (arith, a.moved);
  packet = a.packet ∙ rw f refl;
}

module _ (junk : ℕ → ℕ) where
  length-fresh : (i n : ℕ) → length (fresh junk i n) ≡ n
  unfolding fresh
  length-fresh i zero = refl
  length-fresh i (suc n) = ap suc (length-fresh (suc i) n)

  length-realloc : (buf : List ℕ) (n : ℕ) → length buf ≤ n → length (realloc junk buf n) ≡ n
  unfolding realloc
  length-realloc buf n h = omega (
    arith,
    length-append (take n buf) (fresh junk (length buf) (n - length buf)),
    length-take n buf,
    length-fresh (length buf) (n - length buf),
  )

  take-all : (n : ℕ) (xs : List ℕ) → length xs ≤ n → take n xs ≡ xs
  take-all zero [] h = refl
  take-all zero (x ∷ xs) h = absurd (omega arith)
  take-all (suc n) [] h = refl
  take-all (suc n) (x ∷ xs) h = ap (◌∷◌ x) (take-all n xs (omega arith))

  take-realloc :
      (buf : List ℕ) (m n : ℕ)
      → m ≤ length buf
      → length buf ≤ n
      → take m (realloc junk buf n) ≡ take m buf
  unfolding realloc
  take-realloc buf m n hm hn = rw (take-all n buf hn) (take-append_le m buf _ hm)

  pub prepare_ser-IsValid : (n : ℕ) → n < 2 ^ 31 → IsValid (prepare_ser junk n)
  unfolding prepare_ser
  prepare_ser-IsValid n h = omega (arith, length-fresh 0 n)

  pub prepare_ser-pos : (n : ℕ) → (prepare_ser junk n).pos ≡ 0
  unfolding prepare_ser
  prepare_ser-pos n = refl

  -- What was appended to a fresh serializer is the whole packet.
  pub prepare_ser-packet :
      (n : ℕ) (bs : List ℕ) (t : Ser)
      → Appends (prepare_ser junk n) bs t
      → (build t ≡ bs) × (t.pos ≡ length bs)
  unfolding prepare_ser build
  prepare_ser-packet n bs t a = (a.packet, omega (arith, a.moved))

  -- `ensure_buf` makes room for `n` bytes and keeps what is written.
  pub ensure_buf_room :
      (s : Ser) (n : ℕ)
      → IsValid s
      → s.pos + n ≤ max_packet
      → (t : Ser) × (ensure_buf junk s n ≡ some t)
        × IsValid t
        × (t.pos ≡ s.pos)
        × (s.pos + n ≤ t.cap)
        × (build t ≡ build s)
  unfolding ensure_buf build
  ensure_buf_room s n v h = elim (Bool-cases (ltb (sub32 s.cap s.pos) n)) [
    | inl full ↦
        let m : ℕ = s.pos + n + (s.pos + n) / 2 in
        let g : grow s.pos n ≡ some m = unfold grow in ground arith in
        (
          record { buf = realloc junk s.buf m; cap = m; pos = s.pos },
          rw full (rw g refl),
          record {
            sized = length-realloc s.buf m (ground arith);
            inside = omega arith;
            small = omega arith;
          },
          refl,
          omega arith,
          take-realloc s.buf s.pos m (omega arith) (ground arith),
        )
    | inr room ↦ (s, rw room refl, v, refl, ground arith, refl)
  ]

  -- Room, then one copy: every fixed-size `put`.
  ensure_poke :
      (s : Ser) (bs : List ℕ) (n : ℕ)
      → IsValid s
      → n ≡ length bs
      → s.pos + length bs ≤ max_packet
      → Puts s bs (ensure_buf junk s n >>= λ s1. poke s1 bs)
  ensure_poke s bs n v e h =
      let (t, et, vt, pt, rt, bt) = ensure_buf_room s n v (omega arith) in
      let (u, eu, au, _) = poke-Appends t bs vt (omega arith) in
      (u, rw et eu, Appends-after pt bt au)

  -- `put_int` to `put_double` append the words' bytes.
  pub put_words-Puts :
      (w : ℕ) (s : Ser) (val : List ℕ)
      → IsValid s
      → s.pos + w * length val ≤ max_packet
      → Puts s (words_bytes w val) (put_words junk w s val)
  unfolding put_words
  put_words-Puts w s val v h =
      let l = length-words_bytes w val in
      let fits : ltb (w * length val) (2 ^ 31) ≡ true = ground arith in
      rw fits (ensure_poke s (words_bytes w val) (w * length val) v (sym l) (omega arith))

  -- What `put_varint` writes.
  pub put_varint-Puts :
      (s : Ser) (val : ℕ)
      → IsValid s
      → s.pos + length (varint_bytes val) ≤ max_packet
      → Puts s (varint_bytes val) (put_varint junk s val)
  unfolding put_varint varint_bytes
  put_varint-Puts s val v h = elim (Bool-cases (leb val 0xff)) [
    | inl short ↦ rw short (ensure_poke s (val ∷ []) 1 v refl (ground arith))
    | inr wide ↦
        let l = length-le_bytes 4 val in
        let (t, et, vt, pt, rt, bt) = ensure_buf_room s 5 v (ground arith) in
        let (u, eu, au, cu) = poke-Appends t (0xff ∷ []) vt (omega arith) in
        let (w, ew, aw, _) = poke-Appends u (le_bytes 4 val) au.valid (omega (arith, au.moved)) in
        rw wide (w, rw (et, eu) ew, Appends-after pt bt (Appends-trans au aw))
  ]

  -- `put_bytes` appends the length and the bytes.
  pub put_bytes-Puts :
      (s : Ser) (val : List ℕ)
      → IsValid s
      → s.pos + length (varint_bytes (length val)) + length val ≤ max_packet
      → Puts s (varint_bytes (length val) ++ val) (put_bytes junk s val)
  unfolding put_bytes
  put_bytes-Puts s val v h =
      let (t, et, at) = put_varint-Puts s (length val) v (omega arith) in
      let (u, eu, au) = ensure_poke t val (length val) at.valid refl (omega (arith, at.moved)) in
      (u, rw et eu, Appends-trans at au)

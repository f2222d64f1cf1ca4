-- ===== src/Serializer/Read.antt =====
-- What the `get` functions of c/pxprpc/serializer.c read from a packet that has the bytes.
use mathlib.Core.Path.{subst}
use pxp_rpc.Base.{
  ℕ, ◌*◌, ◌^◌, ◌<◌, ◌≡◌, ◌≢◌, refl, sym, ap, ◌∙◌, List, [], ◌∷◌, ◌++◌, Option, none, some, inl, inr,
  append_assoc, arith, length, length-append, All, Bool-cases, leb,
}
use pxp_rpc.Base.Bytes.{
  read, read-append, le_bytes, of_le, words_bytes, length-le_bytes, length-words_bytes,
  of_le-le_bytes, bytes_words-words_bytes,
}
use pxp_rpc.Serializer.{Ser, add32, get_words, get_wide, get_varint, get_bytes, prepare_unser}
use pxp_rpc.Serializer.Write.{varint_bytes}

-- The reader stands behind `pre`, with `rest` before it, in a block that `int` can measure.
pub record At (s : Ser) (pre rest : List ℕ) : Type 0 where
  pub block : s.buf ≡ pre ++ rest
  pub here : s.pos ≡ length pre
  pub small : length s.buf < 2 ^ 31

-- A read took `enc`, gave `v`, and stands behind it.
abbrev pub Gets {ℓ} : {A : Type ℓ} → List ℕ → List ℕ → List ℕ → A → Option (A × Ser) → Type ℓ
Gets pre enc rest v r = (t : Ser) × (r ≡ some (v, t)) × At t (pre ++ enc) rest

pub prepare_unser-At : (bs : List ℕ) → length bs < 2 ^ 31 → At (prepare_unser bs) [] bs
unfolding prepare_unser
prepare_unser-At bs h = record { block = refl; here = refl; small = h }

pub read-At :
    {s : Ser} {pre : List ℕ} (enc rest : List ℕ) (n : ℕ)
    → At s pre (enc ++ rest)
    → n ≡ length enc
    → read s.buf s.pos n ≡ some enc
read-At {s} {pre} enc rest n a e = rw a.block (read-append pre enc rest s.pos n a.here e)

-- What is left is shorter than an `int` can say.
pub length-At : {s : Ser} {pre rest : List ℕ} → At s pre rest → length rest < 2 ^ 31
length-At {s} {pre} {rest} a = omega (arith, a.small, ap length a.block, length-append pre rest)

-- A read of more than is left goes past the end of the block.
pub read_past_end :
    {s : Ser} {pre rest : List ℕ} (n : ℕ)
    → At s pre rest
    → length rest < n
    → read s.buf s.pos n ≡ none
unfolding read
read_past_end {s} {pre} {rest} n a h =
    ground (arith, a.here, ap length a.block, length-append pre rest)

module _ {s : Ser} {pre rest : List ℕ} where
  -- The state after `n` bytes, which are `enc`.
  pub At-advance :
      (enc : List ℕ) (n : ℕ)
      → At s pre (enc ++ rest)
      → n ≡ length enc
      → At (record s { pos = add32 s.pos n }) (pre ++ enc) rest
  At-advance enc n a e = record {
    block = a.block ∙ sym (append_assoc pre enc rest);
    here = omega (
      arith,
      a.here,
      a.small,
      ap length a.block,
      length-append pre (enc ++ rest),
      length-append enc rest,
      length-append pre enc,
    );
    small = a.small;
  }

  pub get_words-Gets :
      (w : ℕ) (vs : List ℕ)
      → At s pre (words_bytes w vs ++ rest)
      → All (λ v. v < 256 ^ w) vs
      → Gets pre (words_bytes w vs) rest vs (get_words w s (length vs))
  unfolding get_words
  get_words-Gets w vs a h =
      let l = sym (length-words_bytes w vs) in
      (
        record s { pos = add32 s.pos (w * length vs) },
        rw (read-At (words_bytes w vs) rest (w * length vs) a l) (
            ap (λ x. some (x, record s { pos = add32 s.pos (w * length vs) }))
              (bytes_words-words_bytes w vs h)),
        At-advance (words_bytes w vs) (w * length vs) a l,
      )

  get_wide-Gets :
      (x : List ℕ) → At s pre (x ++ rest) → length x ≡ 4 → Gets pre x rest (of_le x) (get_wide s)
  unfolding get_wide
  get_wide-Gets x a l = (
    record s { pos = add32 s.pos 4 },
    rw (read-At x rest 4 a (sym l)) refl,
    At-advance x 4 a (sym l),
  )

module _ {s : Ser} {pre rest : List ℕ} where
  get_varint_short :
      (b : ℕ) → At s pre (b ∷ rest) → b < 255 → Gets pre (b ∷ []) rest b (get_varint s)
  unfolding get_varint of_le
  get_varint_short b a h = (
    record s { pos = add32 s.pos 1 },
    rw (read-At (b ∷ []) rest 1 a refl) (ground arith),
    At-advance (b ∷ []) 1 a refl,
  )

  -- The mark makes the four bytes behind it the value.
  pub get_varint_marked :
      (x : List ℕ)
      → At s pre (0xff ∷ (x ++ rest))
      → length x ≡ 4
      → Gets pre (0xff ∷ x) rest (of_le x) (get_varint s)
  unfolding get_varint of_le
  get_varint_marked x a l =
      let (t, e, at) = get_wide-Gets x (At-advance (0xff ∷ []) 1 a refl) l in
      (t, rw (read-At (0xff ∷ []) (x ++ rest) 1 a refl) e, rw append_assoc at at)

  -- `get_varint` reads back what `put_varint` wrote, unless that was 255.
  pub get_varint-Gets :
      (val : ℕ)
      → At s pre (varint_bytes val ++ rest)
      → val < 2 ^ 32
      → val ≢ 255
      → Gets pre (varint_bytes val) rest val (get_varint s)
  unfolding varint_bytes
  get_varint-Gets val a h ne = elim (Bool-cases (leb val 0xff)) [
    | inl short ↦ rw short (get_varint_short val (rw short at a) (ground arith))
    | inr wide ↦ rw wide (
        rw (of_le-le_bytes 4 val h) at
          (get_varint_marked (le_bytes 4 val) (rw wide at a) (length-le_bytes 4 val)))
  ]

module _ {s : Ser} {pre rest : List ℕ} where
  -- `get_bytes` gives the place of the bytes, where they can be read.
  pub get_bytes-Gets :
      (bs : List ℕ)
      → At s pre ((varint_bytes (length bs) ++ bs) ++ rest)
      → length bs ≢ 255
      → (t : Ser) × (off : ℕ) × (get_bytes s ≡ some (off, length bs, t))
        × (read t.buf off (length bs) ≡ some bs)
        × At t (pre ++ (varint_bytes (length bs) ++ bs)) rest
  unfolding get_bytes
  get_bytes-Gets bs a ne =
      let a' : At s pre (varint_bytes (length bs) ++ (bs ++ rest)) = rw append_assoc at a in
      let fits : length bs < 2 ^ 32 = omega (
        arith,
        length-At a,
        length-append (varint_bytes (length bs) ++ bs) rest,
        length-append (varint_bytes (length bs)) bs,
      ) in
      let (t, e, at) = get_varint-Gets (length bs) a' fits ne in
      (
        record t { pos = add32 t.pos (length bs) },
        t.pos,
        rw e refl,
        read-At bs rest (length bs) at refl,
        subst (λ p. At (record t { pos = add32 t.pos (length bs) }) p rest)
            (append_assoc pre (varint_bytes (length bs)) bs) (At-advance bs (length bs) at refl),
      )

-- ===== src/Uv/Files/Reads.antt =====
-- What the reads of a parameter give of what a caller has written in it (c/include/pxprpc_pp.hpp).
use pxp_rpc.Base.{
  arith, false, All, ℕ, ◌^◌, ◌==◌, ◌<◌, ◌≡◌, ◌≢◌, refl, sym, ap, ◌∙◌, List, [], ◌∷◌, ◌++◌, Option,
  none, some, length, append_assoc,
}
use pxp_rpc.Base.Bytes.{words_bytes, read}
use pxp_rpc.Serializer
use pxp_rpc.Serializer.{Ser, prepare_unser}
use pxp_rpc.Serializer.Write.{varint_bytes}
use pxp_rpc.Serializer.Read.{At, prepare_unser-At, get_bytes-Gets}
use pxp_rpc.CppSerializer.{get_int, get_long, get_string, get_bytes, prepare_unserializing}
use pxp_rpc.CppSerializer.RoundTrip.{Item, item_bytes, one_word-Gets, get_string-Gets}
use pxp_rpc.RefPool.{Pool}
use pxp_rpc.Callable.{
  Parameter, Object, dereference, next_string, next_int, next_long, next_bytes, next_object,
  next_with, as_serializer,
}
use pxp_rpc.Uv.Files.{c_str, next_c_string, next_file}

-- A parameter whose reads have come behind `pre`.
abbrev pub ParameterAt : Parameter → List ℕ → List ℕ → Type 0
ParameterAt p pre rest = At (as_serializer p) pre rest × (p.raw ≡ pre ++ rest)

-- A read of the parameter took `enc` and gave `v`.
abbrev pub Reads {ℓ} : {A : Type ℓ} → List ℕ → List ℕ → List ℕ → A → Option (A × Parameter) → Type ℓ
Reads pre enc rest v r = (q : Parameter) × (r ≡ some (v, q)) × ParameterAt q (pre ++ enc) rest

pub start : (bs : List ℕ) → length bs < 2 ^ 31 → ParameterAt (record { raw = bs; ser = none }) [] bs
unfolding as_serializer prepare_unserializing
start bs h = (prepare_unser-At bs h, refl)

next_with-Reads :
    {A : Type 0} (read1 : Ser → Option (A × Ser)) (p : Parameter) (pre enc rest : List ℕ) (v : A)
    (t : Ser)
    → p.raw ≡ pre ++ (enc ++ rest)
    → read1 (as_serializer p) ≡ some (v, t)
    → At t (pre ++ enc) rest
    → Reads pre enc rest v (next_with read1 p)
unfolding next_with as_serializer
next_with-Reads read1 p pre enc rest v t raw e at =
    (record { raw = p.raw; ser = some t }, rw e refl, (at, raw ∙ sym (append_assoc pre enc rest)))

pub next_string-Reads :
    (p : Parameter) (pre bs rest : List ℕ)
    → ParameterAt p pre (item_bytes (Item.string bs) ++ rest)
    → length bs ≢ 255
    → Reads pre (item_bytes (Item.string bs)) rest bs (next_string p)
unfolding next_string item_bytes
next_string-Reads p pre bs rest (at, raw) ne =
    let (t, e, at') = get_string-Gets bs at ne in
    next_with-Reads get_string p pre (varint_bytes (length bs) ++ bs) rest bs t raw e at'

-- A text without a zero, of a length that is written.
abbrev pub IsText : List ℕ → Type 0
IsText bs = (length bs ≢ 255) × All (λ b. b ≢ 0) bs

pub c_str_lem : (bs : List ℕ) → All (λ b. b ≢ 0) bs → c_str bs ≡ bs
unfolding c_str
c_str_lem [] h = refl
c_str_lem (b ∷ bs) (h, hs) =
    let no : (b == 0) ≡ false = ground arith in rw (no, c_str_lem bs hs) refl

pub next_c_string-Reads :
    (p : Parameter) (pre bs rest : List ℕ)
    → ParameterAt p pre (item_bytes (Item.string bs) ++ rest)
    → IsText bs
    → Reads pre (item_bytes (Item.string bs)) rest bs (next_c_string p)
unfolding next_c_string
next_c_string-Reads p pre bs rest at (ne, text) =
    let (q, e, at') = next_string-Reads p pre bs rest at ne in
    (q, rw (e, c_str_lem bs text) refl, at')

pub next_int-Reads :
    (p : Parameter) (pre rest : List ℕ) (v : ℕ)
    → ParameterAt p pre (item_bytes (Item.int v) ++ rest)
    → v < 2 ^ 32
    → Reads pre (item_bytes (Item.int v)) rest v (next_int p)
unfolding next_int item_bytes get_int Serializer.get_int
next_int-Reads p pre rest v (at, raw) small =
    let (t, e, at') = one_word-Gets 4 v at small in
    next_with-Reads get_int p pre (words_bytes 4 (v ∷ [])) rest v t raw e at'

pub next_long-Reads :
    (p : Parameter) (pre rest : List ℕ) (v : ℕ)
    → ParameterAt p pre (item_bytes (Item.long v) ++ rest)
    → v < 2 ^ 64
    → Reads pre (item_bytes (Item.long v)) rest v (next_long p)
unfolding next_long item_bytes get_long Serializer.get_long
next_long-Reads p pre rest v (at, raw) small =
    let (t, e, at') = one_word-Gets 8 v at small in
    next_with-Reads get_long p pre (words_bytes 8 (v ∷ [])) rest v t raw e at'

pub next_bytes-Reads :
    (p : Parameter) (pre bs rest : List ℕ)
    → ParameterAt p pre (item_bytes (Item.string bs) ++ rest)
    → length bs ≢ 255
    → (off : ℕ) × (q : Parameter) × (next_bytes p ≡ some ((off, length bs), q))
      × (read p.raw off (length bs) ≡ some bs)
unfolding next_bytes next_with item_bytes get_bytes as_serializer
next_bytes-Reads p pre bs rest (at, raw) ne =
    let (t, off, e, r, at') = get_bytes-Gets bs at ne in
    let same : t.buf ≡ p.raw =
      at'.block ∙ (append_assoc pre (varint_bytes (length bs) ++ bs) rest ∙ sym raw) in
    (
      off,
      record { raw = p.raw; ser = some t },
      rw e refl,
      ap (λ b. read b off (length bs)) (sym same) ∙ r,
    )

module _ (pool : Pool) (fds : ℕ → Option ℕ) {index x fd : ℕ}
    (found : dereference pool index ≡ some (some (Object.plain x))) (is_open : fds x ≡ some fd)
    (small : index < 2 ^ 32) where
  pub next_file-Reads :
      (p : Parameter) (pre rest : List ℕ)
      → ParameterAt p pre (item_bytes (Item.int index) ++ rest)
      → Reads pre (item_bytes (Item.int index)) rest fd (next_file pool fds p)
  unfolding next_file next_object
  next_file-Reads p pre rest at =
      let (q, e, at') = next_int-Reads p pre rest index at small in
      (q, rw (e, found, is_open) refl, at')

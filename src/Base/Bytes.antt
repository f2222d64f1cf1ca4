-- ===== src/Base/Bytes.antt =====
-- Bytes in memory: little-endian words, as the hosts store them, and checked reads and writes.
-- `memmove` and pointer reads of the C code are `read` and `write`, which answer `none` outside
-- the allocated block (undefined behaviour in C).
use Prim.Native.Nat.{ℕ, zero, suc, ◌+◌, ◌*◌, ◌/◌, ◌%◌, ◌^◌, ◌<◌}
use mathlib.Core.Path.{◌≡◌, refl, sym, ap}
use mathlib.Core.List.{List, [], ◌∷◌, ◌++◌}
use mathlib.Core.Option.{Option, none, some}
use native.Mathlib.Omega.{arith}
use pxp_rpc.Base.Tests.{leb, if◌then◌else◌}
use pxp_rpc.Base.Lists.{
  length, take, drop, All, length-append, take-append_length, drop-append_length,
}

abbrev pub IsByte : ℕ → Type 0
IsByte b = b < 256

-- The `w` bytes of the word `v`, lowest first.
unfoldable pub le_bytes : ℕ → ℕ → List ℕ
le_bytes zero v = []
le_bytes (suc w) v = v % 256 ∷ le_bytes w (v / 256)

unfoldable pub of_le : List ℕ → ℕ
of_le [] = 0
of_le (b ∷ bs) = b + 256 * of_le bs

pub of_le-le_bytes : (w v : ℕ) → v < 256 ^ w → of_le (le_bytes w v) ≡ v
unfolding le_bytes of_le
of_le-le_bytes zero v h = omega arith
of_le-le_bytes (suc w) v h = omega (arith, of_le-le_bytes w (v / 256) (omega arith))

pub length-le_bytes : (w v : ℕ) → length (le_bytes w v) ≡ w
unfolding le_bytes
length-le_bytes zero v = refl
length-le_bytes (suc w) v = ap suc (length-le_bytes w (v / 256))

pub le_bytes-IsByte : (w v : ℕ) → All IsByte (le_bytes w v)
unfolding le_bytes
le_bytes-IsByte zero v = tt
le_bytes-IsByte (suc w) v = (omega arith, le_bytes-IsByte w (v / 256))

-- An array of words as it lies in memory, and the array of `n` words that lies in some bytes.
unfoldable pub words_bytes : ℕ → List ℕ → List ℕ
words_bytes w [] = []
words_bytes w (v ∷ vs) = le_bytes w v ++ words_bytes w vs

unfoldable pub bytes_words : ℕ → ℕ → List ℕ → List ℕ
bytes_words w zero bs = []
bytes_words w (suc n) bs = of_le (take w bs) ∷ bytes_words w n (drop w bs)

pub length-words_bytes : (w : ℕ) (vs : List ℕ) → length (words_bytes w vs) ≡ w * length vs
unfolding words_bytes
length-words_bytes w [] = omega arith
length-words_bytes w (v ∷ vs) = omega (
  arith,
  length-append (le_bytes w v) (words_bytes w vs),
  length-le_bytes w v,
  length-words_bytes w vs,
)

pub bytes_words-words_bytes :
    (w : ℕ) (vs : List ℕ)
    → All (λ v. v < 256 ^ w) vs
    → bytes_words w (length vs) (words_bytes w vs) ≡ vs
unfolding words_bytes bytes_words
bytes_words-words_bytes w [] h = refl
bytes_words-words_bytes w (v ∷ vs) (hv, hvs) = rw (
  take-append_length (le_bytes w v) (words_bytes w vs) w (sym (length-le_bytes w v)),
  drop-append_length (le_bytes w v) (words_bytes w vs) w (sym (length-le_bytes w v)),
  of_le-le_bytes w v hv,
  bytes_words-words_bytes w vs hvs,
)

-- `n` bytes from offset `pos`.
unfoldable pub read : List ℕ → ℕ → ℕ → Option (List ℕ)
read buf pos n = if leb (pos + n) (length buf) then some (take n (drop pos buf)) else none

-- `memmove(buf + pos, bs, length bs)`
unfoldable pub write : List ℕ → ℕ → List ℕ → Option (List ℕ)
write buf pos bs =
    if leb (pos + length bs) (length buf)
    then some (take pos buf ++ (bs ++ drop (pos + length bs) buf))
    else none

pub read-append :
    (pre mid post : List ℕ) (pos n : ℕ)
    → pos ≡ length pre
    → n ≡ length mid
    → read (pre ++ (mid ++ post)) pos n ≡ some mid
unfolding read
read-append pre mid post pos n hp hn = ground (
  arith,
  length-append pre (mid ++ post),
  length-append mid post,
  drop-append_length pre (mid ++ post) pos hp,
  take-append_length mid post n hn,
)

-- ===== src/Framing/Laws.antt =====
-- A packet in pieces arrives whole, if its length arrives in one piece (c/pxprpc_libuv/pxprpc_libuv.c).
use mathlib.Core.Path.{subst}
use mathlib.Core.List.{flatten}
use pxp_rpc.Base.{
  drop-append_length, ℕ, suc, ◌+◌, ◌-◌, ◌%◌, ◌^◌, ◌≡◌, ◌≢◌, ◌<◌, ◌≤◌, refl, sym, ap, ◌∙◌, true,
  false, List, [], ◌∷◌, ◌++◌, none, some, length, drop, leb, ◌&&◌, ◌==◌, arith, All, length-append,
  append_assoc, append-nil,
}
use pxp_rpc.Base.Bytes.{le_bytes, of_le, of_le-le_bytes, length-le_bytes}
use pxp_rpc.Framing.{Outcome, Reader, receive, on_read, on_reads, finish, send}

-- A piece that is not the last.
on_read_part :
    (r : Reader) (got chunk : List ℕ) (left : ℕ)
    → r.pending ≡ true
    → r.block ≡ some got
    → r.len ≡ length chunk + suc left
    → on_read r chunk ≡ some (record r { block = some (got ++ chunk); len = suc left })
unfolding on_read
on_read_part r got chunk left on b l =
    let fits : (r.pending && leb (length chunk) r.len) ≡ true = ground arith in
    let rest : r.len - length chunk ≡ suc left = omega arith in
    let inner : (suc left == 0) ≡ false = ground arith in rw (fits, b, rest, inner) refl

on_read_last :
    (r : Reader) (got chunk : List ℕ)
    → r.pending ≡ true
    → r.block ≡ some got
    → r.len ≡ length chunk
    → on_read r chunk
      ≡ some (
          finish
            (record r { block = some (got ++ chunk); len = 0 })
            (Outcome.packet (got ++ chunk)))
unfolding on_read
on_read_last r got chunk on b l =
    let fits : (r.pending && leb (length chunk) r.len) ≡ true = ground arith in
    let rest : r.len - length chunk ≡ 0 = omega arith in rw (fits, b, rest) refl

-- The pieces of a packet, none of them empty, behind what has arrived.
on_reads_lem :
    (r : Reader) (got chunk : List ℕ) (chunks : List (List ℕ))
    → r.pending ≡ true
    → r.block ≡ some got
    → r.len ≡ length (flatten (chunk ∷ chunks))
    → All (λ c. c ≢ []) (chunk ∷ chunks)
    → on_reads r (chunk ∷ chunks)
      ≡ some (
          finish
            (record r { block = some (got ++ flatten (chunk ∷ chunks)); len = 0 })
            (Outcome.packet (got ++ flatten (chunk ∷ chunks))))
unfolding on_reads flatten
on_reads_lem r got chunk [] on b l full =
    rw (on_read_last r got chunk on b (l ∙ ap length (append-nil chunk)), append-nil) refl
on_reads_lem r got chunk ([] ∷ chunks) on b l full = absurd (full.1.0 refl)
on_reads_lem r got chunk ((x ∷ xs) ∷ chunks) on b l full =
    let later = xs ++ flatten chunks in
    let next : Reader = record r { block = some (got ++ chunk); len = suc (length later) } in
    rw (on_read_part r got chunk (length later) on b (l ∙ length-append chunk (x ∷ later))) (
      on_reads_lem next (got ++ chunk) (x ∷ xs) chunks on refl refl full.1
      ∙ ap (λ bs. some (finish (record r { block = some bs; len = 0 }) (Outcome.packet bs)))
          (append_assoc got chunk (x ∷ later)))

-- A receive on which nothing has arrived.
abbrev ready : Reader → Reader
ready r = record r { pending = true; length_field = 0 ∷ 0 ∷ 0 ∷ 0 ∷ []; block = none; len = 4 }

receive_idle : (r : Reader) → r.pending ≡ false → receive r ≡ ready r
unfolding receive
receive_idle r idle = ground arith

on_read_header :
    (t : Reader) (chunk : List ℕ) (n : ℕ)
    → t.pending ≡ true
    → t.block ≡ none
    → length chunk ≤ t.len
    → of_le (chunk ++ drop (length chunk) t.length_field) ≡ n
    → on_read t chunk
      ≡ some (record t {
        length_field = chunk ++ drop (length chunk) t.length_field;
        block = some [];
        len = n;
      })
unfolding on_read
on_read_header t chunk n on b l value =
    let fits : (t.pending && leb (length chunk) t.len) ≡ true = ground arith in
    rw (fits, b, value) refl

-- The first piece is the length.
on_read_length :
    (r : Reader) (n : ℕ)
    → r.pending ≡ false
    → n < 2 ^ 32
    → on_read (receive r) (le_bytes 4 n)
      ≡ some (record r { pending = true; length_field = le_bytes 4 n; block = some []; len = n })
unfolding le_bytes of_le
on_read_length r n idle small =
    rw (receive_idle r idle)
      (on_read_header (ready r) (le_bytes 4 n) n refl refl (omega arith) (of_le-le_bytes 4 n small))

on_read_half :
    (r : Reader) (n : ℕ)
    → r.pending ≡ false
    → n < 2 ^ 16
    → on_read (receive r) (le_bytes 2 n)
      ≡ some (record r {
        pending = true;
        length_field = le_bytes 2 n ++ (0 ∷ 0 ∷ []);
        block = some [];
        len = n;
      })
unfolding le_bytes of_le
on_read_half r n idle small =
    rw (receive_idle r idle)
      (on_read_header (ready r) (le_bytes 2 n) n refl refl (omega arith) (omega arith))

-- The reader that has got the length `n`.
abbrev measured : Reader → ℕ → Reader
measured r n = record r { pending = true; length_field = le_bytes 4 n; block = some []; len = n }

-- The pieces behind the length are the message.
flatten-send :
    (parts chunks : List (List ℕ))
    → length (flatten parts) < 2 ^ 32
    → le_bytes 4 (length (flatten parts)) ++ flatten chunks ≡ send parts
    → flatten chunks ≡ flatten parts
unfolding send
flatten-send parts chunks small whole =
    let n = length (flatten parts) in
    let head = le_bytes 4 n in
    let wraps : n % 2 ^ 32 ≡ n = omega arith in
    let cut : drop 4 (head ++ flatten chunks) ≡ drop 4 (head ++ flatten parts) =
      ap (drop 4) (whole ∙ ap (λ k. le_bytes 4 k ++ flatten parts) wraps) in
    let len = sym (length-le_bytes 4 n) in
    sym (drop-append_length head (flatten chunks) 4 len)
    ∙ (cut ∙ drop-append_length head (flatten parts) 4 len)

-- What a message has led to.
pub data Arrives (r s : Reader) : List ℕ → Type 0 where
  whole_packet :
      (b : ℕ) (bs : List ℕ)
      → s.pending ≡ false
      → s.outcomes ≡ r.outcomes ++ (Outcome.packet (b ∷ bs) ∷ [])
      → Arrives r s (b ∷ bs)
  no_packet : s.pending ≡ true → s.len ≡ 0 → s.outcomes ≡ r.outcomes → Arrives r s []

-- What `send` writes for a message of less than 2^32 bytes, read in pieces of which the first is the
-- length and no other is empty: a message that is not empty is received as one packet, which is the
-- message; an empty message is not received, and leaves the receive pending with no room for a read.
pub on_reads-send :
    (r : Reader) (parts chunks : List (List ℕ))
    → r.pending ≡ false
    → length (flatten parts) < 2 ^ 32
    → le_bytes 4 (length (flatten parts)) ++ flatten chunks ≡ send parts
    → All (λ c. c ≢ []) chunks
    → (s : Reader) × (on_reads (receive r) (le_bytes 4 (length (flatten parts)) ∷ chunks) ≡ some s)
      × Arrives r s (flatten parts)
unfolding on_reads flatten
on_reads-send r parts [] idle small whole full =
    let n = length (flatten parts) in
    let same = flatten-send parts [] small whole in
    (
      measured r n,
      rw (on_read_length r n idle small) refl,
      subst (Arrives r (measured r n)) same (no_packet refl (ap length (sym same)) refl),
    )
on_reads-send r parts ([] ∷ chunks) idle small whole full = absurd (full.0 refl)
on_reads-send r parts ((b ∷ bs) ∷ chunks) idle small whole full =
    let n = length (flatten parts) in
    let o = b ∷ (bs ++ flatten chunks) in
    let same : o ≡ flatten parts = flatten-send parts ((b ∷ bs) ∷ chunks) small whole in
    let s : Reader =
      finish (record (measured r n) { block = some o; len = 0 }) (Outcome.packet o) in
    (
      s,
      rw (on_read_length r n idle small)
          (on_reads_lem (measured r n) [] (b ∷ bs) chunks refl refl (ap length (sym same)) full),
      subst (Arrives r s) same (whole_packet b (bs ++ flatten chunks) refl refl),
    )

-- The length of a packet in two pieces of two bytes, the packet being of less than 2^16 bytes: the
-- other half of the length is taken for the first two bytes of the packet, and the packet that is
-- reported lacks its last two bytes.
pub on_reads_cut_length :
    (r : Reader) (most : List ℕ)
    → r.pending ≡ false
    → length most + 2 < 2 ^ 16
    → (s : Reader) × (on_reads (receive r) (le_bytes 2 (length most + 2) ∷ (0 ∷ 0 ∷ most) ∷ [])
        ≡ some s)
      × (s.outcomes ≡ r.outcomes ++ (Outcome.packet (0 ∷ 0 ∷ most) ∷ []))
unfolding on_reads
on_reads_cut_length r most idle small =
    let t : Reader = record r {
      pending = true;
      length_field = le_bytes 2 (length most + 2) ++ (0 ∷ 0 ∷ []);
      block = some [];
      len = length most + 2;
    } in
    (
      finish (record t { block = some (0 ∷ 0 ∷ most); len = 0 }) (Outcome.packet (0 ∷ 0 ∷ most)),
      rw
          (
            on_read_half r (length most + 2) idle small,
            on_read_last t [] (0 ∷ 0 ∷ most) refl refl (omega arith),
          )
          refl,
      refl,
    )

-- ===== src/Bridge/Memory/Laws.antt =====
-- What a chunk of memory holds after it was written
-- (runtime_bridge/c-modules/pxprpc_rtbridge_base/init.hpp).
use mathlib.Core.List.{flatten}
use pxp_rpc.Base.{
  Option, none, ◌>>=◌, ◌⊎◌, Option-cases, none-some, Bool, same_some, if◌then◌else◌, ℕ, zero, suc,
  ◌+◌, ◌-◌, ◌^◌, ◌<◌, ◌≤◌, ◌≡◌, refl, sym, ap, ◌∙◌, true, false, List, [], ◌∷◌, ◌++◌, some, ltb,
  leb, ◌==◌, length, take, drop, arith, length-append, length-take, length-drop, append_assoc,
  append-nil, take-append_le, take-append_length, drop-append_length, Bool-cases, inl, inr,
}
use pxp_rpc.Base.Bytes.{write, read-append}
use pxp_rpc.Bridge.Memory.{
  Chunk, memory_read, memory_write, OutputStream, target, stream_write, stream_writes,
}

drop-nil : (n : ℕ) → drop {A = ℕ} n [] ≡ []
drop-nil zero = refl
drop-nil (suc n) = refl

drop-drop : (m n k : ℕ) (xs : List ℕ) → k ≡ n + m → drop m (drop n xs) ≡ drop k xs
drop-drop m zero k xs e = ap (λ j. drop j xs) (omega arith)
drop-drop m (suc n) zero xs e = absurd (omega arith)
drop-drop m (suc n) (suc k) [] e = drop-nil m
drop-drop m (suc n) (suc k) (x ∷ xs) e = drop-drop m n k xs (omega arith)

drop_none : (n : ℕ) (xs : List ℕ) → length xs ≤ n → drop n xs ≡ []
drop_none zero [] h = refl
drop_none (suc n) [] h = refl
drop_none zero (x ∷ xs) h = absurd (omega arith)
drop_none (suc n) (x ∷ xs) h = drop_none n xs (omega arith)

take_whole : (n : ℕ) (xs : List ℕ) → length xs ≤ n → take n xs ≡ xs
take_whole zero [] h = refl
take_whole (suc n) [] h = refl
take_whole zero (x ∷ xs) h = absurd (omega arith)
take_whole (suc n) (x ∷ xs) h = ap (◌∷◌ x) (take_whole n xs (omega arith))

take_more : (n k : ℕ) (xs ys : List ℕ) → n ≡ length xs + k → take n (xs ++ ys) ≡ xs ++ take k ys
take_more n k [] ys e = ap (λ j. take j ys) (omega arith)
take_more zero k (x ∷ xs) ys e = absurd (omega arith)
take_more (suc n) k (x ∷ xs) ys e = ap (◌∷◌ x) (take_more n k xs ys (omega arith))

write_ran :
    (buf : List ℕ) (pos : ℕ) (bs : List ℕ)
    → pos + length bs ≤ length buf
    → write buf pos bs ≡ some (take pos buf ++ (bs ++ drop (pos + length bs) buf))
unfolding write
write_ran buf pos bs h =
    let fits : leb (pos + length bs) (length buf) ≡ true = ground arith in rw fits refl

write-append :
    (pre rest bs : List ℕ)
    → length bs ≤ length rest
    → write (pre ++ rest) (length pre) bs ≡ some (pre ++ (bs ++ drop (length bs) rest))
write-append pre rest bs h =
    write_ran (pre ++ rest) (length pre) bs (omega (arith, length-append pre rest))
    ∙ ap some (
        ap (λ x. x ++ (bs ++ drop (length pre + length bs) (pre ++ rest)))
          (take-append_length pre rest (length pre) refl)
        ∙ ap (λ x. pre ++ (bs ++ x))
            (sym (drop-drop (length bs) (length pre) (length pre + length bs) (pre ++ rest) refl)
              ∙ ap (drop (length bs)) (drop-append_length pre rest (length pre) refl)))

-- Bytes that are written to a chunk, inside its block of less than 2^31 bytes, are read back from
-- there, and nothing else in the block changes.
pub memory_read-memory_write :
    (c : Chunk) (offset : ℕ) (bs : List ℕ)
    → offset + length bs ≤ length c.block
    → length c.block < 2 ^ 31
    → (d : Chunk) × (memory_write c offset bs ≡ some d)
      × (memory_read d offset (length bs) ≡ some bs)
      × (take offset d.block ≡ take offset c.block)
      × (drop (offset + length bs) d.block ≡ drop (offset + length bs) c.block)
unfolding memory_read memory_write
memory_read-memory_write c offset bs inside small =
    let pre = take offset c.block in
    let post = drop (offset + length bs) c.block in
    let here : offset ≡ length pre = omega (arith, length-take offset c.block) in
    let wrote = write_ran c.block offset bs inside in
    let low : ltb offset (2 ^ 31) ≡ true = ground arith in
    let plain : (length bs == 0xffffffff) ≡ false = ground arith in
    (
      record c { block = pre ++ (bs ++ post) },
      rw (low, wrote) refl,
      rw (low, plain) (read-append pre bs post offset (length bs) here refl),
      take-append_length pre (bs ++ post) offset here,
      ap (drop (offset + length bs)) (sym (append_assoc pre bs post))
          ∙ drop-append_length (pre ++ bs) post (offset + length bs)
              (omega (arith, here, length-append pre bs)),
    )

-- The block after the bytes `done` were written from its start.
abbrev pub written : Chunk → List ℕ → List ℕ
written c done = take c.size done ++ drop (length done) c.block

-- The stream over the chunk after that.
abbrev after : Chunk → List ℕ → OutputStream
after c done = record { chunk = record c { block = written c done }; pos = length done }

-- A write that starts inside the chunk.
stream_write_inside :
    (c : Chunk) (done bs : List ℕ)
    → length c.block ≡ c.size
    → length done < c.size
    → write (written c done) (length done) (take (c.size - length done) bs)
      ≡ some (written c (done ++ bs))
stream_write_inside c done bs sized inside =
    let n = c.size - length done in
    let part = take n bs in
    let rest = drop (length done) c.block in
    let kept : take c.size done ≡ done = take_whole c.size done (omega arith) in
    let fits : length part ≤ length rest =
      omega (arith, length-take n bs, length-drop (length done) c.block) in
    let grown : take c.size (done ++ bs) ≡ done ++ part =
      take_more c.size n done bs (omega arith) in
    let tail : drop (length part) rest ≡ drop (length (done ++ bs)) c.block =
      elim (Bool-cases (leb (length bs) n)) [
        | inl e ↦
            (let short : length bs ≤ n = ground arith in
              drop-drop (length part) (length done) (length (done ++ bs)) c.block
                (omega (arith, length-take n bs, length-append done bs)))
        | inr e ↦
            (let long : n < length bs = ground arith in
              drop_none (length part) rest
                (omega (arith, length-take n bs, length-drop (length done) c.block))
              ∙ sym
                  (drop_none (length (done ++ bs)) c.block (omega (arith, length-append done bs))))
      ] in
    ap (λ x. write (x ++ rest) (length done) part) kept
    ∙ (write-append done rest part fits
        ∙ ap some (
            sym (append_assoc done part (drop (length part) rest))
            ∙ (ap (λ x. x ++ drop (length part) rest) (sym grown)
                ∙ ap (◌++◌ (take c.size (done ++ bs))) tail)))

-- A write that starts behind the chunk.
written_full :
    (c : Chunk) (done bs : List ℕ)
    → length c.block ≡ c.size
    → c.size ≤ length done
    → written c done ≡ written c (done ++ bs)
written_full c done bs sized full =
    ap (λ x. x ++ drop (length done) c.block) (sym (take-append_le c.size done bs full))
    ∙ ap (◌++◌ (take c.size (done ++ bs))) (
        drop_none (length done) c.block (omega arith)
        ∙ sym (drop_none (length (done ++ bs)) c.block (omega (arith, length-append done bs))))

stream_write-after :
    (c : Chunk) (done bs : List ℕ)
    → length c.block ≡ c.size
    → c.size < 2 ^ 31
    → length (done ++ bs) < 2 ^ 31
    → stream_write (after c done) bs ≡ some (after c (done ++ bs))
unfolding stream_write
stream_write-after c done bs sized small short = elim (Bool-cases (ltb (length done) c.size)) [
  | inl e ↦
      (let inside : length done < c.size = ground arith in
        let low : ltb c.size (2 ^ 31) ≡ true = ground arith in
        let next : ltb (length done + length bs) (2 ^ 31) ≡ true =
          (let l = length-append done bs in ground arith) in
        rw (e, low, stream_write_inside c done bs sized inside, next)
          (ap (λ k. some (record { chunk = record c { block = written c (done ++ bs) }; pos = k }))
            (sym (length-append done bs))))
  | inr e ↦
      (let full : c.size ≤ length done = ground arith in
        let next : ltb (length done + length bs) (2 ^ 31) ≡ true =
          (let l = length-append done bs in ground arith) in
        rw (e, next, written_full c done bs sized full)
          (ap (λ k. some (record { chunk = record c { block = written c (done ++ bs) }; pos = k }))
            (sym (length-append done bs))))
]

stream_writes-after :
    (c : Chunk) (done : List ℕ) (parts : List (List ℕ))
    → length c.block ≡ c.size
    → c.size < 2 ^ 31
    → length done + length (flatten parts) < 2 ^ 31
    → stream_writes (after c done) parts ≡ some (after c (done ++ flatten parts))
unfolding stream_writes flatten
stream_writes-after c done [] sized small short = ap (λ x. some (after c x)) (sym (append-nil done))
stream_writes-after c done (bs ∷ parts) sized small short =
    let l = length-append bs (flatten parts) in
    let m = length-append done bs in
    rw (stream_write-after c done bs sized small (omega (arith, l, m))) (
      stream_writes-after c (done ++ bs) parts sized small (omega (arith, l, m))
      ∙ ap (λ x. some (after c x)) (append_assoc done bs (flatten parts)))

-- The end of a write: the position moves on, unless it overflows.
moves_on :
    (m : Option Chunk) (fits : Bool) (n : ℕ) (p : OutputStream)
    → (m >>= λ c. if fits then some (record { chunk = c; pos = n }) else none) ≡ some p
    → (p.pos ≡ n) × (fits ≡ true)
moves_on none fits n p e = absurd (none-some e)
moves_on (some c) true n p e = (sym (ap (λ x. x.pos) (same_some refl e)), refl)
moves_on (some c) false n p e = absurd (none-some e)

stream_write-pos :
    (o p : OutputStream) (bs : List ℕ)
    → stream_write o bs ≡ some p
    → (p.pos ≡ o.pos + length bs) × (o.pos + length bs < 2 ^ 31)
unfolding stream_write
stream_write-pos o p bs e =
    let (moved, fits) = moves_on _ (ltb (o.pos + length bs) (2 ^ 31)) (o.pos + length bs) p e in
    (moved, ground arith)

-- The rest of the writes takes the position past an int.
stream_writes_far :
    (o : OutputStream) (parts : List (List ℕ))
    → o.pos < 2 ^ 31
    → 2 ^ 31 ≤ o.pos + length (flatten parts)
    → stream_writes o parts ≡ none
unfolding stream_writes flatten
stream_writes_far o [] near far = absurd (omega arith)
stream_writes_far o (bs ∷ parts) near far = elim (Option-cases (stream_write o bs)) [
  | inl e ↦ rw e refl
  | inr (p, e) ↦
      (let (moved, low) = stream_write-pos o p bs e in
        let l = length-append bs (flatten parts) in
        rw e (stream_writes_far p parts (omega (arith, moved, low)) (omega (arith, moved, l, far))))
]

-- Writes to an output stream over a chunk of less than 2^31 bytes. If they are of less than 2^31 bytes
-- together, the chunk has as many of the bytes, in order, as fit from its start, the rest of the chunk
-- is as before, what does not fit is discarded, and the position is the number of all the bytes. If
-- they are more, the position overflows, which is undefined.
pub stream_writes-flatten :
    (c : Chunk) (parts : List (List ℕ))
    → length c.block ≡ c.size
    → c.size < 2 ^ 31
    → ((length (flatten parts) < 2 ^ 31)
        × (stream_writes (target c) parts
            ≡ some (record {
              chunk = record c {
                block = take c.size (flatten parts) ++ drop (length (flatten parts)) c.block;
              };
              pos = length (flatten parts);
            })))
      ⊎ ((2 ^ 31 ≤ length (flatten parts)) × (stream_writes (target c) parts ≡ none))
unfolding target
stream_writes-flatten c parts sized small =
    elim (Bool-cases (ltb (length (flatten parts)) (2 ^ 31))) [
      | inl e ↦
          (let short : length (flatten parts) < 2 ^ 31 = ground arith in
            inl (
              short,
              ap
                    (λ x.
                      stream_writes (record { chunk = record c { block = x ++ c.block }; pos = 0 })
                        parts)
                    (sym (take_whole c.size [] (omega arith)))
                  ∙ stream_writes-after c [] parts sized small (omega arith),
            ))
      | inr e ↦
          (let long : 2 ^ 31 ≤ length (flatten parts) = ground arith in
            inr (
              long,
              stream_writes_far (record { chunk = c; pos = 0 }) parts (omega arith) (omega arith),
            ))
    ]

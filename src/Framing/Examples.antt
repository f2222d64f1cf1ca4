-- ===== src/Framing/Examples.antt =====
-- The theorems on framed packets at concrete pieces.
use mathlib.Core.List.{flatten}
use pxp_rpc.Base.{ℕ, ◌≡◌, refl, false, List, [], ◌∷◌, none, some, arith}
use pxp_rpc.Base.Bytes.{le_bytes}
use pxp_rpc.Framing.{Reader, receive, on_read, on_reads, send}
use pxp_rpc.Framing.Laws.{Arrives, on_reads-send}

abbrev idle : Reader
idle = record { pending = false; length_field = []; block = none; len = 0; outcomes = [] }

abbrev parts : List (List ℕ)
parts = (1 ∷ 2 ∷ []) ∷ (3 ∷ []) ∷ []

on_reads-send_example :
    (s : Reader) × (on_reads (receive idle) (le_bytes 4 3 ∷ (1 ∷ []) ∷ (2 ∷ 3 ∷ []) ∷ []) ≡ some s)
    × Arrives idle s (1 ∷ 2 ∷ 3 ∷ [])
unfolding send flatten
on_reads-send_example =
    on_reads-send idle parts ((1 ∷ []) ∷ (2 ∷ 3 ∷ []) ∷ []) refl (omega arith) refl
      ((λ e. ground arith), ((λ e. ground arith), tt))

-- A read of the stream when no receive is pending uses a NULL `recvBuf`.
on_read-idle : on_read idle (7 ∷ []) ≡ none
unfolding on_read
on_read-idle = refl

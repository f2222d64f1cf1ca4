-- ===== src/Bridge/Examples.antt =====
-- The runtime bridge at work, and the theorems on it.
use mathlib.Core.List.{flatten}
use pxp_rpc.Base.{◌^◌, ◌<◌, ◌≤◌, ◌⊎◌, ℕ, ◌≡◌, refl, false, [], ◌∷◌, none, some, arith, take, drop}
use pxp_rpc.Base.Bytes.{read}
use pxp_rpc.Bridge.Accept.{
  PipeServer, new_pipe_server, accept, on_connect, call_new_conn, destroy, Serving, came, asked,
  begun, Matched, Serving-Matched,
}
use pxp_rpc.Bridge.Async
use pxp_rpc.Bridge.Async.{
  Queue, new_queue, link_request, send_wakeup, Reach-Accounted, Accounted, count, Loop,
}
use pxp_rpc.Bridge.Async.Drain.{Reach-drains}
use pxp_rpc.Bridge.Memory.{Chunk, CreateBy, memory_read, memory_write, target, stream_writes}
use pxp_rpc.Bridge.Memory.Laws.{memory_read-memory_write, stream_writes-flatten}

-- A server that a connection 7 has come to, after accept 5 was asked.
abbrev one_accepted : PipeServer
one_accepted = record {
  new_conn = some 5;
  connected = [];
  waiting = false;
  answers = (5, some 7) ∷ [];
}

one_Serving : Serving one_accepted (7 ∷ []) (5 ∷ [])
unfolding on_connect accept call_new_conn
one_Serving = came 7 (asked 5 begun refl) refl

Serving-Matched_example : Matched one_accepted (7 ∷ []) (5 ∷ [])
Serving-Matched_example = Serving-Matched one_Serving

-- The destructor answers the accept again, and throws if there was none.
destroy_again :
    destroy one_accepted ≡ some (record one_accepted { answers = (5, some 7) ∷ (5, none) ∷ [] })
unfolding destroy call_new_conn
destroy_again = refl

destroy_unused : destroy new_pipe_server ≡ none
unfolding destroy call_new_conn
destroy_unused = refl

two_Reach : Async.Reach (send_wakeup (send_wakeup (link_request (link_request new_queue 4) 6)))
unfolding link_request send_wakeup
two_Reach =
    Async.sent (Async.sent (Async.linked 6 (Async.linked 4 Async.begun)) (omega arith))
      (omega arith)

Reach-Accounted_example :
    Accounted (send_wakeup (send_wakeup (link_request (link_request new_queue 4) 6)))
Reach-Accounted_example = Reach-Accounted two_Reach

Reach-drains_example :
    (t : Queue) × Loop (send_wakeup (send_wakeup (link_request (link_request new_queue 4) 6))) t
    × (t.queue ≡ [])
    × (t.batch ≡ [])
    × ((f : ℕ) → count f t.ran ≡ count f (6 ∷ 4 ∷ []))
unfolding link_request send_wakeup
Reach-drains_example = Reach-drains two_Reach refl

abbrev four : Chunk
four = record { create_by = CreateBy.malloc; size = 4; base = 4096; block = 1 ∷ 2 ∷ 3 ∷ 4 ∷ [] }

memory_read-memory_write_example :
    (d : Chunk) × (memory_write four 1 (8 ∷ 9 ∷ []) ≡ some d)
    × (memory_read d 1 2 ≡ some (8 ∷ 9 ∷ []))
    × (take 1 d.block ≡ 1 ∷ [])
    × (drop 3 d.block ≡ 4 ∷ [])
memory_read-memory_write_example =
    memory_read-memory_write four 1 (8 ∷ 9 ∷ []) (omega arith) (omega arith)

stream_writes-flatten_example :
    ((5 < 2 ^ 31)
      × (stream_writes (target four) ((5 ∷ 6 ∷ []) ∷ (7 ∷ 8 ∷ 9 ∷ []) ∷ [])
          ≡ some (record { chunk = record four { block = 5 ∷ 6 ∷ 7 ∷ 8 ∷ [] }; pos = 5 })))
    ⊎ ((2 ^ 31 ≤ 5) × (stream_writes (target four) ((5 ∷ 6 ∷ []) ∷ (7 ∷ 8 ∷ 9 ∷ []) ∷ []) ≡ none))
unfolding flatten
stream_writes-flatten_example =
    stream_writes-flatten four ((5 ∷ 6 ∷ []) ∷ (7 ∷ 8 ∷ 9 ∷ []) ∷ []) refl (omega arith)

-- The whole chunk from an offset is not all there.
read_past : memory_read four 1 0xffffffff ≡ none
unfolding memory_read read
read_past = refl

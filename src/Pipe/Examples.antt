-- ===== src/Pipe/Examples.antt =====
-- The theorems on the pipe at concrete connections.
use mathlib.Core.List.{flatten}
use pxp_rpc.Base.{refl, List, [], ◌∷◌, some}
use pxp_rpc.Pipe.{
  Side, Send, Conn, Frame, Machine, Call, run_call, send, receive, run_top, run_frame, run_transfer,
  transfer_buffer, pump, new_conn, new_half, Move, Reach, here, next, connected,
}
use pxp_rpc.Pipe.Flows.{IsOpen}
use pxp_rpc.Pipe.Fifo.{Reach-IsOpen}
use pxp_rpc.Pipe.Servers.{Server}
use pxp_rpc.Pipe.Faults.{listening, UseAfterFree, nested_close}

-- A message in two parts.
abbrev message : Send
message = record { parts = (1 ∷ []) ∷ (2 ∷ 3 ∷ []) ∷ []; on_completed = 8 }

abbrev sent_conn : Conn
sent_conn = record {
  client_half = record new_half { sends = message ∷ []; accepted = (1 ∷ 2 ∷ 3 ∷ []) ∷ [] };
  server_half = new_half;
}

-- The message is delivered, and the callbacks are about to run.
abbrev delivered : Conn
delivered = record {
  client_half = record new_half { accepted = (1 ∷ 2 ∷ 3 ∷ []) ∷ [] };
  server_half = record new_half { received = (1 ∷ 2 ∷ 3 ∷ []) ∷ [] };
}

abbrev callbacks : List Frame
callbacks = Frame.user 7 ∷ Frame.complete Side.client message ∷ []

sent-Reach : Reach connected (record { conn = some sent_conn; stack = [] })
unfolding run_call send run_top run_frame run_transfer new_conn flatten
sent-Reach =
    let m1 : Machine = record { conn = some sent_conn; stack = pump } in
    let m2 : Machine = record { conn = some sent_conn; stack = Frame.transfer Side.server ∷ [] } in
    next
      (next (next here (Move.called {c = new_conn} Side.client (Call.sends message) tt refl))
        (Move.ran {n = m2} refl))
      (Move.ran refl)

delivered-Reach : Reach connected (record { conn = some delivered; stack = callbacks })
unfolding run_call receive run_top run_frame run_transfer transfer_buffer flatten
delivered-Reach =
    let c : Conn = record sent_conn { server_half = record new_half { recv = some 7 } } in
    let m2 : Machine = record { conn = some c; stack = Frame.transfer Side.server ∷ [] } in
    next
      (next (next sent-Reach (Move.called {c = sent_conn} Side.server (Call.receives 7) tt refl))
        (Move.ran {n = m2} refl))
      (Move.ran refl)

Reach-IsOpen_example : IsOpen delivered callbacks
Reach-IsOpen_example = Reach-IsOpen delivered-Reach refl refl

abbrev one_server : Server
one_server = record { name = 112 ∷ []; on_connect = 4; p = 0 }

nested_close_example : UseAfterFree (listening new_conn 7) 7
nested_close_example = nested_close new_conn 7

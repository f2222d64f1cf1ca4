-- ===== src/Pipe.antt =====
-- The in-process connection of c/pxprpc_pipe/pxprpc_pipe.c. The functions call back into user code,
-- which may call them again, so what is left to do is a stack of frames. `none` is undefined
-- behaviour: a use of freed memory, or a block too small for its message.
pub mod Servers
pub mod Flows
pub mod Fifo
pub mod Faults
mod Examples
use mathlib.Core.List.{flatten}
use pxp_rpc.Base.{
  ◌≡◌, ℕ, zero, suc, ◌+◌, ◌^◌, Bool, true, false, ◌&&◌, ◌||◌, List, [], ◌∷◌, ◌++◌, Option, none,
  some, length, ltb, ◌==◌, if◌then◌else◌, ◌>>=◌,
}

pub data Side : Type 0 where
  client server : Side

abbrev pub other : Side → Side
other Side.client = Side.server
other Side.server = Side.client

pub data Fault : Type 0 where
  closed_error overlapped_error : Fault

-- `_pxpIoReq` of a send: the parts of the message and the callback.
pub record Send : Type 0 where
  pub parts : List (List ℕ)
  pub on_completed : ℕ

-- One side of `_pxprpcPipeConnection`: its sends, the callback of its receive, its flag and the errors
-- of its io. `accepted`, `received` and `completed` log the messages taken for sending, the messages
-- received and the callbacks of sends that ran.
pub record Half : Type 0 where
  pub sends : List Send
  pub recv : Option ℕ
  pub closed : Bool
  pub send_error : Option Fault
  pub receive_error : Option Fault
  pub accepted : List (List ℕ)
  pub received : List (List ℕ)
  pub completed : ℕ

pub record Conn : Type 0 where
  pub client_half : Half
  pub server_half : Half

abbrev pub half : Side → Conn → Half
half Side.client c = c.client_half
half Side.server c = c.server_half

abbrev pub set_half : Side → Conn → Half → Conn
set_half Side.client c h = record c { client_half = h }
set_half Side.server c h = record c { server_half = h }

-- What is left to do. `user` is a callback that runs. `transfer` is one half of `_pxprpcPipePump`: the
-- side whose receive it serves. `complete` runs the callback of a send and frees it. The others are
-- the parts of `_pxprpcPipeConnectionClosing`: waking a receive, the loop over the sends of a side and
-- the end of its body, and the end.
pub data Frame : Type 0 where
  user : ℕ → Frame
  transfer wake drain : Side → Frame
  complete drop : Side → Send → Frame
  release : Frame

-- `conn` is `none` when it is freed.
pub record Machine : Type 0 where
  pub conn : Option Conn
  pub stack : List Frame

-- `_pxpTransferBuffer`: the length is a `uint32_t`.
unfoldable pub transfer_buffer : List (List ℕ) → Option (List ℕ)
transfer_buffer parts = if ltb (length (flatten parts)) (2 ^ 32) then some (flatten parts) else none

abbrev pub pump : List Frame
pump = Frame.transfer Side.client ∷ Frame.transfer Side.server ∷ []

abbrev pub closing : List Frame
closing =
    Frame.wake Side.server
    ∷ Frame.wake Side.client
    ∷ Frame.drain Side.server
    ∷ Frame.drain Side.client
    ∷ Frame.release
    ∷ []

abbrev pub is_closed : Conn → Bool
is_closed c = c.client_half.closed || c.server_half.closed

-- `..ClientSend` and `..ServerSend`
unfoldable pub send : Side → Send → Conn → Conn × List Frame
send side r c =
    let h = half side c in
    if is_closed c
    then (
      set_half side c (record h { send_error = some Fault.closed_error }),
      Frame.user r.on_completed ∷ [],
    )
    else (
      set_half side c (record h {
        sends = h.sends ++ (r ∷ []);
        send_error = none;
        accepted = h.accepted ++ (flatten r.parts ∷ []);
      }),
      pump,
    )

abbrev pub fail_receive : Side → Conn → Fault → ℕ → Conn × List Frame
fail_receive side c e f =
    (set_half side c (record (half side c) { receive_error = some e }), Frame.user f ∷ [])

-- `..ClientReceive` and `..ServerRecv`
unfoldable pub receive : Side → ℕ → Conn → Conn × List Frame
receive side f c = elim (half side c).recv [
  | some g ↦ fail_receive side c Fault.overlapped_error f
  | none ↦
      if is_closed c
      then fail_receive side c Fault.closed_error f
      else (set_half side c (record (half side c) { recv = some f; receive_error = none }), pump)
]

abbrev pub with_errors : Half → Half
with_errors h = record h {
  send_error = some Fault.closed_error;
  receive_error = some Fault.closed_error;
}

-- `..ClientClose` and `..ServerClose`, and the first lines of `..Closing`
unfoldable pub close : Side → Conn → Conn × List Frame
close side c =
    let d = set_half side c (record (half side c) { closed = true }) in
    (
      record d { client_half = with_errors d.client_half; server_half = with_errors d.server_half },
      closing,
    )

-- One half of `_pxprpcPipePump`: the receive of `side` takes the first send of the other side.
unfoldable pub run_transfer : Side → Conn → Option (Conn × List Frame)
run_transfer side c = elim (half side c).recv [
  | none ↦ some (c, [])
  | some f ↦ elim (half (other side) c).sends [
    | [] ↦ some (c, [])
    | r ∷ rs ↦ transfer_buffer r.parts >>= λ bs.
        let d = set_half (other side) c (record (half (other side) c) { sends = rs }) in
        some (
          set_half side d (record (half side d) {
            recv = none;
            received = (half side d).received ++ (bs ∷ []);
          }),
          Frame.user f ∷ Frame.complete (other side) r ∷ [],
        )
  ]
]

unfoldable pub run_wake : Side → Conn → Conn × List Frame
run_wake side c = elim (half side c).recv [
  | none ↦ (c, [])
  | some f ↦ (set_half side c (record (half side c) { recv = none }), Frame.user f ∷ [])
]

abbrev pub count_completed : Side → Conn → Conn
count_completed side c =
    set_half side c (record (half side c) { completed = suc (half side c).completed })

unfoldable pub run_drain : Side → Conn → Conn × List Frame
run_drain side c = elim (half side c).sends [
  | [] ↦ (c, [])
  | r ∷ rs ↦ (
    count_completed side c,
    Frame.user r.on_completed ∷ Frame.drop side r ∷ Frame.drain side ∷ [],
  )
]

-- The request is read after its callback: it must still be the first one. It is told by its callback,
-- so that one that a close within the callback has freed is not told from a later one with the same
-- callback.
unfoldable pub run_drop : Side → Send → Conn → Option (Conn × List Frame)
run_drop side r c = elim (half side c).sends [
  | [] ↦ none
  | q ∷ rs ↦
      if q.on_completed == r.on_completed
      then some (set_half side c (record (half side c) { sends = rs }), [])
      else none
]

-- A frame that runs, on a connection that is not freed: the connection, unless it is freed now, and
-- the frames before the rest.
unfoldable pub run_frame : Frame → Conn → Option (Option Conn × List Frame)
run_frame (Frame.user f) c = some (some c, [])
run_frame (Frame.transfer side) c = run_transfer side c >>= λ r. some (some r.0, r.1)
run_frame (Frame.complete side r) c =
    some (some (count_completed side c), Frame.user r.on_completed ∷ [])
run_frame (Frame.wake side) c = some (some ((run_wake side c).0), (run_wake side c).1)
run_frame (Frame.drain side) c = some (some ((run_drain side c).0), (run_drain side c).1)
run_frame (Frame.drop side r) c = run_drop side r c >>= λ q. some (some q.0, q.1)
run_frame Frame.release c =
    some (if c.client_half.closed && c.server_half.closed then none else some c, [])

-- The top of the stack runs. A callback that returns, and a send that is completed, need no
-- connection.
unfoldable pub run_top : Machine → Option Machine
run_top m = elim m.stack [
  | [] ↦ some m
  | f ∷ fs ↦ elim m.conn [
    | none ↦ elim f [
      | Frame.user g ↦ some (record m { stack = fs })
      | Frame.complete side r ↦ some (record m { stack = Frame.user r.on_completed ∷ fs })
      | _ ↦ none
    ]
    | some c ↦ run_frame f c >>= λ r. some (record { conn = r.0; stack = r.1 ++ fs })
  ]
]

pub data Call : Type 0 where
  sends : Send → Call
  receives : ℕ → Call
  closes : Call

unfoldable pub run_call : Side → Call → Conn → Conn × List Frame
run_call side (Call.sends r) c = send side r c
run_call side (Call.receives f) c = receive side f c
run_call side Call.closes c = close side c

abbrev pub new_half : Half
new_half = record {
  sends = [];
  recv = none;
  closed = false;
  send_error = none;
  receive_error = none;
  accepted = [];
  received = [];
  completed = 0;
}

-- The connection that `pxprpc_pipe_connect` makes.
unfoldable pub new_conn : Conn
new_conn = record { client_half = new_half; server_half = new_half }

-- User code runs: outside of all callbacks, or in one.
abbrev pub InUser : List Frame → Type 0
InUser [] = Unit
InUser (Frame.user f ∷ fs) = Unit
InUser _ = ⊥

-- User code calls a function, or the top frame runs.
pub data Move (m : Machine) : Machine → Type 0 where
  called :
      {c : Conn} (side : Side) (call : Call)
      → InUser m.stack
      → m.conn ≡ some c
      → Move m (record {
        conn = some (run_call side call c).0;
        stack = (run_call side call c).1 ++ m.stack;
      })
  ran : {n : Machine} → run_top m ≡ some n → Move m n

pub data Reach (m : Machine) : Machine → Type 0 where
  here : Reach m m
  next : {n o : Machine} → Reach m n → Move n o → Reach m o

abbrev pub connected : Machine
connected = record { conn = some new_conn; stack = [] }

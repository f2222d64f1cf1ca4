-- ===== src/Bridge/Blocking.antt =====
-- The calls of runtime_bridge/src/pxprpc_rtbridge.c that block the calling thread until the loop has
-- done the work, and the life of the loop's thread. One thread at a time starts the loop, and nothing else sets
-- `pxprpc_pipe_executor`.
pub mod Errors
pub mod Answers
pub mod Stop
mod Examples
use pxp_rpc.Base.{ℕ, ◌≡◌, Bool, true, false, List, [], ◌∷◌, ◌++◌, Option, none, some, if◌then◌else◌}

-- `rs` of `struct _rtbioreq`.
pub data Kind : Type 0 where
  receive send connect close stop_loop : Kind

-- A blocked caller with what it asked, and with the `err` that it gets.
abbrev pub Caller : Type 0
Caller = ℕ × Kind

abbrev pub Outcome : Type 0
Outcome = Caller × Option ℕ

-- A callback of an io: the caller, and the `receive_error` and the `send_error` of the io then.
abbrev pub IoAnswer : Type 0
IoAnswer = Caller × (Option ℕ × Option ℕ)

-- `queue` is `_rtbasyncqueue`, `batch` what `_rtbasyncb` has taken and not run, `in_io` the requests
-- that an io has, `posted` those whose `sem` was posted, `returned` those whose caller went on.
-- `stopped` is that `uv_stop` was called. `asked` logs the calls, `answered` the callbacks of the
-- ios.
pub record Rtb : Type 0 where
  pub rtbloop : Bool
  pub executor : Bool
  pub run_state : ℕ
  pub stopped : Bool
  pub queue : List Caller
  pub batch : List Caller
  pub in_io : List Caller
  pub posted : List Outcome
  pub returned : List Outcome
  pub asked : List Caller
  pub answered : List IoAnswer

abbrev pub new_rtb : Rtb
new_rtb = record {
  rtbloop = false;
  executor = false;
  run_state = 0;
  stopped = false;
  queue = [];
  batch = [];
  in_io = [];
  posted = [];
  returned = [];
  asked = [];
  answered = [];
}

-- `_rtbiocb`: the error of the io for a receive and for a send.
unfoldable pub callback_error : Kind → (receive_error send_error : Option ℕ) → Option ℕ
callback_error Kind.receive re se = re
callback_error Kind.send re se = se
callback_error Kind.connect re se = none
callback_error Kind.close re se = none
callback_error Kind.stop_loop re se = none

unfoldable pub io_callback : Rtb → Caller → (receive_error send_error : Option ℕ) → Rtb
io_callback b c re se = record b { posted = (c, callback_error c.1 re se) ∷ b.posted }

-- `_rtbiohandle`
unfoldable pub io_handle : Rtb → Caller → Rtb
io_handle b (i, Kind.receive) = record b { in_io = (i, Kind.receive) ∷ b.in_io }
io_handle b (i, Kind.send) = record b { in_io = (i, Kind.send) ∷ b.in_io }
io_handle b (i, Kind.connect) = io_callback b (i, Kind.connect) none none
io_handle b (i, Kind.close) = io_callback b (i, Kind.close) none none
io_handle b (i, Kind.stop_loop) = record b {
  stopped = true;
  posted = ((i, Kind.stop_loop), none) ∷ b.posted;
}

-- `_rtbioreqdispatch` up to its wait: it hands the request to the executor, which links it; without a
-- loop it calls the executor NULL.
unfoldable pub link_io : Rtb → Caller → Rtb
link_io b c = record b { queue = c ∷ b.queue; asked = c ∷ b.asked }

unfoldable pub dispatch : Rtb → Caller → Option Rtb
dispatch b c = if b.executor then some (link_io b c) else none

-- The calls, by the caller `i`.
unfoldable pub brecv : Rtb → ℕ → Option Rtb
brecv b i = dispatch b (i, Kind.receive)

unfoldable pub bsend : Rtb → ℕ → Option Rtb
bsend b i = dispatch b (i, Kind.send)

unfoldable pub pipe_connect : Rtb → ℕ → Option Rtb
pipe_connect b i = dispatch b (i, Kind.connect)

unfoldable pub io_close : Rtb → ℕ → Option Rtb
io_close b i = dispatch b (i, Kind.close)

unfoldable pub deinit : Rtb → ℕ → Option Rtb
deinit b i = dispatch b (i, Kind.stop_loop)

-- `_rtbasyncb` takes the queue, and runs a request.
unfoldable pub take_requests : Rtb → Rtb
take_requests b = record b { queue = []; batch = b.queue }

unfoldable pub run_next : Rtb → Caller → List Caller → Rtb
run_next b c rest = io_handle (record b { batch = rest }) c

-- An io calls back a request that it has.
unfoldable pub io_answers :
    Rtb → Caller → (before after : List Caller) → (receive_error send_error : Option ℕ) → Rtb
io_answers b c before after re se =
    io_callback (record b { in_io = before ++ after; answered = (c, (re, se)) ∷ b.answered }) c re
      se

-- `uv_sem_wait` ends.
unfoldable pub wake : Rtb → Outcome → (before after : List Outcome) → Rtb
wake b o before after = record b { posted = before ++ after; returned = o ∷ b.returned }

-- `pxprpc_rtbridge_init_uv`, with whether it succeeds.
unfoldable pub init_uv : Rtb → Bool × Rtb
init_uv b = if b.rtbloop then (false, b) else (true, record b { rtbloop = true; executor = true })

-- `_newloopthread` up to `uv_run`, and the two stretches after the loop has ended.
unfoldable pub start_loop : Rtb → Rtb
start_loop b = if b.rtbloop then b else record (init_uv b).1 { run_state = 2; stopped = false }

unfoldable pub leave_loop : Rtb → Rtb
leave_loop b = record b { executor = false; run_state = 3 }

unfoldable pub close_loop : Rtb → Rtb
close_loop b = record b { rtbloop = false; run_state = 0 }

-- What callers, ios and the loop do: the loop takes requests while it runs and was not stopped, and
-- runs all that it took.
pub data Move (b : Rtb) : Rtb → Type 0 where
  asking : (c : Caller) → b.executor ≡ true → Move b (link_io b c)
  taking : b.run_state ≡ 2 → b.stopped ≡ false → b.batch ≡ [] → Move b (take_requests b)
  running : (c : Caller) (rest : List Caller) → b.batch ≡ c ∷ rest → Move b (run_next b c rest)
  answering :
      (c : Caller) (before after : List Caller) (re se : Option ℕ)
      → b.in_io ≡ before ++ (c ∷ after)
      → Move b (io_answers b c before after re se)
  waking :
      (o : Outcome) (before after : List Outcome)
      → b.posted ≡ before ++ (o ∷ after)
      → Move b (wake b o before after)
  leaving : b.run_state ≡ 2 → b.stopped ≡ true → b.batch ≡ [] → Move b (leave_loop b)
  closing : b.run_state ≡ 3 → Move b (close_loop b)

-- Moves without a new start of the loop.
pub data Run (b : Rtb) : Rtb → Type 0 where
  still : Run b b
  moved : {c d : Rtb} → Run b c → Move c d → Run b d

pub data Reach : Rtb → Type 0 where
  begun : Reach new_rtb
  started : {b : Rtb} → Reach b → Reach (start_loop b)
  moved : {b c : Rtb} → Reach b → Move b c → Reach c

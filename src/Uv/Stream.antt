-- ===== src/Uv/Stream.antt =====
-- class UvStreamWrap of runtime_bridge/c-modules/pxprpc_libuv_rpc/init.hpp: a stream whose data waits
-- in a buffer for a read, and whose reads and accepts wait for data and connections. `none` is
-- undefined behaviour.
pub mod Delivery
pub mod Answered
pub mod Waiting
pub mod Liveness
use pxp_rpc.Base.{
  ℕ, ◌*◌, Bool, true, false, List, [], ◌∷◌, ◌++◌, Option, none, some, length, ltb, ◌==◌,
  if◌then◌else◌, ◌>>=◌,
}
use pxp_rpc.Uv.{Answer, is_negative}

-- The logs have the answers given, in order.
pub record Stream : Type 0 where
  pub read_buf : List ℕ
  pub read_waiting : List ℕ
  pub accept_waiting : List ℕ
  pub errcode : ℕ
  pub read_answers : List (ℕ × Answer)
  pub accept_answers : List (ℕ × Answer)
  pub write_answers : List (ℕ × Answer)

abbrev pub new_stream : Stream
new_stream = record {
  read_buf = [];
  read_waiting = [];
  accept_waiting = [];
  errcode = 0;
  read_answers = [];
  accept_answers = [];
  write_answers = [];
}

-- The first `if` of `processing`.
unfoldable pub hand_over : Stream → Stream
hand_over s = elim s.read_waiting [
  | [] ↦ s
  | r ∷ rs ↦ elim s.read_buf [
    | [] ↦ s
    | b ∷ bs ↦ record s {
      read_buf = [];
      read_waiting = rs;
      read_answers = s.read_answers ++ ((r, Answer.bytes (b ∷ bs)) ∷ []);
    }
  ]
]

-- The `while` loops of `processing`.
unfoldable pub reject_all : ℕ → List ℕ → List (ℕ × Answer)
reject_all code [] = []
reject_all code (r ∷ rs) = (r, Answer.error code) ∷ reject_all code rs

-- `processing`
unfoldable pub processing : Stream → Stream
processing s =
    let t = hand_over s in
    if is_negative t.errcode
    then record t {
      read_waiting = [];
      accept_waiting = [];
      read_answers = t.read_answers ++ reject_all t.errcode t.read_waiting;
      accept_answers = t.accept_answers ++ reject_all t.errcode t.accept_waiting;
    }
    else t

-- `pushError`
unfoldable pub push_error : Stream → ℕ → Stream
push_error s code = processing (record s { errcode = code })

-- `pushData`, with a `len` that is not negative.
unfoldable pub push_data : Stream → List ℕ → Stream
push_data s [] = s
push_data s (b ∷ bs) =
    if ltb (1024 * 1024) (length s.read_buf)
    then s
    else processing (record s { read_buf = s.read_buf ++ (b ∷ bs) })

-- `_UvStreamWrapRead`: `none` for the data is a negative `nread`, whose copy runs backwards from the
-- buffer, unless the buffer of the stream is too large.
unfoldable pub stream_wrap_read : Stream → Option (List ℕ) → Option Stream
stream_wrap_read s (some chunk) = some (push_data s chunk)
stream_wrap_read s none = if ltb (1024 * 1024) (length s.read_buf) then some s else none

-- `pushConn`: a connection that nothing waits for is dropped.
unfoldable pub push_conn : Stream → ℕ → Stream
push_conn s conn = elim s.accept_waiting [
  | [] ↦ s
  | r ∷ rs ↦ record s {
    accept_waiting = rs;
    accept_answers = s.accept_answers ++ ((r, Answer.object conn) ∷ []);
  }
]

-- `_UvStreamWrapConnection`, with the stream that `createStream` makes.
unfoldable pub stream_wrap_connection : Stream → (status conn : ℕ) → Stream
stream_wrap_connection s status conn = if status == 0 then push_conn s conn else push_error s status

-- `pullData`
unfoldable pub pull_data : Stream → ℕ → Stream
pull_data s ret = processing (record s { read_waiting = s.read_waiting ++ (ret ∷ []) })

-- `acceptConn`
unfoldable pub accept_conn : Stream → ℕ → Stream
accept_conn s ret = processing (record s { accept_waiting = s.accept_waiting ++ (ret ∷ []) })

-- `writeData`, which goes on to `uv_write` after the error too.
unfoldable pub write_data : Stream → ℕ → Stream
write_data s ret =
    if is_negative s.errcode
    then record s { write_answers = s.write_answers ++ ((ret, Answer.error s.errcode) ∷ []) }
    else s

-- The callback of `uv_write`.
unfoldable pub on_written : Stream → ℕ → ℕ → Stream
on_written s ret stat = record s {
  write_answers =
      s.write_answers
      ++ ((ret, if is_negative stat then Answer.error stat else Answer.number stat) ∷ []);
}

-- What happens to a stream: data, the failure of a read, which is an error or the end of the stream,
-- and connections from libuv, reads and accepts from callers.
pub data Event : Type 0 where
  data_came : List ℕ → Event
  read_failed : Event
  conn_came : (status conn : ℕ) → Event
  read_asked accept_asked : ℕ → Event

unfoldable pub step : Stream → Event → Option Stream
step s (Event.data_came chunk) = stream_wrap_read s (some chunk)
step s Event.read_failed = stream_wrap_read s none
step s (Event.conn_came status conn) = some (stream_wrap_connection s status conn)
step s (Event.read_asked ret) = some (pull_data s ret)
step s (Event.accept_asked ret) = some (accept_conn s ret)

unfoldable pub run : Stream → List Event → Option Stream
run s [] = some s
run s (e ∷ es) = step s e >>= λ t. run t es

-- ===== src/Server.antt =====
-- The server of c/pxprpc/server.c: a context and the steps of its requests. A request that waits
-- for a callable or for the end of a send is a value; what the context does to the outside is
-- logged. `none` is undefined behaviour of the C code (a NULL call, an access outside a block).
-- A callable and an io call back after the function that called them has returned.
pub mod Loop
pub mod Response
pub mod Poll
pub mod Calls
pub mod Count
pub mod Faults
mod Examples
use mathlib.Core.List.{flatten}
use Prim.Native.Char.{code}
use Prim.Native.String.{String}
use pxp_rpc.Base.{
  ℕ, zero, suc, ◌+◌, ◌-◌, ◌/◌, ◌%◌, ◌^◌, Bool, true, false, ◌||◌, List, [], ◌∷◌, ◌++◌, Option, none,
  some, length, ltb, ◌==◌, if◌then◌else◌, ◌>>=◌, get_elem?,
}
use pxp_rpc.Base.Bytes.{read, le_bytes, of_le}
use pxp_rpc.RefPool.{Pool, Ref, alloc_ref, free_ref, fill_ref, close_pool}

-- The functions that `next_step` can hold.
pub data Step : Type 0 where
  finish_request step_call1 step_call2 step_free_ref1 step_get_func1 step_close1 step_get_info1
        step_poll1 step_poll2 step_poll3 :
      Step

-- `pxprpc_request`. `packet` is the received block and `parameter_base` an offset in it (`none` is
-- NULL). A number is a bit pattern; `result` is the first part of the result, `more` the others.
pub record Request : Type 0 where
  pub session : ℕ
  pub callable_index : ℕ
  pub packet : List ℕ
  pub parameter_base : Option ℕ
  pub parameter_length : ℕ
  pub on_finish : Option ℕ
  pub result : List ℕ
  pub more : List (List ℕ)
  pub rejected : Bool
  pub next_step : Option Step

-- What a context does to the outside. `buf_free` has the offset in the received block.
pub data Effect : Type 0 where
  send : List ℕ → Effect
  receive io_close on_closed free_context free_request : Effect
  call on_finish : ℕ → Effect
  buf_free : ℕ → Effect

-- `struct _pxprpc__ServCo` with its exports, and the errors of its io.
pub record Server : Type 0 where
  pub pool : Pool
  pub closed : Bool
  pub last_error : Option ℕ
  pub receive_error : Option ℕ
  pub send_error : Option ℕ
  pub funcmap : Option (List ℕ → Option ℕ)
  pub has_on_closed : Bool
  pub ref_count : ℕ
  pub log : List Effect

-- What is left of a request: it waits for its callable, for the end of its send, or for nothing
-- that will come; or it is freed.
pub data Phase : Type 0 where
  calling sending stuck : Phase

abbrev pub Outcome : Type 0
Outcome = Server × Option (Phase × Request)

abbrev pub emit : Server → List Effect → Server
emit s es = record s { log = s.log ++ es }

-- `pxprpc_refCount_add` with -1.
unfoldable pub drop_ref : Server → Option Server
drop_ref s = elim s.ref_count [
  | zero ↦ none
  | suc n ↦ some (emit (record s { ref_count = n }) (if n == 0 then free_context ∷ [] else []))
]

-- `pxprpc_server_close`
unfoldable pub close : Server → Option Server
close s =
    if s.closed
    then some s
    else (close_pool s.pool >>= λ pool. some (
        emit (record s { pool = pool; closed = true })
          (io_close ∷ (if s.has_on_closed then on_closed ∷ [] else []))))

-- The check of `send_error` before a request goes on.
unfoldable pub check_send : Server → Option Server
check_send s = elim s.send_error [
  | none ↦ some s
  | some e ↦ close (record s { last_error = some e })
]

-- The effect of a callback pointer that may be NULL.
abbrev pub run_on_finish : Request → List Effect
run_on_finish r = elim r.on_finish [ none ↦ [] | some f ↦ on_finish f ∷ [] ]

abbrev pub free_parameter : Request → List Effect
free_parameter r = elim r.parameter_base [ none ↦ [] | some b ↦ buf_free (b - 8) ∷ [] ]

-- `_pxprpc__finishRequest`: the request is freed. Its parameter begins at byte 8 or later.
unfoldable pub finish : Server → Request → Option Outcome
finish s r = do
  s1 ← check_send s
  s2 ← drop_ref (emit s1 (run_on_finish r ++ free_parameter r))
  some (emit s2 (free_request ∷ []), none)

-- The step that a callable index stands for; 2^32 - k is -k.
unfoldable pub step_of_index : ℕ → Option Step → Option Step
step_of_index i old =
    if ltb i (2 ^ 31)
    then some step_call1
    else if i == 2 ^ 32 - 1
    then some step_get_func1
    else if i == 2 ^ 32 - 2
    then some step_free_ref1
    else if i == 2 ^ 32 - 3
    then some step_close1
    else if i == 2 ^ 32 - 4
    then some step_get_info1
    else if i == 2 ^ 32 - 5
    then some step_poll1
    else old

-- `_pxprpc__prepareRequest`
unfoldable pub prepare : Request → Request
prepare r = record r {
  result = [];
  more = [];
  on_finish = none;
  rejected = false;
  next_step = step_of_index r.callable_index r.next_step;
}

-- `session^0x80000000`
abbrev pub flip_session : ℕ → ℕ
flip_session v = (v + 2 ^ 31) % 2 ^ 32

abbrev pub response_session : Request → ℕ
response_session r = if r.rejected then flip_session r.session else r.session

-- The parts that are sent: the session, and the result unless its first part is empty.
unfoldable pub frame : Request → List ℕ
frame r =
    le_bytes 4 (response_session r)
    ++ (if length r.result == 0 then [] else r.result ++ flatten r.more)

-- `_pxprpc__writeResult`: on a closed context nothing is sent, and nothing will call back.
unfoldable pub write_result : Server → Request → Outcome
write_result s r =
    let r' = record r { session = response_session r } in
    if s.closed then (s, some (stuck, r')) else (emit s (send (frame r) ∷ []), some (sending, r'))

unfoldable pub run_call2 : Server → Request → Option Outcome
run_call2 s r =
    if r.session == 0xffffffff
    then finish s r
    else some (write_result s (record r { next_step = some finish_request }))

-- `((pxprpc_callable *)ref_pool[callable_index].object)->call(callable, r)`, which comes back in
-- `next`. A negative index is outside the block.
unfoldable pub call_object : Server → Request → Step → Option Outcome
call_object s r next = do
  ref ← get_elem? s.pool.refs r.callable_index
  object ← ref.object
  some (emit s (call object ∷ []), some (calling, record r { next_step = some next }))

-- The loop of `_pxprpc__stepFreeRef1` over `n` words from offset `off`.
unfoldable pub free_refs : ℕ → ℕ → List ℕ → Pool → Option Pool
free_refs zero off packet p = some p
free_refs (suc n) off packet p =
    read packet off 4 >>= λ bs. free_ref p (of_le bs) >>= λ q. free_refs n (off + 4) packet q

-- `_pxprpc__stepFreeRef1`; `i+=4` while `i<parameter.length`.
unfoldable pub run_free_ref1 : Server → Request → Option Outcome
run_free_ref1 s r = do
  base ← r.parameter_base
  pool ← free_refs ((r.parameter_length + 3) / 4) base r.packet s.pool
  run_call2 (record s { pool = pool }) r

-- The function that the map has under a name, at a new reference: the pool and the index, which is
-- -1 if there is none.
unfoldable pub find_func : Server → List ℕ → Option (Pool × ℕ)
find_func s name = elim s.funcmap [
  | none ↦ some (s.pool, 0xffffffff)
  | some get ↦ elim (get name) [
    | none ↦ some (s.pool, 0xffffffff)
    | some func ↦ alloc_ref s.pool >>= λ a. get_elem? a.1.refs a.0 >>= λ ref.
        fill_ref a.1 a.0 (some func) ref.on_free >>= λ pool. some (pool, a.0)
  ]
]

-- `_pxprpc__stepGetFunc1`
unfoldable pub run_get_func1 : Server → Request → Option Outcome
run_get_func1 s r = do
  base ← r.parameter_base
  name ← read r.packet base r.parameter_length
  (pool, index) ← find_func s name
  run_call2 (record s { pool = pool }) (record r { result = le_bytes 4 index })

-- ===== src/Server/Loop.antt =====
-- The remaining steps of c/pxprpc/server.c, the dispatch through `next_step`, the receive loop, and
-- what can happen to a context as a relation.
use Prim.Native.Char.{code}
use Prim.Native.String.{String}
use pxp_rpc.Base.{
  ℕ, suc, ◌+◌, ◌-◌, ◌%◌, ◌^◌, ◌≡◌, ◌≢◌, Bool, true, false, ◌||◌, List, [], ◌∷◌, ◌++◌, Option, none,
  some, length, if◌then◌else◌, ◌>>=◌, Takes,
}
use pxp_rpc.Base.Bytes.{read, of_le}
use pxp_rpc.RefPool.{empty_pool}
use pxp_rpc.Server.{
  Step, Request, Effect, Server, Phase, Outcome, emit, drop_ref, close, check_send, run_on_finish,
  finish, prepare, write_result, run_call2, call_object, run_free_ref1, run_get_func1,
}

abbrev codes : String → List ℕ
codes String.[] = []
codes (String.◌∷◌ c s) = code c ∷ codes s

-- `ServerInfo`; 10 is the line feed.
unfoldable pub server_info : List ℕ
server_info = codes "server name:pxprpc for c" ++ 10 ∷ (codes "version:2.1" ++ 10 ∷ [])

-- `_pxprpc__stepClose1`: nothing goes on with the request.
unfoldable pub run_close1 : Server → Request → Option Outcome
run_close1 s r = close s >>= λ s1. some (s1, some (Phase.stuck, r))

unfoldable pub run_get_info1 : Server → Request → Option Outcome
run_get_info1 s r = run_call2 s (record r { result = server_info })

-- `_pxprpc__stepPoll1`: the next word is the callable, and the rest its parameter.
unfoldable pub run_poll1 : Server → Request → Option Outcome
run_poll1 s r = do
  base ← r.parameter_base
  bs ← read r.packet base 4
  let r1 = record r {
    callable_index = of_le bs;
    parameter_base = some (base + 4);
    parameter_length = (r.parameter_length + 2 ^ 32 - 4) % 2 ^ 32;
  }
  call_object s (prepare r1) Step.step_poll2

unfoldable pub run_poll2 : Server → Request → Outcome
run_poll2 s r = write_result s (record r { next_step = some Step.step_poll3 })

-- The request as it was before `_pxprpc__stepPoll1`. A NULL parameter has no such address.
unfoldable pub recover_request : Request → Option Request
recover_request r = do
  base ← r.parameter_base
  some (record r {
    callable_index = 2 ^ 32 - 5;
    parameter_base = some (base - 4);
    parameter_length = (r.parameter_length + 4) % 2 ^ 32;
  })

-- `_pxprpc__stepPoll3`
unfoldable pub run_poll3 : Server → Request → Option Outcome
run_poll3 s r = check_send s >>= λ s1.
    if r.rejected || s1.closed
    then (recover_request r >>= λ r1. finish s1 r1)
    else call_object (emit s1 (run_on_finish r)) (prepare r) Step.step_poll2

-- `r->next_step(r)`
unfoldable pub run_step : Step → Server → Request → Option Outcome
run_step Step.finish_request s r = finish s r
run_step Step.step_call1 s r = call_object s r Step.step_call2
run_step Step.step_call2 s r = run_call2 s r
run_step Step.step_free_ref1 s r = run_free_ref1 s r
run_step Step.step_get_func1 s r = run_get_func1 s r
run_step Step.step_close1 s r = run_close1 s r
run_step Step.step_get_info1 s r = run_get_info1 s r
run_step Step.step_poll1 s r = run_poll1 s r
run_step Step.step_poll2 s r = some (run_poll2 s r)
run_step Step.step_poll3 s r = run_poll3 s r

unfoldable pub run_next : Server → Request → Option Outcome
run_next s r = r.next_step >>= λ step. run_step step s r

-- `_pxprpc__newRequest`, and the fields that `_pxprpc__step2` takes from the packet.
unfoldable pub new_request : List ℕ → Option Request
new_request packet = do
  session ← read packet 0 4
  index ← read packet 4 4
  some (record {
    session = of_le session;
    callable_index = of_le index;
    packet = packet;
    parameter_base = some 8;
    parameter_length = length packet - 8;
    on_finish = none;
    result = [];
    more = [];
    rejected = false;
    next_step = none;
  })

-- `_pxprpc__step2` up to its call of `_pxprpc__step1`.
unfoldable pub on_packet : Server → List ℕ → Option Outcome
on_packet s packet = if s.closed then some (s, none) else (elim s.receive_error [
  | some e ↦ close (record s { last_error = some e }) >>= λ s1. some (s1, none)
  | none ↦ new_request packet >>= λ r.
      run_next (record s { last_error = none; ref_count = suc s.ref_count }) (prepare r)
])

-- `_pxprpc__step1`
unfoldable pub arm : Server → Server
arm s = if s.closed then s else emit s (Effect.receive ∷ [])

-- `pxprpc_server_new` and `pxprpc_server_start`, and the fields that its user sets in between.
unfoldable pub start : Option (List ℕ → Option ℕ) → Bool → Server
start funcmap has_on_closed = arm (record {
  pool = empty_pool;
  closed = false;
  last_error = none;
  receive_error = none;
  send_error = none;
  funcmap = funcmap;
  has_on_closed = has_on_closed;
  ref_count = 1;
  log = [];
})

-- What a callable leaves in a request when it has finished. `keep` is false if it took the
-- parameter over, by setting `parameter.base` to NULL.
pub record Reply : Type 0 where
  pub result : List ℕ
  pub more : List (List ℕ)
  pub rejected : Bool
  pub on_finish : Option ℕ
  pub keep : Bool

abbrev pub with_reply : Request → Reply → Request
with_reply r a = record r {
  result = a.result;
  more = a.more;
  rejected = a.rejected;
  on_finish = a.on_finish;
  parameter_base = if a.keep then r.parameter_base else none;
}

-- A context with its requests, and whether its user still owns it (`pxprpc_server_delete` has not
-- been called).
pub record State : Type 0 where
  pub server : Server
  pub pending : List (Phase × Request)
  pub owned : Bool

abbrev pub join : Option (Phase × Request) → List (Phase × Request) → List (Phase × Request)
join none ps = ps
join (some x) ps = x ∷ ps

-- One thing that happens to a context that is not freed: its io delivers a packet or an error, the
-- receive loop goes on, a callable finishes, a send ends, the io sets its `send_error`, or the user closes or deletes it.
pub data Move (u : State) : State → Type 0 where
  received :
      (e : Option ℕ) (packet : List ℕ) {o : Outcome}
      → u.server.ref_count ≢ 0
      → on_packet (record (u.server) { receive_error = e }) packet ≡ some o
      → Move u (record u { server = o.0; pending = join o.1 u.pending })
  rearmed : u.server.ref_count ≢ 0 → Move u (record u { server = arm u.server })
  completed :
      (r : Request) (a : Reply) {rest : List (Phase × Request)} {o : Outcome}
      → Takes (Phase.calling, r) u.pending rest
      → run_next u.server (with_reply r a) ≡ some o
      → Move u (record u { server = o.0; pending = join o.1 rest })
  sent :
      (r : Request) (e : Option ℕ) {rest : List (Phase × Request)} {o : Outcome}
      → Takes (Phase.sending, r) u.pending rest
      → run_next (record (u.server) { send_error = e }) r ≡ some o
      → Move u (record u { server = o.0; pending = join o.1 rest })
  send_failed : (e : Option ℕ) → Move u (record u { server = record (u.server) { send_error = e } })
  closes :
      {s : Server} → u.owned ≡ true → close u.server ≡ some s → Move u (record u { server = s })
  deletes :
      {s : Server}
      → u.owned ≡ true
      → (close u.server >>= drop_ref) ≡ some s
      → Move u (record u { server = s; owned = false })

pub data Reach (u : State) : State → Type 0 where
  here : Reach u u
  next : {v w : State} → Reach u v → Move v w → Reach u w

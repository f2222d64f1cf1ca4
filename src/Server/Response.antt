-- ===== src/Server/Response.antt =====
-- What a client sees of a call (c/pxprpc/server.c): one response, or none to a signal.
use mathlib.Core.Path.{subst}
use pxp_rpc.RefPool.{Ref}
use pxp_rpc.Base.{
  ◌⊎◌, inl, inr, Bool-cases, ◌∙◌, sym, length-append, ap, ℕ, suc, ◌-◌, ◌^◌, ◌<◌, ◌≡◌, ◌≢◌, refl,
  true, false, List, [], ◌∷◌, ◌++◌, none, some, arith, length, ◌==◌, if◌then◌else◌, append_assoc,
  get_elem?,
}
use pxp_rpc.Base.Bytes.{read, of_le-le_bytes, read-append, length-le_bytes, le_bytes}
use pxp_rpc.Server.{
  flatten, Step, Request, Effect, Server, Phase, emit, drop_ref, check_send, run_on_finish,
  free_parameter, finish, prepare, flip_session, frame, write_result, run_call2,
}
use pxp_rpc.Server.Loop.{on_packet, new_request, run_step, run_next, Reply, with_reply}

-- A request packet: session, callable index, parameter.
abbrev pub packet_of : ℕ → ℕ → List ℕ → List ℕ
packet_of session index parameter = le_bytes 4 session ++ (le_bytes 4 index ++ parameter)

-- The request that a packet makes.
abbrev pub request_of : ℕ → ℕ → List ℕ → Request
request_of session index parameter = record {
  session = session;
  callable_index = index;
  packet = packet_of session index parameter;
  parameter_base = some 8;
  parameter_length = length parameter;
  on_finish = none;
  result = [];
  more = [];
  rejected = false;
  next_step = none;
}

new_request-packet_of :
    (session index : ℕ) (parameter : List ℕ)
    → session < 2 ^ 32
    → index < 2 ^ 32
    → new_request (packet_of session index parameter) ≡ some (request_of session index parameter)
unfolding new_request
new_request-packet_of session index parameter hs hi =
    let ls = length-le_bytes 4 session in
    let li = length-le_bytes 4 index in
    let rest = le_bytes 4 index ++ parameter in
    let len : length (packet_of session index parameter) - 8 ≡ length parameter = omega (
      arith,
      length-append (le_bytes 4 session) rest,
      length-append (le_bytes 4 index) parameter,
      ls,
      li,
    ) in
    rw
      (
        read-append [] (le_bytes 4 session) rest 0 4 refl (sym ls),
        read-append (le_bytes 4 session) (le_bytes 4 index) parameter 4 4 (sym ls) (sym li),
        of_le-le_bytes 4 session hs,
        of_le-le_bytes 4 index hi,
        len,
      )
      refl

-- The first part of the parameter stands at byte 8 of the packet.
pub read-parameter :
    (session index : ℕ) (bs parameter : List ℕ) (n : ℕ)
    → n ≡ length bs
    → read (packet_of session index (bs ++ parameter)) 8 n ≡ some bs
read-parameter session index bs parameter n h =
    let a = le_bytes 4 session in
    let b = le_bytes 4 index in
    let len : 8 ≡ length (a ++ b) =
      omega (arith, length-append a b, length-le_bytes 4 session, length-le_bytes 4 index) in
    subst (λ packet. read packet 8 n ≡ some bs) (append_assoc a b (bs ++ parameter))
      (read-append (a ++ b) bs parameter 8 n len h)

-- The context that starts on a request: one more reference.
abbrev pub taken : Server → Server
taken s = record s { last_error = none; ref_count = suc s.ref_count }

-- An open context whose io reports no error starts on the request of the packet.
pub on_packet-packet_of :
    (s : Server) (session index : ℕ) (parameter : List ℕ)
    → s.closed ≡ false
    → s.receive_error ≡ none
    → session < 2 ^ 32
    → index < 2 ^ 32
    → on_packet s (packet_of session index parameter)
      ≡ run_next (taken s) (prepare (request_of session index parameter))
unfolding on_packet
on_packet-packet_of s session index parameter opened fine hs hi =
    ground (arith, new_request-packet_of session index parameter hs hi)

-- The callable stands in the pool, and the context can send.
pub record Serves (s : Server) (index object : ℕ) : Type 0 where
  pub ref : Ref
  pub found : get_elem? s.pool.refs index ≡ some ref
  pub callable : ref.object ≡ some object
  pub opened : s.closed ≡ false
  pub healthy : s.send_error ≡ none

pub Serves-emit :
    (t s : Server) {index object : ℕ}
    → t.pool ≡ s.pool
    → t.closed ≡ s.closed
    → t.send_error ≡ s.send_error
    → Serves s index object
    → Serves t index object
Serves-emit t s p c e v = record {
  ref = v.ref;
  found = rw p v.found;
  callable = v.callable;
  opened = c ∙ v.opened;
  healthy = e ∙ v.healthy;
}

-- The request waits for the callable of a plain call.
pub record Waiting (s : Server) (r : Request) : Type 0 where
  pub back : r.next_step ≡ some Step.step_call2
  pub opened : s.closed ≡ false
  pub healthy : s.send_error ≡ none

-- The bytes of a response: the session, with the top bit flipped for an error, and the result.
abbrev pub response : ℕ → Reply → List ℕ
response session a =
    le_bytes 4 (if a.rejected then flip_session session else session)
    ++ (if length a.result == 0 then [] else a.result ++ flatten a.more)

-- The last effects of a request: its callback and its parameter.
abbrev pub farewell : Request → List Effect
farewell r = run_on_finish r ++ free_parameter r

-- The context when a request has ended with the effects `es` and `n` references are left.
abbrev pub after_finish : Server → ℕ → List Effect → Server
after_finish s n es = record s {
  ref_count = n;
  log =
      ((s.log ++ es) ++ (if n == 0 then Effect.free_context ∷ [] else []))
      ++ (Effect.free_request ∷ []);
}

pub check_send-healthy : (s : Server) → s.send_error ≡ none → check_send s ≡ some s
unfolding check_send
check_send-healthy s e = ground arith

drop_ref-suc :
    (s : Server) (n : ℕ)
    → s.ref_count ≡ suc n
    → drop_ref s
      ≡ some (emit (record s { ref_count = n }) (if n == 0 then Effect.free_context ∷ [] else []))
unfolding drop_ref
drop_ref-suc s n e = ground arith

-- Without a send error a request that ends gives back its reference and frees what it holds.
pub finish_lem :
    (s : Server) (r : Request) (n : ℕ)
    → s.send_error ≡ none
    → s.ref_count ≡ suc n
    → finish s r ≡ some (after_finish s n (farewell r), none)
unfolding finish
finish_lem s r n e c = rw (check_send-healthy s e, drop_ref-suc (emit s (farewell r)) n c) refl

pub run_next-step :
    (s : Server) (r : Request) (k : Step) → r.next_step ≡ some k → run_next s r ≡ run_step k s r
unfolding run_next
run_next-step s r k e = ground arith

-- What a reply leaves to be done: its callback, and the received block unless it took it over.
abbrev pub reply_farewell : Reply → List Effect
reply_farewell a =
    (elim a.on_finish [ none ↦ [] | some f ↦ Effect.on_finish f ∷ [] ])
    ++ (if a.keep then Effect.buf_free 0 ∷ [] else [])

farewell-with_reply :
    (r : Request) (a : Reply)
    → r.parameter_base ≡ some 8
    → farewell (with_reply r a) ≡ reply_farewell a
farewell-with_reply r a e = ground arith

-- When the callable of a call with a session other than 0xffffffff has finished on an open context,
-- exactly the response is sent, and when the send has ended, without an error and at any later state of
-- the context, the callback of the reply runs, the received block is freed at its start unless the
-- callable took it over, and the request and its reference are gone. On a context that was closed
-- nothing is sent, and the request is stuck: nothing will finish it.
pub call_responds :
    (s t : Server) (r : Request) (a : Reply) (m : ℕ)
    → r.next_step ≡ some Step.step_call2
    → r.session ≢ 0xffffffff
    → r.parameter_base ≡ some 8
    → t.send_error ≡ none
    → t.ref_count ≡ suc m
    → (r1 : Request) × (((s.closed ≡ false)
          × (run_next s (with_reply r a)
              ≡ some (emit s (Effect.send (response r.session a) ∷ []), some (Phase.sending, r1)))
          × (run_next t r1 ≡ some (after_finish t m (reply_farewell a), none)))
        ⊎ ((s.closed ≡ true) × (run_next s (with_reply r a) ≡ some (s, some (Phase.stuck, r1)))))
unfolding run_step run_call2 write_result frame
call_responds s t r a m back ne base e c =
    let r1 : Request = record (with_reply r a) {
      session = if a.rejected then flip_session r.session else r.session;
      next_step = some Step.finish_request;
    } in
    let plain : (r.session == 0xffffffff) ≡ false = ground arith in
    (
      r1,
      elim (Bool-cases s.closed) [
        | inr opened ↦ inl (
          opened,
          rw (run_next-step s (with_reply r a) Step.step_call2 back, plain, opened) refl,
          rw (run_next-step t r1 Step.finish_request refl, finish_lem t r1 m e c)
              (ap (λ es. some (after_finish t m es, none)) (farewell-with_reply r a base)),
        )
        | inl closed ↦
            inr (
              closed,
              rw (run_next-step s (with_reply r a) Step.step_call2 back, plain, closed) refl,
            )
      ],
    )

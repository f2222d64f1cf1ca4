-- ===== src/Server/Examples.antt =====
-- The theorems on the server at a concrete context.
use pxp_rpc.Base.{
  ◌⊎◌, ◌==◌, if◌then◌else◌, ℕ, ◌-◌, ◌^◌, ◌≡◌, ◌≢◌, refl, true, false, List, [], ◌∷◌, ◌++◌, Option,
  none, some, arith, length, ◌>>=◌,
}
use pxp_rpc.Base.Bytes.{of_le, read, le_bytes}
use pxp_rpc.RefPool.{close_pool, close_refs, Pool, empty_pool}
use pxp_rpc.RefPool.Chain.{entry, NotIn}
use pxp_rpc.RefPool.History.{History, started}
use pxp_rpc.Server.{Step, Request, Effect, Server, Phase, emit, prepare}
use mathlib.Core.List.{flatten}
use pxp_rpc.Server.{step_of_index, run_call2, write_result, frame, close}
use pxp_rpc.Server.Loop.{
  new_request, run_step, run_get_info1, run_close1, server_info, Reply, with_reply, State, Move,
  Reach, here, next, start, arm, on_packet, run_next,
}
use pxp_rpc.Server.Response.{
  Serves, packet_of, request_of, taken, response, after_finish, reply_farewell, call_responds,
}
use pxp_rpc.Server.Poll.{poll_runs, poll_packet, rounds, after_rounds}
use pxp_rpc.Server.Calls.{answered, called, Answers, call_starts, get_func_found}
use pxp_rpc.Server.Count.{Counted, Reach-Counted}
use pxp_rpc.Server.Faults.{close_request_leaks}

-- A context whose only reference is the callable 5.
abbrev serving : Server
serving = record {
  pool = record {
    refs = record { object = some 5; on_free = none; next_free = none } ∷ [];
    free_entry = none;
    size = 1;
    calls = [];
  };
  closed = false;
  last_error = none;
  receive_error = none;
  send_error = none;
  funcmap = none;
  has_on_closed = true;
  ref_count = 1;
  log = [];
}

serving-Serves : Serves serving 0 5
serving-Serves = record {
  ref = record { object = some 5; on_free = none; next_free = none };
  found = refl;
  callable = refl;
  opened = refl;
  healthy = refl;
}

abbrev word_reply : Reply
word_reply = record {
  result = 1 ∷ 2 ∷ 3 ∷ 4 ∷ [];
  more = [];
  rejected = false;
  on_finish = some 9;
  keep = true;
}

abbrev error_reply : Reply
error_reply = record {
  result = 7 ∷ [];
  more = (8 ∷ []) ∷ [];
  rejected = true;
  on_finish = none;
  keep = true;
}

abbrev waiting : ℕ → Request
waiting session = called session 0 (6 ∷ [])

call_starts_example :
    on_packet serving (packet_of 5 0 (6 ∷ []))
    ≡ some (emit (taken serving) (Effect.call 5 ∷ []), some (Phase.calling, called 5 0 (6 ∷ [])))
call_starts_example =
    call_starts serving 5 0 5 (6 ∷ []) serving-Serves refl (omega arith) (omega arith)

call_responds_example :
    (r1 : Request) × ((((taken serving).closed ≡ false)
        × (run_next (taken serving) (with_reply (waiting 5) error_reply)
            ≡ some (
              emit (taken serving) (Effect.send (response 5 error_reply) ∷ []),
              some (Phase.sending, r1),
            ))
        × (run_next (taken serving) r1
            ≡ some (after_finish (taken serving) 1 (reply_farewell error_reply), none)))
      ⊎ ((false ≡ true)
          × (run_next (taken serving) (with_reply (waiting 5) error_reply)
              ≡ some (taken serving, some (Phase.stuck, r1)))))
call_responds_example =
    call_responds (taken serving) (taken serving) (waiting 5) error_reply 1 refl (omega arith) refl
      refl refl

poll_runs_example :
    (on_packet serving (poll_packet 5 0 (6 ∷ [])) >>= λ o. elim o.1 [
      | none ↦ some o
      | some (phase, r) ↦ rounds ((word_reply ∷ word_reply ∷ []) ++ (error_reply ∷ [])) o.0 r
    ])
    ≡ some (
      after_finish
          (emit
            (after_rounds 5 5
              (emit (taken serving) (Effect.call 5 ∷ []))
              (word_reply ∷ word_reply ∷ []))
            (Effect.send (response 5 error_reply) ∷ []))
          1
          (reply_farewell error_reply),
      none,
    )
poll_runs_example =
    poll_runs serving 5 0 5 (6 ∷ []) (word_reply ∷ word_reply ∷ []) error_reply serving-Serves refl
      (omega arith) (omega arith) (omega arith) (refl, (refl, tt)) refl

-- A function map that has the function 77 under each name of one letter.
abbrev one_func : List ℕ → Option ℕ
one_func name = if length name == 1 then some 77 else none

abbrev fresh : Server
fresh = record serving { pool = empty_pool; funcmap = some one_func }

get_func_found_example :
    (i : ℕ) × (q : Pool) × Answers fresh 5 (2 ^ 32 - 1) (102 ∷ []) q (le_bytes 4 i)
    × History (i ∷ []) q
    × NotIn i []
    × ((entry q.refs i).object ≡ some 77)
get_func_found_example =
    get_func_found fresh 5 (102 ∷ []) one_func 77 refl refl (omega arith) started (omega arith) refl
      refl

abbrev initial : State
initial = record { server = start none true; pending = []; owned = true }

-- The context after a request for its information.
abbrev informed : State
informed = record {
  server = emit (taken (start none true)) (Effect.send (le_bytes 4 5 ++ server_info) ∷ []);
  pending = (Phase.sending, answered 5 (2 ^ 32 - 4) [] server_info) ∷ [];
  owned = true;
}

informed-Reach : Reach initial informed
unfolding start arm on_packet new_request prepare step_of_index run_next run_step run_get_info1
    run_call2 write_result frame read le_bytes of_le server_info flatten
informed-Reach = next here (Move.received none (packet_of 5 (2 ^ 32 - 4) []) (omega arith) refl)

Reach-Counted_example : Counted informed
Reach-Counted_example = Reach-Counted none true informed-Reach

-- The context after the close request of its peer.
abbrev closed_state : State
closed_state = record {
  server =
      emit (record (taken (start none true)) { closed = true })
        (Effect.io_close ∷ Effect.on_closed ∷ []);
  pending =
      (Phase.stuck, record (request_of 5 (2 ^ 32 - 3) []) { next_step = some Step.step_close1 })
      ∷ [];
  owned = true;
}

close_request-closed_state :
    on_packet (start none true) (packet_of 5 (2 ^ 32 - 3) [])
    ≡ some (
      closed_state.server,
      some (
        Phase.stuck,
        record (request_of 5 (2 ^ 32 - 3) []) { next_step = some Step.step_close1 },
      ),
    )
unfolding start arm on_packet new_request prepare step_of_index run_next run_step run_close1 close
    close_pool close_refs read le_bytes of_le
close_request-closed_state = refl

close_request_leaks_example : closed_state.server.ref_count ≢ 0
unfolding start arm
close_request_leaks_example =
    close_request_leaks none true 5 [] here refl (omega arith) (omega arith)
      close_request-closed_state here

-- ===== src/Server/Faults.antt =====
-- Packets that c/pxprpc/server.c does not guard against, and requests that it never frees.
use pxp_rpc.RefPool.{Ref}
use pxp_rpc.Base.{
  Ends, Ends-after, Ends-some, ℕ, ◌+◌, ◌-◌, ◌^◌, ◌<◌, ◌≤◌, ◌≡◌, ◌≢◌, refl, Bool, true, false, List,
  [], ◌∷◌, Option, none, some, arith, length, ◌>>=◌, get_elem?, Takes,
}
use pxp_rpc.Base.Bytes.{read}
use pxp_rpc.Server.{
  Step, Request, Server, Phase, Outcome, prepare, call_object, step_of_index, close,
}
use pxp_rpc.Server.Loop.{
  run_step, run_next, on_packet, new_request, run_close1, State, Move, Reach, here, next, join,
  start,
}
use pxp_rpc.Server.Response.{run_next-step, packet_of, request_of, taken, on_packet-packet_of}
use pxp_rpc.Server.Count.{Counted, Reach-Counted, Move-Counted}

-- A packet of less than 8 bytes is read past its end.
pub short_packet :
    (s : Server) (packet : List ℕ)
    → s.closed ≡ false
    → s.receive_error ≡ none
    → length packet < 8
    → on_packet s packet ≡ none
unfolding on_packet new_request read
short_packet s packet opened fine short = ground arith

-- A packet whose index, as a signed number, is less than -5 runs a NULL function.
pub unknown_index :
    (s : Server) (session index : ℕ) (parameter : List ℕ)
    → s.closed ≡ false
    → s.receive_error ≡ none
    → session < 2 ^ 32
    → 2 ^ 31 ≤ index
    → index < 2 ^ 32 - 5
    → on_packet s (packet_of session index parameter) ≡ none
unfolding prepare step_of_index run_next
unknown_index s session index parameter opened fine hs lo hi =
    let empty : (prepare (request_of session index parameter)).next_step ≡ none = ground arith in
    rw (on_packet-packet_of s session index parameter opened fine hs (omega arith), empty) refl

lookup_fails :
    (m : Option Ref) (g : ℕ → Option Outcome)
    → (m >>= λ ref. ref.object) ≡ none
    → (m >>= λ ref. ref.object >>= λ object. g object) ≡ none
lookup_fails none g h = refl
lookup_fails (some ref) g h = rw h refl

-- A call of an index that is outside the pool, or whose entry is free or not filled in, goes through
-- a pointer outside the block or through NULL.
pub call_of_nothing :
    (s : Server) (session index : ℕ) (parameter : List ℕ)
    → s.closed ≡ false
    → s.receive_error ≡ none
    → session < 2 ^ 32
    → index < 2 ^ 31
    → (get_elem? s.pool.refs index >>= λ ref. ref.object) ≡ none
    → on_packet s (packet_of session index parameter) ≡ none
unfolding prepare step_of_index run_step call_object
call_of_nothing s session index parameter opened fine hs hi nothing =
    let step : (prepare (request_of session index parameter)).next_step ≡ some Step.step_call1 =
      ground arith in
    rw
      (
        on_packet-packet_of s session index parameter opened fine hs (omega arith),
        run_next-step (taken s) (prepare (request_of session index parameter)) Step.step_call1 step,
      )
      (lookup_fails (get_elem? s.pool.refs index) _ nothing)

-- How many requests wait for nothing that will come.
abbrev pub is_stuck : Phase → ℕ
is_stuck Phase.calling = 0
is_stuck Phase.sending = 0
is_stuck Phase.stuck = 1

abbrev pub stuck_count : List (Phase × Request) → ℕ
stuck_count [] = 0
stuck_count ((phase, r) ∷ ps) = is_stuck phase + stuck_count ps

Takes-stuck_count :
    {x : Phase × Request} {ps rest : List (Phase × Request)}
    → Takes x ps rest
    → stuck_count ps ≡ is_stuck x.0 + stuck_count rest
Takes-stuck_count Takes.here = refl
Takes-stuck_count (Takes.there t) = omega (arith, Takes-stuck_count t)

join-stuck_count :
    (x : Option (Phase × Request)) (ps : List (Phase × Request))
    → stuck_count ps ≤ stuck_count (join x ps)
join-stuck_count none ps = omega arith
join-stuck_count (some x) ps = omega arith

stuck_count-length : (ps : List (Phase × Request)) → stuck_count ps ≤ length ps
stuck_count-length [] = omega arith
stuck_count-length ((Phase.calling, r) ∷ ps) = omega (arith, stuck_count-length ps)
stuck_count-length ((Phase.sending, r) ∷ ps) = omega (arith, stuck_count-length ps)
stuck_count-length ((Phase.stuck, r) ∷ ps) = omega (arith, stuck_count-length ps)

Move-stuck_count : {u v : State} → Move u v → stuck_count u.pending ≤ stuck_count v.pending
Move-stuck_count {u} (Move.received e packet {o = o} alive h) = join-stuck_count o.1 u.pending
Move-stuck_count (Move.rearmed alive) = omega arith
Move-stuck_count (Move.completed r a {rest = rest} {o = o} t h) =
    omega (arith, Takes-stuck_count t, join-stuck_count o.1 rest)
Move-stuck_count (Move.sent r e {rest = rest} {o = o} t h) =
    omega (arith, Takes-stuck_count t, join-stuck_count o.1 rest)
Move-stuck_count (Move.send_failed e) = omega arith
Move-stuck_count (Move.closes owned h) = omega arith
Move-stuck_count (Move.deletes owned h) = omega arith

Reach-stuck_count : {u v : State} → Reach u v → stuck_count u.pending ≤ stuck_count v.pending
Reach-stuck_count here = omega arith
Reach-stuck_count (next r m) = omega (arith, Reach-stuck_count r, Move-stuck_count m)

Reach-Reach-Counted : {u v : State} → Counted u → Reach u v → Counted v
Reach-Reach-Counted c here = c
Reach-Reach-Counted c (next r m) = Move-Counted m (Reach-Reach-Counted c r)

close_request_stuck :
    (s : Server) (session : ℕ) (parameter : List ℕ) (ps : List (Phase × Request))
    → s.closed ≡ false
    → s.receive_error ≡ none
    → session < 2 ^ 32
    → Ends
        (λ o. 1 ≤ stuck_count (join o.1 ps))
        (on_packet s (packet_of session (2 ^ 32 - 3) parameter))
unfolding prepare step_of_index run_step run_close1
close_request_stuck s session parameter ps opened fine hs =
    let r = prepare (request_of session (2 ^ 32 - 3) parameter) in
    rw
      (
        on_packet-packet_of s session (2 ^ 32 - 3) parameter opened fine hs (omega arith),
        run_next-step (taken s) r Step.step_close1 refl,
      )
      (Ends-after _ (close (taken s)) _ λ t. omega arith)

-- A context that handles a close request of its peer is never freed, whatever happens afterwards: the
-- request is not finished and keeps its reference.
pub close_request_leaks :
    (funcmap : Option (List ℕ → Option ℕ)) (has_on_closed : Bool) {u w : State} (session : ℕ)
    (parameter : List ℕ) {o : Outcome}
    → Reach (record { server = start funcmap has_on_closed; pending = []; owned = true }) u
    → u.server.closed ≡ false
    → u.server.ref_count ≢ 0
    → session < 2 ^ 32
    → on_packet
        (record (u.server) { receive_error = none })
        (packet_of session (2 ^ 32 - 3) parameter)
      ≡ some o
    → Reach (record u { server = o.0; pending = join o.1 u.pending }) w
    → w.server.ref_count ≢ 0
close_request_leaks f b {u} {w} session parameter {o} r opened alive hs h later =
    let v : State = record u { server = o.0; pending = join o.1 u.pending } in
    let m : Move u v = Move.received none (packet_of session (2 ^ 32 - 3) parameter) alive h in
    let c : Counted w = Reach-Reach-Counted (Move-Counted m (Reach-Counted f b r)) later in
    let one : 1 ≤ stuck_count v.pending =
      Ends-some (λ o. 1 ≤ stuck_count (join o.1 u.pending)) _
        (close_request_stuck (record (u.server) { receive_error = none }) session parameter
          u.pending opened refl hs)
        h in
    omega (arith, c, one, Reach-stuck_count later, stuck_count-length w.pending)

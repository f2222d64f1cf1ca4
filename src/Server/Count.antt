-- ===== src/Server/Count.antt =====
-- `refCount` of a context of c/pxprpc/server.c: it counts the owner and the requests, and the
-- context is freed once, with the last of them.
use mathlib.Core.Path.{subst}
use pxp_rpc.Base.{
  ◌/◌, ◌||◌, Option-cases, ℕ, suc, ◌+◌, ◌≡◌, refl, ◌∙◌, Bool, true, List, [], Option, none, some,
  arith, length, ◌>>=◌, Ends, Ends-then, Ends-some, Ends-after, Bool-cases, inl, inr, Takes,
  Takes-length, ◌==◌, if◌then◌else◌,
}
use pxp_rpc.Server.{
  find_func, read, free_refs, Step, Request, Server, Phase, Outcome, drop_ref, close, check_send,
  finish, write_result, run_call2, call_object, run_free_ref1, run_get_func1, prepare,
}
use pxp_rpc.Server.Loop.{
  with_reply, new_request, run_close1, run_get_info1, run_poll1, run_poll2, run_poll3, run_step,
  run_next, on_packet, arm, start, State, Move, Reach, here, next, join, recover_request,
}

-- A request that is gone has given its reference back.
abbrev weight : Option (Phase × Request) → ℕ
weight none = 1
weight (some x) = 0

abbrev Keeps : Server → Outcome → Type 0
Keeps s o = o.0.ref_count + weight o.1 ≡ s.ref_count

abbrev Same : Server → Server → Type 0
Same s t = t.ref_count ≡ s.ref_count

Keeps-Same : (s t : Server) → Same s t → (m : Option Outcome) → Ends (Keeps t) m → Ends (Keeps s) m
Keeps-Same s t h m e = subst (λ n. Ends (λ o. o.0.ref_count + weight o.1 ≡ n) m) h e

close-Same : (s : Server) → Ends (Same s) (close s)
unfolding close
close-Same s = ground arith

check_send-Same : (s : Server) → Ends (Same s) (check_send s)
unfolding check_send close
check_send-Same s = ground arith

drop_ref-suc : (s : Server) → Ends (λ t. suc t.ref_count ≡ s.ref_count) (drop_ref s)
unfolding drop_ref
drop_ref-suc s = ground arith

finish-Keeps : (s : Server) (r : Request) → Ends (Keeps s) (finish s r)
unfolding finish
finish-Keeps s r = Ends-then (Same s) (Keeps s) (check_send s) _ (check_send-Same s) λ s1 h1.
    Ends-then (λ t. suc t.ref_count ≡ s1.ref_count) (Keeps s) (drop_ref _) _ (drop_ref-suc _)
      λ s2 h2. omega arith

write_result-Keeps : (s : Server) (r : Request) → Keeps s (write_result s r)
unfolding write_result
write_result-Keeps s r = ground arith

run_call2-Keeps : (s : Server) (r : Request) → Ends (Keeps s) (run_call2 s r)
unfolding run_call2
run_call2-Keeps s r = elim (Bool-cases (r.session == 0xffffffff)) [
  | inl e ↦ rw e (finish-Keeps s r)
  | inr e ↦ rw e (write_result-Keeps s _)
]

call_object-Keeps : (s : Server) (r : Request) (k : Step) → Ends (Keeps s) (call_object s r k)
unfolding call_object
call_object-Keeps s r k = ground arith

run_free_ref1-Keeps : (s : Server) (r : Request) → Ends (Keeps s) (run_free_ref1 s r)
unfolding run_free_ref1
run_free_ref1-Keeps s r = Ends-after (Keeps s) r.parameter_base _ λ base.
    Ends-after (Keeps s) (free_refs ((r.parameter_length + 3) / 4) base r.packet s.pool) _
      λ pool. run_call2-Keeps (record s { pool = pool }) r

run_get_func1-Keeps : (s : Server) (r : Request) → Ends (Keeps s) (run_get_func1 s r)
unfolding run_get_func1
run_get_func1-Keeps s r = Ends-after (Keeps s) r.parameter_base _ λ base.
    Ends-after (Keeps s) (read r.packet base r.parameter_length) _ λ name.
      Ends-after (Keeps s) (find_func s name) _ λ f. run_call2-Keeps (record s { pool = f.0 }) _

run_poll3-Keeps : (s : Server) (r : Request) → Ends (Keeps s) (run_poll3 s r)
unfolding run_poll3
run_poll3-Keeps s r = Ends-then (Same s) (Keeps s) (check_send s) _ (check_send-Same s) λ s1 h1.
    elim (Bool-cases (r.rejected || s1.closed)) [
      | inl e ↦ rw e (
          Keeps-Same s s1 h1 _
            (Ends-after (Keeps s1) (recover_request r) _ λ r1. finish-Keeps s1 r1))
      | inr e ↦ rw e (Keeps-Same s s1 h1 _ (call_object-Keeps _ (prepare r) Step.step_poll2))
    ]

run_step-Keeps : (k : Step) (s : Server) (r : Request) → Ends (Keeps s) (run_step k s r)
unfolding run_step run_close1 run_get_info1 run_poll1 run_poll2
run_step-Keeps Step.finish_request s r = finish-Keeps s r
run_step-Keeps Step.step_call1 s r = call_object-Keeps s r Step.step_call2
run_step-Keeps Step.step_call2 s r = run_call2-Keeps s r
run_step-Keeps Step.step_free_ref1 s r = run_free_ref1-Keeps s r
run_step-Keeps Step.step_get_func1 s r = run_get_func1-Keeps s r
run_step-Keeps Step.step_close1 s r =
    Ends-then (Same s) (Keeps s) (close s) _ (close-Same s) λ t h. omega arith
run_step-Keeps Step.step_get_info1 s r = run_call2-Keeps s _
run_step-Keeps Step.step_poll1 s r = Ends-after (Keeps s) r.parameter_base _ λ base.
    Ends-after (Keeps s) (read r.packet base 4) _ λ bs. call_object-Keeps s _ Step.step_poll2
run_step-Keeps Step.step_poll2 s r = write_result-Keeps s _
run_step-Keeps Step.step_poll3 s r = run_poll3-Keeps s r

run_next-Keeps : (s : Server) (r : Request) → Ends (Keeps s) (run_next s r)
unfolding run_next
run_next-Keeps s r = Ends-after (Keeps s) r.next_step _ λ k. run_step-Keeps k s r

abbrev size : Option (Phase × Request) → ℕ
size none = 0
size (some x) = 1

-- A packet that is not dropped takes a reference for its request.
abbrev TakesIn : Server → Outcome → Type 0
TakesIn s o = o.0.ref_count ≡ s.ref_count + size o.1

Keeps→TakesIn :
    (s t : Server)
    → t.ref_count ≡ suc s.ref_count
    → (m : Option Outcome) → Ends (Keeps t) m
    → Ends (TakesIn s) m
Keeps→TakesIn s t h none e = tt
Keeps→TakesIn s t h (some (u, none)) e = omega arith
Keeps→TakesIn s t h (some (u, some x)) e = omega arith

on_packet-TakesIn : (s : Server) (packet : List ℕ) → Ends (TakesIn s) (on_packet s packet)
unfolding on_packet
on_packet-TakesIn s packet = elim (Bool-cases s.closed) [
  | inl e ↦ rw e (omega arith)
  | inr e ↦ rw e (elim (Option-cases s.receive_error) [
    | inl n ↦
        let t = record s { last_error = none; ref_count = suc s.ref_count } in
        rw n (
          Keeps→TakesIn s t refl _
            (Ends-after (Keeps t) (new_request packet) _ λ r. run_next-Keeps t (prepare r)))
    | inr (x, n) ↦
        let t = record s { last_error = some x } in
        rw n (Ends-then (Same t) (TakesIn s) (close t) _ (close-Same t) λ u h. omega arith)
  ])
]

abbrev pub owner : State → ℕ
owner u = if u.owned then 1 else 0

-- One reference for the owner and one for each request.
abbrev pub Counted : State → Type 0
Counted u = u.server.ref_count ≡ owner u + length u.pending

length-join :
    (x : Option (Phase × Request)) (ps : List (Phase × Request))
    → length (join x ps) ≡ size x + length ps
length-join none ps = omega arith
length-join (some x) ps = omega arith

arm-Counted : (u : State) → Counted u → Counted (record u { server = arm u.server })
unfolding arm
arm-Counted u c = ground arith

-- A request that goes on, and is pending again or gone.
join-Counted :
    (u : State) {x : Phase × Request} {rest : List (Phase × Request)} (o : Outcome)
    → Counted u
    → Takes x u.pending rest
    → Keeps u.server o
    → o.0.ref_count ≡ owner u + length (join o.1 rest)
join-Counted u (s, none) c t k = omega (arith, Takes-length t)
join-Counted u (s, some x) c t k = omega (arith, Takes-length t)

pub Move-Counted : {u v : State} → Move u v → Counted u → Counted v
Move-Counted {u} (Move.received e packet {o = o} alive h) c =
    let s = record (u.server) { receive_error = e } in
    let k = Ends-some (TakesIn s) (on_packet s packet) (on_packet-TakesIn s packet) h in
    omega (arith, k, length-join o.1 u.pending)
Move-Counted {u} (Move.rearmed alive) c = arm-Counted u c
Move-Counted {u} (Move.completed r a {o = o} t h) c =
    join-Counted u o c t (Ends-some (Keeps u.server) _ (run_next-Keeps u.server (with_reply r a)) h)
Move-Counted {u} (Move.sent r e {o = o} t h) c =
    let s = record (u.server) { send_error = e } in
    join-Counted (record u { server = s }) o c t (Ends-some (Keeps s) _ (run_next-Keeps s r) h)
Move-Counted (Move.send_failed e) c = c
Move-Counted {u} (Move.closes owned h) c =
    Ends-some (Same u.server) (close u.server) (close-Same u.server) h ∙ c
Move-Counted {u} (Move.deletes owned h) c =
    let given : Ends (λ t. suc t.ref_count ≡ u.server.ref_count) (close u.server >>= drop_ref) =
      Ends-then (Same u.server) (λ t. suc t.ref_count ≡ u.server.ref_count) (close u.server)
        drop_ref (close-Same u.server) λ s e. rw (← e) (drop_ref-suc s) in
    let k = Ends-some (λ t. suc t.ref_count ≡ u.server.ref_count) _ given h in
    let one : owner u ≡ 1 = rw owned refl in omega (arith, k, c, one)

-- In every state that a context reaches from its start, `refCount` is the number of requests that are
-- not freed, plus one while the context is not deleted.
pub Reach-Counted :
    (funcmap : Option (List ℕ → Option ℕ)) (has_on_closed : Bool) {u : State}
    → Reach (record { server = start funcmap has_on_closed; pending = []; owned = true }) u
    → Counted u
unfolding start arm
Reach-Counted f b here = refl
Reach-Counted f b (next r m) = Move-Counted m (Reach-Counted f b r)

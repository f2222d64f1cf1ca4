-- ===== src/Pipe/Fifo.antt =====
-- What c/pxprpc_pipe/pxprpc_pipe.c delivers while no side is closed, however the callbacks call back.
use mathlib.Core.List.{flatten}
use pxp_rpc.Pipe.{run_wake, run_drain, run_drop}
use mathlib.Core.Path.{subst}
use pxp_rpc.Base.{
  none-some, same_some, List-cases, List-cases, Ends, Ends-some, Ends-then, ℕ, ◌≡◌, refl, sym, ap,
  ◌∙◌, true, false, List, [], ◌∷◌, ◌++◌, Option, none, some, if◌then◌else◌, arith, Bool-cases,
  Option-cases, inl, inr,
}
use pxp_rpc.Pipe.{
  Side, other, Send, Conn, half, set_half, Frame, Machine, transfer_buffer, is_closed, send,
  receive, close, run_transfer, run_frame, run_top, count_completed, Call, run_call, new_conn, Move,
  Reach, here, next, connected,
}
use pxp_rpc.Pipe.Flows.{
  Flows-completed, Flows-same, Flows-taken, IsOpen, queued, receive-IsOpen, send-IsOpen, waiting,
  waiting-user,
}

-- The connection is not closed by a frame.
abbrev Kept : Conn → Option Conn → Type 0
Kept c none = Unit
Kept c (some d) = is_closed d ≡ is_closed c

run_frame-Kept : (f : Frame) (c : Conn) → Ends (λ r. Kept c r.0) (run_frame f c)
unfolding run_frame run_transfer run_wake run_drain run_drop
run_frame-Kept (Frame.user f) c = refl
run_frame-Kept (Frame.transfer Side.client) c = ground arith
run_frame-Kept (Frame.transfer Side.server) c = ground arith
run_frame-Kept (Frame.wake Side.client) c = ground arith
run_frame-Kept (Frame.wake Side.server) c = ground arith
run_frame-Kept (Frame.drain Side.client) c = ground arith
run_frame-Kept (Frame.drain Side.server) c = ground arith
run_frame-Kept (Frame.complete Side.client r) c = refl
run_frame-Kept (Frame.complete Side.server r) c = refl
run_frame-Kept (Frame.drop Side.client r) c = ground arith
run_frame-Kept (Frame.drop Side.server r) c = ground arith
run_frame-Kept Frame.release c = ground arith

transfer_buffer_lem :
    (parts : List (List ℕ)) → Ends (λ bs. bs ≡ flatten parts) (transfer_buffer parts)
unfolding transfer_buffer
transfer_buffer_lem parts = ground arith

-- The frame goes, and nothing else changes.
IsOpen-skip :
    (side : Side) (c : Conn) (fs : List Frame) → IsOpen c (Frame.transfer side ∷ fs) → IsOpen c fs
unfolding waiting
IsOpen-skip Side.client c fs v = record {
  to_server = v.to_server;
  to_client = v.to_client;
  frames = v.frames.1;
}
IsOpen-skip Side.server c fs v = record {
  to_server = v.to_server;
  to_client = v.to_client;
  frames = v.frames.1;
}

abbrev Opens : List Frame → Conn × List Frame → Type 0
Opens fs r = IsOpen r.0 (r.1 ++ fs)

taken-IsOpen :
    (side : Side) (c : Conn) (fs : List Frame) (f : ℕ) (r : Send) (rs : List Send) (bs : List ℕ)
    → (half (other side) c).sends ≡ r ∷ rs
    → bs ≡ flatten r.parts
    → IsOpen c fs
    → (let d = set_half (other side) c (record (half (other side) c) { sends = rs }) in
        Opens fs (
          set_half side d (record (half side d) {
            recv = none;
            received = (half side d).received ++ (bs ∷ []);
          }),
          Frame.user f ∷ Frame.complete (other side) r ∷ [],
        ))
unfolding waiting
taken-IsOpen Side.client c fs f r rs bs e same v = rw same (record {
  to_server = Flows-same _ _ _ refl refl refl refl refl v.to_server;
  to_client = Flows-taken c.server_half c.client_half _ r rs e v.to_client;
  frames = (tt, (tt, v.frames));
})
taken-IsOpen Side.server c fs f r rs bs e same v = rw same (record {
  to_server = Flows-taken c.client_half c.server_half _ r rs e v.to_server;
  to_client = Flows-same _ _ _ refl refl refl refl refl v.to_client;
  frames = (tt, (tt, v.frames));
})

run_transfer-IsOpen :
    (side : Side) (c : Conn) (fs : List Frame) → IsOpen c fs → Ends (Opens fs) (run_transfer side c)
unfolding run_transfer
run_transfer-IsOpen side c fs v = elim (Option-cases (half side c).recv) [
  | inl n ↦ rw (n, run_transfer) v
  | inr (f, n) ↦ elim (List-cases (half (other side) c).sends) [
    | inl e ↦ rw (n, e, run_transfer) v
    | inr (r, rs, e) ↦
        rw (n, e, run_transfer)
          (Ends-then (λ bs. bs ≡ flatten r.parts) (Opens fs) (transfer_buffer r.parts) _
            (transfer_buffer_lem r.parts) λ bs h. taken-IsOpen side c fs f r rs bs e h v)
  ]
]

complete-IsOpen :
    (side : Side) (r : Send) (c : Conn) (fs : List Frame)
    → IsOpen c (Frame.complete side r ∷ fs)
    → IsOpen (count_completed side c) (Frame.user r.on_completed ∷ fs)
unfolding waiting
complete-IsOpen Side.client r c fs v = record {
  to_server = Flows-completed c.client_half c.server_half _ v.to_server;
  to_client = Flows-same _ _ _ refl refl refl refl refl v.to_client;
  frames = (tt, v.frames.1);
}
complete-IsOpen Side.server r c fs v = record {
  to_server = Flows-same _ _ _ refl refl refl refl refl v.to_server;
  to_client = Flows-completed c.server_half c.client_half _ v.to_client;
  frames = (tt, v.frames.1);
}

user-IsOpen : (f : ℕ) (c : Conn) (fs : List Frame) → IsOpen c (Frame.user f ∷ fs) → IsOpen c fs
user-IsOpen f c fs v = record {
  to_server =
      Flows-same _ _ _ refl refl refl refl (sym (waiting-user Side.client f fs)) v.to_server;
  to_client =
      Flows-same _ _ _ refl refl refl refl (sym (waiting-user Side.server f fs)) v.to_client;
  frames = v.frames.1;
}

-- What holds after a frame, if the connection is there and open.
abbrev After : List Frame → Option Conn × List Frame → Type 0
After fs (none, gs) = Unit
After fs (some c, gs) = is_closed c ≡ false → IsOpen c (gs ++ fs)

run_frame-IsOpen :
    (f : Frame) (c : Conn) (fs : List Frame)
    → is_closed c ≡ false
    → IsOpen c (f ∷ fs)
    → Ends (After fs) (run_frame f c)
unfolding run_frame
run_frame-IsOpen (Frame.user f) c fs e v = λ _. user-IsOpen f c fs v
run_frame-IsOpen (Frame.transfer side) c fs e v =
    Ends-then (Opens fs) (After fs) (run_transfer side c) _
      (run_transfer-IsOpen side c fs (IsOpen-skip side c fs v)) λ r h. λ _. h
run_frame-IsOpen (Frame.complete side r) c fs e v = λ _. complete-IsOpen side r c fs v
run_frame-IsOpen (Frame.wake side) c fs e v = absurd v.frames.0
run_frame-IsOpen (Frame.drain side) c fs e v = absurd v.frames.0
run_frame-IsOpen (Frame.drop side r) c fs e v = absurd v.frames.0
run_frame-IsOpen Frame.release c fs e v = absurd v.frames.0

-- While the connection is there and open, it flows.
abbrev Holds : Machine → Type 0
Holds m = (c : Conn) → m.conn ≡ some c → is_closed c ≡ false → IsOpen c m.stack

true-false : true ≡ false → ⊥
true-false e = subst (λ b. if b then Unit {0} else ⊥) e tt

-- A closed connection stays closed.
closed-Holds :
    (c : Conn) (fs : List Frame) (r : Option Conn × List Frame)
    → is_closed c ≡ true
    → Kept c r.0
    → Holds (record { conn = r.0; stack = r.1 ++ fs })
closed-Holds c fs (none, gs) e k = λ d h o. absurd (none-some h)
closed-Holds c fs (some x, gs) e k = λ d h o.
    let same : x ≡ d = same_some refl h in
    absurd (true-false (sym e ∙ sym k ∙ ap is_closed same ∙ o))

open-Holds :
    (fs : List Frame) (r : Option Conn × List Frame)
    → After fs r
    → Holds (record { conn = r.0; stack = r.1 ++ fs })
open-Holds fs (none, gs) a = λ d h o. absurd (none-some h)
open-Holds fs (some x, gs) a = λ d h o.
    let same : x ≡ d = same_some refl h in
    subst (λ y. IsOpen y (gs ++ fs)) same (a (ap is_closed same ∙ o))

run_top-Holds :
    (conn : Option Conn) (stack : List Frame)
    → Holds (record { conn = conn; stack = stack })
    → Ends Holds (run_top (record { conn = conn; stack = stack }))
unfolding run_top
run_top-Holds conn [] h = h
run_top-Holds none (Frame.user f ∷ fs) h = λ d e o. absurd (none-some e)
run_top-Holds none (Frame.complete side r ∷ fs) h = λ d e o. absurd (none-some e)
run_top-Holds none (Frame.transfer side ∷ fs) h = tt
run_top-Holds none (Frame.wake side ∷ fs) h = tt
run_top-Holds none (Frame.drain side ∷ fs) h = tt
run_top-Holds none (Frame.drop side r ∷ fs) h = tt
run_top-Holds none (Frame.release ∷ fs) h = tt
run_top-Holds (some c) (f ∷ fs) h = elim (Bool-cases (is_closed c)) [
  | inl e ↦
      Ends-then (λ r. Kept c r.0) Holds (run_frame f c) _ (run_frame-Kept f c)
        λ r k. closed-Holds c fs r e k
  | inr e ↦
      Ends-then (After fs) Holds (run_frame f c) _ (run_frame-IsOpen f c fs e (h c refl e))
        λ r a. open-Holds fs r a
]

send-Kept : (side : Side) (r : Send) (c : Conn) → is_closed (send side r c).0 ≡ is_closed c
unfolding send
send-Kept Side.client r c = ground arith
send-Kept Side.server r c = ground arith

receive-Kept : (side : Side) (f : ℕ) (c : Conn) → is_closed (receive side f c).0 ≡ is_closed c
unfolding receive
receive-Kept Side.client f c = ground arith
receive-Kept Side.server f c = ground arith

close_closed : (side : Side) (c : Conn) → is_closed (close side c).0 ≡ true
unfolding close
close_closed Side.client c = refl
close_closed Side.server c = ground arith

run_call-Holds :
    (side : Side) (call : Call) (c : Conn) (fs : List Frame)
    → (is_closed c ≡ false → IsOpen c fs)
    → Holds
        (record { conn = some (run_call side call c).0; stack = (run_call side call c).1 ++ fs })
unfolding run_call
run_call-Holds side (Call.sends r) c fs h = elim (Bool-cases (is_closed c)) [
  | inl e ↦ closed-Holds c fs (some (send side r c).0, (send side r c).1) e (send-Kept side r c)
  | inr e ↦
      open-Holds fs (some (send side r c).0, (send side r c).1)
        (λ _. send-IsOpen side r c fs e (h e))
]
run_call-Holds side (Call.receives f) c fs h = elim (Bool-cases (is_closed c)) [
  | inl e ↦
      closed-Holds c fs (some (receive side f c).0, (receive side f c).1) e (receive-Kept side f c)
  | inr e ↦
      open-Holds fs (some (receive side f c).0, (receive side f c).1)
        (λ _. receive-IsOpen side f c fs e (h e))
]
run_call-Holds side Call.closes c fs h =
    closed-Holds (close side c).0 fs (some (close side c).0, (close side c).1) (close_closed side c)
      refl

Move-Holds : {m n : Machine} → Move m n → Holds m → Holds n
Move-Holds {m} (Move.called {c} side call user e) h = run_call-Holds side call c m.stack (h c e)
Move-Holds {m} (Move.ran {n} e) h = Ends-some Holds (run_top m) (run_top-Holds m.conn m.stack h) e

connected-IsOpen : IsOpen new_conn []
unfolding new_conn queued waiting
connected-IsOpen = record {
  to_server = record { ordered = refl; counted = refl };
  to_client = record { ordered = refl; counted = refl };
  frames = tt;
}

Reach-Holds : {m : Machine} → Reach connected m → Holds m
Reach-Holds here = λ c e o. subst (λ x. IsOpen x []) (same_some refl e) connected-IsOpen
Reach-Holds (next r m) = Move-Holds m (Reach-Holds r)

-- In every state that a new connection reaches, whatever the callbacks call, while no side is closed:
-- the messages that a side was given to send are, in order, those that the other side has received and
-- then those that wait; and they are as many as the callbacks of sends that ran, those that are about
-- to run and the sends that wait.
pub Reach-IsOpen :
    {m : Machine} {c : Conn}
    → Reach connected m
    → m.conn ≡ some c
    → is_closed c ≡ false
    → IsOpen c m.stack
Reach-IsOpen {c = c} r e o = Reach-Holds r c e o

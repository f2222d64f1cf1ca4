-- ===== src/Bridge/Blocking/Errors.antt =====
-- The errors that blocked callers get (runtime_bridge/src/pxprpc_rtbridge.c).
use mathlib.Core.Path.{subst}
use pxp_rpc.Base.{ℕ, ◌≡◌, refl, ap, List, [], ◌∷◌, ◌++◌, Option, none, All}
use pxp_rpc.Bridge.Blocking.{
  Kind, Caller, Outcome, IoAnswer, Rtb, callback_error, io_callback, io_handle, link_io,
  take_requests, run_next, io_answers, wake, leave_loop, close_loop, Move, asking, taking, running,
  answering, waking, leaving, closing,
}

abbrev pub Logged : IoAnswer → List IoAnswer → Type 0
Logged a log = (xs : List IoAnswer) × (ys : List IoAnswer) × (log ≡ xs ++ (a ∷ ys))

-- A receive gets the `receive_error` of a callback for its caller and a send the `send_error` of one;
-- the others get no error.
abbrev pub IsRight : List IoAnswer → Outcome → Type 0
IsRight log ((i, Kind.receive), e) = (se : Option ℕ) × Logged ((i, Kind.receive), (e, se)) log
IsRight log ((i, Kind.send), e) = (re : Option ℕ) × Logged ((i, Kind.send), (re, e)) log
IsRight log ((i, Kind.connect), e) = e ≡ none
IsRight log ((i, Kind.close), e) = e ≡ none
IsRight log ((i, Kind.stop_loop), e) = e ≡ none

cons-IsRight :
    (a : IoAnswer) (log : List IoAnswer) (o : Outcome) → IsRight log o → IsRight (a ∷ log) o
cons-IsRight a log ((i, Kind.receive), e) (se, (xs, ys, h)) = (se, (a ∷ xs, ys, ap (◌∷◌ a) h))
cons-IsRight a log ((i, Kind.send), e) (re, (xs, ys, h)) = (re, (a ∷ xs, ys, ap (◌∷◌ a) h))
cons-IsRight a log ((i, Kind.connect), e) h = h
cons-IsRight a log ((i, Kind.close), e) h = h
cons-IsRight a log ((i, Kind.stop_loop), e) h = h

All-cons-IsRight :
    (a : IoAnswer) (log : List IoAnswer) (os : List Outcome)
    → All (IsRight log) os
    → All (IsRight (a ∷ log)) os
All-cons-IsRight a log [] h = tt
All-cons-IsRight a log (o ∷ os) (h, hs) = (cons-IsRight a log o h, All-cons-IsRight a log os hs)

All-apart :
    (P : Outcome → Type 0) (o : Outcome) (before after : List Outcome)
    → All P (before ++ (o ∷ after))
    → P o × All P (before ++ after)
All-apart P o [] after h = h
All-apart P o (x ∷ before) after (h, hs) =
    let (found, left) = All-apart P o before after hs in (found, (h, left))

callback_error-IsRight :
    (c : Caller) (re se : Option ℕ) (log : List IoAnswer)
    → IsRight ((c, (re, se)) ∷ log) (c, callback_error c.1 re se)
unfolding callback_error
callback_error-IsRight (i, Kind.receive) re se log = (se, ([], log, refl))
callback_error-IsRight (i, Kind.send) re se log = (re, ([], log, refl))
callback_error-IsRight (i, Kind.connect) re se log = refl
callback_error-IsRight (i, Kind.close) re se log = refl
callback_error-IsRight (i, Kind.stop_loop) re se log = refl

-- All that callers get.
abbrev pub AllRight : Rtb → Type 0
AllRight b = All (IsRight b.answered) b.posted × All (IsRight b.answered) b.returned

io_handle-AllRight : (b : Rtb) (c : Caller) → AllRight b → AllRight (io_handle b c)
unfolding io_handle io_callback callback_error
io_handle-AllRight b (j, Kind.receive) h = h
io_handle-AllRight b (j, Kind.send) h = h
io_handle-AllRight b (j, Kind.connect) (p, r) = ((refl, p), r)
io_handle-AllRight b (j, Kind.close) (p, r) = ((refl, p), r)
io_handle-AllRight b (j, Kind.stop_loop) (p, r) = ((refl, p), r)

pub Move-AllRight : {b d : Rtb} → AllRight b → Move b d → AllRight d
unfolding link_io take_requests run_next io_answers io_callback wake leave_loop close_loop
Move-AllRight h (asking c x) = h
Move-AllRight h (taking r s fresh) = h
Move-AllRight {b} h (running c rest e) = io_handle-AllRight (record b { batch = rest }) c h
Move-AllRight {b} (p, r) (answering c before after re se e) =
    let a : IoAnswer = (c, (re, se)) in
    (
      (callback_error-IsRight c re se b.answered, All-cons-IsRight a b.answered b.posted p),
      All-cons-IsRight a b.answered b.returned r,
    )
Move-AllRight {b} (p, r) (waking o before after e) =
    let (got, left) =
      All-apart (IsRight b.answered) o before after (subst (All (IsRight b.answered)) e p) in
    (left, (got, r))
Move-AllRight h (leaving r s empty) = h
Move-AllRight h (closing r) = h

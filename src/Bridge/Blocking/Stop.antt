-- ===== src/Bridge/Blocking/Stop.antt =====
-- What becomes of blocked callers, while the loop runs and when it is stopped
-- (runtime_bridge/src/pxprpc_rtbridge.c).
use pxp_rpc.Base.{ℕ, ◌≡◌, refl, ap, ◌∙◌, true, List, ◌∷◌, ◌++◌, Option, none, arith}
use pxp_rpc.Bridge.Blocking.{
  asking, leaving, closing, still, moved, waking, answering, running, taking, link_io, Kind, Caller,
  Rtb, io_callback, io_handle, run_next, io_answers, wake, leave_loop, close_loop, Move, Run,
}

-- What the caller of each kind of call gets from an io with these errors.
pub data Gets (receive_error send_error : Option ℕ) : Kind → Option ℕ → Type 0 where
  receive_gets : Gets receive_error send_error Kind.receive receive_error
  send_gets : Gets receive_error send_error Kind.send send_error
  connect_gets : Gets receive_error send_error Kind.connect none
  close_gets : Gets receive_error send_error Kind.close none
  stop_gets : Gets receive_error send_error Kind.stop_loop none

-- A caller that is in the queue when the loop is stopped.
abbrev pub Stranded : Caller → Rtb → Type 0
Stranded c b =
    (b.stopped ≡ true) × (xs : List Caller) × (ys : List Caller) × (b.queue ≡ xs ++ (c ∷ ys))

io_handle_lem :
    (b : Rtb) (c : Caller)
    → ((io_handle b c).queue ≡ b.queue) × (b.stopped ≡ true → (io_handle b c).stopped ≡ true)
unfolding io_handle io_callback
io_handle_lem b (i, Kind.receive) = (refl, λ h. h)
io_handle_lem b (i, Kind.send) = (refl, λ h. h)
io_handle_lem b (i, Kind.connect) = (refl, λ h. h)
io_handle_lem b (i, Kind.close) = (refl, λ h. h)
io_handle_lem b (i, Kind.stop_loop) = (refl, λ h. refl)

Move-Stranded : (c : Caller) {b d : Rtb} → Stranded c b → Move b d → Stranded c d
unfolding link_io run_next io_answers io_callback wake leave_loop close_loop
Move-Stranded c (st, xs, ys, e) (asking c' there) = (st, c' ∷ xs, ys, ap (◌∷◌ c') e)
Move-Stranded c (st, xs, ys, e) (taking r fresh empty) = absurd (ground arith)
Move-Stranded c {b} (st, xs, ys, e) (running c' rest h) =
    let (q, s) = io_handle_lem (record b { batch = rest }) c' in (s st, xs, ys, q ∙ e)
Move-Stranded c (st, xs, ys, e) (answering c' before after re se h) = (st, xs, ys, e)
Move-Stranded c (st, xs, ys, e) (waking o before after h) = (st, xs, ys, e)
Move-Stranded c (st, xs, ys, e) (leaving r s empty) = (st, xs, ys, e)
Move-Stranded c (st, xs, ys, e) (closing r) = (st, xs, ys, e)

-- A caller whose request is in the queue when the loop is stopped stays there, whatever callers, ios
-- and the loop do, until the loop is started again.
pub Run-Stranded : (c : Caller) {b d : Rtb} → Stranded c b → Run b d → Stranded c d
Run-Stranded c h still = h
Run-Stranded c h (moved r m) = Move-Stranded c (Run-Stranded c h r) m

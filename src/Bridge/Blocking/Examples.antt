-- ===== src/Bridge/Blocking/Examples.antt =====
-- Blocked callers at work, and the theorems on them.
use pxp_rpc.Base.{◌≡◌, refl, true, [], ◌∷◌, none}
use pxp_rpc.Bridge.Blocking.{Kind, Rtb, new_rtb, dispatch, start_loop, init_uv, Run, waking, wake}
use pxp_rpc.Bridge.Blocking.Stop.{Stranded, Run-Stranded}

abbrev serving : Rtb
serving = record new_rtb { rtbloop = true; executor = true; run_state = 2 }

serving_lem : start_loop new_rtb ≡ serving
unfolding start_loop init_uv
serving_lem = refl

-- Without a loop a call is lost in a NULL executor.
dispatch_unstarted : dispatch new_rtb (1, Kind.close) ≡ none
unfolding dispatch
dispatch_unstarted = refl

-- The loop was stopped by 1 while 2 was in the queue; 1 goes on.
abbrev stopping : Rtb
stopping = record serving {
  stopped = true;
  queue = (2, Kind.send) ∷ [];
  posted = ((1, Kind.stop_loop), none) ∷ [];
}

Run-Stranded_example : Stranded (2, Kind.send) (wake stopping ((1, Kind.stop_loop), none) [] [])
Run-Stranded_example =
    Run-Stranded (2, Kind.send) (refl, [], [], refl)
      (Run.moved Run.still (waking ((1, Kind.stop_loop), none) [] [] refl))

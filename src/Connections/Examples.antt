-- ===== src/Connections/Examples.antt =====
-- Two connections of a server, and runs of events.
use pxp_rpc.Base.{ℕ, ◌≡◌, refl, true, false, List, [], ◌∷◌, Option, none, some, arith, ◌>>=◌, Takes}
use pxp_rpc.Connections.{
  on_connection, build_conn, set_prev, close_io, on_closed, free_conn, set_next, forget_head, World,
  Event, Store, put, step,
}
use pxp_rpc.Connections.Views.{View, Represents, view_step}
use pxp_rpc.Connections.Refine.{step-view_step}

abbrev new_world : World
new_world = record {
  listener = some (record { funcmap = 3; accepted_conn = none });
  conns = λ a. none;
  calls = [];
}

abbrev events : List Event → World → Option World
events [] w = some w
events (e ∷ es) w = step 2 w e >>= λ u. events es u

head_after : List Event → Option (Option ℕ)
head_after es = events es new_world >>= λ w. w.listener >>= λ l. some l.accepted_conn

-- The older connection goes, and the newer one stays at the head.
head_after_older :
    head_after
      (Event.connection 5 true ∷ Event.connection 7 true ∷ Event.closing 5 ∷ Event.closed 5 ∷ [])
    ≡ some (some 7)
unfolding head_after step on_connection build_conn set_prev put close_io on_closed free_conn
    set_next forget_head
head_after_older = refl

-- The end of a connection that `uv_accept` refused is not survived.
refused_lost : head_after (Event.connection 5 false ∷ Event.closing 5 ∷ Event.closed 5 ∷ []) ≡ none
unfolding head_after step on_connection build_conn set_prev put close_io on_closed free_conn
    set_next forget_head
refused_lost = refl

abbrev two_conns : Store
two_conns =
    put
      (put (λ a. none) 5
        (some (record {
          serv = true;
          prev = some 7;
          next = none;
          stream_closed = true;
          has_data = true;
        })))
      7
      (some (record {
        serv = true;
        prev = none;
        next = some 5;
        stream_closed = false;
        has_data = true;
      }))

abbrev two_world : World
two_world = record {
  listener = some (record { funcmap = 3; accepted_conn = some 7 });
  conns = two_conns;
  calls = [];
}

abbrev two_view : View
two_view = record {
  served = true;
  entries =
      record { addr = 7; closing = false; accepted = true }
      ∷ record { addr = 5; closing = true; accepted = true }
      ∷ [];
}

two_Represents : Represents two_world two_view
unfolding put
two_Represents = record {
  listens = (record { funcmap = 3; accepted_conn = some 7 }, refl, refl);
  linked = (refl, (refl, tt));
  distinct = ((ground arith, tt), (tt, tt));
  no_more = λ z out. ground arith;
}

step-view_step_example :
    (u : World) × (step 2 two_world (Event.closed 5) ≡ some u)
    × Represents u (view_step two_view (Event.closed 5))
step-view_step_example =
    step-view_step 2 two_world two_view (Event.closed 5) (omega arith) two_Represents (
      record { addr = 5; closing = true; accepted = true },
      record { addr = 7; closing = false; accepted = true } ∷ [],
      Takes.there Takes.here,
      refl,
      refl,
    )

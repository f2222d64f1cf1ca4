-- ===== src/Pipe/Faults.antt =====
-- A close of c/pxprpc_pipe/pxprpc_pipe.c whose callback closes the other side.
use pxp_rpc.Base.{ℕ, zero, suc, ◌≡◌, refl, List, [], ◌∷◌, ◌++◌, Option, none, some, ◌>>=◌}
use pxp_rpc.Pipe.{
  Side, Conn, Frame, Machine, Call, run_call, closed_error, close, run_top, run_frame, run_wake,
  run_drain,
}

-- A connection on which the server waits for a message with the callback `f`, and nothing else is
-- going on.
abbrev pub listening : Conn → ℕ → Conn
listening c f = record {
  client_half = record (c.client_half) { recv = none; sends = [] };
  server_half = record (c.server_half) { recv = some f; sends = [] };
}

-- The user closes a side.
abbrev pub user_closes : Side → Machine → Option Machine
user_closes side m = m.conn >>= λ c. some (record {
  conn = some (run_call side Call.closes c).0;
  stack = (run_call side Call.closes c).1 ++ m.stack;
})

-- The top of the stack runs `n` times.
abbrev pub run_tops : ℕ → Machine → Option Machine
run_tops zero m = some m
run_tops (suc n) m = run_top m >>= run_tops n

-- What is left of a close after the callback of the server's receive; its last part frees the
-- connection.
abbrev pub rest_of_close : List Frame
rest_of_close =
    Frame.wake Side.client ∷ Frame.drain Side.server ∷ Frame.drain Side.client ∷ Frame.release ∷ []

-- A close within the callback `f` of a close, on the connection `c`.
pub record UseAfterFree (c : Conn) (f : ℕ) : Type 0 where
  pub called_back : Conn
  pub closed_twice : Conn
  pub inside : Machine
  pub outer_close :
      (user_closes Side.client (record { conn = some c; stack = [] }) >>= run_top)
      ≡ some (record { conn = some called_back; stack = Frame.user f ∷ rest_of_close })
  pub sees_error : called_back.server_half.receive_error ≡ some closed_error
  pub inner_close :
      user_closes Side.server
        (record { conn = some called_back; stack = Frame.user f ∷ rest_of_close })
      ≡ some inside
  pub up_to_free :
      run_tops 4 inside
      ≡ some (record {
        conn = some closed_twice;
        stack = Frame.release ∷ Frame.user f ∷ rest_of_close;
      })
  pub inner_free :
      run_top
        (record { conn = some closed_twice; stack = Frame.release ∷ Frame.user f ∷ rest_of_close })
      ≡ some (record { conn = none; stack = Frame.user f ∷ rest_of_close })
  pub returns :
      run_top (record { conn = none; stack = Frame.user f ∷ rest_of_close })
      ≡ some (record { conn = none; stack = rest_of_close })
  pub outer_use : run_top (record { conn = none; stack = rest_of_close }) ≡ none

-- When the client closes a connection on which the server waits for a message, the close runs the
-- callback of the server; when that closes its side, the inner close runs to its end and frees the
-- connection, the callback returns, and the rest of the outer close uses the freed connection.
pub nested_close : (c : Conn) (f : ℕ) → UseAfterFree (listening c f) f
unfolding run_call close run_top run_frame run_wake run_drain
nested_close c f =
    let c1 = (close Side.client (listening c f)).0 in
    let c2 : Conn = record c1 { server_half = record (c1.server_half) { recv = none } } in
    let c3 = (close Side.server c2).0 in
    record {
      called_back = c2;
      closed_twice = c3;
      inside = record {
        conn = some c3;
        stack = Frame.wake Side.server ∷ (rest_of_close ++ (Frame.user f ∷ rest_of_close));
      };
      outer_close = refl;
      sees_error = refl;
      inner_close = refl;
      up_to_free = refl;
      inner_free = refl;
      returns = refl;
      outer_use = refl;
    }

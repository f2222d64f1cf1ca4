-- ===== src/Bridge/Accept.antt =====
-- class PxpPipeServer of runtime_bridge/c-modules/pxprpc_rtbridge_base/init.hpp: connections that come
-- and calls that accept one, whichever is first.
use mathlib.Core.Path.{subst}
use pxp_rpc.Base.{
  ℕ, ◌≡◌, refl, sym, ap, ◌∙◌, Bool, true, false, List, [], ◌∷◌, ◌++◌, Option, none, some, ◌>>=◌,
  if◌then◌else◌, append-nil, append_assoc, length, none-some, same_some, inl, inr, ◌⊎◌, arith,
}

-- `new_conn` is the return that the callback answers; `waiting` guards it. An answer is the io of the
-- new `PxpConnection`, or none for "Accept aborted". `answers` has them in order.
pub record PipeServer : Type 0 where
  pub new_conn : Option ℕ
  pub connected : List ℕ
  pub waiting : Bool
  pub answers : List (ℕ × Option ℕ)

abbrev pub new_pipe_server : PipeServer
new_pipe_server = record { new_conn = none; connected = []; waiting = false; answers = [] }

-- The call of `newConn`: an empty `std::function` throws.
unfoldable pub call_new_conn : PipeServer → Option ℕ → Option PipeServer
call_new_conn s io =
    s.new_conn >>= λ ret. some (record s { answers = s.answers ++ ((ret, io) ∷ []) })

-- `onConnect`
unfoldable pub on_connect : PipeServer → ℕ → Option PipeServer
on_connect s io =
    if s.waiting
    then call_new_conn (record s { waiting = false }) (some io)
    else some (record s { connected = s.connected ++ (io ∷ []) })

-- `accept`, with the callback of `pxprpc_pipe_pp.accept`.
unfoldable pub accept : PipeServer → ℕ → PipeServer
accept s ret = elim s.connected [
  | [] ↦ record s { new_conn = some ret; waiting = true }
  | io ∷ ios ↦ record s { connected = ios; answers = s.answers ++ ((ret, some io) ∷ []) }
]

-- The destructor, after the name is served no more.
unfoldable pub destroy : PipeServer → Option PipeServer
destroy s = call_new_conn s none

-- The connections of a log of answers, and the returns.
abbrev pub ios : List (ℕ × Option ℕ) → List ℕ
ios [] = []
ios ((ret, some io) ∷ more) = io ∷ ios more
ios ((ret, none) ∷ more) = ios more

abbrev pub rets : List (ℕ × Option ℕ) → List ℕ
rets [] = []
rets (a ∷ more) = a.0 ∷ rets more

abbrev pub waiting_ret : PipeServer → List ℕ
waiting_ret s = if s.waiting then (elim s.new_conn [ none ↦ [] | some ret ↦ ret ∷ [] ]) else []

-- A server that connections have come to and accepts, none while another waits: the connections, and
-- the accepts, in order.
pub data Serving : PipeServer → List ℕ → List ℕ → Type 0 where
  begun : Serving new_pipe_server [] []
  came :
      {s t : PipeServer} {cs rs : List ℕ} (io : ℕ)
      → Serving s cs rs
      → on_connect s io ≡ some t
      → Serving t (cs ++ (io ∷ [])) rs
  asked :
      {s : PipeServer} {cs rs : List ℕ} (ret : ℕ)
      → Serving s cs rs
      → s.waiting ≡ false
      → Serving (accept s ret) cs (rs ++ (ret ∷ []))

-- No accept waits beside a connection, and one that waits has its callback.
pub record Matched (s : PipeServer) (cs rs : List ℕ) : Type 0 where
  pub in_order : ios s.answers ++ s.connected ≡ cs
  pub answered : rets s.answers ++ waiting_ret s ≡ rs
  pub no_stall : (s.waiting ≡ false) ⊎ (s.connected ≡ [])
  pub callback : s.waiting ≡ true → (ret : ℕ) × (s.new_conn ≡ some ret)

ios-append : (xs ys : List (ℕ × Option ℕ)) → ios (xs ++ ys) ≡ ios xs ++ ios ys
ios-append [] ys = refl
ios-append ((r, some io) ∷ xs) ys = ap (◌∷◌ io) (ios-append xs ys)
ios-append ((r, none) ∷ xs) ys = ios-append xs ys

rets-append : (xs ys : List (ℕ × Option ℕ)) → rets (xs ++ ys) ≡ rets xs ++ rets ys
rets-append [] ys = refl
rets-append (x ∷ xs) ys = ap (◌∷◌ x.0) (rets-append xs ys)

came_Matched :
    (waiting : Bool) (new_conn : Option ℕ) (connected : List ℕ) (answers : List (ℕ × Option ℕ))
    {cs rs : List ℕ} (io : ℕ)
    → Matched
        (record {
          waiting = waiting;
          new_conn = new_conn;
          connected = connected;
          answers = answers;
        })
        cs
        rs
    → (t : PipeServer) × (on_connect
          (record {
            waiting = waiting;
            new_conn = new_conn;
            connected = connected;
            answers = answers;
          })
          io
        ≡ some t)
      × Matched t (cs ++ (io ∷ [])) rs
unfolding on_connect call_new_conn
came_Matched false new_conn connected answers io m = (
  record {
    waiting = false;
    new_conn = new_conn;
    connected = connected ++ (io ∷ []);
    answers = answers;
  },
  refl,
  record {
    in_order =
        sym (append_assoc (ios answers) connected (io ∷ [])) ∙ ap (λ x. x ++ (io ∷ [])) m.in_order;
    answered = m.answered;
    no_stall = inl refl;
    callback = λ e. absurd (ground arith);
  },
)
came_Matched true none connected answers io m = absurd (none-some (m.callback refl).1)
came_Matched true (some ret) (c ∷ connected) answers io m =
    absurd (elim m.no_stall [ inl e ↦ ground arith | inr e ↦ omega (arith, ap length e) ])
came_Matched true (some ret) [] answers io m = (
  record {
    waiting = false;
    new_conn = some ret;
    connected = [];
    answers = answers ++ ((ret, some io) ∷ []);
  },
  refl,
  record {
    in_order =
        append-nil (ios (answers ++ ((ret, some io) ∷ [])))
        ∙ (ios-append answers ((ret, some io) ∷ [])
            ∙ ap (λ x. x ++ (io ∷ [])) (sym (append-nil (ios answers)) ∙ m.in_order));
    answered =
        append-nil (rets (answers ++ ((ret, some io) ∷ [])))
        ∙ (rets-append answers ((ret, some io) ∷ []) ∙ m.answered);
    no_stall = inl refl;
    callback = λ e. absurd (ground arith);
  },
)

asked_Matched :
    (waiting : Bool) (new_conn : Option ℕ) (connected : List ℕ) (answers : List (ℕ × Option ℕ))
    {cs rs : List ℕ} (ret : ℕ)
    → waiting ≡ false
    → Matched
        (record {
          waiting = waiting;
          new_conn = new_conn;
          connected = connected;
          answers = answers;
        })
        cs
        rs
    → Matched
        (accept
          (record {
            waiting = waiting;
            new_conn = new_conn;
            connected = connected;
            answers = answers;
          })
          ret)
        cs
        (rs ++ (ret ∷ []))
unfolding accept
asked_Matched true new_conn connected answers ret idle m = absurd (ground arith)
asked_Matched false new_conn [] answers ret idle m = record {
  in_order = m.in_order;
  answered = ap (λ x. x ++ (ret ∷ [])) (sym (append-nil (rets answers)) ∙ m.answered);
  no_stall = inr refl;
  callback = λ e. (ret, refl);
}
asked_Matched false new_conn (io ∷ connected) answers ret idle m = record {
  in_order =
      ap (λ x. x ++ connected) (ios-append answers ((ret, some io) ∷ []))
      ∙ (append_assoc (ios answers) (io ∷ []) connected ∙ m.in_order);
  answered =
      append-nil (rets (answers ++ ((ret, some io) ∷ [])))
      ∙ (rets-append answers ((ret, some io) ∷ [])
          ∙ ap (λ x. x ++ (ret ∷ [])) (sym (append-nil (rets answers)) ∙ m.answered));
  no_stall = inl refl;
  callback = λ e. absurd (ground arith);
}

-- While no accept is asked before the one that waits is answered: the connections that were given to
-- accepts, and behind them those that no accept has taken, are the connections that came, in order;
-- the accepts that were answered, and behind them the one that waits, are those that were asked, in
-- order; and no accept waits while there is a connection.
pub Serving-Matched : {s : PipeServer} {cs rs : List ℕ} → Serving s cs rs → Matched s cs rs
Serving-Matched begun = record {
  in_order = refl;
  answered = refl;
  no_stall = inl refl;
  callback = λ e. absurd (ground arith);
}
Serving-Matched (came {s} {t} {cs} {rs} io h e) =
    let (u, ran, m) =
      came_Matched s.waiting s.new_conn s.connected s.answers io (Serving-Matched h) in
    subst (λ x. Matched x (cs ++ (io ∷ [])) rs) (same_some ran e) m
Serving-Matched (asked {s} {cs} {rs} ret h idle) =
    asked_Matched s.waiting s.new_conn s.connected s.answers ret idle (Serving-Matched h)

-- ===== src/Server/Poll.antt =====
-- The poll request of c/pxprpc/server.c: the callable is called again after each response, until it
-- rejects.
use pxp_rpc.Base.{
  Bool, ◌&&◌, Bool-cases, ◌⊎◌, inl, inr, ◌∙◌, ap, sym, length-append, ℕ, suc, ◌+◌, ◌-◌, ◌%◌, ◌^◌,
  ◌<◌, ◌≡◌, refl, true, false, List, [], ◌∷◌, ◌++◌, Option, none, some, arith, length, ◌>>=◌, ◌==◌,
  if◌then◌else◌, All,
}
use pxp_rpc.Base.Bytes.{of_le-le_bytes, length-le_bytes, read, le_bytes}
use pxp_rpc.Server.{
  step_of_index, flatten, Step, Request, Effect, Server, Phase, Outcome, emit, prepare,
  flip_session, frame, write_result, call_object,
}
use pxp_rpc.Server.Loop.{
  run_step, run_next, run_poll1, run_poll2, run_poll3, recover_request, Reply, with_reply,
  on_packet,
}
use pxp_rpc.Server.Response.{
  Serves, Serves-emit, read-parameter, response, reply_farewell, after_finish, finish_lem,
  check_send-healthy, run_next-step, packet_of, request_of, taken, on_packet-packet_of,
}

-- One round: the callable finishes, and the send of its response ends.
unfoldable pub round : Server → Request → Reply → Option Outcome
round s r a = do
  o ← run_next s (with_reply r a)
  elim o.1 [ none ↦ some o | some (phase, r1) ↦ run_next o.0 r1 ]

unfoldable pub rounds : List Reply → Server → Request → Option Outcome
rounds [] s r = some (s, some (Phase.calling, r))
rounds (a ∷ replies) s r = do
  o ← round s r a
  elim o.1 [ none ↦ some o | some (phase, r1) ↦ rounds replies o.0 r1 ]

-- A poll request that waits for its callable; `base` is NULL when a callable has taken the parameter.
abbrev pub polling : Option ℕ → ℕ → ℕ → List ℕ → ℕ → Request
polling base session index packet len = record {
  session = session;
  callable_index = index;
  packet = packet;
  parameter_base = base;
  parameter_length = len;
  on_finish = none;
  result = [];
  more = [];
  rejected = false;
  next_step = some Step.step_poll2;
}

abbrev pub callback : Reply → List Effect
callback a = elim a.on_finish [ none ↦ [] | some f ↦ Effect.on_finish f ∷ [] ]

-- The context after a response and the next call of `object`.
abbrev pub after_round : ℕ → ℕ → Server → Reply → Server
after_round session object s a =
    emit (emit (emit s (Effect.send (response session a) ∷ [])) (callback a))
      (Effect.call object ∷ [])

abbrev pub after_rounds : ℕ → ℕ → Server → List Reply → Server
after_rounds session object s [] = s
after_rounds session object s (a ∷ replies) =
    after_rounds session object (after_round session object s a) replies

-- A reply that is no error.
abbrev pub GoesOn : Reply → Type 0
GoesOn a = a.rejected ≡ false

-- Where the parameter is after a reply, and after all of them.
abbrev left_by : Reply → Option ℕ → Option ℕ
left_by a base = if a.keep then base else none

abbrev left_by_all : List Reply → Option ℕ → Option ℕ
left_by_all [] base = base
left_by_all (a ∷ replies) base = left_by_all replies (left_by a base)

abbrev pub all_keep : List Reply → Bool
all_keep [] = true
all_keep (a ∷ replies) = a.keep && all_keep replies

left_by_all-none : (replies : List Reply) → left_by_all replies none ≡ none
left_by_all-none [] = refl
left_by_all-none (a ∷ replies) = elim (Bool-cases a.keep) [
  | inl e ↦ rw e (left_by_all-none replies)
  | inr e ↦ rw e (left_by_all-none replies)
]

left_by_all_lem :
    (replies : List Reply) (base : ℕ)
    → left_by_all replies (some base) ≡ (if all_keep replies then some base else none)
left_by_all_lem [] base = refl
left_by_all_lem (a ∷ replies) base = elim (Bool-cases a.keep) [
  | inl e ↦ rw e (left_by_all_lem replies base)
  | inr e ↦ rw e (left_by_all-none replies)
]

-- What a request comes to whose parameter may be NULL.
abbrev unless_taken : Option ℕ → Option Outcome → Option Outcome
unless_taken none o = none
unless_taken (some base) o = o

unless_taken_lem :
    (base : Option ℕ) {b : ℕ} (o : Option Outcome) → base ≡ some b → o ≡ unless_taken base o
unless_taken_lem base o e = rw e refl

unless_taken_if :
    (all : Bool) (b : ℕ) (o : Option Outcome)
    → unless_taken (if all then some b else none) o ≡ (if all then o else none)
unless_taken_if true b o = refl
unless_taken_if false b o = refl

module _ (session index object : ℕ) (packet : List ℕ) (len : ℕ) where
  -- A round whose reply is no error sends the response and calls again.
  round_goes_on :
      (s : Server) (a : Reply) (base : Option ℕ)
      → Serves s index object
      → a.rejected ≡ false
      → round s (polling base session index packet len) a
        ≡ some (
          after_round session object s a,
          some (Phase.calling, polling (left_by a base) session index packet len),
        )
  unfolding round run_step run_poll2 run_poll3 write_result frame prepare call_object
  round_goes_on s a base v fine =
      let r : Request = polling base session index packet len in
      let s1 = emit s (Effect.send (response session a) ∷ []) in
      let r1 : Request = record (with_reply r a) {
        session = session;
        next_step = some Step.step_poll3;
      } in
      let sends : run_next s (with_reply r a) ≡ some (s1, some (Phase.sending, r1)) =
        rw (run_next-step s (with_reply r a) Step.step_poll2 refl, v.opened, fine) refl in
      let again : run_next s1 r1
          ≡ some (
            after_round session object s a,
            some (Phase.calling, polling (left_by a base) session index packet len),
          ) =
        rw
          (
            run_next-step s1 r1 Step.step_poll3 refl,
            check_send-healthy s1 v.healthy,
            fine,
            v.opened,
            v.found,
            v.callable,
          )
          refl in
      rw (sends, round) again

  -- The round whose reply is an error ends the request, if no callable has taken the parameter.
  round_ends :
      (s : Server) (a : Reply) (n : ℕ)
      → s.closed ≡ false
      → s.send_error ≡ none
      → s.ref_count ≡ suc n
      → a.rejected ≡ true
      → a.keep ≡ true
      → round s (polling (some 12) session index packet len) a
        ≡ some (
          after_finish (emit s (Effect.send (response session a) ∷ [])) n (reply_farewell a),
          none,
        )
  unfolding round run_step run_poll2 run_poll3 write_result frame recover_request
  round_ends s a n opened healthy c bad keep =
      let r : Request = polling (some 12) session index packet len in
      let s1 = emit s (Effect.send (response session a) ∷ []) in
      let r1 : Request = record (with_reply r a) {
        session = flip_session session;
        next_step = some Step.step_poll3;
      } in
      let sends : run_next s (with_reply r a) ≡ some (s1, some (Phase.sending, r1)) =
        rw (run_next-step s (with_reply r a) Step.step_poll2 refl, opened, bad, keep) refl in
      let again : run_next s1 r1 ≡ some (after_finish s1 n (reply_farewell a), none) =
        rw (run_next-step s1 r1 Step.step_poll3 refl, check_send-healthy s1 healthy, bad, keep)
          (finish_lem
            (emit s (
              Effect.send (
                le_bytes 4 (flip_session session)
                ++ (if length a.result == 0 then [] else a.result ++ flatten a.more))
              ∷ []))
            (record r1 {
              callable_index = 2 ^ 32 - 5;
              parameter_base = some 8;
              parameter_length = (len + 4) % 2 ^ 32;
              rejected = true;
            })
            n healthy c) in
      rw (sends, round) again

  -- If one has, the parameter has no start to move back to.
  round_faults :
      (s : Server) (a : Reply) (base : Option ℕ)
      → s.closed ≡ false
      → s.send_error ≡ none
      → a.rejected ≡ true
      → left_by a base ≡ none
      → round s (polling base session index packet len) a ≡ none
  unfolding round run_step run_poll2 run_poll3 write_result frame recover_request
  round_faults s a base opened healthy bad gone =
      let r : Request = polling base session index packet len in
      let s1 = emit s (Effect.send (response session a) ∷ []) in
      let r1 : Request = record (with_reply r a) {
        session = flip_session session;
        next_step = some Step.step_poll3;
      } in
      let sends : run_next s (with_reply r a) ≡ some (s1, some (Phase.sending, r1)) =
        rw (run_next-step s (with_reply r a) Step.step_poll2 refl, opened, bad) refl in
      let stops : run_next s1 r1 ≡ none =
        rw (run_next-step s1 r1 Step.step_poll3 refl, check_send-healthy s1 healthy, bad, gone)
          refl in
      rw (sends, round) stops

  -- The callable of a poll request whose replies are `replies`, none of them an error, and then one
  -- error: each reply is sent with the session of the request, and after it the callable is called
  -- again; the error is sent with the flipped session, and ends the request if it has its parameter.
  pub rounds_lem :
      (s : Server) (replies : List Reply) (a : Reply) (n : ℕ) (base : Option ℕ)
      → Serves s index object
      → s.ref_count ≡ suc n
      → All GoesOn replies
      → a.rejected ≡ true
      → (base ≡ some 12) ⊎ (base ≡ none)
      → rounds (replies ++ (a ∷ [])) s (polling base session index packet len)
        ≡ unless_taken (left_by_all (replies ++ (a ∷ [])) base) (
            some (
              after_finish
                  (emit
                    (after_rounds session object s replies)
                    (Effect.send (response session a) ∷ []))
                  n
                  (reply_farewell a),
              none,
            ))
  unfolding rounds
  rounds_lem s [] a n base v c hs bad known =
      let over : Option Outcome = some (
        after_finish (emit s (Effect.send (response session a) ∷ [])) n (reply_farewell a),
        none,
      ) in
      let gone : left_by a base ≡ none
          → rounds (a ∷ []) s (polling base session index packet len)
            ≡ unless_taken (left_by a base) over =
        λ e.
          rw (round_faults s a base v.opened v.healthy bad e)
            (ap (λ x. unless_taken x over) (sym e)) in
      elim (Bool-cases a.keep) [
        | inr takes ↦ gone (rw takes refl)
        | inl keep ↦ elim known [
          | inr none_left ↦ gone (rw (keep, none_left) refl)
          | inl whole ↦
              (let stays : left_by a base ≡ some 12 = rw (keep, whole) refl in
                (rw (whole, round_ends s a n v.opened v.healthy c bad keep) refl)
                ∙ unless_taken_lem (left_by a base) over stays)
        ]
      ]
  rounds_lem s (b ∷ replies) a n base v c (hb, hs) bad known =
      let still : (left_by b base ≡ some 12) ⊎ (left_by b base ≡ none) = elim (Bool-cases b.keep) [
        | inl keep ↦ rw keep known
        | inr taken ↦ inr (rw taken refl)
      ] in
      rw (round_goes_on s b base v hb) (
        rounds_lem (after_round session object s b) replies a n (left_by b base)
          (Serves-emit (after_round session object s b) s refl refl refl v) c hs bad still)

-- The poll request for the callable at `index` with its parameter.
abbrev pub poll_packet : ℕ → ℕ → List ℕ → List ℕ
poll_packet session index parameter = packet_of session (2 ^ 32 - 5) (le_bytes 4 index ++ parameter)

-- An open context that gets a poll request calls the callable that it names, with the rest of the
-- packet as parameter.
pub poll_starts :
    (s : Server) (session index object : ℕ) (parameter : List ℕ)
    → Serves (taken s) index object
    → s.receive_error ≡ none
    → session < 2 ^ 32
    → index < 2 ^ 32
    → length parameter < 2 ^ 32
    → on_packet s (poll_packet session index parameter)
      ≡ some (
        emit (taken s) (Effect.call object ∷ []),
        some (
          Phase.calling,
          polling (some 12) session index (poll_packet session index parameter) (length parameter),
        ),
      )
unfolding prepare run_step run_poll1 step_of_index call_object
poll_starts s session index object parameter v fine hs hi hp =
    let r = prepare (request_of session (2 ^ 32 - 5) (le_bytes 4 index ++ parameter)) in
    let word : read (poll_packet session index parameter) 8 4 ≡ some (le_bytes 4 index) =
      read-parameter session (2 ^ 32 - 5) (le_bytes 4 index) parameter 4
        (sym (length-le_bytes 4 index)) in
    let len : (length (le_bytes 4 index ++ parameter) + 2 ^ 32 - 4) % 2 ^ 32 ≡ length parameter =
      omega (arith, length-append (le_bytes 4 index) parameter, length-le_bytes 4 index) in
    rw
      (
        on_packet-packet_of s session (2 ^ 32 - 5) (le_bytes 4 index ++ parameter) v.opened fine hs
            (omega arith),
        run_next-step (taken s) r Step.step_poll1 refl,
        word,
        of_le-le_bytes 4 index hi,
        v.found,
        v.callable,
        len,
      )
      refl

-- A poll request, from its packet to its end, of a callable whose replies are `replies`, none of them
-- an error, and then one error, on a context that stays open and without io errors: the callable is
-- called, each reply is sent with the session of the request and followed by another call, the error
-- is sent with the flipped session, and then, if no reply took the parameter, its callback runs, the
-- received block is freed at its start, and the reference that the request took is given back. If a
-- reply took the parameter, the end is undefined: four is subtracted from NULL.
pub poll_runs :
    (s : Server) (session index object : ℕ) (parameter : List ℕ) (replies : List Reply) (a : Reply)
    → Serves s index object
    → s.receive_error ≡ none
    → session < 2 ^ 32
    → index < 2 ^ 32
    → length parameter < 2 ^ 32
    → All GoesOn replies
    → a.rejected ≡ true
    → (on_packet s (poll_packet session index parameter) >>= λ o. elim o.1 [
      | none ↦ some o
      | some (phase, r) ↦ rounds (replies ++ (a ∷ [])) o.0 r
    ])
      ≡ (if all_keep (replies ++ (a ∷ []))
          then some (
            after_finish
                (emit
                  (after_rounds session object (emit (taken s) (Effect.call object ∷ [])) replies)
                  (Effect.send (response session a) ∷ []))
                s.ref_count
                (reply_farewell a),
            none,
          )
          else none)
poll_runs s session index object parameter replies a v fine hs hi hp goes bad =
    let t = emit (taken s) (Effect.call object ∷ []) in
    let packet = poll_packet session index parameter in
    let over : Option Outcome = some (
      after_finish
          (emit (after_rounds session object t replies) (Effect.send (response session a) ∷ []))
          s.ref_count (reply_farewell a),
      none,
    ) in
    let ran =
      rounds_lem session index object packet (length parameter) t replies a s.ref_count (some 12)
        (Serves-emit t s refl refl refl v) refl goes bad (inl refl) in
    rw
      (poll_starts s session index object parameter (Serves-emit (taken s) s refl refl refl v) fine
        hs hi hp)
      (ran
        ∙ (ap (λ x. unless_taken x over) (left_by_all_lem (replies ++ (a ∷ [])) 12)
            ∙ unless_taken_if (all_keep (replies ++ (a ∷ []))) 12 over))

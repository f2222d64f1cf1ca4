-- ===== src/Uv/Stream/Waiting.antt =====
-- Every read and accept of a stream is answered once, in order, and no read waits beside data
-- (runtime_bridge/c-modules/pxprpc_libuv_rpc/init.hpp).
use mathlib.Core.Path.{subst}
use pxp_rpc.Base.{
  none, some, ◌>>=◌, ◌≤◌, ℕ, ◌*◌, ◌≡◌, refl, sym, ap, ◌∙◌, true, List, [], ◌∷◌, ◌++◌, length, ltb,
  ◌==◌, arith, Bool-cases, ◌⊎◌, inl, inr, append-nil, append_assoc,
}
use pxp_rpc.Uv.{Answer, is_negative}
use pxp_rpc.Uv.Stream.{
  Stream, hand_over, processing, push_error, push_data, push_conn, stream_wrap_read,
  stream_wrap_connection, pull_data, accept_conn, Event, step, run,
}
use pxp_rpc.Uv.Stream.Answered.{ids, reads, accepts, answer_first, Keeps, processing-Keeps}

-- No read waits beside data, and after an error nothing waits.
pub record Settled (s : Stream) : Type 0 where
  pub no_stall : (s.read_waiting ≡ []) ⊎ (s.read_buf ≡ [])
  pub none_left : is_negative s.errcode ≡ true → (s.read_waiting ≡ []) × (s.accept_waiting ≡ [])

hand_over_stall :
    (waiting buf : List ℕ) (s : Stream)
    → s.read_waiting ≡ waiting
    → s.read_buf ≡ buf
    → ((hand_over s).read_waiting ≡ []) ⊎ ((hand_over s).read_buf ≡ [])
unfolding hand_over
hand_over_stall [] buf s w b = inl (rw w refl)
hand_over_stall (r ∷ rs) [] s w b = inr (rw (w, b) refl)
hand_over_stall (r ∷ rs) (x ∷ xs) s w b = inr (rw (w, b) refl)

pub processing-Settled : (s : Stream) → Settled (processing s)
unfolding processing
processing-Settled s =
    let t = hand_over s in
    elim (Bool-cases (is_negative t.errcode)) [
      | inl e ↦ rw e (record { no_stall = inl refl; none_left = λ h. (refl, refl) })
      | inr e ↦ rw e (record {
        no_stall = hand_over_stall s.read_waiting s.read_buf s refl refl;
        none_left = λ h. absurd (ground arith);
      })
    ]

abbrev pub read_asked_by : Event → List ℕ
read_asked_by (Event.read_asked ret) = ret ∷ []
read_asked_by (Event.data_came chunk) = []
read_asked_by Event.read_failed = []
read_asked_by (Event.conn_came status conn) = []
read_asked_by (Event.accept_asked ret) = []

abbrev pub accept_asked_by : Event → List ℕ
accept_asked_by (Event.accept_asked ret) = ret ∷ []
accept_asked_by (Event.data_came chunk) = []
accept_asked_by Event.read_failed = []
accept_asked_by (Event.conn_came status conn) = []
accept_asked_by (Event.read_asked ret) = []

abbrev pub reads_asked : List Event → List ℕ
reads_asked [] = []
reads_asked (e ∷ es) = read_asked_by e ++ reads_asked es

abbrev pub accepts_asked : List Event → List ℕ
accepts_asked [] = []
accepts_asked (e ∷ es) = accept_asked_by e ++ accepts_asked es

-- What an event does to a settled stream: it stays settled, and each call is answered or waits.
abbrev pub Serves : Stream → Stream → List ℕ → List ℕ → Type 0
Serves s t rs cs = (reads t ≡ reads s ++ rs) × (accepts t ≡ accepts s ++ cs) × Settled t

Serves-same : (s t : Stream) → Keeps s t → Settled t → Serves s t [] []
Serves-same s t (kr, ka) settled =
    (kr ∙ sym (append-nil (reads s)), ka ∙ sym (append-nil (accepts s)), settled)

pub push_data-Serves :
    (s : Stream) (chunk : List ℕ) → Settled s → Serves s (push_data s chunk) [] []
unfolding push_data
push_data-Serves s [] settled = Serves-same s s (refl, refl) settled
push_data-Serves s (b ∷ bs) settled =
    let t : Stream = record s { read_buf = s.read_buf ++ (b ∷ bs) } in
    elim (Bool-cases (ltb (1024 * 1024) (length s.read_buf))) [
      | inl e ↦ rw e (Serves-same s s (refl, refl) settled)
      | inr e ↦ rw e (Serves-same s (processing t) (processing-Keeps t) (processing-Settled t))
    ]

pub cons_nil : {r : ℕ} {rs : List ℕ} → r ∷ rs ≡ [] → ⊥
cons_nil h = omega (arith, ap length h)

push_conn-Serves :
    (waiting : List ℕ) (s : Stream) (conn : ℕ)
    → s.accept_waiting ≡ waiting
    → Settled s
    → Serves s (push_conn s conn) [] []
unfolding push_conn
push_conn-Serves [] s conn w settled =
    let kept : push_conn s conn ≡ s =
      ap
        (λ (x : List ℕ). elim x [
          | [] ↦ s
          | r ∷ rs ↦ record s {
            accept_waiting = rs;
            accept_answers = s.accept_answers ++ ((r, Answer.object conn) ∷ []);
          }
        ])
        w in
    subst (λ x. Serves s x [] []) (sym kept) (Serves-same s s (refl, refl) settled)
push_conn-Serves (r ∷ rs) s conn w settled =
    let t : Stream = record s {
      accept_waiting = rs;
      accept_answers = s.accept_answers ++ ((r, Answer.object conn) ∷ []);
    } in
    let taken : push_conn s conn ≡ t = rw w refl in
    let kept : accepts t ≡ accepts s =
      answer_first s.accept_answers r (Answer.object conn) rs
      ∙ ap (◌++◌ (ids s.accept_answers)) (sym w) in
    let fine : Settled t = record {
      no_stall = settled.no_stall;
      none_left = λ e. absurd (cons_nil (sym w ∙ (settled.none_left e).1));
    } in
    subst (λ x. Serves s x [] []) (sym taken) (Serves-same s t (refl, kept) fine)

-- The failure of a read that finds at most 1 MB in the buffer.
abbrev FailsAt : Stream → Event → Type 0
FailsAt s e = (e ≡ Event.read_failed) × (length s.read_buf ≤ 1024 * 1024) × (step s e ≡ none)

step-Serves :
    (s : Stream) (e : Event)
    → Settled s
    → ((t : Stream) × (step s e ≡ some t) × Serves s t (read_asked_by e) (accept_asked_by e))
      ⊎ FailsAt s e
unfolding step stream_wrap_read stream_wrap_connection push_error pull_data accept_conn
step-Serves s (Event.data_came chunk) settled =
    inl (push_data s chunk, refl, push_data-Serves s chunk settled)
step-Serves s Event.read_failed settled =
    elim (Bool-cases (ltb (1024 * 1024) (length s.read_buf))) [
      | inl e ↦ inl (s, rw e refl, Serves-same s s (refl, refl) settled)
      | inr e ↦ inr (refl, ground arith, rw e refl)
    ]
step-Serves s (Event.conn_came status conn) settled = inl (
  _,
  refl,
  elim (Bool-cases (status == 0)) [
    | inl e ↦ rw e (push_conn-Serves s.accept_waiting s conn refl settled)
    | inr e ↦
        (let t : Stream = record s { errcode = status } in
          rw e (Serves-same s (processing t) (processing-Keeps t) (processing-Settled t)))
  ],
)
step-Serves s (Event.read_asked ret) settled =
    let t : Stream = record s { read_waiting = s.read_waiting ++ (ret ∷ []) } in
    let (kr, ka) = processing-Keeps t in
    inl (
      _,
      refl,
      (
        kr ∙ sym (append_assoc (ids s.read_answers) s.read_waiting (ret ∷ [])),
        ka ∙ sym (append-nil (accepts s)),
        processing-Settled t,
      ),
    )
step-Serves s (Event.accept_asked ret) settled =
    let t : Stream = record s { accept_waiting = s.accept_waiting ++ (ret ∷ []) } in
    let (kr, ka) = processing-Keeps t in
    inl (
      _,
      refl,
      (
        kr ∙ sym (append-nil (reads s)),
        ka ∙ sym (append_assoc (ids s.accept_answers) s.accept_waiting (ret ∷ [])),
        processing-Settled t,
      ),
    )

-- What a run of events has led to: a stream on which each call is answered or waits, or the failure of
-- a read that found at most 1 MB in the buffer, after events that ran.
pub data Ran (s : Stream) : List Event → Type 0 where
  served :
      {es : List Event} (t : Stream)
      → run s es ≡ some t
      → Serves s t (reads_asked es) (accepts_asked es)
      → Ran s es
  failed :
      (before after : List Event) (u : Stream)
      → run s before ≡ some u
      → length u.read_buf ≤ 1024 * 1024
      → run s (before ++ (Event.read_failed ∷ after)) ≡ none
      → Ran s (before ++ (Event.read_failed ∷ after))

-- An event before a run.
run_after :
    (s t : Stream) (e : Event) (es : List Event)
    → step s e ≡ some t
    → reads t ≡ reads s ++ read_asked_by e
    → accepts t ≡ accepts s ++ accept_asked_by e
    → Ran t es
    → Ran s (e ∷ es)
unfolding run
run_after s t e es ran kr ka (served u rest (rr, ra, last)) = served u (rw ran rest) (
  rr
      ∙ (ap (λ x. x ++ reads_asked es) kr
          ∙ append_assoc (reads s) (read_asked_by e) (reads_asked es)),
  ra
      ∙ (ap (λ x. x ++ accepts_asked es) ka
          ∙ append_assoc (accepts s) (accept_asked_by e) (accepts_asked es)),
  last,
)
run_after s t e es ran kr ka (failed before after u rest room stuck) =
    failed (e ∷ before) after u (rw ran rest) room (rw ran stuck)

-- From a settled stream, and a new one is, any events lead to a settled one: no read waits while there
-- is data in the buffer, and after a negative status of a connection no read and no accept waits. The
-- reads that were answered, and behind them those that wait, are the reads that were asked, each once
-- and in order; so are the accepts. The one exception is a read that fails with at most 1 MB in the
-- buffer, at which the run is undefined.
pub run-Settled : (s : Stream) (es : List Event) → Settled s → Ran s es
unfolding run
run-Settled s [] settled =
    served s refl (sym (append-nil (reads s)), sym (append-nil (accepts s)), settled)
run-Settled s (e ∷ es) settled = elim (step-Serves s e settled) [
  | inr (same, room, none_left) ↦
      subst (λ x. Ran s (x ∷ es)) (sym same)
        (failed [] es s refl room (
          ap (λ x. step s x >>= λ t. run t es) (sym same)
          ∙ ap (λ m. m >>= λ t. run t es) none_left))
  | inl (t, ran, (kr, ka, fine)) ↦ run_after s t e es ran kr ka (run-Settled t es fine)
]

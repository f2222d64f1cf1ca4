-- ===== src/Uv/Stream/Delivery.antt =====
-- What the reads of a stream get is what came, in order
-- (runtime_bridge/c-modules/pxprpc_libuv_rpc/init.hpp).
use mathlib.Core.Path.{subst}
use pxp_rpc.Base.{
  true, ◌<◌, Option, none, some, ℕ, ◌*◌, ◌≤◌, ◌≡◌, refl, sym, ap, ◌∙◌, false, List, [], ◌∷◌, ◌++◌,
  length, ltb, ◌==◌, arith, Bool-cases, inl, inr, append-nil, append_assoc,
}
use pxp_rpc.Uv.{Answer, is_negative}
use pxp_rpc.Uv.Stream.{
  Stream, hand_over, reject_all, processing, push_error, push_data, push_conn, stream_wrap_read,
  stream_wrap_connection, pull_data, accept_conn, Event, step, run,
}

abbrev pub delivered : List (ℕ × Answer) → List ℕ
delivered [] = []
delivered ((r, Answer.bytes bs) ∷ more) = bs ++ delivered more
delivered ((r, Answer.text v) ∷ more) = delivered more
delivered ((r, Answer.object v) ∷ more) = delivered more
delivered ((r, Answer.number v) ∷ more) = delivered more
delivered ((r, Answer.error v) ∷ more) = delivered more
delivered ((r, Answer.nothing) ∷ more) = delivered more
delivered ((r, Answer.refused) ∷ more) = delivered more

-- What has come: what the reads got, and what waits for one.
abbrev pub stream_bytes : Stream → List ℕ
stream_bytes s = delivered s.read_answers ++ s.read_buf

delivered-append : (xs ys : List (ℕ × Answer)) → delivered (xs ++ ys) ≡ delivered xs ++ delivered ys
delivered-append [] ys = refl
delivered-append ((r, Answer.bytes bs) ∷ xs) ys =
    ap (◌++◌ bs) (delivered-append xs ys) ∙ sym (append_assoc bs (delivered xs) (delivered ys))
delivered-append ((r, Answer.text v) ∷ xs) ys = delivered-append xs ys
delivered-append ((r, Answer.object v) ∷ xs) ys = delivered-append xs ys
delivered-append ((r, Answer.number v) ∷ xs) ys = delivered-append xs ys
delivered-append ((r, Answer.error v) ∷ xs) ys = delivered-append xs ys
delivered-append ((r, Answer.nothing) ∷ xs) ys = delivered-append xs ys
delivered-append ((r, Answer.refused) ∷ xs) ys = delivered-append xs ys

delivered-reject_all : (code : ℕ) (rs : List ℕ) → delivered (reject_all code rs) ≡ []
unfolding reject_all
delivered-reject_all code [] = refl
delivered-reject_all code (r ∷ rs) = delivered-reject_all code rs

hand_over-delivered :
    (waiting buf : List ℕ) (s : Stream)
    → s.read_waiting ≡ waiting
    → s.read_buf ≡ buf
    → stream_bytes (hand_over s) ≡ stream_bytes s
unfolding hand_over
hand_over-delivered [] buf s w b = rw w refl
hand_over-delivered (r ∷ rs) [] s w b = rw (w, b) refl
hand_over-delivered (r ∷ rs) (x ∷ xs) s w b =
    rw (w, b)
      (append-nil (delivered (s.read_answers ++ ((r, Answer.bytes (x ∷ xs)) ∷ [])))
        ∙ (delivered-append s.read_answers ((r, Answer.bytes (x ∷ xs)) ∷ [])
            ∙ ap (◌++◌ (delivered s.read_answers)) (append-nil (x ∷ xs))))

processing-delivered : (s : Stream) → stream_bytes (processing s) ≡ stream_bytes s
unfolding processing
processing-delivered s = elim (Bool-cases (is_negative (hand_over s).errcode)) [
  | inl e ↦ rw e (
      ap (λ x. x ++ (hand_over s).read_buf)
        (delivered-append (hand_over s).read_answers
            (reject_all (hand_over s).errcode (hand_over s).read_waiting)
          ∙ (ap (◌++◌ (delivered (hand_over s).read_answers))
                (delivered-reject_all (hand_over s).errcode (hand_over s).read_waiting)
              ∙ append-nil (delivered (hand_over s).read_answers)))
      ∙ hand_over-delivered s.read_waiting s.read_buf s refl refl)
  | inr e ↦ rw e (hand_over-delivered s.read_waiting s.read_buf s refl refl)
]

push_data-delivered :
    (s : Stream) (chunk : List ℕ)
    → length s.read_buf ≤ 1024 * 1024
    → stream_bytes (push_data s chunk) ≡ stream_bytes s ++ chunk
unfolding push_data
push_data-delivered s [] fits = sym (append-nil (stream_bytes s))
push_data-delivered s (b ∷ bs) fits =
    let small : ltb (1024 * 1024) (length s.read_buf) ≡ false = ground arith in
    rw small (
      processing-delivered (record s { read_buf = s.read_buf ++ (b ∷ bs) })
      ∙ sym (append_assoc (delivered s.read_answers) s.read_buf (b ∷ bs)))

push_conn-delivered :
    (waiting : List ℕ) (s : Stream) (conn : ℕ)
    → s.accept_waiting ≡ waiting
    → stream_bytes (push_conn s conn) ≡ stream_bytes s
unfolding push_conn
push_conn-delivered [] s conn w = rw w refl
push_conn-delivered (r ∷ rs) s conn w = rw w refl

abbrev pub came : Event → List ℕ
came (Event.data_came chunk) = chunk
came Event.read_failed = []
came (Event.conn_came status conn) = []
came (Event.read_asked ret) = []
came (Event.accept_asked ret) = []

abbrev pub all_came : List Event → List ℕ
all_came [] = []
all_came (e ∷ es) = came e ++ all_came es

-- Data finds at most 1 MB in the buffer, so that `pushData` does not discard it, and the failure of a
-- read finds more, so that `pushData` does not copy with the negative length.
abbrev pub HasRoom : Stream → Event → Type 0
HasRoom s (Event.data_came chunk) = length s.read_buf ≤ 1024 * 1024
HasRoom s Event.read_failed = 1024 * 1024 < length s.read_buf
HasRoom s (Event.conn_came status conn) = Unit {0}
HasRoom s (Event.read_asked ret) = Unit {0}
HasRoom s (Event.accept_asked ret) = Unit {0}

abbrev pub KeepsRoom : Stream → List Event → Type 0
KeepsRoom s [] = Unit {0}
KeepsRoom s (e ∷ es) = HasRoom s e × elim (step s e) [ none ↦ Unit {0} | some t ↦ KeepsRoom t es ]

step-delivered :
    (s : Stream) (e : Event)
    → HasRoom s e
    → (t : Stream) × (step s e ≡ some t) × (stream_bytes t ≡ stream_bytes s ++ came e)
unfolding step stream_wrap_read stream_wrap_connection push_error pull_data accept_conn
step-delivered s (Event.data_came chunk) room =
    (push_data s chunk, refl, push_data-delivered s chunk room)
step-delivered s Event.read_failed room =
    let full : ltb (1024 * 1024) (length s.read_buf) ≡ true = ground arith in
    (s, rw full refl, sym (append-nil (stream_bytes s)))
step-delivered s (Event.conn_came status conn) room = (
  _,
  refl,
  elim (Bool-cases (status == 0)) [
    | inl e ↦
        rw e (push_conn-delivered s.accept_waiting s conn refl ∙ sym (append-nil (stream_bytes s)))
    | inr e ↦
        rw e
          (processing-delivered (record s { errcode = status }) ∙ sym (append-nil (stream_bytes s)))
  ],
)
step-delivered s (Event.read_asked ret) room = (
  _,
  refl,
  processing-delivered (record s { read_waiting = s.read_waiting ++ (ret ∷ []) })
      ∙ sym (append-nil (stream_bytes s)),
)
step-delivered s (Event.accept_asked ret) room = (
  _,
  refl,
  processing-delivered (record s { accept_waiting = s.accept_waiting ++ (ret ∷ []) })
      ∙ sym (append-nil (stream_bytes s)),
)

-- If at most 1 MB waits in the buffer whenever data comes, and more whenever a read fails, so that
-- nothing is discarded and nothing copied with a negative length, then the events run to their end, and
-- the data of the reads, one after the other, and what still waits in the buffer are exactly what came,
-- in order, whatever reads, accepts, connections and failed connections come in between.
pub run-delivered :
    (s : Stream) (es : List Event)
    → KeepsRoom s es
    → (t : Stream) × (run s es ≡ some t)
      × (delivered t.read_answers ++ t.read_buf
          ≡ (delivered s.read_answers ++ s.read_buf) ++ all_came es)
unfolding run
run-delivered s [] room = (s, refl, sym (append-nil (stream_bytes s)))
run-delivered s (e ∷ es) (here, room) =
    let (t, ran, got) = step-delivered s e here in
    let later : KeepsRoom t es =
      subst (λ (o : Option Stream). elim o [ none ↦ Unit {0} | some u ↦ KeepsRoom u es ]) ran
        room in
    let (u, rest, all) = run-delivered t es later in
    (
      u,
      rw ran rest,
      all ∙ (ap (λ x. x ++ all_came es) got ∙ append_assoc (stream_bytes s) (came e) (all_came es)),
    )

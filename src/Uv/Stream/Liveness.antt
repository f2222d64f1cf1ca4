-- ===== src/Uv/Stream/Liveness.antt =====
-- Reads that wait are answered when data comes (runtime_bridge/c-modules/pxprpc_libuv_rpc/init.hpp).
use pxp_rpc.Base.{
  some, ℕ, ◌*◌, ◌-◌, ◌≤◌, ◌≡◌, ◌≢◌, refl, sym, ap, ◌∙◌, false, List, [], ◌∷◌, ◌++◌, length, ltb,
  arith, Bool-cases, inl, inr, All,
}
use pxp_rpc.Uv.{is_negative}
use pxp_rpc.Uv.Stream.{Stream, stream_wrap_read, hand_over, processing, push_data, Event, step, run}
use pxp_rpc.Uv.Stream.Waiting.{Settled, push_data-Serves, cons_nil}

abbrev pub all_data : List (List ℕ) → List Event
all_data [] = []
all_data (c ∷ chunks) = Event.data_came c ∷ all_data chunks

processing_waiting :
    (s : Stream) → length (processing s).read_waiting ≤ length (hand_over s).read_waiting
unfolding processing
processing_waiting s = elim (Bool-cases (is_negative (hand_over s).errcode)) [
  | inl e ↦ rw e (omega arith)
  | inr e ↦ rw e (omega arith)
]

hand_over_none : (s : Stream) → s.read_waiting ≡ [] → (hand_over s).read_waiting ≡ []
unfolding hand_over
hand_over_none s w = rw w refl

hand_over_first :
    (s : Stream) {r b : ℕ} {rs bs : List ℕ}
    → s.read_waiting ≡ r ∷ rs
    → s.read_buf ≡ b ∷ bs
    → (hand_over s).read_waiting ≡ rs
unfolding hand_over
hand_over_first s w full = rw (w, full) refl

-- With a read waiting, data is handed over.
push_data_waiting :
    (waiting : List ℕ) (s : Stream) (chunk : List ℕ)
    → s.read_waiting ≡ waiting
    → Settled s
    → chunk ≢ []
    → length (push_data s chunk).read_waiting ≤ length waiting - 1
unfolding push_data
push_data_waiting waiting s [] w settled full = absurd (full refl)
push_data_waiting [] s (b ∷ bs) w settled full =
    let t : Stream = record s { read_buf = s.read_buf ++ (b ∷ bs) } in
    elim (Bool-cases (ltb (1024 * 1024) (length s.read_buf))) [
      | inl e ↦ rw e (omega (arith, ap length w))
      | inr e ↦ rw e (omega (arith, processing_waiting t, ap length (hand_over_none t w)))
    ]
push_data_waiting (r ∷ rs) s (b ∷ bs) w settled full =
    let t : Stream = record s { read_buf = s.read_buf ++ (b ∷ bs) } in
    let empty : s.read_buf ≡ [] = elim settled.no_stall [
      | inl none_waits ↦ absurd (cons_nil (sym w ∙ none_waits))
      | inr no_data ↦ no_data
    ] in
    let small : ltb (1024 * 1024) (length s.read_buf) ≡ false = rw empty refl in
    let grown : t.read_buf ≡ b ∷ bs = ap (λ x. x ++ (b ∷ bs)) empty in
    rw small (omega (arith, processing_waiting t, ap length (hand_over_first t w grown)))

run_data_waiting :
    (s : Stream) (chunks : List (List ℕ))
    → Settled s
    → All (λ c. c ≢ []) chunks
    → (t : Stream) × (run s (all_data chunks) ≡ some t)
      × (length t.read_waiting ≤ length s.read_waiting - length chunks)
unfolding run step stream_wrap_read
run_data_waiting s [] settled full = (s, refl, omega arith)
run_data_waiting s (c ∷ chunks) settled (f, full) =
    let (t, ran, less) =
      run_data_waiting (push_data s c) chunks (push_data-Serves s c settled).2 full in
    (t, ran, omega (arith, less, push_data_waiting s.read_waiting s c refl settled f))

nil_of_length : (xs : List ℕ) → length xs ≤ 0 → xs ≡ []
nil_of_length [] h = refl
nil_of_length (x ∷ xs) h = absurd (omega arith)

-- On a settled stream every waiting read is answered in the end: as many pieces of data as there are
-- reads waiting, none of them empty, leave no read waiting.
pub run_data_answers :
    (s : Stream) (chunks : List (List ℕ))
    → Settled s
    → All (λ c. c ≢ []) chunks
    → length s.read_waiting ≤ length chunks
    → (t : Stream) × (run s (all_data chunks) ≡ some t) × (t.read_waiting ≡ [])
run_data_answers s chunks settled full enough =
    let (t, ran, less) = run_data_waiting s chunks settled full in
    (t, ran, nil_of_length t.read_waiting (omega (arith, less)))

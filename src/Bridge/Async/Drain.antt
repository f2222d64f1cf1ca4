-- ===== src/Bridge/Async/Drain.antt =====
-- The loop runs every request in the end (runtime_bridge/src/pxprpc_rtbridge.c).
use pxp_rpc.Base.{ℕ, ◌≡◌, refl, ap, ◌∙◌, true, List, [], ◌∷◌, arith, Bool-cases, inl, inr}
use pxp_rpc.Bridge.Async.{
  Queue, enter_callback, take_queue, run_request, LoopMove, entering, taking, running, Loop, still,
  moved, count, Accounted, LoopMove-Accounted, Reach, Reach-Accounted,
}

Loop-cons : {q s t : Queue} → LoopMove q s → Loop s t → Loop q t
Loop-cons m still = moved still m
Loop-cons m (moved l n) = moved (Loop-cons m l) n

Loop-trans : {q s t : Queue} → Loop q s → Loop s t → Loop q t
Loop-trans l still = l
Loop-trans l (moved k n) = moved (Loop-trans l k) n

Loop-Accounted : {q s : Queue} → Accounted q → Loop q s → Accounted s
Loop-Accounted a still = a
Loop-Accounted a (moved l m) = LoopMove-Accounted (Loop-Accounted a l) m

-- The `while` loop of `_rtbasyncb`.
record Emptied (q t : Queue) : Type 0 where
  pub path : Loop q t
  pub no_batch : t.batch ≡ []
  pub queue_same : t.queue ≡ q.queue
  pub awake_same : t.awake ≡ q.awake
  pub entered_same : t.entered ≡ q.entered
  pub unsent_same : t.unsent ≡ q.unsent
  pub submitted_same : t.submitted ≡ q.submitted

run_batch : (batch : List ℕ) (q : Queue) → q.batch ≡ batch → (t : Queue) × Emptied q t
unfolding run_request
run_batch [] q e = (
  q,
  record {
    path = still;
    no_batch = e;
    queue_same = refl;
    awake_same = refl;
    entered_same = refl;
    unsent_same = refl;
    submitted_same = refl;
  },
)
run_batch (r ∷ rest) q e =
    let (t, m) = run_batch rest (run_request q r rest) refl in
    (
      t,
      record {
        path = Loop-cons (running e) m.path;
        no_batch = m.no_batch;
        queue_same = m.queue_same;
        awake_same = m.awake_same;
        entered_same = m.entered_same;
        unsent_same = m.unsent_same;
        submitted_same = m.submitted_same;
      },
    )

-- Nothing is left to run.
record Drained (q t : Queue) : Type 0 where
  pub path : Loop q t
  pub no_queue : t.queue ≡ []
  pub no_batch : t.batch ≡ []
  pub submitted_same : t.submitted ≡ q.submitted

-- The callback, from the point where it takes the queue.
callback : (q : Queue) → q.entered ≡ true → (t : Queue) × Drained q t
unfolding take_queue
callback q e =
    let (t, m) = run_batch q.queue (take_queue q) refl in
    (
      t,
      record {
        path = Loop-cons (taking e) m.path;
        no_queue = m.queue_same;
        no_batch = m.no_batch;
        submitted_same = m.submitted_same;
      },
    )

-- A wake-up: the callback from its beginning.
wake : (q : Queue) → q.awake ≡ true → q.batch ≡ [] → (t : Queue) × Drained q t
unfolding enter_callback
wake q e empty = elim (Bool-cases q.entered) [
  | inl on ↦ callback q on
  | inr off ↦
      (let (t, d) = callback (enter_callback q) refl in
        (
          t,
          record {
            path = Loop-cons (entering e off empty) d.path;
            no_queue = d.no_queue;
            no_batch = d.no_batch;
            submitted_same = d.submitted_same;
          },
        ))
]

settle : (q : Queue) → Accounted q → q.unsent ≡ 0 → q.batch ≡ [] → (t : Queue) × Drained q t
settle q a quiet empty = elim a.woken [
  | inl done ↦
      (q, record { path = still; no_queue = done; no_batch = empty; submitted_same = refl })
  | inr (inl awake) ↦ wake q awake empty
  | inr (inr (inl entered)) ↦ callback q entered
  | inr (inr (inr some_unsent)) ↦ absurd (omega arith)
]

-- Once every thread that linked a request has called `uv_async_send`, the loop on its own, in finitely
-- many steps, comes to a state where nothing is queued or taken and every request that was submitted
-- has run, as often as it was submitted.
pub Reach-drains :
    {q : Queue}
    → Reach q
    → q.unsent ≡ 0
    → (t : Queue) × Loop q t
      × (t.queue ≡ [])
      × (t.batch ≡ [])
      × ((f : ℕ) → count f t.ran ≡ count f q.submitted)
Reach-drains {q} h quiet =
    let a = Reach-Accounted h in
    let (s, m) = run_batch q.batch q refl in
    let (t, d) = settle s (Loop-Accounted a m.path) (m.unsent_same ∙ quiet) m.no_batch in
    let path = Loop-trans m.path d.path in
    let b = Loop-Accounted a path in
    (
      t,
      path,
      d.no_queue,
      d.no_batch,
      λ f. omega (
        arith,
        b.balance f,
        ap (count f) d.no_queue,
        ap (count f) d.no_batch,
        ap (count f) (d.submitted_same ∙ m.submitted_same),
      ),
    )

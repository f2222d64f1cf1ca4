-- ===== src/Bridge/Async.antt =====
-- The queue of asynchronous calls of runtime_bridge/src/pxprpc_rtbridge.c: threads put requests in
-- under a lock and wake the loop, whose callback takes them all out and runs them. The locked parts
-- and the wake-up are steps, in any order that the threads make.
pub mod Drain
use pxp_rpc.Base.{
  ℕ, zero, suc, ◌+◌, ◌-◌, ◌≤◌, ◌≡◌, refl, sym, ap, ◌∙◌, Bool, true, false, List, [], ◌∷◌, ◌++◌,
  Option, none, some, ◌==◌, length, if◌then◌else◌, arith, Bool-cases, inl, inr, ◌⊎◌,
}

-- `queue` is `_rtbasyncqueue`, `batch` what the callback has taken and not run. `unsent` counts the
-- threads that have linked a request and not yet called `uv_async_send`; `awake` is that libuv owes the
-- loop a callback, `entered` that the callback has begun and not taken the queue. `submitted` and `ran`
-- log requests, the last one first.
pub record Queue : Type 0 where
  pub queue : List ℕ
  pub batch : List ℕ
  pub unsent : ℕ
  pub awake : Bool
  pub entered : Bool
  pub submitted : List ℕ
  pub ran : List ℕ

abbrev pub new_queue : Queue
new_queue = record {
  queue = [];
  batch = [];
  unsent = 0;
  awake = false;
  entered = false;
  submitted = [];
  ran = [];
}

-- The locked part of `pxprpc_rtbridge_async_exec`, and its end.
unfoldable pub link_request : Queue → ℕ → Queue
link_request q r = record q {
  queue = r ∷ q.queue;
  unsent = suc q.unsent;
  submitted = r ∷ q.submitted;
}

unfoldable pub send_wakeup : Queue → Queue
send_wakeup q = record q { unsent = q.unsent - 1; awake = true }

-- libuv begins the callback; the locked part of `_rtbasyncb`, and one round of its loop.
unfoldable pub enter_callback : Queue → Queue
enter_callback q = record q { awake = false; entered = true }

unfoldable pub take_queue : Queue → Queue
take_queue q = record q { batch = q.queue; queue = []; entered = false }

unfoldable pub run_request : Queue → ℕ → List ℕ → Queue
run_request q r rest = record q { batch = rest; ran = r ∷ q.ran }

-- What the loop does.
pub data LoopMove (q : Queue) : Queue → Type 0 where
  entering : q.awake ≡ true → q.entered ≡ false → q.batch ≡ [] → LoopMove q (enter_callback q)
  taking : q.entered ≡ true → LoopMove q (take_queue q)
  running : {r : ℕ} {rest : List ℕ} → q.batch ≡ r ∷ rest → LoopMove q (run_request q r rest)

pub data Loop (q : Queue) : Queue → Type 0 where
  still : Loop q q
  moved : {s t : Queue} → Loop q s → LoopMove s t → Loop q t

-- What the threads and the loop can lead to. A request that runs may submit others.
pub data Reach : Queue → Type 0 where
  begun : Reach new_queue
  linked : {q : Queue} (r : ℕ) → Reach q → Reach (link_request q r)
  sent : {q : Queue} → Reach q → 1 ≤ q.unsent → Reach (send_wakeup q)
  looped : {q s : Queue} → Reach q → LoopMove q s → Reach s

abbrev pub count : ℕ → List ℕ → ℕ
count f [] = 0
count f (x ∷ xs) = (if x == f then 1 else 0) + count f xs

-- Every request that was submitted has run, is being run through or stands in the queue, once; and a
-- queue that is not empty is going to be taken.
pub record Accounted (q : Queue) : Type 0 where
  pub balance : (f : ℕ) → count f q.ran + count f q.batch + count f q.queue ≡ count f q.submitted
  pub woken : (q.queue ≡ []) ⊎ ((q.awake ≡ true) ⊎ ((q.entered ≡ true) ⊎ (1 ≤ q.unsent)))
  pub one_batch : q.entered ≡ true → q.batch ≡ []

cons_nil : {r : ℕ} {rs : List ℕ} → r ∷ rs ≡ [] → ⊥
cons_nil h = omega (arith, ap length h)

pub LoopMove-Accounted : {q s : Queue} → Accounted q → LoopMove q s → Accounted s
unfolding enter_callback take_queue run_request
LoopMove-Accounted {q} h (entering awake fresh empty) = record {
  balance = h.balance;
  woken = inr (inr (inl refl));
  one_batch = λ e. empty;
}
LoopMove-Accounted {q} h (taking entered) = record {
  balance = λ f. omega (arith, h.balance f, ap (count f) (h.one_batch entered));
  woken = inl refl;
  one_batch = λ e. absurd (ground arith);
}
LoopMove-Accounted {q} h (running {r} {rest} e) = record {
  balance = λ f. omega (arith, h.balance f, ap (count f) e);
  woken = h.woken;
  one_batch = λ g. absurd (cons_nil (sym e ∙ h.one_batch g));
}

-- From the start, whatever the order in which threads link requests and wake the loop, and the loop
-- takes and runs them: each request submitted has run, is about to run or is queued, exactly once, and
-- a queue that is not empty has a wake-up pending, a callback about to take it, or a thread about to
-- wake the loop.
pub Reach-Accounted : {q : Queue} → Reach q → Accounted q
unfolding link_request send_wakeup
Reach-Accounted begun = record {
  balance = λ f. omega arith;
  woken = inl refl;
  one_batch = λ e. refl;
}
Reach-Accounted (linked {q} r h) =
    let a = Reach-Accounted h in
    record {
      balance = λ f. omega (arith, a.balance f);
      woken = inr (inr (inr (omega arith)));
      one_batch = a.one_batch;
    }
Reach-Accounted (sent {q} h some_unsent) =
    let a = Reach-Accounted h in
    record { balance = a.balance; woken = inr (inl refl); one_batch = a.one_batch }
Reach-Accounted (looped h m) = LoopMove-Accounted (Reach-Accounted h) m

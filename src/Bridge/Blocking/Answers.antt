-- ===== src/Bridge/Blocking/Answers.antt =====
-- Every blocked caller is somewhere, and gets the right error
-- (runtime_bridge/src/pxprpc_rtbridge.c).
use pxp_rpc.Base.{ℕ, ◌+◌, ◌≡◌, true, false, List, [], ◌∷◌, if◌then◌else◌, ◌==◌}
use pxp_rpc.Bridge.Blocking.{Caller, Outcome, Rtb}
use pxp_rpc.Bridge.Blocking.Errors.{AllRight}

abbrev pub count_callers : ℕ → List Caller → ℕ
count_callers i [] = 0
count_callers i (c ∷ cs) = (if c.0 == i then 1 else 0) + count_callers i cs

abbrev pub count_outcomes : ℕ → List Outcome → ℕ
count_outcomes i [] = 0
count_outcomes i (o ∷ os) = (if o.0.0 == i then 1 else 0) + count_outcomes i os

-- Where the callers with the number `i` are.
abbrev pub places : ℕ → Rtb → ℕ
places i b =
    count_callers i b.queue
    + count_callers i b.batch
    + count_callers i b.in_io
    + count_outcomes i b.posted
    + count_outcomes i b.returned

-- Each call is in one place.
abbrev pub Balanced : Rtb → Type 0
Balanced b = (i : ℕ) → places i b ≡ count_callers i b.asked

-- Just the loop that runs can be asked.
pub record Life (b : Rtb) : Type 0 where
  pub alive : b.executor ≡ true → (b.rtbloop ≡ true) × (b.run_state ≡ 2)
  pub serving : b.run_state ≡ 2 → b.executor ≡ true
  pub quiet : b.rtbloop ≡ false → b.run_state ≡ 0

pub record Sound (b : Rtb) : Type 0 where
  pub balance : Balanced b
  pub right : AllRight b
  pub life : Life b

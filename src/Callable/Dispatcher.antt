-- ===== src/Callable/Dispatcher.antt =====
-- class EventDispatcher of c/include/pxprpc_ext.hpp: a function whose call waits for an event. A
-- return of a call is a number, for its address; `answers` logs the returns that were resolved or
-- rejected, the last one first.
use pxp_rpc.Base.{arith, ℕ, ◌≡◌, ◌≢◌, List, [], ◌∷◌, Option, none, some}
use pxp_rpc.RefPool.Chain.{NotIn, Distinct}

pub data Answer : Type 0 where
  resolved rejected : Answer

pub record Dispatcher : Type 0 where
  pub pending_return : Option ℕ
  pub answers : List (ℕ × Answer)

-- The handler that the constructor gives to `init`.
unfoldable pub on_call : Dispatcher → ℕ → Dispatcher
on_call d ret = elim d.pending_return [
  | some r ↦ record {
    pending_return = none;
    answers = (ret, Answer.rejected) ∷ (r, Answer.rejected) ∷ d.answers;
  }
  | none ↦ record d { pending_return = some ret }
]

-- An event: the owner resolves `pendingReturn`, if there is one.
unfoldable pub fire : Dispatcher → Dispatcher
fire d = elim d.pending_return [
  | none ↦ d
  | some r ↦ record d { answers = (r, Answer.resolved) ∷ d.answers }
]

-- The callback that `onReqFinished` has, when the request of a resolved return ends.
unfoldable pub on_finished : Dispatcher → Dispatcher
on_finished d = record d { pending_return = none }

-- The destructor.
unfoldable pub on_delete : Dispatcher → Dispatcher
on_delete d = elim d.pending_return [
  | none ↦ d
  | some r ↦ record d { answers = (r, Answer.rejected) ∷ d.answers }
]

abbrev pub ids : List (ℕ × Answer) → List ℕ
ids [] = []
ids (a ∷ answers) = a.0 ∷ ids answers

abbrev pub new_dispatcher : Dispatcher
new_dispatcher = record { pending_return = none; answers = [] }

-- Calls with new returns, and events whose request ends before the next call.
pub data Dispatching : Dispatcher → Type 0 where
  begun : Dispatching new_dispatcher
  called :
      {d : Dispatcher} (ret : ℕ)
      → Dispatching d
      → NotIn ret (ids d.answers)
      → d.pending_return ≢ some ret
      → Dispatching (on_call d ret)
  fired : {d : Dispatcher} → Dispatching d → Dispatching (on_finished (fire d))

-- Every return is answered at most once, and the pending one is not answered.
pub record Once (d : Dispatcher) : Type 0 where
  pub distinct : Distinct (ids d.answers)
  pub open_return : (r : ℕ) → d.pending_return ≡ some r → NotIn r (ids d.answers)

-- A call between an event and the end of its request rejects the return that was resolved.
pub answered_twice :
    (d : Dispatcher) (a b : ℕ)
    → d.pending_return ≡ none
    → (on_call (fire (on_call d a)) b).answers
      ≡ (b, Answer.rejected) ∷ (a, Answer.rejected) ∷ (a, Answer.resolved) ∷ d.answers
unfolding on_call fire
answered_twice d a b idle = ground arith

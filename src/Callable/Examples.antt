-- ===== src/Callable/Examples.antt =====
-- The theorems on callables at concrete values.
use pxp_rpc.Base.{false, ℕ, ◌≡◌, refl, [], ◌∷◌, ◌++◌, none, some, arith}
use pxp_rpc.Base.Bytes.{le_bytes}
use pxp_rpc.RefPool.{Pool, empty_pool}
use pxp_rpc.RefPool.Chain.{NotIn}
use pxp_rpc.RefPool.History.{History, started}
use pxp_rpc.Server.Loop.{Reply}
use pxp_rpc.Callable.{Object, FunctionMap, resolve_object, Parameter, next_object}
use pxp_rpc.Callable.Laws.{next_object-resolve_object}
use pxp_rpc.Callable.Dispatcher.{Answer, Dispatcher, on_call, fire, new_dispatcher, answered_twice}

-- What fresh memory holds.
abbrev zeros : ℕ → ℕ
zeros i = 0

next_object-resolve_object_example :
    (q : Pool) × (r : Reply) × (i : ℕ) × (x : Parameter) × (resolve_object zeros empty_pool
        (some (Object.plain 42))
      ≡ some (q, r))
    × History (i ∷ []) q
    × NotIn i []
    × (r.result ≡ le_bytes 4 i)
    × (r.rejected ≡ false)
    × (next_object q (record { raw = r.result ++ (1 ∷ []); ser = none })
        ≡ some (some (Object.plain 42), x))
next_object-resolve_object_example =
    next_object-resolve_object zeros (Object.plain 42) (1 ∷ []) started (omega arith) (omega arith)

-- Two functions, "f" and "g".
abbrev two_functions : FunctionMap
two_functions = (102 ∷ [], 1) ∷ (103 ∷ [], 2) ∷ []

-- A call, an event, and another call.
abbrev waits : Dispatcher
waits = record { pending_return = some 2; answers = (1, Answer.resolved) ∷ [] }

answered_twice_example :
    (on_call (fire (on_call new_dispatcher 1)) 2).answers
    ≡ (2, Answer.rejected) ∷ (1, Answer.rejected) ∷ (1, Answer.resolved) ∷ []
answered_twice_example = answered_twice new_dispatcher 1 2 refl

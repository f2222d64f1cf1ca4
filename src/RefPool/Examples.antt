-- ===== src/RefPool/Examples.antt =====
-- The theorems on the reference pool at concrete pools.
use pxp_rpc.Base.{Takes, ℕ, ◌≡◌, refl, [], ◌∷◌, ◌++◌, none, some, arith, All, ◌>>=◌}
use pxp_rpc.RefPool.{
  Pool, empty_pool, chained, expand_ref_pool, pop_free, alloc_ref, free_ref, release_calls,
  close_pool,
}
use pxp_rpc.RefPool.Chain.{entry, NotIn, IsClean}
use pxp_rpc.RefPool.Invariant.{Inv}
use pxp_rpc.RefPool.Close.{pending_calls, close_pool_lem}
use pxp_rpc.RefPool.History.{
  History, started, allocated, Tracks, History-Tracks, History-alloc_ref, History-free_ref,
}
use pxp_rpc.RefPool.Faults.{alloc_pair, double_free}

-- The pool after two allocations from the empty one: entries 0 and 1 are held.
abbrev two_taken : Pool
unfolding expand_ref_pool chained
two_taken = record (expand_ref_pool empty_pool) { free_entry = some 2 }

one_taken : Pool
unfolding expand_ref_pool chained
one_taken = record (expand_ref_pool empty_pool) { free_entry = some 1 }

two_taken-History : History (1 ∷ 0 ∷ []) two_taken
unfolding alloc_ref pop_free expand_ref_pool chained one_taken
two_taken-History =
    allocated {p = one_taken} (allocated started (omega arith) refl) (omega arith) refl

History-Tracks_example : Tracks (1 ∷ 0 ∷ []) two_taken
History-Tracks_example = History-Tracks two_taken-History

History-alloc_ref_example :
    (i : ℕ) × (q : Pool) × (alloc_ref two_taken ≡ some (i, q))
    × NotIn i (1 ∷ 0 ∷ [])
    × IsClean q.refs i
    × All (λ j. entry q.refs j ≡ entry two_taken.refs j) (1 ∷ 0 ∷ [])
unfolding expand_ref_pool chained
History-alloc_ref_example = History-alloc_ref two_taken-History (omega arith)

History-free_ref_example :
    (q : Pool) × (free_ref two_taken 0 ≡ some q)
    × (q.calls ≡ two_taken.calls ++ release_calls (entry two_taken.refs 0))
    × All (λ j. entry q.refs j ≡ entry two_taken.refs j) (1 ∷ [])
History-free_ref_example = History-free_ref two_taken-History (Takes.there Takes.here)

-- One entry, in use, with the object 5 and the callback 9.
abbrev one_object : Pool
one_object = record {
  refs = record { object = some 5; on_free = some 9; next_free = none } ∷ [];
  free_entry = none;
  size = 1;
  calls = [];
}

one_object-Inv : Inv one_object []
one_object-Inv = record {
  chain = refl;
  distinct = tt;
  clean = tt;
  sized = refl;
  narrow = omega arith;
}

double_free_example : (free_ref one_object 0 >>= λ q. free_ref q 0 >>= alloc_pair) ≡ some (0, 0)
double_free_example = double_free one_object [] 0 one_object-Inv (omega arith)

close_pool_example :
    (q : Pool) × (close_pool one_object ≡ some q)
    × (q.calls ≡ pending_calls one_object.refs)
    × ((i : ℕ) → IsClean q.refs i)
    × (close_pool q ≡ some q)
close_pool_example = close_pool_lem one_object [] one_object-Inv

-- ===== src/RefPool/Faults.antt =====
-- Where the reference pool of c/pxprpc/server.c goes wrong: an index that is released twice, and
-- `uint16_t ref_pool_size`.
use pxp_rpc.Base.{
  ℕ, ◌+◌, ◌^◌, ◌<◌, ◌≡◌, refl, List, [], Option, none, some, arith, length, set, length-set,
  length-append, get_or-set_self, length-take, append-nil, ◌>>=◌, take,
}
use pxp_rpc.RefPool.{
  Ref, Pool, expand_count, chained, expand_ref_pool, pop_free, alloc_ref, free_ref, close_pool,
  close_refs,
}
use pxp_rpc.RefPool.Chain.{null_ref, get_elem?-entry, length-chained}
use pxp_rpc.RefPool.Invariant.{Inv, IsLive}

-- The indices that two allocations answer.
abbrev pub alloc_pair : Pool → Option (ℕ × ℕ)
alloc_pair p = do (i, q) ← alloc_ref p; (j, r) ← alloc_ref q; some (i, j)

-- Releasing an index twice makes the pool hand it out twice: the next two allocations both answer
-- it. Nothing in `FreeRef` or `pxprpc_server_free_ref` stops this.
pub double_free :
    (p : Pool) (fl : List ℕ) (i : ℕ)
    → Inv p fl
    → IsLive p fl i
    → (free_ref p i >>= λ q. free_ref q i >>= alloc_pair) ≡ some (i, i)
unfolding free_ref alloc_ref pop_free
double_free p fl i v (inside, fresh) =
    let r1 : Ref = record { object = none; on_free = none; next_free = p.free_entry } in
    let r2 : Ref = record { object = none; on_free = none; next_free = some i } in
    let refs1 = set p.refs i r1 in
    let refs2 = set refs1 i r2 in
    let in1 : i < length refs1 = rw (length-set p.refs i r1) inside in
    let in2 : i < length refs2 = rw (length-set refs1 i r2) in1 in
    rw
      (
        get_elem?-entry p.refs i inside,
        get_elem?-entry refs1 i in1,
        get_elem?-entry refs2 i in2,
        get_or-set_self refs1 i r2 null_ref in1,
        get_elem?-entry refs2 i in2,
      )
      refl

-- A full pool of 2^16 - 64 entries that grows gets the size 0. A pool of that size whose entries are
-- all taken shrinks to 64 entries at the next growth, and closing it releases nothing.
pub expand_ref_pool_wraps :
    (p q : Pool)
    → Inv p []
    → length p.refs + expand_count ≡ 2 ^ 16
    → q.size ≡ (expand_ref_pool p).size
    → (length (expand_ref_pool p).refs ≡ 2 ^ 16)
      × (length (expand_ref_pool q).refs ≡ expand_count)
      × (close_pool q ≡ some q)
unfolding expand_ref_pool close_pool close_refs
expand_ref_pool_wraps p q v full same =
    let zero_size : q.size ≡ 0 = omega (arith, same, v.sized) in
    (
      omega (
        arith,
        length-append (take p.size p.refs) (chained p.size 63 p.free_entry),
        length-take p.size p.refs,
        v.sized,
        length-chained p.size 63 p.free_entry,
      ),
      omega (
        arith,
        length-append (take q.size q.refs) (chained q.size 63 q.free_entry),
        length-take q.size q.refs,
        zero_size,
        length-chained q.size 63 q.free_entry,
      ),
      rw (zero_size, append-nil) refl,
    )

-- ===== src/RefPool.antt =====
-- The reference pool of a server context, c/pxprpc/server.c: `ref_pool`, `free_ref_entry` and
-- `ref_pool_size` of `struct pxprpc_server_context_exports` (c/include/pxprpc.h). A pointer to an
-- entry is its index. The block may move when it grows, and the pool grows only when no entry is
-- free, so no stale `nextFree` is followed. `none` is an access outside the block.
pub mod Chain
pub mod Invariant
pub mod Close
pub mod History
pub mod Faults
mod Examples
use pxp_rpc.Base.{
  ℕ, zero, suc, ◌+◌, ◌%◌, ◌^◌, Bool, List, [], ◌∷◌, ◌++◌, Option, none, some, length, take, set,
  get_elem?, ◌>>=◌,
}

-- `pxprpc_ref`; objects and callbacks are the pointers, and `none` is NULL.
pub record Ref : Type 0 where
  pub object : Option ℕ
  pub on_free : Option ℕ
  pub next_free : Option ℕ

-- `calls` is no field of the source: it lists the `on_free` calls made, each with its object, the
-- latest last.
pub record Pool : Type 0 where
  pub refs : List Ref
  pub free_entry : Option ℕ
  pub size : ℕ
  pub calls : List (ℕ × Option ℕ)

-- The pool of a context that was just started.
abbrev pub empty_pool : Pool
empty_pool = record { refs = []; free_entry = none; size = 0; calls = [] }

-- `REF_POOL_EXPAND_COUNT`
abbrev pub expand_count : ℕ
expand_count = 64

-- `n + 1` unused entries from index `i` on, each chained to the next and the last to `after`.
unfoldable pub chained : ℕ → ℕ → Option ℕ → List Ref
chained i zero after = record { object = none; on_free = none; next_free = after } ∷ []
chained i (suc n) after =
    record { object = none; on_free = none; next_free = some (suc i) } ∷ chained (suc i) n after

-- The block is resized to `end+1` entries, those from `start` on are set up, and the new size is
-- stored in 16 bits.
unfoldable pub expand_ref_pool : Pool → Pool
expand_ref_pool p = record p {
  refs = take p.size p.refs ++ chained p.size 63 p.free_entry;
  free_entry = some p.size;
  size = (p.size + expand_count) % 2 ^ 16;
}

-- Takes the entry at the head of the free list.
unfoldable pub pop_free : Pool → Option (ℕ × Pool)
pop_free p = do
  i ← p.free_entry
  r ← get_elem? p.refs i
  some (i, record p { free_entry = r.next_free })

-- `pxprpc_server_alloc_ref`: the index of the entry.
unfoldable pub alloc_ref : Pool → Option (ℕ × Pool)
alloc_ref p = elim p.free_entry [ none ↦ pop_free (expand_ref_pool p) | some i ↦ pop_free p ]

-- What is called when a reference goes: `on_free`, if it is set.
abbrev pub release_calls : Ref → List (ℕ × Option ℕ)
release_calls r = elim r.on_free [ none ↦ [] | some f ↦ (f, r.object) ∷ [] ]

-- `pxprpc_server_free_ref`
unfoldable pub free_ref : Pool → ℕ → Option Pool
free_ref p i = do
  r ← get_elem? p.refs i
  let unused : Ref = record { object = none; on_free = none; next_free = p.free_entry }
  some (record p {
    refs = set p.refs i unused;
    free_entry = some i;
    calls = p.calls ++ release_calls r;
  })

-- The caller of `alloc_ref` fills in the entry.
unfoldable pub fill_ref : Pool → ℕ → Option ℕ → Option ℕ → Option Pool
fill_ref p i object on_free = do
  r ← get_elem? p.refs i
  some (record p { refs = set p.refs i (record r { object = object; on_free = on_free }) })

-- The loop of `pxprpc_server_close` over the first `n` entries, with the calls it makes.
unfoldable pub close_refs : ℕ → List Ref → Option (List Ref × List (ℕ × Option ℕ))
close_refs zero rs = some (rs, [])
close_refs (suc n) [] = none
close_refs (suc n) (r ∷ rs) = do
  (rs', calls) ← close_refs n rs
  some (record r { object = none; on_free = none } ∷ rs', release_calls r ++ calls)

unfoldable pub close_pool : Pool → Option Pool
close_pool p = do
  (rs, calls) ← close_refs p.size p.refs
  some (record p { refs = rs; calls = p.calls ++ calls })

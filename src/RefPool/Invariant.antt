-- ===== src/RefPool/Invariant.antt =====
-- The free list of the reference pool (c/pxprpc/server.c), and what each operation does to it.
use pxp_rpc.Base.{
  ℕ, suc, ◌+◌, ◌^◌, ◌<◌, ◌≡◌, ◌≢◌, refl, sym, ◌∙◌, List, [], ◌∷◌, ◌++◌, Option, none, some, arith,
  length, take-length, take, set, All, length-append, length-set, get_or-set_self, get_or-set_ne,
}
use pxp_rpc.RefPool.Chain.{
  null_ref, entry, get_elem?-entry, Chain, NotIn, Distinct, IsClean, Chain-set, All-IsClean-set,
  span, length-span, NotIn-span, span-Distinct, length-chained, entry-append_lt, chained-Chain,
}
use pxp_rpc.RefPool.{
  Ref, Pool, empty_pool, expand_count, chained, expand_ref_pool, pop_free, alloc_ref, free_ref,
  release_calls, fill_ref,
}

-- The pool is well formed, and `fl` are its free entries in order.
pub record Inv (p : Pool) (fl : List ℕ) : Type 0 where
  pub chain : Chain p.refs p.free_entry fl
  pub distinct : Distinct fl
  pub clean : All (IsClean p.refs) fl
  pub sized : p.size ≡ length p.refs
  pub narrow : length p.refs < 2 ^ 16

-- In use: an entry of the block that is not free.
abbrev pub IsLive : Pool → List ℕ → ℕ → Type 0
IsLive p fl i = (i < length p.refs) × NotIn i fl

pub empty_pool-Inv : Inv empty_pool []
empty_pool-Inv = record {
  chain = refl;
  distinct = tt;
  clean = tt;
  sized = refl;
  narrow = omega arith;
}

-- `pxprpc_server_free_ref` of an entry in use.
pub free_ref-Inv :
    (p : Pool) (fl : List ℕ) (i : ℕ)
    → Inv p fl
    → IsLive p fl i
    → (q : Pool) × (free_ref p i ≡ some q)
      × Inv q (i ∷ fl)
      × (length q.refs ≡ length p.refs)
      × (q.calls ≡ p.calls ++ release_calls (entry p.refs i))
      × ((j : ℕ) → i ≢ j → entry q.refs j ≡ entry p.refs j)
unfolding free_ref
free_ref-Inv p fl i v (inside, fresh) =
    let r' : Ref = record { object = none; on_free = none; next_free = p.free_entry } in
    (
      record p {
        refs = set p.refs i r';
        free_entry = some i;
        calls = p.calls ++ release_calls (entry p.refs i);
      },
      rw (get_elem?-entry p.refs i inside) refl,
      record {
        chain = (
          refl,
          rw (length-set p.refs i r') inside,
          rw (get_or-set_self p.refs i r' null_ref inside)
              (Chain-set p.refs p.free_entry fl i r' fresh v.chain),
        );
        distinct = (fresh, v.distinct);
        clean = (
          rw (get_or-set_self p.refs i r' null_ref inside) (refl, refl),
          All-IsClean-set p.refs fl i r' fresh v.clean,
        );
        sized = rw (length-set p.refs i r') v.sized;
        narrow = rw (length-set p.refs i r') v.narrow;
      },
      length-set p.refs i r',
      refl,
      λ j ne. get_or-set_ne p.refs i j r' null_ref ne,
    )

-- Taking the head of the free list.
pop_free-Inv :
    (p : Pool) (i : ℕ) (fl : List ℕ)
    → Inv p (i ∷ fl)
    → (q : Pool) × (pop_free p ≡ some (i, q)) × Inv q fl × (q.refs ≡ p.refs) × (q.calls ≡ p.calls)
unfolding pop_free
pop_free-Inv p i fl v =
    let (h, inside, c) = v.chain in
    (
      record p { free_entry = (entry p.refs i).next_free },
      rw (h, get_elem?-entry p.refs i inside) refl,
      record {
        chain = c;
        distinct = v.distinct.1;
        clean = v.clean.1;
        sized = v.sized;
        narrow = v.narrow;
      },
      refl,
      refl,
    )

expand_ref_pool-calls : (p : Pool) → (expand_ref_pool p).calls ≡ p.calls
unfolding expand_ref_pool
expand_ref_pool-calls p = refl

-- A full pool grows by `expand_count` entries, and they are the free ones.
expand_ref_pool-Inv :
    (p : Pool)
    → Inv p []
    → length p.refs + expand_count < 2 ^ 16
    → Inv (expand_ref_pool p) (span (length p.refs) expand_count)
      × (length (expand_ref_pool p).refs ≡ length p.refs + expand_count)
      × ((j : ℕ) → j < length p.refs → entry (expand_ref_pool p).refs j ≡ entry p.refs j)
unfolding expand_ref_pool
expand_ref_pool-Inv p v room =
    let n = length p.refs in
    let kept : take p.size p.refs ≡ p.refs = rw v.sized (take-length p.refs) in
    let same : (take p.size p.refs ++ chained p.size 63 p.free_entry)
        ≡ (p.refs ++ chained n 63 none) =
      rw (kept, v.sized, v.chain) refl in
    let (c, k) = chained-Chain p.refs n 63 refl in
    let len : length (p.refs ++ chained n 63 none) ≡ n + expand_count =
      omega (arith, length-append p.refs (chained n 63 none), length-chained n 63 none) in
    rw (same, v.sized)
      (
        record {
          chain = c;
          distinct = span-Distinct n expand_count;
          clean = k;
          sized = omega (arith, len);
          narrow = omega (arith, len);
        },
        len,
        λ j h. entry-append_lt p.refs (chained n 63 none) j h,
      )

-- `i` was free and is now in use, unfilled; what was in use is untouched; and no entry is lost.
pub record Allocates (p : Pool) (fl : List ℕ) (i : ℕ) (q : Pool) (fl' : List ℕ) : Type 0 where
  pub valid : Inv q fl'
  pub unused : ¬ IsLive p fl i
  pub used : IsLive q fl' i
  pub unfilled : IsClean q.refs i
  pub kept : (j : ℕ) → IsLive p fl j → IsLive q fl' j × (i ≢ j) × (entry q.refs j ≡ entry p.refs j)
  pub counted : length q.refs + length fl ≡ length p.refs + suc (length fl')
  pub quiet : q.calls ≡ p.calls

pop_free-Allocates :
    (p : Pool) (i : ℕ) (fl : List ℕ)
    → Inv p (i ∷ fl)
    → (q : Pool) × (pop_free p ≡ some (i, q)) × Allocates p (i ∷ fl) i q fl
pop_free-Allocates p i fl v =
    let (q, e, w, same, quiet) = pop_free-Inv p i fl v in
    (
      q,
      e,
      record {
        valid = w;
        unused = λ h. h.1.0 refl;
        used = rw same (v.chain.1, v.distinct.0);
        unfilled = rw same v.clean.0;
        kept = λ j h. rw same ((h.0, h.1.1), (λ e'. h.1.0 (sym e')), refl);
        counted = rw same refl;
        quiet = quiet;
      },
    )

-- `pxprpc_server_alloc_ref` from a valid pool with less than 2^16 - 64 entries succeeds.
pub alloc_ref-Allocates :
    (p : Pool) (fl : List ℕ)
    → Inv p fl
    → length p.refs + expand_count < 2 ^ 16
    → (i : ℕ) × (q : Pool) × (fl' : List ℕ) × (alloc_ref p ≡ some (i, q)) × Allocates p fl i q fl'
unfolding alloc_ref
alloc_ref-Allocates p (i ∷ fl) v room =
    let (q, e, a) = pop_free-Allocates p i fl v in (i, q, fl, rw (v.chain.0, alloc_ref) e, a)
alloc_ref-Allocates p [] v room =
    let n = length p.refs in
    let (w, len, same) = expand_ref_pool-Inv p v room in
    let (q, e, a) = pop_free-Allocates (expand_ref_pool p) n (span (suc n) 63) w in
    (
      n,
      q,
      span (suc n) 63,
      rw (v.chain, alloc_ref) e,
      record {
        valid = a.valid;
        unused = λ h. absurd (omega (arith, h.0));
        used = a.used;
        unfilled = a.unfilled;
        kept = λ j h.
            let (l, ne, k) = a.kept j (omega (arith, h.0, len), NotIn-span j n 64 h.0) in
            (l, ne, k ∙ same j h.0);
        counted = omega (arith, a.counted, len, length-span n 64);
        quiet = a.quiet ∙ expand_ref_pool-calls p;
      },
    )

-- Filling in an entry that is in use.
pub fill_ref-Inv :
    (p : Pool) (fl : List ℕ) (i : ℕ) (object on_free : Option ℕ)
    → Inv p fl
    → IsLive p fl i
    → (q : Pool) × (fill_ref p i object on_free ≡ some q)
      × Inv q fl
      × (length q.refs ≡ length p.refs)
      × ((entry q.refs i).object ≡ object)
      × ((entry q.refs i).on_free ≡ on_free)
      × ((j : ℕ) → i ≢ j → entry q.refs j ≡ entry p.refs j)
      × (q.calls ≡ p.calls)
unfolding fill_ref
fill_ref-Inv p fl i object on_free v (inside, fresh) =
    let r' : Ref = record (entry p.refs i) { object = object; on_free = on_free } in
    let l = length-set p.refs i r' in
    let self = get_or-set_self p.refs i r' null_ref inside in
    (
      record p { refs = set p.refs i r' },
      rw (get_elem?-entry p.refs i inside) refl,
      record {
        chain = Chain-set p.refs p.free_entry fl i r' fresh v.chain;
        distinct = v.distinct;
        clean = All-IsClean-set p.refs fl i r' fresh v.clean;
        sized = rw l v.sized;
        narrow = rw l v.narrow;
      },
      l,
      rw self refl,
      rw self refl,
      λ j ne. get_or-set_ne p.refs i j r' null_ref ne,
      refl,
    )

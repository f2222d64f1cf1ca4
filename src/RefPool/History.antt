-- ===== src/RefPool/History.antt =====
-- Any history of allocations and releases of the reference pool (c/pxprpc/server.c) in which only
-- entries in use are released.
use mathlib.Core.Path.{subst}
use pxp_rpc.Base.{
  ℕ, ◌+◌, ◌^◌, ◌<◌, ◌≡◌, ◌≢◌, refl, sym, List, [], ◌∷◌, ◌++◌, Option, some, arith, length, All,
  Takes, Takes-All, Takes-length, same_some, Takes, Takes-All, Takes-length,
}
use pxp_rpc.RefPool.{Pool, empty_pool, expand_count, alloc_ref, free_ref, fill_ref, release_calls}
use pxp_rpc.RefPool.Chain.{entry, NotIn, Distinct, IsClean}
use pxp_rpc.RefPool.Invariant.{
  Inv, IsLive, empty_pool-Inv, free_ref-Inv, Allocates, alloc_ref-Allocates, fill_ref-Inv,
}

-- `History live p`: the calls so far ended in `p`, and `live` is what they hold.
pub data History : List ℕ → Pool → Type 0 where
  started : History [] empty_pool
  allocated :
      {live : List ℕ} {p q : Pool} {i : ℕ}
      → History live p
      → length p.refs + expand_count < 2 ^ 16
      → alloc_ref p ≡ some (i, q)
      → History (i ∷ live) q
  released :
      {live rest : List ℕ} {p q : Pool} {i : ℕ}
      → History live p
      → Takes i live rest
      → free_ref p i ≡ some q
      → History rest q
  filled :
      {live rest : List ℕ} {p q : Pool} {i : ℕ} (object on_free : Option ℕ)
      → History live p
      → Takes i live rest
      → fill_ref p i object on_free ≡ some q
      → History live q

-- The indices that are held are distinct entries in use, and each entry is either held or free.
pub record Tracks (live : List ℕ) (p : Pool) : Type 0 where
  pub free : List ℕ
  pub valid : Inv p free
  pub apart : Distinct live
  pub in_use : All (IsLive p free) live
  pub counted : length live + length free ≡ length p.refs

Takes-Distinct : {i : ℕ} {xs ys : List ℕ} → Takes i xs ys → Distinct xs → NotIn i ys × Distinct ys
Takes-Distinct Takes.here (n, d) = (n, d)
Takes-Distinct (Takes.there t) (n, d) =
    let (ni, dy) = Takes-Distinct t d in
    let (ne, ny) = Takes-All _ t n in (((λ e. ne (sym e)), ni), (ny, dy))

All-map {ℓ κ} :
    (P : ℕ → Type ℓ) (Q : ℕ → Type κ) (xs : List ℕ) → ((j : ℕ) → P j → Q j) → All P xs → All Q xs
All-map P Q [] f ps = tt
All-map P Q (x ∷ xs) f (p, ps) = (f x p, All-map P Q xs f ps)

All-zip {ℓ κ} :
    (P : ℕ → Type ℓ) (Q : ℕ → Type κ) (xs : List ℕ) → All P xs → All Q xs → All (λ j. P j × Q j) xs
All-zip P Q [] ps qs = tt
All-zip P Q (x ∷ xs) (p, ps) (q, qs) = ((p, q), All-zip P Q xs ps qs)

allocated-Tracks :
    {live : List ℕ} {p q : Pool} {i : ℕ} {fl fl' : List ℕ}
    → Allocates p fl i q fl'
    → Distinct live
    → All (IsLive p fl) live
    → length live + length fl ≡ length p.refs
    → Tracks (i ∷ live) q
allocated-Tracks {live} {p} {q} {i} {fl} {fl'} a apart in_use counted = record {
  free = fl';
  valid = a.valid;
  apart = (All-map (IsLive p fl) (λ j. i ≢ j) live (λ j h. (a.kept j h).1) in_use, apart);
  in_use = (a.used, All-map (IsLive p fl) (IsLive q fl') live (λ j h. (a.kept j h).0) in_use);
  counted = omega (arith, a.counted);
}

-- After any history the indices that are held are distinct entries of the block, and each entry is
-- either held or free: none is lost.
pub History-Tracks : {live : List ℕ} {p : Pool} → History live p → Tracks live p
History-Tracks started = record {
  free = [];
  valid = empty_pool-Inv;
  apart = tt;
  in_use = tt;
  counted = refl;
}
History-Tracks (allocated {p = p} {q = q} {i = i} h room e) =
    let t = History-Tracks h in
    let (i', q', fl', e', a) = alloc_ref-Allocates p t.free t.valid room in
    let same : ◌≡◌ {A = ℕ × Pool} (i', q') (i, q) = same_some e' e in
    allocated-Tracks (subst (λ r. Allocates p t.free r.0 r.1 fl') same a) t.apart t.in_use t.counted
History-Tracks (released {live = live} {rest = rest} {p = p} {q = q} {i = i} h k e) =
    let t = History-Tracks h in
    let (li, lrest) = Takes-All (IsLive p t.free) k t.in_use in
    let (fresh, apart) = Takes-Distinct k t.apart in
    let (q', e', v, len, _, _) = free_ref-Inv p t.free i t.valid li in
    let same : q' ≡ q = same_some e' e in
    subst (Tracks rest) same (record {
      free = i ∷ t.free;
      valid = v;
      apart = apart;
      in_use =
          All-map (λ j. (i ≢ j) × IsLive p t.free j) (IsLive q' (i ∷ t.free)) rest
            (λ j (ne, l). (omega (arith, l.0, len), ((λ e. ne (sym e)), l.1)))
            (All-zip _ _ rest fresh lrest);
      counted = omega (arith, t.counted, Takes-length k, len);
    })
History-Tracks (filled {live = live} {p = p} {q = q} {i = i} object on_free h k e) =
    let t = History-Tracks h in
    let (li, _) = Takes-All (IsLive p t.free) k t.in_use in
    let (q', e', v, len, _, _, _, _) = fill_ref-Inv p t.free i object on_free t.valid li in
    let same : q' ≡ q = same_some e' e in
    subst (Tracks live) same (record {
      free = t.free;
      valid = v;
      apart = t.apart;
      in_use =
          All-map (IsLive p t.free) (IsLive q' t.free) live (λ j l. (omega (arith, l.0, len), l.1))
            t.in_use;
      counted = omega (arith, t.counted, len);
    })

-- After any history, while the block has less than 2^16 - 64 entries, an allocation succeeds with an
-- index that nobody holds, and its entry has no object and no callback.
pub History-alloc_ref :
    {live : List ℕ} {p : Pool}
    → History live p
    → length p.refs + expand_count < 2 ^ 16
    → (i : ℕ) × (q : Pool) × (alloc_ref p ≡ some (i, q))
      × NotIn i live
      × IsClean q.refs i
      × All (λ j. entry q.refs j ≡ entry p.refs j) live
History-alloc_ref {live} {p} h room =
    let t = History-Tracks h in
    let (i, q, fl', e, a) = alloc_ref-Allocates p t.free t.valid room in
    (
      i,
      q,
      e,
      All-map (IsLive p t.free) (λ j. i ≢ j) live (λ j l. (a.kept j l).1) t.in_use,
      a.unfilled,
      All-map (IsLive p t.free) _ live (λ j l. (a.kept j l).2) t.in_use,
    )

-- After any history, releasing a held index succeeds, calls exactly the callback of its entry, if
-- there is one, with its object, and leaves the other held entries alone.
pub History-free_ref :
    {live rest : List ℕ} {p : Pool} {i : ℕ}
    → History live p
    → Takes i live rest
    → (q : Pool) × (free_ref p i ≡ some q)
      × (q.calls ≡ p.calls ++ release_calls (entry p.refs i))
      × All (λ j. entry q.refs j ≡ entry p.refs j) rest
History-free_ref {live} {rest} {p} {i} h k =
    let t = History-Tracks h in
    let (li, lrest) = Takes-All (IsLive p t.free) k t.in_use in
    let (fresh, _) = Takes-Distinct k t.apart in
    let (q, e, _, _, calls, same) = free_ref-Inv p t.free i t.valid li in
    (q, e, calls, All-map (λ j. i ≢ j) _ rest same fresh)

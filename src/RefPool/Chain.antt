-- ===== src/RefPool/Chain.antt =====
-- Chains of free entries in the reference pool of c/pxprpc/server.c.
use mathlib.Core.Path.{subst}
use pxp_rpc.Base.{
  ℕ, zero, suc, ◌≤◌, ◌<◌, ◌≡◌, ◌≢◌, refl, ap, List, [], ◌∷◌, ◌++◌, Option, none, some, arith,
  length, append_assoc, set, get_elem?, get_or, All, length-append, length-set, get_or-set_ne,
}
use pxp_rpc.RefPool.{Ref, chained}

abbrev pub null_ref : Ref
null_ref = record { object = none; on_free = none; next_free = none }

abbrev pub entry : List Ref → ℕ → Ref
entry rs i = get_or rs i null_ref

pub get_elem?-entry : (rs : List Ref) (i : ℕ) → i < length rs → get_elem? rs i ≡ some (entry rs i)
get_elem?-entry [] i h = absurd (omega arith)
get_elem?-entry (r ∷ rs) zero h = refl
get_elem?-entry (r ∷ rs) (suc i) h = get_elem?-entry rs i (omega arith)

-- From the entry `e` the links lead through the indices of the list, and end there.
abbrev pub Chain : List Ref → Option ℕ → List ℕ → Type 0
Chain rs e [] = e ≡ none
Chain rs e (i ∷ fl) = (e ≡ some i) × (i < length rs) × Chain rs (entry rs i).next_free fl

abbrev pub NotIn : ℕ → List ℕ → Type 0
NotIn i = All (λ j. i ≢ j)

abbrev pub Distinct : List ℕ → Type 0
Distinct [] = Unit {0}
Distinct (i ∷ is) = NotIn i is × Distinct is

-- No object, no callback.
abbrev pub IsClean : List Ref → ℕ → Type 0
IsClean rs i = ((entry rs i).object ≡ none) × ((entry rs i).on_free ≡ none)

-- A write elsewhere leaves a chain alone.
pub Chain-set :
    (rs : List Ref) (e : Option ℕ) (fl : List ℕ) (i : ℕ) (r : Ref)
    → NotIn i fl
    → Chain rs e fl
    → Chain (set rs i r) e fl
Chain-set rs e [] i r n c = c
Chain-set rs e (j ∷ fl) i r (ne, n) (h, inside, c) =
    let same : entry (set rs i r) j ≡ entry rs j = get_or-set_ne rs i j r null_ref ne in
    (h, rw (length-set rs i r) inside, rw same (Chain-set rs (entry rs j).next_free fl i r n c))

pub All-IsClean-set :
    (rs : List Ref) (fl : List ℕ) (i : ℕ) (r : Ref)
    → NotIn i fl
    → All (IsClean rs) fl
    → All (IsClean (set rs i r)) fl
All-IsClean-set rs [] i r n c = tt
All-IsClean-set rs (j ∷ fl) i r (ne, n) (c, cs) =
    (rw (get_or-set_ne rs i j r null_ref ne) c, All-IsClean-set rs fl i r n cs)

-- An index out of the block is in no chain.
pub NotIn-Chain :
    (rs : List Ref) (e : Option ℕ) (fl : List ℕ) (i : ℕ)
    → Chain rs e fl
    → length rs ≤ i
    → NotIn i fl
NotIn-Chain rs e [] i c h = tt
NotIn-Chain rs e (j ∷ fl) i (_, inside, c) h = (omega arith, NotIn-Chain rs _ fl i c h)

-- The indices from `i` on.
abbrev pub span : ℕ → ℕ → List ℕ
span i zero = []
span i (suc n) = i ∷ span (suc i) n

pub length-span : (i n : ℕ) → length (span i n) ≡ n
length-span i zero = refl
length-span i (suc n) = ap suc (length-span (suc i) n)

pub NotIn-span : (j i n : ℕ) → j < i → NotIn j (span i n)
NotIn-span j i zero h = tt
NotIn-span j i (suc n) h = (omega arith, NotIn-span j (suc i) n (omega arith))

pub span-Distinct : (i n : ℕ) → Distinct (span i n)
span-Distinct i zero = tt
span-Distinct i (suc n) = (NotIn-span i (suc i) n (omega arith), span-Distinct (suc i) n)

pub length-chained : (i n : ℕ) (e : Option ℕ) → length (chained i n e) ≡ suc n
unfolding chained
length-chained i zero e = refl
length-chained i (suc n) e = ap suc (length-chained (suc i) n e)

entry-append :
    (pre post : List Ref) (r : Ref) (i : ℕ) → i ≡ length pre → entry (pre ++ (r ∷ post)) i ≡ r
entry-append [] post r zero h = refl
entry-append [] post r (suc i) h = absurd (omega arith)
entry-append (x ∷ pre) post r zero h = absurd (omega arith)
entry-append (x ∷ pre) post r (suc i) h = entry-append pre post r i (omega arith)

pub entry-append_lt :
    (pre post : List Ref) (i : ℕ) → i < length pre → entry (pre ++ post) i ≡ entry pre i
entry-append_lt [] post i h = absurd (omega arith)
entry-append_lt (x ∷ pre) post zero h = refl
entry-append_lt (x ∷ pre) post (suc i) h = entry-append_lt pre post i (omega arith)

-- The new entries form a chain, and are unused.
pub chained-Chain :
    (pre : List Ref) (i n : ℕ)
    → i ≡ length pre
    → Chain (pre ++ chained i n none) (some i) (span i (suc n))
      × All (IsClean (pre ++ chained i n none)) (span i (suc n))
unfolding chained
chained-Chain pre i zero h =
    let r : Ref = null_ref in
    let e = entry-append pre [] r i h in
    ((refl, rw (length-append pre (r ∷ [])) (omega arith), rw e refl), (rw e (refl, refl), tt))
chained-Chain pre i (suc n) h =
    let r : Ref = record { object = none; on_free = none; next_free = some (suc i) } in
    let post = chained (suc i) n none in
    let e = entry-append pre post r i h in
    let split : (pre ++ (r ∷ [])) ++ post ≡ pre ++ (r ∷ post) = append_assoc pre (r ∷ []) post in
    let (c, k) =
      chained-Chain (pre ++ (r ∷ [])) (suc i) n (omega (arith, length-append pre (r ∷ []))) in
    (
      (
        refl,
        rw (length-append pre (r ∷ post)) (omega arith),
        rw e (subst (λ rs. Chain rs (some (suc i)) (span (suc i) (suc n))) split c),
      ),
      (rw e (refl, refl), subst (λ rs. All (IsClean rs) (span (suc i) (suc n))) split k),
    )

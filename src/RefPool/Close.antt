-- ===== src/RefPool/Close.antt =====
-- What `pxprpc_server_close` of c/pxprpc/server.c does to the entries of the reference pool.
use pxp_rpc.Base.{
  ℕ, zero, suc, ◌≡◌, refl, ap, List, [], ◌∷◌, ◌++◌, append-nil, Option, none, some, arith, length,
}
use pxp_rpc.RefPool.{Ref, Pool, close_refs, close_pool, release_calls}
use pxp_rpc.RefPool.Chain.{IsClean}
use pxp_rpc.RefPool.Invariant.{Inv}

-- The callbacks that are set, in the order of the entries, each with its object.
unfoldable pub pending_calls : List Ref → List (ℕ × Option ℕ)
pending_calls [] = []
pending_calls (r ∷ rs) = release_calls r ++ pending_calls rs

close_refs_lem :
    (n : ℕ) (rs : List Ref)
    → n ≡ length rs
    → (rs' : List Ref) × (close_refs n rs ≡ some (rs', pending_calls rs))
      × (length rs' ≡ length rs)
      × ((i : ℕ) → IsClean rs' i)
      × (close_refs n rs' ≡ some (rs', []))
unfolding close_refs pending_calls
close_refs_lem zero [] h = ([], refl, refl, λ i. (refl, refl), refl)
close_refs_lem zero (r ∷ rs) h = absurd (omega arith)
close_refs_lem (suc n) [] h = absurd (omega arith)
close_refs_lem (suc n) (r ∷ rs) h =
    let (rs', e, len, clean, again) = close_refs_lem n rs (omega arith) in
    (
      record r { object = none; on_free = none } ∷ rs',
      rw e refl,
      ap suc len,
      cleared rs' (record r { object = none; on_free = none }) (refl, refl) clean,
      rw again refl,
    )
  where
    cleared :
        (rs' : List Ref) (r' : Ref)
        → (r'.object ≡ none) × (r'.on_free ≡ none)
        → ((i : ℕ) → IsClean rs' i)
        → (i : ℕ) → IsClean (r' ∷ rs') i
    cleared rs' r' c cs zero = c
    cleared rs' r' c cs (suc i) = cs i

-- Closing a valid pool calls every callback that is set once, in the order of the entries and each
-- with its object, leaves no entry with an object or a callback, and closing again calls nothing.
pub close_pool_lem :
    (p : Pool) (fl : List ℕ)
    → Inv p fl
    → (q : Pool) × (close_pool p ≡ some q)
      × (q.calls ≡ p.calls ++ pending_calls p.refs)
      × ((i : ℕ) → IsClean q.refs i)
      × (close_pool q ≡ some q)
unfolding close_pool
close_pool_lem p fl v =
    let (rs, e, len, clean, again) = close_refs_lem p.size p.refs v.sized in
    (
      record p { refs = rs; calls = p.calls ++ pending_calls p.refs },
      rw e refl,
      refl,
      clean,
      rw (again, append-nil) refl,
    )

-- ===== src/Pipe/Servers.antt =====
-- The list of servers of c/pxprpc_pipe/pxprpc_pipe.c: `pxprpc_pipe_serve` and `pxprpc_pipe_connect`.
use pxp_rpc.Base.{
  Ends, Ends-then, Ends-some, ℕ, ◌≡◌, refl, ◌∙◌, Bool, true, false, ◌&&◌, List, [], ◌∷◌, Option,
  none, some, ◌==◌, if◌then◌else◌, ◌>>=◌, arith, Bool-cases, Option-cases, inl, inr,
}
use pxp_rpc.Pipe.{Frame, Machine, new_conn}

-- `_pxprpcPipeServer`; the list follows `next`.
pub record Server : Type 0 where
  pub name : List ℕ
  pub on_connect : ℕ
  pub p : ℕ

-- `strcmp(..)==0`
unfoldable pub same_name : List ℕ → List ℕ → Bool
same_name [] [] = true
same_name [] (y ∷ ys) = false
same_name (x ∷ xs) [] = false
same_name (x ∷ xs) (y ∷ ys) = (x == y) && same_name xs ys

-- The loop of `pxprpc_pipe_serve`, `none` if it finds no server of the name. The first server is not
-- taken out.
unfoldable pub update : Bool → List Server → List ℕ → Option ℕ → Option (List Server)
update first [] name on_connect = none
update first (s ∷ ss) name on_connect =
    let rest = update false ss name on_connect in
    if same_name s.name name
    then some (elim on_connect [
      | none ↦ if first then s ∷ ss else ss
      | some f ↦ record s { on_connect = f } ∷ ss
    ])
    else (rest >>= λ r. some (s ∷ r))

-- `pxprpc_pipe_serve`
unfoldable pub serve : List Server → List ℕ → Option ℕ → ℕ → List Server
serve ss name on_connect p = elim (update true ss name on_connect) [
  | some r ↦ r
  | none ↦ elim on_connect [
    | none ↦ ss
    | some f ↦ record { name = name; on_connect = f; p = p } ∷ ss
  ]
]

-- The loop of `pxprpc_pipe_connect`.
unfoldable pub find_server : List Server → List ℕ → Option Server
find_server [] name = none
find_server (s ∷ ss) name =
    let rest = find_server ss name in if same_name name s.name then some s else rest

-- `pxprpc_pipe_connect`: `on_connect` runs, with the server's side.
unfoldable pub connect : List Server → List ℕ → Option Machine
connect ss name = find_server ss name >>= λ s.
    some (record { conn = some new_conn; stack = Frame.user s.on_connect ∷ [] })

pub same_name_refl : (xs : List ℕ) → same_name xs xs ≡ true
unfolding same_name
same_name_refl [] = refl
same_name_refl (x ∷ xs) = ground (arith, same_name_refl xs)

pub same_name_sym : (xs ys : List ℕ) → same_name xs ys ≡ same_name ys xs
unfolding same_name
same_name_sym [] [] = refl
same_name_sym [] (y ∷ ys) = refl
same_name_sym (x ∷ xs) [] = refl
same_name_sym (x ∷ xs) (y ∷ ys) = ground (arith, same_name_sym xs ys)

abbrev FindsWith : List ℕ → ℕ → List Server → Type 0
FindsWith name f r = (s : Server) × (find_server r name ≡ some s) × (s.on_connect ≡ f)

update-FindsWith :
    (first : Bool) (ss : List Server) (name : List ℕ) (f : ℕ)
    → Ends (FindsWith name f) (update first ss name (some f))
unfolding update find_server
update-FindsWith first [] name f = tt
update-FindsWith first (s ∷ ss) name f = elim (Bool-cases (same_name s.name name)) [
  | inl e ↦
      rw (e, update)
        (record s { on_connect = f }, rw (same_name_sym name s.name ∙ e, find_server) refl, refl)
  | inr e ↦
      rw (e, update)
        (Ends-then (FindsWith name f) (FindsWith name f) (update false ss name (some f)) _
          (update-FindsWith false ss name f)
          λ r (x, found, o). (x, rw (same_name_sym name s.name ∙ e, find_server) found, o))
]

-- A name that is served, first or again, is found, with the callback that was given last.
pub find_server-serve :
    (ss : List Server) (name : List ℕ) (f p : ℕ)
    → (s : Server) × (find_server (serve ss name (some f) p) name ≡ some s) × (s.on_connect ≡ f)
unfolding serve find_server
find_server-serve ss name f p = elim (Option-cases (update true ss name (some f))) [
  | inl e ↦ (
    record { name = name; on_connect = f; p = p },
    rw (e, serve, same_name_refl name, find_server) refl,
    refl,
  )
  | inr (r, e) ↦
      rw (e, serve)
        (Ends-some (FindsWith name f) (update true ss name (some f))
          (update-FindsWith true ss name f) e)
]

-- To stop serving the name of the first server of the list changes nothing: the name is still found.
pub find_server-serve-none :
    (s : Server) (ss : List Server) (p : ℕ)
    → (serve (s ∷ ss) s.name none p ≡ s ∷ ss)
      × (find_server (serve (s ∷ ss) s.name none p) s.name ≡ some s)
unfolding serve update find_server
find_server-serve-none s ss p =
    let kept : serve (s ∷ ss) s.name none p ≡ s ∷ ss =
      rw (same_name_refl s.name, serve, update) refl in
    (kept, rw (kept, same_name_refl s.name, find_server) refl)

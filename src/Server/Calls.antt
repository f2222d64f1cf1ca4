-- ===== src/Server/Calls.antt =====
-- The requests of c/pxprpc/server.c that are not polls: a call, and the built-in functions that get a
-- reference to a function, free references and name the server.
use pxp_rpc.Base.{
  length-append, Takes-All, ◌∙◌, ◌/◌, append-nil, ℕ, suc, ◌+◌, ◌-◌, ◌^◌, ◌<◌, ◌≡◌, refl, sym, false,
  List, [], ◌∷◌, ◌++◌, Option, none, some, arith, length, ◌>>=◌, ◌==◌, if◌then◌else◌, Takes,
}
use pxp_rpc.Base.Bytes.{
  of_le-le_bytes, read-append, length-words_bytes, length-le_bytes, read, le_bytes, words_bytes,
}
use mathlib.Core.Path.{ap, subst}
use mathlib.Core.List.{append_assoc, flatten}
use mathlib.Core.List.{flatten}
use pxp_rpc.RefPool.{Pool, expand_count}
use pxp_rpc.RefPool.Chain.{entry, get_elem?-entry, NotIn}
use pxp_rpc.RefPool.Invariant.{IsLive, fill_ref-Inv}
use pxp_rpc.RefPool.History.{
  History, allocated, filled, released, History-Tracks, History-alloc_ref, History-free_ref,
  History-free_ref,
}
use pxp_rpc.Server.{
  run_free_ref1, free_refs, frame, write_result, run_call2, find_func, run_get_func1, Step, Request,
  Effect, Server, Phase, emit, prepare, call_object, step_of_index,
}
use pxp_rpc.Server.Loop.{run_step, on_packet}
use pxp_rpc.Server.Response.{
  read-parameter, run_next-step, packet_of, request_of, taken, Serves, on_packet-packet_of,
}

-- The request of a call that waits for its callable.
abbrev pub called : ℕ → ℕ → List ℕ → Request
called session index parameter = record (request_of session index parameter) {
  next_step = some Step.step_call2;
}

-- An open context that gets a packet whose index is not negative calls the callable at that index
-- with the rest of the packet as parameter, and takes a reference for the request.
pub call_starts :
    (s : Server) (session index object : ℕ) (parameter : List ℕ)
    → Serves s index object
    → s.receive_error ≡ none
    → session < 2 ^ 32
    → index < 2 ^ 31
    → on_packet s (packet_of session index parameter)
      ≡ some (
        emit (taken s) (Effect.call object ∷ []),
        some (Phase.calling, called session index parameter),
      )
unfolding prepare run_step step_of_index call_object
call_starts s session index object parameter v fine hs hi =
    let r = prepare (request_of session index parameter) in
    let step : r.next_step ≡ some Step.step_call1 = ground arith in
    rw
      (
        on_packet-packet_of s session index parameter v.opened fine hs (omega arith),
        run_next-step (taken s) r Step.step_call1 step,
        v.found,
        v.callable,
      )
      refl

-- A request whose response is being sent and that ends after it.
abbrev pub answered : ℕ → ℕ → List ℕ → List ℕ → Request
answered session index parameter result = record (request_of session index parameter) {
  result = result;
  next_step = some Step.finish_request;
}

-- A request of an open context that is answered at once, with the given pool afterwards.
abbrev pub Answers : Server → ℕ → ℕ → List ℕ → Pool → List ℕ → Type 0
Answers s session index parameter q result =
    on_packet s (packet_of session index parameter)
    ≡ some (
      emit (record (taken s) { pool = q }) (Effect.send (le_bytes 4 session ++ result) ∷ []),
      some (Phase.sending, answered session index parameter result),
    )

one_part : (xs : List ℕ) → (if length xs == 0 then [] else xs ++ flatten []) ≡ xs
unfolding flatten
one_part [] = refl
one_part (x ∷ xs) =
    let full : (suc (length xs) == 0) ≡ false = ground arith in rw full (append-nil (x ∷ xs))

run_call2-Answers :
    (s : Server) (r : Request)
    → s.closed ≡ false
    → r.rejected ≡ false
    → r.more ≡ []
    → r.session < 2 ^ 32 - 1
    → run_call2 s r
      ≡ some (
        emit s (Effect.send (le_bytes 4 r.session ++ r.result) ∷ []),
        some (Phase.sending, record r { next_step = some Step.finish_request }),
      )
unfolding run_call2 write_result frame
run_call2-Answers s r opened fine one hs =
    let plain : (r.session == 0xffffffff) ≡ false = ground arith in
    rw (plain, opened, fine, one, one_part r.result) refl

-- What the request for a function answers follows from the lookup.
get_func_lem :
    (s : Server) (session : ℕ) (name : List ℕ) (q : Pool) (i : ℕ)
    → s.closed ≡ false
    → s.receive_error ≡ none
    → session < 2 ^ 32 - 1
    → find_func (taken s) name ≡ some (q, i)
    → Answers s session (2 ^ 32 - 1) name q (le_bytes 4 i)
unfolding prepare run_step run_get_func1 step_of_index
get_func_lem s session name q i opened fine hs found =
    let r = prepare (request_of session (2 ^ 32 - 1) name) in
    let whole : read (packet_of session (2 ^ 32 - 1) name) 8 (length name) ≡ some name =
      subst (λ x. read (packet_of session (2 ^ 32 - 1) x) 8 (length name) ≡ some name)
        (append-nil name) (read-parameter session (2 ^ 32 - 1) name [] (length name) refl) in
    rw
      (
        on_packet-packet_of s session (2 ^ 32 - 1) name opened fine (omega arith) (omega arith),
        run_next-step (taken s) r Step.step_get_func1 refl,
        whole,
        found,
      )
      (run_call2-Answers (record (taken s) { pool = q }) (record r { result = le_bytes 4 i }) opened
        refl refl hs)

-- The request for a function of the function map by its name puts the function at an index that
-- nobody holds and answers that index.
pub get_func_found :
    (s : Server) (session : ℕ) (name : List ℕ) {live : List ℕ} (get : List ℕ → Option ℕ) (func : ℕ)
    → s.closed ≡ false
    → s.receive_error ≡ none
    → session < 2 ^ 32 - 1
    → History live s.pool
    → length s.pool.refs + expand_count < 2 ^ 16
    → s.funcmap ≡ some get
    → get name ≡ some func
    → (i : ℕ) × (q : Pool) × Answers s session (2 ^ 32 - 1) name q (le_bytes 4 i)
      × History (i ∷ live) q
      × NotIn i live
      × ((entry q.refs i).object ≡ some func)
unfolding find_func
get_func_found s session name get func opened fine hs h room map found =
    let (i, p, e, fresh, clean, kept) = History-alloc_ref h room in
    let h1 = allocated h room e in
    let t = History-Tracks h1 in
    let (q, e1, v, len, object, on_free, others, quiet) =
      fill_ref-Inv p t.free i (some func) (entry p.refs i).on_free t.valid t.in_use.0 in
    let lookup : find_func (taken s) name ≡ some (q, i) =
      rw (map, found, e, get_elem?-entry p.refs i t.in_use.0.0, e1) refl in
    (
      i,
      q,
      get_func_lem s session name q i opened fine hs lookup,
      filled (some func) (entry p.refs i).on_free h1 Takes.here e1,
      fresh,
      object,
    )

-- The request for a name that the function map does not have, or without a function map, answers -1
-- and leaves the pool alone.
pub get_func_missing :
    (s : Server) (session : ℕ) (name : List ℕ)
    → s.closed ≡ false
    → s.receive_error ≡ none
    → session < 2 ^ 32 - 1
    → (s.funcmap >>= λ get. get name) ≡ none
    → Answers s session (2 ^ 32 - 1) name s.pool (le_bytes 4 0xffffffff)
unfolding find_func
get_func_missing s session name opened fine hs missing =
    let lookup : find_func (taken s) name ≡ some (s.pool, 0xffffffff) = ground arith in
    get_func_lem s session name s.pool 0xffffffff opened fine hs lookup

-- The indices `indices`, all held and distinct, and what is left of `live` without them.
pub data TakesAll : List ℕ → List ℕ → List ℕ → Type 0 where
  done : {live : List ℕ} → TakesAll [] live live
  more :
      {i : ℕ} {indices live mid rest : List ℕ}
      → Takes i live mid
      → TakesAll indices mid rest
      → TakesAll (i ∷ indices) live rest

free_refs_lem :
    (mem pre indices post : List ℕ) (off : ℕ) {live rest : List ℕ} (p : Pool)
    → mem ≡ pre ++ (words_bytes 4 indices ++ post)
    → off ≡ length pre
    → History live p
    → TakesAll indices live rest
    → (q : Pool) × (free_refs (length indices) off mem p ≡ some q) × History rest q
unfolding free_refs words_bytes
free_refs_lem mem pre [] post off p hm ho h TakesAll.done = (p, refl, h)
free_refs_lem mem pre (i ∷ indices) post off p hm ho h (TakesAll.more k ks) =
    let t = History-Tracks h in
    let (inside, _) = Takes-All (IsLive p t.free) k t.in_use in
    let (q1, e, calls, kept) = History-free_ref h k in
    let word = le_bytes 4 i in
    let ws = words_bytes 4 indices in
    let near : mem ≡ pre ++ (word ++ (ws ++ post)) =
      hm ∙ ap (λ x. pre ++ x) (append_assoc word ws post) in
    let found : read mem off 4 ≡ some word =
      rw near (read-append pre word (ws ++ post) off 4 ho (sym (length-le_bytes 4 i))) in
    let next : off + 4 ≡ length (pre ++ word) =
      omega (arith, length-append pre word, length-le_bytes 4 i) in
    let (q, e2, h2) =
      free_refs_lem mem (pre ++ word) indices post (off + 4) q1
        (near ∙ sym (append_assoc pre word (ws ++ post))) next (released h k e) ks in
    (q, rw (found, of_le-le_bytes 4 i (omega (arith, inside.0, t.valid.narrow)), e, e2) refl, h2)

-- The request to free held references, in any order, each once: they are released, no other is, and
-- the response has no result.
pub free_ref_request :
    (s : Server) (session : ℕ) (indices : List ℕ) {live rest : List ℕ}
    → s.closed ≡ false
    → s.receive_error ≡ none
    → session < 2 ^ 32 - 1
    → History live s.pool
    → TakesAll indices live rest
    → (q : Pool) × Answers s session (2 ^ 32 - 2) (words_bytes 4 indices) q [] × History rest q
unfolding prepare run_step run_free_ref1 step_of_index
free_ref_request s session indices opened fine hs h ks =
    let mem = packet_of session (2 ^ 32 - 2) (words_bytes 4 indices) in
    let r = prepare (request_of session (2 ^ 32 - 2) (words_bytes 4 indices)) in
    let a = le_bytes 4 session in
    let b = le_bytes 4 (2 ^ 32 - 2) in
    let layout : mem ≡ (a ++ b) ++ (words_bytes 4 indices ++ []) =
      ap (λ x. a ++ (b ++ x)) (sym (append-nil (words_bytes 4 indices)))
      ∙ sym (append_assoc a b (words_bytes 4 indices ++ [])) in
    let start : 8 ≡ length (a ++ b) =
      omega (arith, length-append a b, length-le_bytes 4 session, length-le_bytes 4 (2 ^ 32 - 2)) in
    let (q, e, h2) = free_refs_lem mem (a ++ b) indices [] 8 s.pool layout start h ks in
    let count : (length (words_bytes 4 indices) + 3) / 4 ≡ length indices =
      omega (arith, length-words_bytes 4 indices) in
    (
      q,
      rw
          (
            on_packet-packet_of s session (2 ^ 32 - 2) (words_bytes 4 indices) opened fine
                (omega arith) (omega arith),
            run_next-step (taken s) r Step.step_free_ref1 refl,
            count,
            e,
          )
          (run_call2-Answers (record (taken s) { pool = q }) r opened refl refl hs),
      h2,
    )

-- ===== src/Callable/Laws.antt =====
-- References to objects travel through a reply and a parameter, and names through the function map
-- (c/include/pxprpc_pp.hpp, c/include/pxprpc_ext.hpp).
use mathlib.Core.Path.{subst}
use pxp_rpc.Base.{
  length-append, append-nil, get_elem?, ℕ, ◌+◌, ◌^◌, ◌≡◌, ◌<◌, refl, sym, ap, ◌∙◌, true, false,
  List, [], ◌∷◌, ◌++◌, none, some, length, arith, Bool-cases, inl, inr, Takes,
}
use pxp_rpc.Base.Bytes.{words_bytes, length-words_bytes, le_bytes, length-le_bytes}
use pxp_rpc.Serializer
use pxp_rpc.Serializer.{Ser, prepare_ser, prepare_unser}
use pxp_rpc.Serializer.Write.{
  put_words-Puts, prepare_ser-IsValid, prepare_ser-pos, prepare_ser-packet,
}
use pxp_rpc.Serializer.Read.{At, prepare_unser-At}
use pxp_rpc.CppSerializer.{get_int, put_int, build, prepare_serializing, prepare_unserializing}
use pxp_rpc.CppSerializer.RoundTrip.{one_word-Gets}
use pxp_rpc.RefPool.{Pool, Ref, expand_count}
use pxp_rpc.RefPool.Chain.{entry, get_elem?-entry, NotIn}
use pxp_rpc.RefPool.Invariant.{fill_ref-Inv}
use pxp_rpc.RefPool.History.{History, allocated, filled, History-Tracks, History-alloc_ref}
use pxp_rpc.Server.Loop.{Reply}
use pxp_rpc.Pipe.Servers.{same_name_refl, same_name}
use pxp_rpc.Callable.{
  Object, alloc_object, dereference, FunctionMap, add, get, resolve_int, resolve_object, Parameter,
  next_int, next_with, next_object, as_serializer, reply_with,
}

dereference_plain :
    (p : Pool) (i x : ℕ) (r : Ref)
    → get_elem? p.refs i ≡ some r
    → r.object ≡ some x
    → r.on_free ≡ some 1
    → dereference p i ≡ some (some (Object.plain x))
unfolding dereference
dereference_plain p i x r found o f = rw (found, f, o) refl

dereference_function :
    (p : Pool) (i x : ℕ) (r : Ref)
    → get_elem? p.refs i ≡ some r
    → r.object ≡ some x
    → r.on_free ≡ some 2
    → dereference p i ≡ some (some (Object.named_function x))
unfolding dereference
dereference_function p i x r found o f = rw (found, f, o) refl

-- While the block of a pool has less than 2^16 - 64 entries, a reference to an object is an index that
-- nobody holds, and dereferencing it gives the object.
pub dereference-alloc_object :
    {live : List ℕ} {p : Pool} (o : Object)
    → History live p
    → length p.refs + expand_count < 2 ^ 16
    → (i : ℕ) × (q : Pool) × (alloc_object p o ≡ some (i, q))
      × History (i ∷ live) q
      × NotIn i live
      × (dereference q i ≡ some (some o))
unfolding alloc_object
dereference-alloc_object {live} {p} (Object.plain x) h room =
    let (i, q, e, fresh, clean, kept) = History-alloc_ref h room in
    let h1 = allocated h room e in
    let t = History-Tracks h1 in
    let (u, e1, v, len, object, on_free, others, quiet) =
      fill_ref-Inv q t.free i (some x) (some 1) t.valid t.in_use.0 in
    (
      i,
      u,
      rw (e, e1) refl,
      filled (some x) (some 1) h1 Takes.here e1,
      fresh,
      dereference_plain u i x (entry u.refs i)
          (get_elem?-entry u.refs i (omega (arith, len, t.in_use.0.0))) object on_free,
    )
dereference-alloc_object {live} {p} (Object.named_function x) h room =
    let (i, q, e, fresh, clean, kept) = History-alloc_ref h room in
    let h1 = allocated h room e in
    let t = History-Tracks h1 in
    let (u, e1, v, len, object, on_free, others, quiet) =
      fill_ref-Inv q t.free i (some x) (some 2) t.valid t.in_use.0 in
    (
      i,
      u,
      rw (e, e1) refl,
      filled (some x) (some 2) h1 Takes.here e1,
      fresh,
      dereference_function u i x (entry u.refs i)
          (get_elem?-entry u.refs i (omega (arith, len, t.in_use.0.0))) object on_free,
    )

resolve_int_lem :
    (junk : ℕ → ℕ) (v : ℕ)
    → (r : Reply) × (resolve_int junk v ≡ some r) × (r.result ≡ le_bytes 4 v) × (r.rejected ≡ false)
unfolding resolve_int put_int prepare_serializing build words_bytes Serializer.put_int
resolve_int_lem junk v =
    let bs = words_bytes 4 (v ∷ []) in
    let (t, e, at) =
      put_words-Puts junk 4 (prepare_ser junk 8) (v ∷ []) (prepare_ser-IsValid junk 8 (omega arith))
        (omega (arith, length-words_bytes 4 (v ∷ []), prepare_ser-pos junk 8)) in
    let (packet, _) = prepare_ser-packet junk 8 bs t at in
    (reply_with (Serializer.build t) false, rw e refl, rw packet (append-nil (le_bytes 4 v)), refl)

get_int-le_bytes :
    (v : ℕ) (raw rest : List ℕ)
    → raw ≡ le_bytes 4 v ++ rest
    → v < 2 ^ 32
    → length raw < 2 ^ 31
    → (s : Ser) × (get_int (prepare_unserializing raw) ≡ some (v, s))
unfolding get_int prepare_unserializing words_bytes Serializer.get_int
get_int-le_bytes v raw rest whole h small =
    let cut : raw ≡ words_bytes 4 (v ∷ []) ++ rest =
      whole ∙ ap (λ x. x ++ rest) (sym (append-nil (le_bytes 4 v))) in
    let start : At (prepare_unser raw) [] (words_bytes 4 (v ∷ []) ++ rest) =
      subst (At (prepare_unser raw) []) cut (prepare_unser-At raw small) in
    let (s, f, _) = one_word-Gets 4 v start h in (s, f)

-- In a pool of less than 2^16 - 64 entries an object that a callable resolves to is put at an index that
-- nobody holds, the response is no error and has the four bytes of that index, and a parameter of less
-- than 2^31 bytes that begins with these bytes gives the object back.
pub next_object-resolve_object :
    (junk : ℕ → ℕ) {live : List ℕ} {p : Pool} (o : Object) (rest : List ℕ)
    → History live p
    → length p.refs + expand_count < 2 ^ 16
    → length rest + 4 < 2 ^ 31
    → (q : Pool) × (r : Reply) × (i : ℕ) × (x : Parameter) × (resolve_object junk p (some o)
        ≡ some (q, r))
      × History (i ∷ live) q
      × NotIn i live
      × (r.result ≡ le_bytes 4 i)
      × (r.rejected ≡ false)
      × (next_object q (record { raw = r.result ++ rest; ser = none }) ≡ some (some o, x))
unfolding resolve_object next_object next_int next_with as_serializer
next_object-resolve_object junk {live} {p} o rest h room small =
    let (i, q, e, g, fresh, found) = dereference-alloc_object o h room in
    let t = History-Tracks g in
    let (r, er, bytes, fine) = resolve_int_lem junk i in
    let begins : r.result ++ rest ≡ le_bytes 4 i ++ rest = ap (λ x. x ++ rest) bytes in
    let len : length (r.result ++ rest) < 2 ^ 31 =
      omega (arith, length-append r.result rest, ap length bytes, length-le_bytes 4 i) in
    let (s, es) =
      get_int-le_bytes i (r.result ++ rest) rest begins
        (omega (arith, t.in_use.0.0, t.valid.narrow)) len in
    (
      q,
      r,
      i,
      record { raw = r.result ++ rest; ser = some s },
      rw (e, er) refl,
      g,
      fresh,
      bytes,
      fine,
      rw (es, found) refl,
    )

get_hit :
    (e : List ℕ × ℕ) (m : FunctionMap) (name : List ℕ)
    → same_name e.0 name ≡ true
    → get (e ∷ m) name ≡ some e.1
unfolding get
get_hit e m name y = rw (y, get) refl

get_miss :
    (e : List ℕ × ℕ) (m : FunctionMap) (name : List ℕ)
    → same_name e.0 name ≡ false
    → get (e ∷ m) name ≡ get m name
unfolding get
get_miss e m name n = rw (n, get) refl

-- The function map answers the function that was added last under a name.
pub get-add : (m : FunctionMap) (name : List ℕ) (fn : ℕ) → get (add m name fn) name ≡ some fn
unfolding add
get-add [] name fn = get_hit (name, fn) [] name (same_name_refl name)
get-add (e ∷ m) name fn = elim (Bool-cases (same_name e.0 name)) [
  | inl y ↦ rw (add, y) (get_hit (e.0, fn) m name y)
  | inr n ↦ rw (add, n) (get_miss e (add m name fn) name n ∙ get-add m name fn)
]

same_name_sound : (xs ys : List ℕ) → same_name xs ys ≡ true → xs ≡ ys
unfolding same_name
same_name_sound [] [] h = refl
same_name_sound [] (y ∷ ys) h = ground arith
same_name_sound (x ∷ xs) [] h = ground arith
same_name_sound (x ∷ xs) (y ∷ ys) h =
    let both : (x ≡ y) × (same_name xs ys ≡ true) = ground arith in
    rw (both.0, same_name_sound xs ys both.1) refl

-- Adding a function under a name leaves every other name alone.
pub get-add_other :
    (m : FunctionMap) (name other : List ℕ) (fn : ℕ)
    → same_name name other ≡ false
    → get (add m name fn) other ≡ get m other
unfolding add
get-add_other [] name other fn h = get_miss (name, fn) [] other h
get-add_other (e ∷ m) name other fn h = elim (Bool-cases (same_name e.0 name)) [
  | inl y ↦
      let n : same_name e.0 other ≡ false =
        ap (λ x. same_name x other) (same_name_sound e.0 name y) ∙ h in
      rw (add, y) (get_miss (e.0, fn) m other n ∙ sym (get_miss e m other n))
  | inr n ↦
      rw (add, n)
        (elim (Bool-cases (same_name e.0 other)) [
          | inl y ↦ get_hit e (add m name fn) other y ∙ sym (get_hit e m other y)
          | inr z ↦
              get_miss e (add m name fn) other z
              ∙ (get-add_other m name other fn h ∙ sym (get_miss e m other z))
        ])
]

-- ===== src/Callable.antt =====
-- The C++ face of a callable: PxpRequestWrap and FunctionMap of c/include/pxprpc_pp.hpp, AsyncReturn
-- and Parameter of c/include/pxprpc_ext.hpp. Objects and callables are numbers, for their addresses.
-- `none` is undefined behaviour.
pub mod Laws
pub mod Dispatcher
mod Examples
use pxp_rpc.Base.{
  ℕ, zero, suc, ◌+◌, ◌^◌, Bool, true, false, not, List, [], ◌∷◌, ◌++◌, Option, none, some, length,
  get_elem?, ◌==◌, if◌then◌else◌, ◌>>=◌,
}
use pxp_rpc.Serializer.{Ser}
use pxp_rpc.CppSerializer.{
  put_int, put_long, put_float, put_double, put_string, prepare_serializing, prepare_unserializing,
  build, get_int, get_long, get_float, get_double, get_varint, get_string, get_bytes,
}
use pxp_rpc.RefPool.{Pool, Ref, alloc_ref, free_ref, fill_ref}
use pxp_rpc.Server.Loop.{Reply}
use pxp_rpc.Pipe.Servers.{same_name}

-- The two callbacks of references that the wrapper sets: `__wrap_object_on_free` and
-- `__wrap_callable_on_free`.
abbrev pub object_on_free : ℕ
object_on_free = 1

abbrev pub callable_on_free : ℕ
callable_on_free = 2

-- `PxpObject *`: an object, or a function of the class NamedFunctionPP. A function is told from its
-- `callable`, whose `user_data` is the function.
pub data Object : Type 0 where
  plain named_function : ℕ → Object

-- `PxpRequestWrap::allocRef`, for an object and for a function.
unfoldable pub alloc_object : Pool → Object → Option (ℕ × Pool)
alloc_object p o = alloc_ref p >>= λ a.
    (elim o [
      | Object.plain x ↦ fill_ref a.1 a.0 (some x) (some object_on_free)
      | Object.named_function f ↦ fill_ref a.1 a.0 (some f) (some callable_on_free)
    ])
    >>= λ q. some (a.0, q)

-- `PxpRequestWrap::freeRef`
unfoldable pub free_object : Pool → ℕ → Option Pool
free_object p index = free_ref p index

-- `PxpRequestWrap::dereference`: the inner `none` is NULL.
unfoldable pub dereference : Pool → ℕ → Option (Option Object)
dereference p index = do
  r ← get_elem? p.refs index
  elim r.on_free [
    | none ↦ some none
    | some f ↦
        if f == object_on_free
        then some (r.object >>= λ x. some (Object.plain x))
        else if f == callable_on_free
        then (r.object >>= λ x. some (some (Object.named_function x)))
        else some none
  ]

-- `FunctionMap`: `insert_or_assign` and `find` of its `std::unordered_map`.
abbrev pub FunctionMap : Type 0
FunctionMap = List (List ℕ × ℕ)

unfoldable pub add : FunctionMap → List ℕ → ℕ → FunctionMap
add [] name fn = (name, fn) ∷ []
add (e ∷ m) name fn =
    let rest = add m name fn in if same_name e.0 name then (e.0, fn) ∷ m else e ∷ rest

unfoldable pub get : FunctionMap → List ℕ → Option ℕ
get [] name = none
get (e ∷ m) name = let rest = get m name in if same_name e.0 name then some e.1 else rest

-- What a callable of class NamedFunctionPPImpl1 leaves in its request. The callback of the request
-- frees what the reply holds.
abbrev pub reply_with : List ℕ → Bool → Reply
reply_with result rejected = record {
  result = result;
  more = [];
  rejected = rejected;
  on_finish = some 0;
  keep = true;
}

module _ (junk : ℕ → ℕ) where
  -- `resolve(Serializer *)` on a serializer of 8 bytes that `put` has filled.
  abbrev pub resolve_put : (Ser → Option Ser) → Option Reply
  resolve_put put = put (prepare_serializing junk 8) >>= λ s. some (reply_with (build s) false)

  unfoldable pub resolve_int : ℕ → Option Reply
  resolve_int v = resolve_put (λ s. put_int junk s v)

  unfoldable pub resolve_long : ℕ → Option Reply
  resolve_long v = resolve_put (λ s. put_long junk s v)

  unfoldable pub resolve_float : ℕ → Option Reply
  resolve_float v = resolve_put (λ s. put_float junk s v)

  unfoldable pub resolve_double : ℕ → Option Reply
  resolve_double v = resolve_put (λ s. put_double junk s v)

  unfoldable pub resolve_string : List ℕ → Option Reply
  resolve_string v = resolve_put (λ s. put_string junk s v)

  -- `resolve(PxpObject *)` and `resolve(NamedFunctionPP *)`; NULL is -1.
  unfoldable pub resolve_object : Pool → Option Object → Option (Pool × Reply)
  resolve_object p none = resolve_int 0xffffffff >>= λ a. some (p, a)
  resolve_object p (some o) = alloc_object p o >>= λ r. resolve_int r.0 >>= λ a. some (r.1, a)

-- `resolve(void *,size_t)`, `resolve()` and `reject`.
unfoldable pub resolve_bytes : List ℕ → Reply
resolve_bytes bs = reply_with bs false

unfoldable pub resolve_nothing : Reply
resolve_nothing = reply_with [] false

unfoldable pub reject : List ℕ → Reply
reject message = reply_with message true

-- `Parameter`: the serializer over the parameter, once it is made.
pub record Parameter : Type 0 where
  pub raw : List ℕ
  pub ser : Option Ser

unfoldable pub as_serializer : Parameter → Ser
as_serializer p = elim p.ser [ none ↦ prepare_unserializing p.raw | some s ↦ s ]

-- A `nextXXX`: the serializer that is made is kept.
unfoldable pub next_with {ℓ} :
    {A : Type ℓ} → (Ser → Option (A × Ser)) → Parameter → Option (A × Parameter)
next_with read1 p = read1 (as_serializer p) >>= λ r. some (r.0, record p { ser = some r.1 })

unfoldable pub next_int : Parameter → Option (ℕ × Parameter)
next_int = next_with get_int

unfoldable pub next_long : Parameter → Option (ℕ × Parameter)
next_long = next_with get_long

unfoldable pub next_float : Parameter → Option (ℕ × Parameter)
next_float = next_with get_float

unfoldable pub next_double : Parameter → Option (ℕ × Parameter)
next_double = next_with get_double

unfoldable pub next_string : Parameter → Option (List ℕ × Parameter)
next_string = next_with get_string

unfoldable pub next_bool : Parameter → Option (Bool × Parameter)
next_bool p = next_with get_varint p >>= λ r. some (not (r.0 == 0), r.1)

unfoldable pub next_bytes : Parameter → Option ((ℕ × ℕ) × Parameter)
next_bytes = next_with (λ s. get_bytes s >>= λ r. some ((r.0, r.1), r.2))

unfoldable pub next_object : Pool → Parameter → Option (Option Object × Parameter)
next_object pool p = do (index, q) ← next_int p; o ← dereference pool index; some (o, q)

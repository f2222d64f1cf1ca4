-- ===== src/Uv/System.antt =====
-- The calls on the environment and the properties of the system of
-- runtime_bridge/c-modules/pxprpc_libuv_rpc/init.hpp: each reads its parameter, asks libuv at once, and
-- answers. `none` is undefined behaviour.
pub mod Requests
use pxp_rpc.Base.{
  ℕ, ◌+◌, ◌*◌, ◌/◌, ◌%◌, ◌^◌, Bool, List, [], ◌∷◌, ◌++◌, Option, none, some, if◌then◌else◌, ◌>>=◌,
}
use pxp_rpc.Pipe.Servers.{same_name}
use pxp_rpc.Callable.{Parameter, next_string}
use pxp_rpc.Uv.{Answer, is_negative}
use pxp_rpc.Uv.Files.{c_str, next_c_string}

-- The properties that `os_getprop` knows, each one function of libuv.
pub data Property : Type 0 where
  cwd exepath tmpdir hostname process_title uname : Property

pub data OsRequest : Type 0 where
  getenv unsetenv : (name : List ℕ) → OsRequest
  setenv : (name value : List ℕ) → OsRequest
  get_property : Property → OsRequest
  chdir set_process_title : (value : List ℕ) → OsRequest

-- `r`, 32 bits, the string that libuv has put in the buffer, and what `uv_os_uname` gives.
pub record OsResult : Type 0 where
  pub r : ℕ
  pub text : List ℕ
  pub sysname : List ℕ
  pub release : List ℕ
  pub version : List ℕ
  pub machine : List ℕ

-- What is asked of libuv with the answer to its result, or an answer without it.
pub data OsCall : Type 0 where
  ask : OsRequest → (OsResult → Answer) → OsCall
  reject : Answer → OsCall

unfoldable pub or_os_error : (OsResult → Answer) → OsResult → Answer
or_os_error f x = if is_negative x.r then Answer.error x.r else f x

abbrev pub os_text : OsRequest → OsCall
os_text q = OsCall.ask q (or_os_error λ x. Answer.text x.text)

abbrev pub os_nothing : OsRequest → OsCall
os_nothing q = OsCall.ask q (or_os_error λ x. Answer.nothing)

unfoldable pub os_getenv : Parameter → Option OsCall
os_getenv para = next_c_string para >>= λ p. some (os_text (OsRequest.getenv p.0))

unfoldable pub os_setenv : Parameter → Option OsCall
os_setenv para = next_c_string para >>= λ p.
    next_c_string p.1 >>= λ q. some (os_nothing (OsRequest.setenv p.0 q.0))

unfoldable pub os_unsetenv : Parameter → Option OsCall
os_unsetenv para = next_c_string para >>= λ p. some (os_nothing (OsRequest.unsetenv p.0))

-- The names that `os_getprop` and `os_setprop` compare with.
abbrev pub property_name : Property → List ℕ
property_name Property.cwd = 99 ∷ 119 ∷ 100 ∷ []
property_name Property.exepath = 101 ∷ 120 ∷ 101 ∷ 112 ∷ 97 ∷ 116 ∷ 104 ∷ []
property_name Property.tmpdir = 116 ∷ 109 ∷ 112 ∷ 100 ∷ 105 ∷ 114 ∷ []
property_name Property.hostname = 104 ∷ 111 ∷ 115 ∷ 116 ∷ 110 ∷ 97 ∷ 109 ∷ 101 ∷ []
property_name Property.process_title =
    112 ∷ 114 ∷ 111 ∷ 99 ∷ 101 ∷ 115 ∷ 115 ∷ 95 ∷ 116 ∷ 105 ∷ 116 ∷ 108 ∷ 101 ∷ []
property_name Property.uname = 117 ∷ 110 ∷ 97 ∷ 109 ∷ 101 ∷ []

abbrev uname_text : OsResult → List ℕ
uname_text x = x.sysname ++ (10 ∷ x.release) ++ (32 ∷ x.version) ++ (10 ∷ x.machine)

-- The tests of `os_getprop`, one after the other.
unfoldable pub getprop_call : List ℕ → OsCall
getprop_call name =
    if same_name name (property_name Property.cwd)
    then os_text (OsRequest.get_property Property.cwd)
    else if same_name name (property_name Property.exepath)
    then os_text (OsRequest.get_property Property.exepath)
    else if same_name name (property_name Property.tmpdir)
    then os_text (OsRequest.get_property Property.tmpdir)
    else if same_name name (property_name Property.hostname)
    then os_text (OsRequest.get_property Property.hostname)
    else if same_name name (property_name Property.process_title)
    then os_text (OsRequest.get_property Property.process_title)
    else if same_name name (property_name Property.uname)
    then OsCall.ask (OsRequest.get_property Property.uname)
        (or_os_error λ x. Answer.text (uname_text x))
    else OsCall.reject Answer.refused

unfoldable pub os_getprop : Parameter → Option OsCall
os_getprop para = next_string para >>= λ p. some (getprop_call p.0)

unfoldable pub setprop_call : List ℕ → List ℕ → OsCall
setprop_call name value =
    if same_name name (property_name Property.cwd)
    then os_nothing (OsRequest.chdir (c_str value))
    else if same_name name (property_name Property.process_title)
    then os_nothing (OsRequest.set_process_title (c_str value))
    else OsCall.reject Answer.refused

unfoldable pub os_setprop : Parameter → Option OsCall
os_setprop para = next_string para >>= λ p. next_string p.1 >>= λ q. some (setprop_call p.0 q.0)

-- ===== src/Uv/System/Requests.antt =====
-- What a caller writes in the parameter of a call on the system is what libuv is asked
-- (runtime_bridge/c-modules/pxprpc_libuv_rpc/init.hpp).
use pxp_rpc.Base.{◌^◌, ◌<◌, ◌≡◌, ◌≢◌, refl, List, [], ◌∷◌, Option, none, some, length, arith}
use pxp_rpc.CppSerializer.RoundTrip.{Item, items_bytes}
use pxp_rpc.Pipe.Servers.{same_name}
use pxp_rpc.Callable.{Parameter}
use pxp_rpc.Uv.{Answer}
use pxp_rpc.Uv.Files.Reads.{IsText, c_str_lem, start, next_string-Reads, next_c_string-Reads}
use pxp_rpc.Uv.System.{
  os_text, os_nothing, Property, OsRequest, OsResult, OsCall, or_os_error, os_getenv, os_setenv,
  os_unsetenv, property_name, getprop_call, os_getprop, setprop_call, os_setprop,
}

-- How a caller writes a request.
abbrev pub os_items : OsRequest → List Item
os_items (OsRequest.getenv name) = Item.string name ∷ []
os_items (OsRequest.unsetenv name) = Item.string name ∷ []
os_items (OsRequest.setenv name value) = Item.string name ∷ Item.string value ∷ []
os_items (OsRequest.get_property p) = Item.string (property_name p) ∷ []
os_items (OsRequest.chdir value) = Item.string (property_name Property.cwd) ∷ Item.string value ∷ []
os_items (OsRequest.set_process_title value) =
    Item.string (property_name Property.process_title) ∷ Item.string value ∷ []

abbrev pub IsOsRequest : OsRequest → Type 0
IsOsRequest (OsRequest.getenv name) = IsText name
IsOsRequest (OsRequest.unsetenv name) = IsText name
IsOsRequest (OsRequest.setenv name value) = IsText name × IsText value
IsOsRequest (OsRequest.get_property p) = Unit {0}
IsOsRequest (OsRequest.chdir value) = IsText value
IsOsRequest (OsRequest.set_process_title value) = IsText value

abbrev pub os_call : OsRequest → Parameter → Option OsCall
os_call (OsRequest.getenv name) p = os_getenv p
os_call (OsRequest.unsetenv name) p = os_unsetenv p
os_call (OsRequest.setenv name value) p = os_setenv p
os_call (OsRequest.get_property q) p = os_getprop p
os_call (OsRequest.chdir value) p = os_setprop p
os_call (OsRequest.set_process_title value) p = os_setprop p

-- The request is asked, and answered with the error when its result is negative.
abbrev pub Asks : OsRequest → OsCall → Type 0
Asks q c = (f : OsResult → Answer) × (c ≡ OsCall.ask q (or_os_error f))

getprop_call-property_name :
    (p : Property) → Asks (OsRequest.get_property p) (getprop_call (property_name p))
unfolding getprop_call same_name
getprop_call-property_name Property.cwd = (_, refl)
getprop_call-property_name Property.exepath = (_, refl)
getprop_call-property_name Property.tmpdir = (_, refl)
getprop_call-property_name Property.hostname = (_, refl)
getprop_call-property_name Property.process_title = (_, refl)
getprop_call-property_name Property.uname = (_, refl)

short_name : (p : Property) → length (property_name p) ≢ 255
short_name Property.cwd e = omega arith
short_name Property.exepath e = omega arith
short_name Property.tmpdir e = omega arith
short_name Property.hostname e = omega arith
short_name Property.process_title e = omega arith
short_name Property.uname e = omega arith

-- What the caller of a call on the environment or on a property of the system writes in the parameter,
-- of less than 2^31 bytes, texts without a zero and not of a length of 255, is what libuv is asked, and
-- a negative result is answered as an error.
pub os_call-os_items :
    (q : OsRequest)
    → IsOsRequest q
    → length (items_bytes (os_items q)) < 2 ^ 31
    → (c : OsCall) × (os_call q (record { raw = items_bytes (os_items q); ser = none }) ≡ some c)
      × Asks q c
unfolding items_bytes os_getenv os_setenv os_unsetenv os_getprop os_setprop setprop_call same_name
os_call-os_items (OsRequest.getenv name) h room =
    let (t, e, _) = next_c_string-Reads _ [] name [] (start _ room) h in
    (os_text (OsRequest.getenv name), rw e refl, (_, refl))
os_call-os_items (OsRequest.unsetenv name) h room =
    let (t, e, _) = next_c_string-Reads _ [] name [] (start _ room) h in
    (os_nothing (OsRequest.unsetenv name), rw e refl, (_, refl))
os_call-os_items (OsRequest.setenv name value) (h1, h2) room =
    let (t, e, at) = next_c_string-Reads _ [] name _ (start _ room) h1 in
    let (t2, e2, _) = next_c_string-Reads t _ value [] at h2 in
    (os_nothing (OsRequest.setenv name value), rw (e, e2) refl, (_, refl))
os_call-os_items (OsRequest.get_property p) h room =
    let (t, e, _) = next_string-Reads _ [] (property_name p) [] (start _ room) (short_name p) in
    (getprop_call (property_name p), rw e refl, getprop_call-property_name p)
os_call-os_items (OsRequest.chdir value) (h, text) room =
    let name = property_name Property.cwd in
    let (t, e, at) = next_string-Reads _ [] name _ (start _ room) (short_name Property.cwd) in
    let (t2, e2, _) = next_string-Reads t _ value [] at h in
    (os_nothing (OsRequest.chdir value), rw (e, e2, c_str_lem value text) refl, (_, refl))
os_call-os_items (OsRequest.set_process_title value) (h, text) room =
    let name = property_name Property.process_title in
    let (t, e, at) =
      next_string-Reads _ [] name _ (start _ room) (short_name Property.process_title) in
    let (t2, e2, _) = next_string-Reads t _ value [] at h in
    (
      os_nothing (OsRequest.set_process_title value),
      rw (e, e2, c_str_lem value text) refl,
      (_, refl),
    )

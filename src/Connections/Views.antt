-- ===== src/Connections/Views.antt =====
-- The plain list that the list of connections stands for (c/pxprpc_libuv/pxprpc_libuv.c).
use pxp_rpc.Base.{
  ℕ, ◌≡◌, ◌≢◌, refl, sym, ap, Bool, true, false, List, [], ◌∷◌, none, ◌==◌, if◌then◌else◌, arith,
  Takes, Takes-All,
}
use pxp_rpc.RefPool.Chain.{NotIn, Distinct}
use pxp_rpc.Connections.{World, Event}
use pxp_rpc.Connections.Links.{Entry, addrs, Linked}
use pxp_rpc.Connections.Spots.{NotIn-All, NotIn-All}
use pxp_rpc.Connections.Detach.{close_entry, mark_all}
use pxp_rpc.Connections.Unlink.{Listens}

-- The abstract view: whether the server is there, and its connections.
pub record View : Type 0 where
  pub served : Bool
  pub entries : List Entry

abbrev pub mark : ℕ → List Entry → List Entry
mark a [] = []
mark a (e ∷ es) = if e.addr == a then close_entry e ∷ es else e ∷ mark a es

abbrev pub remove : ℕ → List Entry → List Entry
remove a [] = []
remove a (e ∷ es) = if e.addr == a then es else e ∷ remove a es

unfoldable pub view_step : View → Event → View
view_step v (Event.connection a accepts) = record v {
  entries = record { addr = a; closing = false; accepted = accepts } ∷ v.entries;
}
view_step v (Event.closing a) = record v { entries = mark a v.entries }
view_step v (Event.closed a) = record v { entries = remove a v.entries }
view_step v Event.deleted = record { served = false; entries = mark_all v.entries }

-- An entry with the address.
abbrev pub Has : View → ℕ → Type 0
Has v a = (e : Entry) × (ys : List Entry) × Takes e v.entries ys × (e.addr ≡ a)

-- When an event may happen. libuv ends the closing of a stream that it knows the connection of.
abbrev pub Allowed : View → Event → Type 0
Allowed v (Event.connection a accepts) = (v.served ≡ true) × NotIn a (addrs v.entries)
Allowed v (Event.closing a) = Has v a
Allowed v (Event.closed a) =
    (e : Entry) × (ys : List Entry) × Takes e v.entries ys × (e.addr ≡ a) × (e.accepted ≡ true)
Allowed v Event.deleted = v.served ≡ true

-- The nodes in memory are those of the view, linked both ways from `acceptedConn`, and no others.
pub record Represents (w : World) (v : View) : Type 0 where
  pub listens : Listens w v.served v.entries
  pub linked : Linked w.conns v.served none v.entries
  pub distinct : Distinct (addrs v.entries)
  pub no_more : (z : ℕ) → NotIn z (addrs v.entries) → w.conns z ≡ none

pub remove-Takes :
    {e : Entry} {es ys : List Entry} → Takes e es ys → Distinct (addrs es) → remove e.addr es ≡ ys
remove-Takes {e} (Takes.here {xs}) d =
    let same : (e.addr == e.addr) ≡ true = ground arith in rw same refl
remove-Takes {e} (Takes.there {x} {xs} {ys} tk) (dx, d) =
    let ne : x.addr ≢ e.addr = (Takes-All (λ y. x.addr ≢ y.addr) tk (NotIn-All x.addr xs dx)).0 in
    let other : (x.addr == e.addr) ≡ false = ground arith in
    rw other (ap (◌∷◌ x) (remove-Takes tk d))

pub addrs-Takes :
    {e : Entry} {es ys : List Entry} → Takes e es ys → Takes e.addr (addrs es) (addrs ys)
addrs-Takes Takes.here = Takes.here
addrs-Takes (Takes.there tk) = Takes.there (addrs-Takes tk)

pub Distinct-Takes :
    {a : ℕ} {xs ys : List ℕ} → Takes a xs ys → Distinct xs → Distinct ys × NotIn a ys
Distinct-Takes Takes.here (n, d) = (d, n)
Distinct-Takes {a} (Takes.there {x} tk) (n, d) =
    let (d', n') = Distinct-Takes tk d in
    let (ne, rest) = Takes-All (λ y. x ≢ y) tk n in ((rest, d'), ((λ e. ne (sym e)), n'))

pub NotIn-Takes : {a : ℕ} (z : ℕ) {xs ys : List ℕ} → Takes a xs ys → z ≢ a → NotIn z ys → NotIn z xs
NotIn-Takes z Takes.here ne n = (ne, n)
NotIn-Takes z (Takes.there tk) ne (m, n) = (m, NotIn-Takes z tk ne n)

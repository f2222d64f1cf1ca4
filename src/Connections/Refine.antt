-- ===== src/Connections/Refine.antt =====
-- The list of connections refines a plain list (c/pxprpc_libuv/pxprpc_libuv.c): new ones come first,
-- one that is closed is marked, and goes when libuv is done with it.
use mathlib.Core.Path.{subst}
use pxp_rpc.Base.{
  ℕ, ◌≡◌, ◌≤◌, refl, sym, ap, ◌∙◌, true, false, List, ◌∷◌, Option, none, some, ◌>>=◌, length,
}
use pxp_rpc.RefPool.Chain.{NotIn}
use pxp_rpc.Connections.{World, Listener, Event, on_closed, delete_server, detach_all, step}
use pxp_rpc.Connections.Links.{Entry}
use pxp_rpc.Connections.Detach.{mark_all, addrs-mark_all, detach_all-Detached}
use pxp_rpc.Connections.Views.{View, Represents, remove, Allowed, view_step, remove-Takes}
use pxp_rpc.Connections.Opening.{Opened-Represents, on_connection-Opened}
use pxp_rpc.Connections.Closing.{on_closed-Represents, close_io-Represents}

delete_server_ran :
    (fuel : ℕ) (w v : World) (l : Listener)
    → w.listener ≡ some l
    → detach_all fuel w l.accepted_conn ≡ some (some v)
    → delete_server fuel w ≡ some (some (record v { listener = none }))
unfolding delete_server
delete_server_ran fuel w v l is ran =
    let finish : Option (Option World) → Option (Option World) =
      λ o. o >>= λ r. some (r >>= λ x. some (record x { listener = none })) in
    ap (λ (o : Option Listener). o >>= λ x. finish (detach_all fuel w x.accepted_conn)) is
    ∙ ap finish ran

delete_server-Represents :
    (fuel : ℕ) (w : World) (es : List Entry)
    → length es ≤ fuel
    → Represents w (record { served = true; entries = es })
    → (u : World) × (delete_server fuel w ≡ some (some u))
      × Represents u (record { served = false; entries = mark_all es })
delete_server-Represents fuel w es le r =
    let (l, is, head) = r.listens in
    let (v, ran, done) = detach_all-Detached es fuel w none le r.linked r.distinct in
    let u : World = record v { listener = none } in
    (
      u,
      delete_server_ran fuel w v l is (ap (detach_all fuel w) head ∙ ran),
      record {
        listens = refl;
        linked = done.linked;
        distinct = rw (addrs-mark_all es) r.distinct;
        no_more = λ z out.
            (let away = subst (NotIn z) (addrs-mark_all es) out in
              done.others z away ∙ r.no_more z away);
      },
    )

-- With the server there, its view says so.
as_served :
    (w : World) (v : View)
    → v.served ≡ true
    → Represents w v
    → Represents w (record { served = true; entries = v.entries })
as_served w v h = subst (λ b. Represents w (record { served = b; entries = v.entries })) h

abbrev Simulates : Option World → View → Type 0
Simulates r v = (u : World) × (r ≡ some u) × Represents u v

-- From a world that stands for a view, every event that the view allows is carried out, without a NULL
-- or freed connection being used, and the world that it leads to stands for the view after the event:
-- new connections come first, a closing one is marked, one that is closed is gone, and once the server
-- is deleted all are detached and closing. The loop of the deletion ends within as many rounds as
-- there are connections.
pub step-view_step :
    (fuel : ℕ) (w : World) (v : View) (e : Event)
    → length v.entries ≤ fuel
    → Represents w v
    → Allowed v e
    → (u : World) × (step fuel w e ≡ some u) × Represents u (view_step v e)
unfolding step view_step
step-view_step fuel w v (Event.connection a accepts) le r (served, out) =
    let (u, ran, o) = on_connection-Opened w v.entries a accepts (as_served w v served r) in
    (
      u,
      ran,
      subst
          (λ b. Represents u (record {
            served = b;
            entries = record { addr = a; closing = false; accepted = accepts } ∷ v.entries;
          }))
          (sym served) (Opened-Represents w u v.entries a accepts out (as_served w v served r) o),
    )
step-view_step fuel w v (Event.closing a) le r has = close_io-Represents w v a has r
step-view_step fuel w v (Event.closed a) le r (e, ys, tk, at, acc) =
    let (u, ran, rep) = on_closed-Represents w v tk acc r in
    let gone : remove a v.entries ≡ ys =
      ap (λ x. remove x v.entries) (sym at) ∙ remove-Takes tk r.distinct in
    (u, ap (on_closed w) (sym at) ∙ ran, rw gone rep)
step-view_step fuel w v Event.deleted le r served =
    let (u, ran, rep) = delete_server-Represents fuel w v.entries le (as_served w v served r) in
    (u, rw ran refl, rep)

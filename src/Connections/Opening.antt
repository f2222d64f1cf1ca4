-- ===== src/Connections/Opening.antt =====
-- A new connection in front of the list (c/pxprpc_libuv/pxprpc_libuv.c).
use pxp_rpc.Base.{
  ℕ, ◌≡◌, ◌≢◌, refl, sym, ◌∙◌, Bool, true, false, List, [], ◌∷◌, Option, none, some, same_some,
}
use pxp_rpc.RefPool.Chain.{NotIn, Distinct}
use pxp_rpc.Connections.{Conn, Store, put, World, Call, build_conn, on_connection}
use pxp_rpc.Connections.Links.{
  Entry, addrs, first, Linked, Linked-Agrees, Agrees-others, put_self, put_ne, first_ne,
}
use pxp_rpc.Connections.Spots.{Known-first}
use pxp_rpc.Connections.Unlink.{Rewrites, set_prev-Rewrites, Listens, Rewrites, set_prev-Rewrites}
use pxp_rpc.Connections.Views.{Represents}

-- The first entry gets a new one before it.
Linked-set_prev :
    (s t : Store) (serv : Bool) (prev p : Option ℕ) (es : List Entry)
    → Rewrites s t (first es) (λ c. record c { prev = p })
    → Distinct (addrs es)
    → Linked s serv prev es
    → Linked t serv p es
Linked-set_prev s t serv prev p [] r d l = tt
Linked-set_prev s t serv prev p (e ∷ es) (hit, miss) (de, d) (l, ls) = (
  hit e.addr _ refl l,
  Linked-Agrees s t serv (some e.addr) es
      (Agrees-others s t e.addr (addrs es) de (λ z ne. miss z (λ q. ne (same_some refl q)))) ls,
)

-- A new connection: its node, and the list behind it.
pub record Opened (w u : World) (es : List Entry) (a : ℕ) (accepted : Bool) : Type 0 where
  pub listens : Listens u true (record { addr = a; closing = false; accepted = accepted } ∷ es)
  pub at_self :
      u.conns a
      ≡ some (record {
        serv = true;
        prev = none;
        next = first es;
        stream_closed = false;
        has_data = accepted;
      })
  pub behind : Store
  pub rewrites : Rewrites w.conns behind (first es) (λ c. record c { prev = some a })
  pub at_others : (z : ℕ) → a ≢ z → u.conns z ≡ behind z

pub Opened-Represents :
    (w u : World) (es : List Entry) (a : ℕ) (accepted : Bool)
    → NotIn a (addrs es)
    → Represents w (record { served = true; entries = es })
    → Opened w u es a accepted
    → Represents u (record {
      served = true;
      entries = record { addr = a; closing = false; accepted = accepted } ∷ es;
    })
Opened-Represents w u es a accepted out r o = record {
  listens = o.listens;
  linked = (
    o.at_self,
    Linked-Agrees o.behind u.conns true (some a) es
        (Agrees-others o.behind u.conns a (addrs es) out o.at_others)
        (Linked-set_prev w.conns o.behind true none (some a) es o.rewrites r.distinct r.linked),
  );
  distinct = (out, r.distinct);
  no_more = λ z n.
      o.at_others z (λ q. n.0 (sym q)) ∙ (o.rewrites.1 z (first_ne z es n.1) ∙ r.no_more z n.1);
}

build_conn-Opened :
    (w : World) (es : List Entry) (a : ℕ)
    → Represents w (record { served = true; entries = es })
    → (u : World) × (build_conn w a ≡ some u) × Opened w u es a false
unfolding build_conn
build_conn-Opened w es a r =
    let (l, is, head) = r.listens in
    let (t, wrote, rewrites) =
      set_prev-Rewrites w.conns (first es) (some a) (Known-first w.conns true none es r.linked) in
    let c : Conn = record {
      serv = true;
      prev = none;
      next = first es;
      stream_closed = false;
      has_data = false;
    } in
    let u : World = record {
      listener = some (record l { accepted_conn = some a });
      conns = put t a (some c);
      calls = Call.context_new a l.funcmap ∷ w.calls;
    } in
    (
      u,
      rw (is, head, wrote) refl,
      record {
        listens = (record l { accepted_conn = some a }, refl, refl);
        at_self = put_self t a (some c);
        behind = t;
        rewrites = rewrites;
        at_others = λ z ne. put_ne t a z (some c) ne;
      },
    )

pub on_connection-Opened :
    (w : World) (es : List Entry) (a : ℕ) (accepts : Bool)
    → Represents w (record { served = true; entries = es })
    → (u : World) × (on_connection w a accepts ≡ some u) × Opened w u es a accepts
unfolding on_connection
on_connection-Opened w es a false r =
    let (u, ran, o) = build_conn-Opened w es a r in (u, rw (ran, o.at_self) refl, o)
on_connection-Opened w es a true r =
    let (u, ran, o) = build_conn-Opened w es a r in
    let c : Conn = record {
      serv = true;
      prev = none;
      next = first es;
      stream_closed = false;
      has_data = true;
    } in
    let v : World = record u {
      conns = put u.conns a (some c);
      calls = Call.context_start a ∷ u.calls;
    } in
    (
      v,
      rw (ran, o.at_self) refl,
      record {
        listens = o.listens;
        at_self = put_self u.conns a (some c);
        behind = o.behind;
        rewrites = o.rewrites;
        at_others = λ z ne. put_ne u.conns a z (some c) ne ∙ o.at_others z ne;
      },
    )

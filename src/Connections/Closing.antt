-- ===== src/Connections/Closing.antt =====
-- Closing a connection, and its end (c/pxprpc_libuv/pxprpc_libuv.c).
use mathlib.Core.Path.{subst}
use pxp_rpc.Base.{
  ℕ, ◌≡◌, ◌≢◌, refl, sym, ap, ◌∙◌, Bool, true, false, List, [], ◌∷◌, Option, none, some, ◌==◌,
  arith, Bool-cases, inl, inr, same_some, none-some, Takes, Takes-All,
}
use pxp_rpc.RefPool.Chain.{NotIn, Distinct}
use pxp_rpc.Connections.{Conn, Store, World, close_io, on_closed}
use pxp_rpc.Connections.Links.{Entry, addrs, first, node, Linked, Linked-Agrees, Agrees-others}
use pxp_rpc.Connections.Spots.{Spot, Spot-Takes}
use pxp_rpc.Connections.Detach.{close_io-Closed}
use pxp_rpc.Connections.Unlink.{Listens, free_conn-Freed}
use pxp_rpc.Connections.Views.{
  View, Represents, mark, Has, addrs-Takes, Distinct-Takes, NotIn-Takes,
}

p_inside :
    {s : Store} {serv : Bool} {es ys : List Entry} {e : Entry} (spot : Spot s serv none es ys e)
    (z : ℕ)
    → NotIn z (addrs es)
    → spot.p ≢ some z
p_inside spot z out f = elim spot.place [
  | inl (is, _, _) ↦ none-some (sym is ∙ f)
  | inr (inside, _, _, _) ↦ inside z out f
]

-- libuv has closed the stream: the connection goes.
pub on_closed-Represents :
    (w : World) (v : View) {e : Entry} {ys : List Entry}
    → Takes e v.entries ys
    → e.accepted ≡ true
    → Represents w v
    → (u : World) × (on_closed w e.addr ≡ some u) × Represents u (record v { entries = ys })
unfolding on_closed
on_closed-Represents w v {e} {ys} tk acc r =
    let spot = Spot-Takes w.conns v.served none tk r.linked r.distinct tt in
    let (u, ran, freed) = free_conn-Freed w v.served spot r.listens in
    let (d, n) = Distinct-Takes (addrs-Takes tk) r.distinct in
    (
      u,
      rw (spot.here_node, acc) ran,
      record {
        listens = freed.listens;
        linked = spot.keep u.conns freed.unlinked;
        distinct = d;
        no_more = λ z out. elim (Bool-cases (z == e.addr)) [
          | inl same ↦ (let eq : z ≡ e.addr = ground arith in ap u.conns eq ∙ freed.gone)
          | inr other ↦
              (let ne : z ≢ e.addr = ground arith in
                let away = NotIn-Takes z (addrs-Takes tk) ne out in
                freed.unlinked.other z (λ q. ne (sym q)) (spot.n_inside z away)
                  (p_inside spot z away)
                ∙ r.no_more z away)
        ];
      },
    )

Listens-same :
    (w u : World) (served : Bool) (es es' : List Entry)
    → u.listener ≡ w.listener
    → first es' ≡ first es
    → Listens w served es
    → Listens u served es'
Listens-same w u true es es' same head (l, h, at) = (l, same ∙ h, at ∙ sym head)
Listens-same w u false es es' same head h = same ∙ h

first-mark : (a : ℕ) (es : List Entry) → first (mark a es) ≡ first es
first-mark a [] = refl
first-mark a (e ∷ es) = ground arith

addrs-mark : (a : ℕ) (es : List Entry) → addrs (mark a es) ≡ addrs es
addrs-mark a [] = refl
addrs-mark a (e ∷ es) = elim (Bool-cases (e.addr == a)) [
  | inl h ↦ rw h refl
  | inr h ↦ rw h (ap (◌∷◌ e.addr) (addrs-mark a es))
]

Linked-mark :
    (s t : Store) (serv : Bool) (a : ℕ) (prev : Option ℕ) (es : List Entry)
    → ((c : Conn) → s a ≡ some c → t a ≡ some (record c { stream_closed = true }))
    → ((z : ℕ) → a ≢ z → t z ≡ s z)
    → Distinct (addrs es)
    → Linked s serv prev es
    → Linked t serv prev (mark a es)
Linked-mark s t serv a prev [] at others d l = tt
Linked-mark s t serv a prev (e ∷ es) at others (de, d) (l, ls) = elim (Bool-cases (e.addr == a)) [
  | inl h ↦
      (let same : a ≡ e.addr = ground arith in
        let out : NotIn a (addrs es) = subst (λ x. NotIn x (addrs es)) (sym same) de in
        rw h (
          ap t (sym same) ∙ at (node serv prev e (first es)) (ap s same ∙ l),
          Linked-Agrees s t serv (some e.addr) es (Agrees-others s t a (addrs es) out others) ls,
        ))
  | inr h ↦
      (let ne : a ≢ e.addr = ground arith in
        rw h (
          others e.addr ne ∙ (l ∙ ap (λ q. some (node serv prev e q)) (sym (first-mark a es))),
          Linked-mark s t serv a (some e.addr) es at others d ls,
        ))
]

pub close_io-Represents :
    (w : World) (v : View) (a : ℕ)
    → Has v a
    → Represents w v
    → (u : World) × (close_io w a ≡ some u) × Represents u (record v { entries = mark a v.entries })
close_io-Represents w v a (e, ys, tk, at) r =
    let spot = Spot-Takes w.conns v.served none tk r.linked r.distinct tt in
    let here = ap w.conns (sym at) ∙ spot.here_node in
    let (u, ran, c) = close_io-Closed w a (node v.served spot.p e spot.n) here in
    (
      u,
      ran,
      record {
        listens =
            Listens-same w u v.served v.entries (mark a v.entries) c.same_listener
              (first-mark a v.entries) r.listens;
        linked =
            Linked-mark w.conns u.conns v.served a none v.entries
              (λ c' h.
                c.at_self
                ∙ ap (λ (x : Conn). some (record x { stream_closed = true })) (same_some here h))
              c.at_others r.distinct r.linked;
        distinct = rw (addrs-mark a v.entries) r.distinct;
        no_more = λ z out.
            (let away = subst (NotIn z) (addrs-mark a v.entries) out in
              let ne = Takes-All (λ x. z ≢ x) (addrs-Takes tk) away in
              c.at_others z (λ q. ne.0 (sym q ∙ sym at)) ∙ r.no_more z away);
      },
    )

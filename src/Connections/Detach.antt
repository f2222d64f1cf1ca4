-- ===== src/Connections/Detach.antt =====
-- Closing one connection, and detaching them all (c/pxprpc_libuv/pxprpc_libuv.c).
use pxp_rpc.Base.{
  ℕ, suc, ◌≡◌, ◌≢◌, ◌≤◌, zero, refl, sym, ap, ◌∙◌, true, false, List, [], ◌∷◌, Option, some, arith,
  length, Bool-cases, inl, inr,
}
use pxp_rpc.RefPool.Chain.{NotIn, Distinct}
use pxp_rpc.Connections.{Conn, put, World, close_io, detach_all, Call}
use pxp_rpc.Connections.Links.{
  Agrees-others, Linked-Agrees, Entry, addrs, first, node, Linked, put_self, put_ne,
}

abbrev pub close_entry : Entry → Entry
close_entry e = record e { closing = true }

abbrev pub mark_all : List Entry → List Entry
mark_all [] = []
mark_all (e ∷ es) = close_entry e ∷ mark_all es

pub first-mark_all : (es : List Entry) → first (mark_all es) ≡ first es
first-mark_all [] = refl
first-mark_all (e ∷ es) = refl

pub addrs-mark_all : (es : List Entry) → addrs (mark_all es) ≡ addrs es
addrs-mark_all [] = refl
addrs-mark_all (e ∷ es) = ap (◌∷◌ e.addr) (addrs-mark_all es)

-- What closing the io of one connection comes to.
pub record Closed (w v : World) (a : ℕ) (c : Conn) : Type 0 where
  pub at_self : v.conns a ≡ some (record c { stream_closed = true })
  pub at_others : (z : ℕ) → a ≢ z → v.conns z ≡ w.conns z
  pub same_listener : v.listener ≡ w.listener

pub close_io-Closed :
    (w : World) (a : ℕ) (c : Conn)
    → w.conns a ≡ some c
    → (v : World) × (close_io w a ≡ some v) × Closed w v a c
unfolding close_io
close_io-Closed w a c h = elim (Bool-cases c.stream_closed) [
  | inl done ↦ (
    w,
    rw (h, done) refl,
    record { at_self = rw (h, ← done) refl; at_others = λ z ne. refl; same_listener = refl },
  )
  | inr more ↦ (
    record w {
      conns = put w.conns a (some (record c { stream_closed = true }));
      calls = Call.stream_close a ∷ w.calls;
    },
    rw (h, more) refl,
    record {
      at_self = put_self w.conns a _;
      at_others = λ z ne. put_ne w.conns a z _ ne;
      same_listener = refl;
    },
  )
]

pub record Detached (w v : World) (prev : Option ℕ) (es : List Entry) : Type 0 where
  pub linked : Linked v.conns false prev (mark_all es)
  pub others : (z : ℕ) → NotIn z (addrs es) → v.conns z ≡ w.conns z
  pub same_listener : v.listener ≡ w.listener

detach_one :
    (w : World) (prev : Option ℕ) (e : Entry) (next : Option ℕ)
    → w.conns e.addr ≡ some (node true prev e next)
    → (v : World) × (close_io
          (record w { conns = put w.conns e.addr (some (node false prev e next)) })
          e.addr
        ≡ some v)
      × (v.conns e.addr ≡ some (node false prev (close_entry e) next))
      × ((z : ℕ) → e.addr ≢ z → v.conns z ≡ w.conns z)
      × (v.listener ≡ w.listener)
detach_one w prev e next h =
    let u : World = record w { conns = put w.conns e.addr (some (node false prev e next)) } in
    let (v, ran, c) =
      close_io-Closed u e.addr (node false prev e next) (put_self w.conns e.addr _) in
    (v, ran, c.at_self, (λ z ne. c.at_others z ne ∙ put_ne w.conns e.addr z _ ne), c.same_listener)

-- With fuel for every entry the loop ends, and every connection is detached and closed.
pub detach_all-Detached :
    (es : List Entry) (fuel : ℕ) (w : World) (prev : Option ℕ)
    → length es ≤ fuel
    → Linked w.conns true prev es
    → Distinct (addrs es)
    → (v : World) × (detach_all fuel w (first es) ≡ some (some v)) × Detached w v prev es
unfolding detach_all
detach_all-Detached [] fuel w prev le l d =
    (w, refl, record { linked = tt; others = λ z n. refl; same_listener = refl })
detach_all-Detached (e ∷ es) zero w prev le l d = absurd (omega arith)
detach_all-Detached (e ∷ es) (suc fuel) w prev le (l, ls) (de, d) =
    let (v, ran, at_self, at_others, same) = detach_one w prev e (first es) l in
    let (u, rest, done) =
      detach_all-Detached es fuel v (some e.addr) (omega arith)
        (Linked-Agrees w.conns v.conns true (some e.addr) es
          (Agrees-others w.conns v.conns e.addr (addrs es) de at_others) ls)
        d in
    (
      u,
      rw (l, ran) rest,
      record {
        linked = (
          done.others e.addr de
              ∙ (at_self
                  ∙ ap (λ q. some (node false prev (close_entry e) q)) (sym (first-mark_all es))),
          done.linked,
        );
        others = λ z n. done.others z n.1 ∙ at_others z (λ q. n.0 (sym q));
        same_listener = done.same_listener ∙ same;
      },
    )

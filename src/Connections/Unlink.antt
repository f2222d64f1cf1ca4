-- ===== src/Connections/Unlink.antt =====
-- What freeing a connection does to the store (c/pxprpc_libuv/pxprpc_libuv.c).
use pxp_rpc.Base.{
  ℕ, ◌≡◌, ◌≢◌, refl, sym, ap, ◌∙◌, Bool, true, false, List, ◌∷◌, Option, none, some, ◌==◌, arith,
  Bool-cases, inl, inr, same_some, none-some,
}
use pxp_rpc.Connections.{
  Conn, Store, put, World, Listener, free_conn, set_prev, set_next, points_to, Call, forget_head,
}
use pxp_rpc.Connections.Links.{Entry, first, node, put_self, put_ne, Unlinked}
use pxp_rpc.Connections.Spots.{Spot, Known}

-- What a write to the node at `q`, if there is one, does.
abbrev pub Rewrites : Store → Store → Option ℕ → (Conn → Conn) → Type 0
Rewrites s t q f =
    ((z : ℕ) (c : Conn) → q ≡ some z → s z ≡ some c → t z ≡ some (f c))
    × ((z : ℕ) → q ≢ some z → t z ≡ s z)

Rewrites-put :
    (s : Store) (a : ℕ) (c : Conn) (f : Conn → Conn)
    → s a ≡ some c
    → Rewrites s (put s a (some (f c))) (some a) f
Rewrites-put s a c f h = (
  (λ z c' e g.
      ap (put s a (some (f c))) (sym (same_some refl e))
      ∙ (put_self s a (some (f c))
          ∙ ap (λ x. some (f x)) (same_some h (ap s (same_some refl e) ∙ g)))),
  λ z ne. put_ne s a z _ (λ e. ne (ap some e)),
)

pub set_prev-Rewrites :
    (s : Store) (q prev : Option ℕ)
    → Known s q
    → (t : Store) × (set_prev s q prev ≡ some t) × Rewrites s t q (λ c. record c { prev = prev })
unfolding set_prev
set_prev-Rewrites s none prev known = (s, refl, ((λ z c e. absurd (none-some e)), λ z ne. refl))
set_prev-Rewrites s (some a) prev known =
    let (c, h) = known a refl in
    (
      put s a (some (record c { prev = prev })),
      rw h refl,
      Rewrites-put s a c (λ c. record c { prev = prev }) h,
    )

set_next-Rewrites :
    (s : Store) (q next : Option ℕ)
    → Known s q
    → (t : Store) × (set_next s q next ≡ some t) × Rewrites s t q (λ c. record c { next = next })
unfolding set_next
set_next-Rewrites s none next known = (s, refl, ((λ z c e. absurd (none-some e)), λ z ne. refl))
set_next-Rewrites s (some a) next known =
    let (c, h) = known a refl in
    (
      put s a (some (record c { next = next })),
      rw h refl,
      Rewrites-put s a c (λ c. record c { next = next }) h,
    )

-- The store after the two writes to the neighbours and the free.
record Rewired (s : Store) (a : ℕ) (p n : Option ℕ) : Type 0 where
  pub t1 : Store
  pub t2 : Store
  pub prev_set : set_prev s n p ≡ some t1
  pub next_set : set_next t1 p n ≡ some t2
  pub unlinked : Unlinked s (put t2 a none) a p n

rewire :
    (s : Store) (a : ℕ) (p n : Option ℕ)
    → Known s p
    → Known s n
    → ((z : ℕ) → n ≡ some z → p ≢ some z)
    → n ≢ some a
    → p ≢ some a
    → Rewired s a p n
rewire s a p n kp kn apart nn np =
    let (t1, e1, (hit1, miss1)) = set_prev-Rewrites s n p kn in
    let (t2, e2, (hit2, miss2)) =
      set_next-Rewrites t1 p n
        (λ z e. let (c, h) = kp z e in (c, miss1 z (λ f. apart z f e) ∙ h)) in
    record {
      t1 = t1;
      t2 = t2;
      prev_set = e1;
      next_set = e2;
      unlinked = record {
        at_next = λ z c e h.
            put_ne t2 a z none (λ q. nn (e ∙ ap some (sym q)))
            ∙ (miss2 z (apart z e) ∙ hit1 z c e h);
        at_prev = λ z c e h.
            put_ne t2 a z none (λ q. np (e ∙ ap some (sym q)))
            ∙ hit2 z c e (miss1 z (λ f. apart z f e) ∙ h);
        other = λ z ne on op. put_ne t2 a z none ne ∙ (miss2 z op ∙ miss1 z on);
      };
    }

-- While the server is there, its `acceptedConn` is the first entry.
abbrev pub Listens : World → Bool → List Entry → Type 0
Listens w true es = (l : Listener) × (w.listener ≡ some l) × (l.accepted_conn ≡ first es)
Listens w false es = w.listener ≡ none

points_to_self : (q : Option ℕ) (a : ℕ) → q ≡ some a → points_to q a ≡ true
points_to_self none a e = absurd (none-some e)
points_to_self (some b) a e = let same : b ≡ a = same_some refl e in ground arith

points_to_other : (q : Option ℕ) (a : ℕ) → q ≢ some a → points_to q a ≡ false
points_to_other none a ne = refl
points_to_other (some b) a ne = elim (Bool-cases (b == a)) [
  | inl same ↦ (let eq : b ≡ a = ground arith in absurd (ne (ap some eq)))
  | inr other ↦ other
]

-- The head after the entry `e` is taken out.
abbrev Headed : Option (Option Listener) → Bool → List Entry → Type 0
Headed r true ys = (l : Listener) × (r ≡ some (some l)) × (l.accepted_conn ≡ first ys)
Headed r false ys = r ≡ some none

forget_head-Headed :
    (w : World) (serv : Bool) {s : Store} {prev : Option ℕ} {es ys : List Entry} {e : Entry}
    → Listens w serv es
    → (spot : Spot s serv prev es ys e)
    → Headed (forget_head w.listener (node serv spot.p e spot.n) e.addr) serv ys
unfolding forget_head
forget_head-Headed w false h spot = rw h refl
forget_head-Headed w true {e} (l, h, head) spot = elim spot.place [
  | inl (_, after, at) ↦ (
    record l { accepted_conn = spot.n },
    rw (h, points_to_self l.accepted_conn e.addr (head ∙ at)) refl,
    sym after,
  )
  | inr (_, after, ne, _) ↦ (
    l,
    rw (h, points_to_other l.accepted_conn e.addr (λ q. ne (sym head ∙ q))) refl,
    head ∙ sym after,
  )
]

Headed-Listens :
    (r : Option (Option Listener)) (serv : Bool) (ys : List Entry)
    → Headed r serv ys
    → (x : Option Listener) × (r ≡ some x) × ((u : World) → u.listener ≡ x → Listens u serv ys)
Headed-Listens r true ys (l, e, head) = (some l, e, λ u h. (l, h, head))
Headed-Listens r false ys e = (none, e, λ u h. h)

-- What freeing the entry `e` does.
pub record Freed (w u : World) (serv : Bool) (es ys : List Entry) (e : Entry)
    (spot : Spot w.conns serv none es ys e) : Type 0 where
  pub unlinked : Unlinked w.conns u.conns e.addr spot.p spot.n
  pub gone : u.conns e.addr ≡ none
  pub listens : Listens u serv ys

place-Known :
    (s : Store) (serv : Bool) {es ys : List Entry} {e : Entry} (spot : Spot s serv none es ys e)
    → Known s spot.p
place-Known s serv spot z f = elim spot.place [
  | inl (is, _, _) ↦ absurd (none-some (sym is ∙ f))
  | inr (_, _, _, known) ↦ known z f
]

pub free_conn-Freed :
    (w : World) (serv : Bool) {es ys : List Entry} {e : Entry}
    (spot : Spot w.conns serv none es ys e)
    → Listens w serv es
    → (u : World) × (free_conn w e.addr ≡ some u) × Freed w u serv es ys e spot
unfolding free_conn
free_conn-Freed w serv {es} {ys} {e} spot listens =
    let wired =
      rewire w.conns e.addr spot.p spot.n (place-Known w.conns serv spot) spot.n_known spot.apart
        spot.n_ne spot.p_ne in
    let (x, forgot, at) = Headed-Listens _ serv ys (forget_head-Headed w serv listens spot) in
    let u : World = record {
      listener = x;
      conns = put wired.t2 e.addr none;
      calls = Call.context_delete e.addr ∷ w.calls;
    } in
    (
      u,
      rw (spot.here_node, wired.prev_set, wired.next_set, forgot) refl,
      record {
        unlinked = wired.unlinked;
        gone = put_self wired.t2 e.addr none;
        listens = at u refl;
      },
    )

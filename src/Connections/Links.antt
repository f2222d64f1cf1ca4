-- ===== src/Connections/Links.antt =====
-- The nodes that a list of connections stands for, and what becomes of it when one is unlinked
-- (c/pxprpc_libuv/pxprpc_libuv.c).
use pxp_rpc.Base.{
  ℕ, ◌≡◌, ◌≢◌, refl, ◌∙◌, Bool, List, [], ◌∷◌, Option, none, some, arith, same_some, none-some,
}
use pxp_rpc.RefPool.Chain.{NotIn, Distinct}
use pxp_rpc.Connections.{Conn, Store, put}

-- A connection as its users see it.
pub record Entry : Type 0 where
  pub addr : ℕ
  pub closing : Bool
  pub accepted : Bool

abbrev pub addrs : List Entry → List ℕ
addrs [] = []
addrs (e ∷ es) = e.addr ∷ addrs es

abbrev pub first : List Entry → Option ℕ
first [] = none
first (e ∷ es) = some e.addr

abbrev pub node : Bool → Option ℕ → Entry → Option ℕ → Conn
node serv prev e next = record {
  serv = serv;
  prev = prev;
  next = next;
  stream_closed = e.closing;
  has_data = e.accepted;
}

-- The nodes of the entries stand behind `prev`, linked both ways.
abbrev pub Linked : Store → Bool → Option ℕ → List Entry → Type 0
Linked conns serv prev [] = Unit {0}
Linked conns serv prev (e ∷ es) =
    (conns e.addr ≡ some (node serv prev e (first es))) × Linked conns serv (some e.addr) es

-- The store `t` has what `s` has at the addresses of the list.
abbrev pub Agrees : Store → Store → List ℕ → Type 0
Agrees s t [] = Unit {0}
Agrees s t (a ∷ bs) = (t a ≡ s a) × Agrees s t bs

pub Linked-Agrees :
    (s t : Store) (serv : Bool) (prev : Option ℕ) (es : List Entry)
    → Agrees s t (addrs es)
    → Linked s serv prev es
    → Linked t serv prev es
Linked-Agrees s t serv prev [] same l = tt
Linked-Agrees s t serv prev (e ∷ es) (same, rest) (l, ls) =
    (same ∙ l, Linked-Agrees s t serv (some e.addr) es rest ls)

pub put_self : (s : Store) (a : ℕ) (c : Option Conn) → put s a c a ≡ c
unfolding put
put_self s a c = ground arith

pub put_ne : (s : Store) (a z : ℕ) (c : Option Conn) → a ≢ z → put s a c z ≡ s z
unfolding put
put_ne s a z c h = ground arith

pub Agrees-put :
    (s : Store) (a : ℕ) (c : Option Conn) (bs : List ℕ) → NotIn a bs → Agrees s (put s a c) bs
Agrees-put s a c [] n = tt
Agrees-put s a c (b ∷ bs) (ne, n) = (put_ne s a b c ne, Agrees-put s a c bs n)

pub Agrees-others :
    (s t : Store) (a : ℕ) (bs : List ℕ) → NotIn a bs → ((z : ℕ) → a ≢ z → t z ≡ s z) → Agrees s t bs
Agrees-others s t a [] n same = tt
Agrees-others s t a (b ∷ bs) (ne, n) same = (same b ne, Agrees-others s t a bs n same)

pub Agrees-trans : (s t u : Store) (bs : List ℕ) → Agrees s t bs → Agrees t u bs → Agrees s u bs
Agrees-trans s t u [] p q = tt
Agrees-trans s t u (a ∷ bs) (p, ps) (q, qs) = (q ∙ p, Agrees-trans s t u bs ps qs)

-- What unlinking `a`, with neighbours `p` and `n`, does to a store.
pub record Unlinked (s t : Store) (a : ℕ) (p n : Option ℕ) : Type 0 where
  pub at_next : (z : ℕ) (c : Conn) → n ≡ some z → s z ≡ some c → t z ≡ some (record c { prev = p })
  pub at_prev : (z : ℕ) (c : Conn) → p ≡ some z → s z ≡ some c → t z ≡ some (record c { next = n })
  pub other : (z : ℕ) → a ≢ z → n ≢ some z → p ≢ some z → t z ≡ s z

-- The pointer, if it is not NULL, is not in the list.
abbrev pub Outside : Option ℕ → List ℕ → Type 0
Outside none bs = Unit {0}
Outside (some p) bs = NotIn p bs

pub Outside-ne : (p : Option ℕ) (a : ℕ) (bs : List ℕ) → Outside p (a ∷ bs) → p ≢ some a
Outside-ne none a bs o e = none-some e
Outside-ne (some p) a bs (ne, o) e = ne (same_some refl e)

pub Outside-tail : (p : Option ℕ) (a : ℕ) (bs : List ℕ) → Outside p (a ∷ bs) → Outside p bs
Outside-tail none a bs o = tt
Outside-tail (some p) a bs (ne, o) = o

module _ {s t : Store} {a : ℕ} {p n : Option ℕ} (u : Unlinked s t a p n) where
  Unlinked-Agrees : (bs : List ℕ) → NotIn a bs → Outside n bs → Outside p bs → Agrees s t bs
  Unlinked-Agrees [] na nn np = tt
  Unlinked-Agrees (b ∷ bs) (ne, na) nn np = (
    u.other b ne (Outside-ne n b bs nn) (Outside-ne p b bs np),
    Unlinked-Agrees bs na (Outside-tail n b bs nn) (Outside-tail p b bs np),
  )

pub first_ne : (z : ℕ) (es : List Entry) → NotIn z (addrs es) → first es ≢ some z
first_ne z [] n e = none-some e
first_ne z (x ∷ es) (ne, n) e = ne (same_some e refl)

-- What follows the unlinked node.
pub Linked-after :
    (s t : Store) (serv : Bool) (a : ℕ) (p : Option ℕ) (es : List Entry)
    → Unlinked s t a p (first es)
    → Linked s serv (some a) es
    → Distinct (addrs es)
    → NotIn a (addrs es)
    → Outside p (addrs es)
    → Linked t serv p es
Linked-after s t serv a p [] u l d na np = tt
Linked-after s t serv a p (e ∷ es) u (l, ls) (de, d) (ne, na) np = (
  u.at_next e.addr (node serv (some a) e (first es)) refl l,
  Linked-Agrees s t serv (some e.addr) es
      (Unlinked-Agrees u (addrs es) na de (Outside-tail p e.addr (addrs es) np)) ls,
)

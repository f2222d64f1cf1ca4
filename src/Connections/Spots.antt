-- ===== src/Connections/Spots.antt =====
-- Where a connection stands in its list, and that unlinking it there leaves a list
-- (c/pxprpc_libuv/pxprpc_libuv.c).
use pxp_rpc.Base.{
  ℕ, ◌≡◌, ◌≢◌, ◌⊎◌, All, Takes, Takes-All, refl, sym, ap, ◌∙◌, Bool, List, [], ◌∷◌, Option, some,
  same_some, none-some, inl, inr,
}
use pxp_rpc.RefPool.Chain.{NotIn, Distinct}
use pxp_rpc.Connections.{Conn, Store}
use pxp_rpc.Connections.Links.{
  Entry, addrs, first, node, Linked, Outside, Unlinked, Linked-after, first_ne, Outside-ne,
  Outside-tail,
}

abbrev pub Known : Store → Option ℕ → Type 0
Known s q = (z : ℕ) → q ≡ some z → (c : Conn) × (s z ≡ some c)

-- The entry `e` of the list `es` behind `prev`, its neighbours `p` and `n`, and the list `ys` without it.
pub record Spot (s : Store) (serv : Bool) (prev : Option ℕ) (es ys : List Entry) (e : Entry)
    : Type 0 where
  pub p : Option ℕ
  pub n : Option ℕ
  pub here_node : s e.addr ≡ some (node serv p e n)
  pub n_inside : (z : ℕ) → NotIn z (addrs es) → n ≢ some z
  pub place :
      ((p ≡ prev) × (first ys ≡ n) × (first es ≡ some e.addr))
      ⊎ (((z : ℕ) → NotIn z (addrs es) → p ≢ some z)
          × (first ys ≡ first es)
          × (first es ≢ some e.addr)
          × Known s p)
  pub n_known : Known s n
  pub apart : (z : ℕ) → n ≡ some z → p ≢ some z
  pub n_ne : n ≢ some e.addr
  pub p_ne : p ≢ some e.addr
  pub keep : (t : Store) → Unlinked s t e.addr p n → Linked t serv prev ys

pub Known-first :
    (s : Store) (serv : Bool) (prev : Option ℕ) (es : List Entry)
    → Linked s serv prev es
    → Known s (first es)
Known-first s serv prev [] l z e = absurd (none-some e)
Known-first s serv prev (x ∷ es) (l, ls) z e =
    (node serv prev x (first es), ap s (sym (same_some refl e)) ∙ l)

pub NotIn-All : (a : ℕ) (es : List Entry) → NotIn a (addrs es) → All (λ y. a ≢ y.addr) es
NotIn-All a [] n = tt
NotIn-All a (x ∷ es) (ne, n) = (ne, NotIn-All a es n)

first_apart :
    (p : Option ℕ) (es : List Entry)
    → Outside p (addrs es)
    → (z : ℕ) → first es ≡ some z
    → p ≢ some z
first_apart p [] o z f = absurd (none-some f)
first_apart p (x ∷ es) o z f = λ g. Outside-ne p x.addr (addrs es) o (g ∙ sym f)

Spot-here :
    (s : Store) (serv : Bool) (prev : Option ℕ) (e : Entry) (es : List Entry)
    → Linked s serv prev (e ∷ es)
    → Distinct (addrs (e ∷ es))
    → Outside prev (addrs (e ∷ es))
    → Spot s serv prev (e ∷ es) es e
Spot-here s serv prev e es (l, ls) (de, d) o = record {
  p = prev;
  n = first es;
  here_node = l;
  n_inside = λ z out. first_ne z es out.1;
  place = inl (refl, refl, refl);
  n_known = Known-first s serv (some e.addr) es ls;
  apart = first_apart prev es (Outside-tail prev e.addr (addrs es) o);
  n_ne = first_ne e.addr es de;
  p_ne = Outside-ne prev e.addr (addrs es) o;
  keep =
      λ t u. Linked-after s t serv e.addr prev es u ls d de (Outside-tail prev e.addr (addrs es) o);
}

Spot-there :
    (s : Store) (serv : Bool) (prev : Option ℕ) (x : Entry) {es ys : List Entry} {e : Entry}
    → s x.addr ≡ some (node serv prev x (first es))
    → NotIn x.addr (addrs es)
    → Outside prev (addrs (x ∷ es))
    → x.addr ≢ e.addr
    → Spot s serv (some x.addr) es ys e
    → Spot s serv prev (x ∷ es) (x ∷ ys) e
Spot-there s serv prev x {es} {ys} {e} l dx o ne spot = record {
  p = spot.p;
  n = spot.n;
  here_node = spot.here_node;
  n_inside = λ z out. spot.n_inside z out.1;
  place = inr (p_inside, refl, (λ f. ne (same_some refl f)), p_known);
  n_known = spot.n_known;
  apart = spot.apart;
  n_ne = spot.n_ne;
  p_ne = spot.p_ne;
  keep = λ t u. (head_kept t u, spot.keep t u);
}
  where
    p_inside : (z : ℕ) → NotIn z (addrs (x ∷ es)) → spot.p ≢ some z
    p_inside z out f = elim spot.place [
      | inl (is, _, _) ↦ out.0 (same_some f is)
      | inr (inside, _, _, _) ↦ inside z out.1 f
    ]

    p_known : Known s spot.p
    p_known z f = elim spot.place [
      | inl (is, _, _) ↦ (node serv prev x (first es), ap s (same_some f is) ∙ l)
      | inr (_, _, _, known) ↦ known z f
    ]

    head_kept :
        (t : Store)
        → Unlinked s t e.addr spot.p spot.n
        → t x.addr ≡ some (node serv prev x (first ys))
    head_kept t u = elim spot.place [
      | inl (is, f, _) ↦
          u.at_prev x.addr (node serv prev x (first es)) is l
          ∙ ap (λ q. some (node serv prev x q)) (sym f)
      | inr (inside, f, _, _) ↦
          u.other x.addr (λ q. ne (sym q)) (spot.n_inside x.addr dx) (inside x.addr dx)
          ∙ (l ∙ ap (λ q. some (node serv prev x q)) (sym f))
    ]

-- A list of entries with distinct addresses has a spot for each of them.
pub Spot-Takes :
    (s : Store) (serv : Bool) {e : Entry} {es ys : List Entry} (prev : Option ℕ)
    → Takes e es ys
    → Linked s serv prev es
    → Distinct (addrs es)
    → Outside prev (addrs es)
    → Spot s serv prev es ys e
Spot-Takes s serv {e} prev (Takes.here {xs}) l d o = Spot-here s serv prev _ xs l d o
Spot-Takes s serv prev (Takes.there {x} {xs} {ys} tk) (l, ls) (dx, d) o =
    Spot-there s serv prev x l dx o
      ((Takes-All (λ y. x.addr ≢ y.addr) tk (NotIn-All x.addr xs dx)).0)
      (Spot-Takes s serv (some x.addr) tk ls d dx)

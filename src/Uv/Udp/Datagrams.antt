-- ===== src/Uv/Udp/Datagrams.antt =====
-- The datagrams that a read takes are those that came
-- (runtime_bridge/c-modules/pxprpc_libuv_rpc/init.hpp).
use mathlib.Core.Path.{subst}
use pxp_rpc.Base.{
  ℕ, ◌+◌, ◌*◌, ◌<◌, ◌≤◌, ◌≡◌, ◌≢◌, refl, sym, ap, ◌∙◌, true, false, List, [], ◌∷◌, ◌++◌, map,
  Option, none, some, ltb, length, ◌>>=◌, arith, >>=-eq-some, same_some, All, All-append,
  length-append, append_assoc,
}
use pxp_rpc.Serializer.{Ser}
use pxp_rpc.Serializer.Write.{
  IsValid, Appends, Appends-trans, varint_bytes, prepare_ser-IsValid, prepare_ser-pos,
}
use pxp_rpc.CppSerializer.{prepare_serializing, prepare_unserializing, put_bytes, put_string, build}
use pxp_rpc.CppSerializer.RoundTrip.{
  Item, kind, IsItem, item_bytes, items_bytes, get_items, put_item, put_items, put_items-Puts,
  get_items-put_items,
}
use pxp_rpc.Uv.{Answer}
use pxp_rpc.Uv.Udp.{
  Udp, new_udp, resolve_datagrams, hand_over_datagrams, udp_processing, current, push_datagram,
  pull_datagrams,
}

-- An address with the bytes that came from it, and what they are in the answer.
abbrev pub Datagram : Type 0
Datagram = List ℕ × List ℕ

abbrev pub datagram_items : List Datagram → List Item
datagram_items [] = []
datagram_items (d ∷ ds) = Item.string d.0 ∷ Item.string d.1 ∷ datagram_items ds

abbrev pub answer_items : List Datagram → List Item
answer_items ds = datagram_items ds ++ (Item.string [] ∷ [])

-- A length of 255 is not written.
abbrev pub IsDatagram : Datagram → Type 0
IsDatagram d = (length d.0 ≢ 255) × (length d.1 ≢ 255) × (d.1 ≢ [])

-- No read waits, and there was no error.
abbrev idle : Option Ser → Udp
idle q = record { read_buf = q; read_waiting = []; errcode = 0; answers = [] }

items_bytes-append : (xs ys : List Item) → items_bytes (xs ++ ys) ≡ items_bytes xs ++ items_bytes ys
unfolding items_bytes
items_bytes-append [] ys = refl
items_bytes-append (x ∷ xs) ys =
    ap (◌++◌ (item_bytes x)) (items_bytes-append xs ys)
    ∙ sym (append_assoc (item_bytes x) (items_bytes xs) (items_bytes ys))

datagram_items-IsItem : (ds : List Datagram) → All IsDatagram ds → All IsItem (datagram_items ds)
datagram_items-IsItem [] h = tt
datagram_items-IsItem (d ∷ ds) ((a, b, _), hs) = (a, (b, datagram_items-IsItem ds hs))

datagram_some :
    (d : Datagram) (ds : List Datagram)
    → IsDatagram d
    → 0 < length (items_bytes (datagram_items (d ∷ ds)))
unfolding items_bytes item_bytes
datagram_some (addr, []) ds (_, _, full) = absurd (full refl)
datagram_some (addr, b ∷ bs) ds h =
    let more = items_bytes (datagram_items ds) in
    let text = varint_bytes (length (b ∷ bs)) in
    omega (
      arith,
      length-append (varint_bytes (length addr) ++ addr) ((text ++ (b ∷ bs)) ++ more),
      length-append (text ++ (b ∷ bs)) more,
      length-append text (b ∷ bs),
    )

module _ (junk : ℕ → ℕ) where
  abbrev pub push_datagrams : Udp → List Datagram → Option Udp
  push_datagrams u [] = some u
  push_datagrams u (d ∷ ds) = push_datagram junk u d.0 d.1 >>= λ v. push_datagrams v ds

  put_items-append :
      (s t : Ser) (xs ys : List Item)
      → put_items junk s xs ≡ some t
      → put_items junk s (xs ++ ys) ≡ put_items junk t ys
  unfolding put_items
  put_items-append s t [] ys e = ap (λ x. put_items junk x ys) (same_some refl e)
  put_items-append s t (x ∷ xs) ys e =
      let (u, e1, e2) = >>=-eq-some (put_item junk s x) _ e in rw e1 (put_items-append u t xs ys e2)

  push_ran :
      (q : Option Ser) (s t u : Ser) (addr bs : List ℕ)
      → current junk q ≡ s
      → s.pos ≤ 1024 * 1024
      → bs ≢ []
      → put_bytes junk s addr ≡ some t
      → put_bytes junk t bs ≡ some u
      → push_datagram junk (idle q) addr bs ≡ some (idle (some u))
  unfolding push_datagram udp_processing hand_over_datagrams
  push_ran q s t u addr [] c room full e1 e2 = absurd (full refl)
  push_ran q s t u addr (b ∷ bs) c room full e1 e2 =
      let small : ltb (1024 * 1024) s.pos ≡ false = ground arith in rw (c, small, e1, e2) refl

  -- What a run of datagrams leaves in the serializer.
  record Pushed (q : Option Ser) (s : Ser) (ds : List Datagram) (t : Ser) : Type 0 where
    pub puts : put_items junk s (datagram_items ds) ≡ some t
    pub appends : Appends s (items_bytes (datagram_items ds)) t
    pub ran : push_datagrams (idle q) ds ≡ some (idle (some t))

  push_one :
      (q : Option Ser) (s : Ser) (d : Datagram)
      → current junk q ≡ s
      → IsValid s
      → IsDatagram d
      → s.pos + length (items_bytes (datagram_items (d ∷ []))) ≤ 1024 * 1024
      → (t : Ser) × (put_items junk s (datagram_items (d ∷ [])) ≡ some t)
        × Appends s (items_bytes (datagram_items (d ∷ []))) t
        × (push_datagram junk (idle q) d.0 d.1 ≡ some (idle (some t)))
  unfolding put_items put_item put_string
  push_one q s d c v (_, _, full) room =
      let (t, e, at) = put_items-Puts junk s (datagram_items (d ∷ [])) v (omega arith) in
      let (t1, e1, r1) = >>=-eq-some (put_bytes junk s d.0) _ e in
      let (t2, e2, r2) = >>=-eq-some (put_bytes junk t1 d.1) _ r1 in
      (t, e, at, push_ran q s t1 t d.0 d.1 c (omega arith) full e1 (e2 ∙ r2))

  push-All :
      (ds : List Datagram) (d : Datagram) (q : Option Ser) (s : Ser)
      → current junk q ≡ s
      → IsValid s
      → All IsDatagram (d ∷ ds)
      → s.pos + length (items_bytes (datagram_items (d ∷ ds))) ≤ 1024 * 1024
      → (t : Ser) × Pushed q s (d ∷ ds) t
  unfolding current
  push-All [] d q s c v (h, hs) room =
      let (t, e, at, ran) = push_one q s d c v h room in
      (t, record { puts = e; appends = at; ran = rw ran refl })
  push-All (d' ∷ ds) d q s c v (h, hs) room =
      let l =
        length-append (items_bytes (datagram_items (d ∷ [])))
          (items_bytes (datagram_items (d' ∷ ds))) in
      let cut = items_bytes-append (datagram_items (d ∷ [])) (datagram_items (d' ∷ ds)) in
      let (t, e, at, ran) = push_one q s d c v h (omega (arith, l, ap length cut)) in
      let (u, p) =
        push-All ds d' (some t) t refl at.valid hs (omega (arith, l, ap length cut, at.moved)) in
      (
        u,
        record {
          puts =
              put_items-append s t (datagram_items (d ∷ [])) (datagram_items (d' ∷ ds)) e ∙ p.puts;
          appends = subst (λ bs. Appends s bs u) (sym cut) (Appends-trans at p.appends);
          ran = rw ran p.ran;
        },
      )

  pull_ran :
      (t u : Ser) (ret : ℕ)
      → 0 < t.pos
      → put_bytes junk t [] ≡ some u
      → pull_datagrams junk (idle (some t)) ret
        ≡ some (record {
          read_buf = none;
          read_waiting = [];
          errcode = 0;
          answers = (ret, Answer.bytes (build u)) ∷ [];
        })
  unfolding pull_datagrams udp_processing hand_over_datagrams resolve_datagrams
  pull_ran t u ret some_bytes e = let full : ltb 0 t.pos ≡ true = ground arith in rw (full, e) refl

  -- Datagrams that are not empty, come to a new UvUdpWrap and take at most 1 MB with their addresses
  -- and lengths, none of a length of 255, are all in the answer of the next read, in order, each
  -- behind its address, and an empty one ends them.
  pub pull_datagrams-push_datagram :
      (d : Datagram) (ds : List Datagram) (ret : ℕ)
      → All IsDatagram (d ∷ ds)
      → length (items_bytes (answer_items (d ∷ ds))) ≤ 1024 * 1024
      → (bs : List ℕ) × (v : Ser) × ((push_datagrams new_udp (d ∷ ds) >>= λ u.
            pull_datagrams junk u ret)
          ≡ some (record {
            read_buf = none;
            read_waiting = [];
            errcode = 0;
            answers = (ret, Answer.bytes bs) ∷ [];
          }))
        × (get_items (map kind (answer_items (d ∷ ds))) (prepare_unserializing bs)
            ≡ some (answer_items (d ∷ ds), v))
  unfolding prepare_serializing current put_items put_item put_string
  pull_datagrams-push_datagram d ds ret h room =
      let s = prepare_serializing junk 32 in
      let items = datagram_items (d ∷ ds) in
      let l = length-append (items_bytes items) (items_bytes (Item.string [] ∷ [])) in
      let cut = items_bytes-append items (Item.string [] ∷ []) in
      let start = prepare_ser-pos junk 32 in
      let (t, p) =
        push-All ds d none s refl (prepare_ser-IsValid junk 32 (omega arith)) h
          (omega (arith, l, ap length cut, start)) in
      let (u, e, at) =
        put_items-Puts junk t (Item.string [] ∷ []) p.appends.valid
          (omega (arith, l, ap length cut, p.appends.moved, start)) in
      let (v, decoded, _) =
        get_items-put_items junk 32 (answer_items (d ∷ ds)) (omega arith)
          (All-append IsItem items (Item.string [] ∷ []) (datagram_items-IsItem (d ∷ ds) h)
            ((λ q. ground arith), tt))
          (omega arith) in
      let (w, wrote, got) = >>=-eq-some (put_items junk s (answer_items (d ∷ ds))) _ decoded in
      let same : w ≡ u =
        same_some wrote (put_items-append s t items (Item.string [] ∷ []) p.puts ∙ e) in
      let (x, ended, r) = >>=-eq-some (put_bytes junk t []) _ e in
      let moved = p.appends.moved in
      let some_bytes = datagram_some d ds h.0 in
      (
        build u,
        v,
        rw p.ran (pull_ran t u ret (omega arith) (ended ∙ r)),
        subst
            (λ y.
              get_items (map kind (answer_items (d ∷ ds))) (prepare_unserializing (build y))
              ≡ some (answer_items (d ∷ ds), v))
            same got,
      )

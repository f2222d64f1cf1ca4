-- ===== src/Pipe/Flows.antt =====
-- What flows between the two sides of c/pxprpc_pipe/pxprpc_pipe.c, and what a send and a receive do to it.
use mathlib.Core.List.{flatten}
use pxp_rpc.Base.{
  ℕ, suc, ◌+◌, ◌≡◌, refl, sym, ap, ◌∙◌, false, List, [], ◌∷◌, ◌++◌, none, length, arith,
  append_assoc, length-append, All, Option-cases, inl, inr,
}
use pxp_rpc.Pipe.{Side, Send, Half, Conn, Frame, pump, is_closed, send, receive}

-- The messages that wait.
unfoldable pub queued : List Send → List (List ℕ)
queued [] = []
queued (r ∷ rs) = flatten r.parts ∷ queued rs

-- How many sends of a side are delivered and wait for their callback.
unfoldable pub waiting : Side → List Frame → ℕ
waiting side [] = 0
waiting Side.client (Frame.complete Side.client r ∷ fs) = suc (waiting Side.client fs)
waiting Side.server (Frame.complete Side.server r ∷ fs) = suc (waiting Side.server fs)
waiting side (f ∷ fs) = waiting side fs

-- What `a` has sent: the messages are those that `b` has received and those that wait, in order, and
-- they are as many as the callbacks that ran, the sends whose callback is due (`n`) and those that wait.
pub record Flows (a b : Half) (n : ℕ) : Type 0 where
  pub ordered : a.accepted ≡ b.received ++ queued a.sends
  pub counted : a.completed + n + length a.sends ≡ length a.accepted

-- The frames of a connection that no side has closed.
abbrev pub IsOpenFrame : Frame → Type 0
IsOpenFrame (Frame.user f) = Unit
IsOpenFrame (Frame.transfer side) = Unit
IsOpenFrame (Frame.complete side r) = Unit
IsOpenFrame _ = ⊥

pub record IsOpen (c : Conn) (fs : List Frame) : Type 0 where
  pub to_server : Flows c.client_half c.server_half (waiting Side.client fs)
  pub to_client : Flows c.server_half c.client_half (waiting Side.server fs)
  pub frames : All IsOpenFrame fs

queued-append :
    (rs : List Send) (r : Send) → queued (rs ++ (r ∷ [])) ≡ queued rs ++ (flatten r.parts ∷ [])
unfolding queued
queued-append [] r = refl
queued-append (q ∷ rs) r = ap (◌∷◌ (flatten q.parts)) (queued-append rs r)

Flows-sent :
    (a b : Half) (n : ℕ) (r : Send)
    → Flows a b n
    → Flows
        (record a {
          sends = a.sends ++ (r ∷ []);
          send_error = none;
          accepted = a.accepted ++ (flatten r.parts ∷ []);
        })
        b
        n
Flows-sent a b n r f = record {
  ordered =
      rw (f.ordered, queued-append a.sends r)
        (append_assoc b.received (queued a.sends) (flatten r.parts ∷ []));
  counted = omega (
    arith,
    f.counted,
    length-append a.sends (r ∷ []),
    length-append a.accepted (flatten r.parts ∷ []),
  );
}

pub Flows-taken :
    (a b : Half) (n : ℕ) (r : Send) (rs : List Send)
    → a.sends ≡ r ∷ rs
    → Flows a b n
    → Flows
        (record a { sends = rs })
        (record b { recv = none; received = b.received ++ (flatten r.parts ∷ []) })
        (suc n)
unfolding queued
Flows-taken a b n r rs e f = record {
  ordered = f.ordered ∙ rw e (sym (append_assoc b.received (flatten r.parts ∷ []) (queued rs)));
  counted = omega (arith, f.counted, ap length e);
}

pub Flows-completed :
    (a b : Half) (n : ℕ) → Flows a b (suc n) → Flows (record a { completed = suc a.completed }) b n
Flows-completed a b n f = record { ordered = f.ordered; counted = omega (arith, f.counted) }

pub waiting-user :
    (side : Side) (f : ℕ) (fs : List Frame) → waiting side (Frame.user f ∷ fs) ≡ waiting side fs
unfolding waiting
waiting-user Side.client f fs = refl
waiting-user Side.server f fs = refl

waiting-pump : (side : Side) (fs : List Frame) → waiting side (pump ++ fs) ≡ waiting side fs
unfolding waiting
waiting-pump Side.client fs = refl
waiting-pump Side.server fs = refl

-- Only these fields matter.
pub Flows-same :
    {a b : Half} {n : ℕ} (a1 b1 : Half) (n1 : ℕ)
    → a1.accepted ≡ a.accepted
    → a1.sends ≡ a.sends
    → a1.completed ≡ a.completed
    → b1.received ≡ b.received
    → n1 ≡ n
    → Flows a b n
    → Flows a1 b1 n1
Flows-same a1 b1 n1 ea es ec eb en f = record {
  ordered = ea ∙ rw (es, eb) f.ordered;
  counted = rw (es, ea) (omega (arith, f.counted, ec, en));
}

pub send-IsOpen :
    (side : Side) (r : Send) (c : Conn) (fs : List Frame)
    → is_closed c ≡ false
    → IsOpen c fs
    → IsOpen (send side r c).0 ((send side r c).1 ++ fs)
unfolding send
send-IsOpen Side.client r c fs e v = rw e (record {
  to_server =
      rw (waiting-pump Side.client fs) (Flows-sent c.client_half c.server_half _ r v.to_server);
  to_client = Flows-same _ _ _ refl refl refl refl (waiting-pump Side.server fs) v.to_client;
  frames = (tt, (tt, v.frames));
})
send-IsOpen Side.server r c fs e v = rw e (record {
  to_server = Flows-same _ _ _ refl refl refl refl (waiting-pump Side.client fs) v.to_server;
  to_client =
      rw (waiting-pump Side.server fs) (Flows-sent c.server_half c.client_half _ r v.to_client);
  frames = (tt, (tt, v.frames));
})

-- A receive, and a failed call, leave what flows alone.
pub receive-IsOpen :
    (side : Side) (f : ℕ) (c : Conn) (fs : List Frame)
    → is_closed c ≡ false
    → IsOpen c fs
    → IsOpen (receive side f c).0 ((receive side f c).1 ++ fs)
unfolding receive
receive-IsOpen Side.client f c fs e v = elim (Option-cases c.client_half.recv) [
  | inl n ↦
      rw (n, e)
        (record {
          to_server =
              Flows-same _ _ _ refl refl refl refl (waiting-pump Side.client fs) v.to_server;
          to_client =
              Flows-same _ _ _ refl refl refl refl (waiting-pump Side.server fs) v.to_client;
          frames = (tt, (tt, v.frames));
        })
  | inr (g, n) ↦ rw n (record {
    to_server = Flows-same _ _ _ refl refl refl refl (waiting-user Side.client f fs) v.to_server;
    to_client = Flows-same _ _ _ refl refl refl refl (waiting-user Side.server f fs) v.to_client;
    frames = (tt, v.frames);
  })
]
receive-IsOpen Side.server f c fs e v = elim (Option-cases c.server_half.recv) [
  | inl n ↦
      rw (n, e)
        (record {
          to_server =
              Flows-same _ _ _ refl refl refl refl (waiting-pump Side.client fs) v.to_server;
          to_client =
              Flows-same _ _ _ refl refl refl refl (waiting-pump Side.server fs) v.to_client;
          frames = (tt, (tt, v.frames));
        })
  | inr (g, n) ↦ rw n (record {
    to_server = Flows-same _ _ _ refl refl refl refl (waiting-user Side.client f fs) v.to_server;
    to_client = Flows-same _ _ _ refl refl refl refl (waiting-user Side.server f fs) v.to_client;
    frames = (tt, v.frames);
  })
]

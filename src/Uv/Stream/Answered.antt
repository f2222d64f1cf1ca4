-- ===== src/Uv/Stream/Answered.antt =====
-- The calls of a stream that were answered, and those that wait
-- (runtime_bridge/c-modules/pxprpc_libuv_rpc/init.hpp).
use pxp_rpc.Base.{
  ℕ, ◌≡◌, refl, ap, ◌∙◌, List, [], ◌∷◌, ◌++◌, Bool-cases, inl, inr, append-nil, append_assoc,
}
use pxp_rpc.Uv.{Answer, is_negative}
use pxp_rpc.Uv.Stream.{Stream, hand_over, reject_all, processing}

abbrev pub ids : List (ℕ × Answer) → List ℕ
ids [] = []
ids (a ∷ more) = a.0 ∷ ids more

ids-append : (xs ys : List (ℕ × Answer)) → ids (xs ++ ys) ≡ ids xs ++ ids ys
ids-append [] ys = refl
ids-append (x ∷ xs) ys = ap (◌∷◌ x.0) (ids-append xs ys)

ids-reject_all : (code : ℕ) (rs : List ℕ) → ids (reject_all code rs) ≡ rs
unfolding reject_all
ids-reject_all code [] = refl
ids-reject_all code (r ∷ rs) = ap (◌∷◌ r) (ids-reject_all code rs)

-- The reads and the accepts that were asked, first the answered ones.
abbrev pub reads : Stream → List ℕ
reads s = ids s.read_answers ++ s.read_waiting

abbrev pub accepts : Stream → List ℕ
accepts s = ids s.accept_answers ++ s.accept_waiting

-- A first one that is answered, and all the others.
pub answer_first :
    (xs : List (ℕ × Answer)) (r : ℕ) (a : Answer) (rs : List ℕ)
    → ids (xs ++ ((r, a) ∷ [])) ++ rs ≡ ids xs ++ (r ∷ rs)
answer_first xs r a rs =
    ap (λ x. x ++ rs) (ids-append xs ((r, a) ∷ [])) ∙ append_assoc (ids xs) (r ∷ []) rs

answer_all :
    (xs : List (ℕ × Answer)) (code : ℕ) (rs : List ℕ)
    → ids (xs ++ reject_all code rs) ++ [] ≡ ids xs ++ rs
answer_all xs code rs =
    append-nil (ids (xs ++ reject_all code rs))
    ∙ (ids-append xs (reject_all code rs) ∙ ap (◌++◌ (ids xs)) (ids-reject_all code rs))

-- What a change of the stream keeps of what was asked.
abbrev pub Keeps : Stream → Stream → Type 0
Keeps s t = (reads t ≡ reads s) × (accepts t ≡ accepts s)

hand_over-Keeps :
    (waiting buf : List ℕ) (s : Stream)
    → s.read_waiting ≡ waiting
    → s.read_buf ≡ buf
    → Keeps s (hand_over s)
unfolding hand_over
hand_over-Keeps [] buf s w b = rw w (refl, refl)
hand_over-Keeps (r ∷ rs) [] s w b = rw (w, b) (refl, refl)
hand_over-Keeps (r ∷ rs) (x ∷ xs) s w b =
    rw (w, b) (answer_first s.read_answers r (Answer.bytes (x ∷ xs)) rs, refl)

pub processing-Keeps : (s : Stream) → Keeps s (processing s)
unfolding processing
processing-Keeps s =
    let (kr, ka) = hand_over-Keeps s.read_waiting s.read_buf s refl refl in
    let t = hand_over s in
    elim (Bool-cases (is_negative t.errcode)) [
      | inl e ↦ rw e (
        answer_all t.read_answers t.errcode t.read_waiting ∙ kr,
        answer_all t.accept_answers t.errcode t.accept_waiting ∙ ka,
      )
      | inr e ↦ rw e (kr, ka)
    ]

-- ===== src/Uv/Process/Results.antt =====
-- What the calls of a process are answered (runtime_bridge/c-modules/pxprpc_libuv_rpc/init.hpp).
use pxp_rpc.Base.{
  ℕ, ◌^◌, ◌<◌, ◌≡◌, refl, ap, ◌∙◌, ◌≤◌, length, Bool, true, false, List, [], ◌∷◌, ◌++◌, Option,
  some, ◌>>=◌, if◌then◌else◌, arith, same_some, >>=-eq-some,
}
use pxp_rpc.Serializer.{Ser}
use pxp_rpc.Serializer.Write.{varint_bytes, max_packet}
use pxp_rpc.Base.Bytes.{words_bytes, le_bytes}
use mathlib.Core.Path.{subst}
use pxp_rpc.CppSerializer.{
  prepare_serializing, prepare_unserializing, put_varint, put_long, put_int, build,
}
use pxp_rpc.CppSerializer.RoundTrip.{
  kind, items_bytes, item_bytes, Item, Kind, get_items, put_items, put_item, get_items-put_items,
}
use pxp_rpc.Uv.{Answer}
use pxp_rpc.Uv.Process.{
  begun, asked, exited, Process, process_result, resolve_result, resolve_results, process_event,
  get_process_result, process_exit, Spawned,
}

-- A process as `Spawned` has it.
record IsSpawned (p : Process) : Type 0 where
  pub not_alive : p.alive ≡ false
  pub status_small : p.exit_status < 2 ^ 64
  pub signal_small : p.term_signal < 2 ^ 32
  pub none_waits : p.on_proc_exit ≡ []

result_small :
    (status signal : ℕ)
    → length (items_bytes (Item.varint 0 ∷ Item.long status ∷ Item.int signal ∷ [])) ≤ max_packet
unfolding items_bytes item_bytes varint_bytes words_bytes le_bytes
result_small status signal = omega arith

module _ (junk : ℕ → ℕ) where
  get_items-process_result :
      (p : Process)
      → IsSpawned p
      → (bs : List ℕ) × (u : Ser) × (process_result junk p ≡ some bs)
        × (get_items (Kind.varint ∷ Kind.long ∷ Kind.int ∷ []) (prepare_unserializing bs)
            ≡ some (Item.varint 0 ∷ Item.long p.exit_status ∷ Item.int p.term_signal ∷ [], u))
  unfolding process_result put_items put_item kind
  get_items-process_result p is =
      let items = Item.varint 0 ∷ Item.long p.exit_status ∷ Item.int p.term_signal ∷ [] in
      let (u, e, _) =
        get_items-put_items junk 16 items (omega arith)
          (((omega arith), λ q. ground arith), (is.status_small, (is.signal_small, tt)))
          (result_small p.exit_status p.term_signal) in
      let (t, wrote, got) = >>=-eq-some (put_items junk (prepare_serializing junk 16) items) _ e in
      let (t1, e1, r1) = >>=-eq-some (put_varint junk (prepare_serializing junk 16) 0) _ wrote in
      let (t2, e2, r2) = >>=-eq-some (put_long junk t1 p.exit_status) _ r1 in
      let (t3, e3, r3) = >>=-eq-some (put_int junk t2 p.term_signal) _ r2 in
      (
        build t,
        u,
        rw (is.not_alive, e1, e2, e3) (ap (λ x. some (build x)) (same_some refl r3)),
        got,
      )

  resolve_result_ran :
      (p : Process) (ret : ℕ) (bs : List ℕ)
      → process_result junk p ≡ some bs
      → resolve_result junk p ret
        ≡ some (record p { answers = p.answers ++ ((ret, Answer.bytes bs) ∷ []) })
  unfolding resolve_result
  resolve_result_ran p ret bs e =
      ap
        (λ (x : Option (List ℕ)).
          x >>= λ y. some (record p { answers = p.answers ++ ((ret, Answer.bytes y) ∷ []) }))
        e

  get_process_result_ran :
      (p : Process) (wait_exit : Bool) (ret : ℕ) (bs : List ℕ)
      → p.alive ≡ false
      → process_result junk p ≡ some bs
      → get_process_result junk p wait_exit ret
        ≡ some (record p { answers = p.answers ++ ((ret, Answer.bytes bs) ∷ []) })
  unfolding get_process_result
  get_process_result_ran p true ret bs off e =
      ap
        (λ (b : Bool).
          if b
          then some (record p { on_proc_exit = p.on_proc_exit ++ (ret ∷ []) })
          else resolve_result junk p ret)
        off
      ∙ resolve_result_ran p ret bs e
  get_process_result_ran p false ret bs off e = resolve_result_ran p ret bs e

  process_exit_ran :
      (p : Process) (status signal : ℕ)
      → p.on_proc_exit ≡ []
      → process_exit junk p status signal
        ≡ some (record p {
          alive = false;
          exit_status = status;
          term_signal = signal;
          on_proc_exit = [];
        })
  unfolding process_exit process_event resolve_results
  process_exit_ran p status signal none_waits =
      ap
        (λ x.
          resolve_results junk x
            (record p { alive = false; exit_status = status; term_signal = signal })
          >>= λ q. some (record q { on_proc_exit = [] }))
        none_waits

  Spawned-IsSpawned : {p : Process} → Spawned junk p → IsSpawned p
  Spawned-IsSpawned begun = record {
    not_alive = refl;
    status_small = omega arith;
    signal_small = omega arith;
    none_waits = refl;
  }
  Spawned-IsSpawned (asked {p} {q} wait_exit ret h e) =
      let is = Spawned-IsSpawned h in
      let (bs, u, made, _) = get_items-process_result p is in
      let next : Process = record p { answers = p.answers ++ ((ret, Answer.bytes bs) ∷ []) } in
      let fine : IsSpawned next = record {
        not_alive = is.not_alive;
        status_small = is.status_small;
        signal_small = is.signal_small;
        none_waits = is.none_waits;
      } in
      subst IsSpawned (same_some (get_process_result_ran p wait_exit ret bs is.not_alive made) e)
        fine
  Spawned-IsSpawned (exited {p} {q} status signal h st si e) =
      let is = Spawned-IsSpawned h in
      let next : Process = record p {
        alive = false;
        exit_status = status;
        term_signal = signal;
        on_proc_exit = [];
      } in
      let fine : IsSpawned next = record {
        not_alive = refl;
        status_small = st;
        signal_small = si;
        none_waits = refl;
      } in
      subst IsSpawned (same_some (process_exit_ran p status signal is.none_waits) e) fine

  -- Whatever was asked of a spawned process before, and whether or not it has ended, a call for its
  -- result is answered at once, with or without `waitExit`, and the answer decodes to 0, for
  -- not alive, and the status and the signal that the object holds; no call waits.
  pub get_process_result_answers :
      {p : Process} (wait_exit : Bool) (ret : ℕ)
      → Spawned junk p
      → (bs : List ℕ) × (u : Ser) × (get_process_result junk p wait_exit ret
          ≡ some (record p { answers = p.answers ++ ((ret, Answer.bytes bs) ∷ []) }))
        × (get_items (Kind.varint ∷ Kind.long ∷ Kind.int ∷ []) (prepare_unserializing bs)
            ≡ some (Item.varint 0 ∷ Item.long p.exit_status ∷ Item.int p.term_signal ∷ [], u))
        × (p.on_proc_exit ≡ [])
  get_process_result_answers {p} wait_exit ret h =
      let is = Spawned-IsSpawned h in
      let (bs, u, made, decoded) = get_items-process_result p is in
      (bs, u, get_process_result_ran p wait_exit ret bs is.not_alive made, decoded, is.none_waits)

-- ===== src/Uv/Process.antt =====
-- class UvProcessWrap of runtime_bridge/c-modules/pxprpc_libuv_rpc/init.hpp: a process that was
-- spawned, and the calls that ask for its result.
pub mod Results
use pxp_rpc.Base.{
  ℕ, ◌^◌, ◌<◌, ◌≡◌, refl, ap, sym, ◌∙◌, Bool, true, false, ◌&&◌, List, [], ◌∷◌, ◌++◌, Option, none,
  some, ◌>>=◌, if◌then◌else◌, arith, same_some, Bool-cases, inl, inr,
}
use pxp_rpc.Serializer.{Ser}
use pxp_rpc.CppSerializer.{
  prepare_serializing, prepare_unserializing, put_varint, put_long, put_int, build,
}
use pxp_rpc.CppSerializer.RoundTrip.{Item, Kind, get_items, get_items-put_items}
use pxp_rpc.Uv.{Answer}

-- `on_proc_exit` has the returns that wait. `answers` has the answers given, in order.
pub record Process : Type 0 where
  pub alive : Bool
  pub exit_status : ℕ
  pub term_signal : ℕ
  pub on_proc_exit : List ℕ
  pub answers : List (ℕ × Answer)

-- The fields of a `UvProcessWrap` that `spawn` has run on.
abbrev pub new_process : Process
new_process = record {
  alive = false;
  exit_status = 0;
  term_signal = 0;
  on_proc_exit = [];
  answers = [];
}

module _ (junk : ℕ → ℕ) where
  -- The packet of `processEvent` and `getProcessResult`.
  unfoldable pub process_result : Process → Option (List ℕ)
  process_result p =
      put_varint junk (prepare_serializing junk 16) (if p.alive then 1 else 0)
      >>= (λ s. put_long junk s p.exit_status)
      >>= (λ s. put_int junk s p.term_signal)
      >>= λ s. some (build s)

  unfoldable pub resolve_result : Process → ℕ → Option Process
  resolve_result p ret = process_result p >>= λ bs.
      some (record p { answers = p.answers ++ ((ret, Answer.bytes bs) ∷ []) })

  -- The loop of `processEvent`.
  unfoldable pub resolve_results : List ℕ → Process → Option Process
  resolve_results [] p = some p
  resolve_results (r ∷ rs) p = resolve_result p r >>= λ q. resolve_results rs q

  unfoldable pub process_event : Process → Option Process
  process_event p =
      if p.alive
      then some p
      else (resolve_results p.on_proc_exit p >>= λ q. some (record q { on_proc_exit = [] }))

  -- `getProcessResult`
  unfoldable pub get_process_result : Process → Bool → ℕ → Option Process
  get_process_result p wait_exit ret =
      if wait_exit && p.alive
      then some (record p { on_proc_exit = p.on_proc_exit ++ (ret ∷ []) })
      else resolve_result p ret

  -- `_uvProcessExit`
  unfoldable pub process_exit : Process → (status signal : ℕ) → Option Process
  process_exit p status signal =
      process_event (record p { alive = false; exit_status = status; term_signal = signal })

  -- Calls and the end of the process.
  pub data Spawned : Process → Type 0 where
    begun : Spawned new_process
    asked :
        {p q : Process} (wait_exit : Bool) (ret : ℕ)
        → Spawned p
        → get_process_result p wait_exit ret ≡ some q
        → Spawned q
    exited :
        {p q : Process} (status signal : ℕ)
        → Spawned p
        → status < 2 ^ 64
        → signal < 2 ^ 32
        → process_exit p status signal ≡ some q
        → Spawned q

-- ===== src/Uv/Examples.antt =====
-- Streams at work, and the theorems on them.
use pxp_rpc.Base.{
  none, ℕ, ◌≡◌, refl, true, List, [], ◌∷◌, ◌++◌, none, some, arith, inl, inr, map, ◌>>=◌,
}
use pxp_rpc.Serializer.{Ser}
use pxp_rpc.Serializer.Write.{varint_bytes}
use pxp_rpc.CppSerializer.{prepare_unserializing}
use pxp_rpc.CppSerializer.RoundTrip.{kind, item_bytes, items_bytes, Item, Kind, get_items}
use pxp_rpc.Uv.Udp.{new_udp, pull_datagrams}
use pxp_rpc.Uv.Udp.Datagrams.{
  IsDatagram, Datagram, push_datagrams, answer_items, pull_datagrams-push_datagram,
}
use pxp_rpc.Uv.Process.{new_process, get_process_result, begun}
use pxp_rpc.Uv.Process.Results.{get_process_result_answers}
use pxp_rpc.Uv.{Answer}
use pxp_rpc.Uv.Stream.{
  stream_wrap_read, Stream, new_stream, hand_over, reject_all, processing, push_error, push_data,
  stream_wrap_connection, pull_data, accept_conn, write_data, on_written, Event, step, run,
}
use pxp_rpc.Uv.Stream.Delivery.{delivered, run-delivered}
use pxp_rpc.Uv.Stream.Waiting.{Settled, Ran, run-Settled}
use pxp_rpc.Uv.Stream.Liveness.{all_data, run_data_answers}

abbrev busy : List Event
busy =
    Event.data_came (1 ∷ 2 ∷ [])
    ∷ Event.read_asked 7
    ∷ Event.read_asked 8
    ∷ Event.accept_asked 9
    ∷ Event.data_came (3 ∷ [])
    ∷ Event.data_came (4 ∷ [])
    ∷ Event.conn_came 0xffffffff 0
    ∷ []

abbrev busy_end : Stream
busy_end = record {
  read_buf = 4 ∷ [];
  read_waiting = [];
  accept_waiting = [];
  errcode = 0xffffffff;
  read_answers = (7, Answer.bytes (1 ∷ 2 ∷ [])) ∷ (8, Answer.bytes (3 ∷ [])) ∷ [];
  accept_answers = (9, Answer.error 0xffffffff) ∷ [];
  write_answers = [];
}

run_lem : run new_stream busy ≡ some busy_end
unfolding run step push_data processing hand_over pull_data accept_conn stream_wrap_connection
    push_error reject_all stream_wrap_read
run_lem = refl

-- The end of a stream with little in the buffer.
run_failed : run new_stream (Event.read_asked 7 ∷ Event.read_failed ∷ []) ≡ none
unfolding run step stream_wrap_read pull_data processing hand_over
run_failed = refl

-- After an error a write is answered twice.
write_twice :
    (on_written (write_data (record new_stream { errcode = 0xffffffff }) 5) 5 0).write_answers
    ≡ (5, Answer.error 0xffffffff) ∷ (5, Answer.number 0) ∷ []
unfolding write_data on_written
write_twice = refl

new_Settled : Settled new_stream
new_Settled = record { no_stall = inl refl; none_left = λ e. (refl, refl) }

run-delivered_example :
    (t : Stream) × (run new_stream busy ≡ some t)
    × (delivered t.read_answers ++ t.read_buf ≡ 1 ∷ 2 ∷ 3 ∷ 4 ∷ [])
unfolding step push_data processing hand_over pull_data accept_conn stream_wrap_read
run-delivered_example =
    run-delivered new_stream busy
      (omega arith, (tt, (tt, (tt, (omega arith, (omega arith, (tt, tt)))))))

run-Settled_example : Ran new_stream busy
run-Settled_example = run-Settled new_stream busy new_Settled

run_data_answers_example :
    (t : Stream) × (run
        (record new_stream { read_waiting = 7 ∷ 8 ∷ [] })
        (all_data ((1 ∷ []) ∷ (2 ∷ 3 ∷ []) ∷ []))
      ≡ some t)
    × (t.read_waiting ≡ [])
run_data_answers_example =
    run_data_answers (record new_stream { read_waiting = 7 ∷ 8 ∷ [] })
      ((1 ∷ []) ∷ (2 ∷ 3 ∷ []) ∷ [])
      (record { no_stall = inr refl; none_left = λ e. absurd (ground arith) })
      ((λ e. ground arith), ((λ e. ground arith), tt)) (omega arith)

get_process_result_answers_example :
    (bs : List ℕ) × (u : Ser) × (get_process_result (λ i. 0) new_process true 5
      ≡ some (record new_process { answers = (5, Answer.bytes bs) ∷ [] }))
    × (get_items (Kind.varint ∷ Kind.long ∷ Kind.int ∷ []) (prepare_unserializing bs)
        ≡ some (Item.varint 0 ∷ Item.long 0 ∷ Item.int 0 ∷ [], u))
    × (new_process.on_proc_exit ≡ [])
get_process_result_answers_example = get_process_result_answers (λ i. 0) true 5 begun

abbrev datagram : Datagram
datagram = (1 ∷ 2 ∷ [], 104 ∷ 105 ∷ [])

pull_datagrams-push_datagram_example :
    (bs : List ℕ) × (v : Ser) × ((push_datagrams (λ i. 0) new_udp (datagram ∷ datagram ∷ [])
        >>= λ u. pull_datagrams (λ i. 0) u 7)
      ≡ some (record {
        read_buf = none;
        read_waiting = [];
        errcode = 0;
        answers = (7, Answer.bytes bs) ∷ [];
      }))
    × (get_items (map kind (answer_items (datagram ∷ datagram ∷ []))) (prepare_unserializing bs)
        ≡ some (answer_items (datagram ∷ datagram ∷ []), v))
unfolding items_bytes item_bytes varint_bytes
pull_datagrams-push_datagram_example =
    let fine : IsDatagram datagram = ((λ e. omega arith), (λ e. omega arith), λ e. ground arith) in
    pull_datagrams-push_datagram (λ i. 0) datagram (datagram ∷ []) 7 (fine, (fine, tt))
      (omega arith)

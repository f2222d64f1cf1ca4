-- ===== src/Connections.antt =====
-- The connections of a listening server, c/pxprpc_libuv/pxprpc_libuv.c: a doubly linked list of
-- `_pxprpc_libuv_sockconn` through `prev` and `next`, with `acceptedConn` at its head. A connection is
-- named by its address. The packets of a connection are modelled in Framing.
mod Links
mod Spots
mod Detach
mod Unlink
pub mod Views
mod Opening
mod Closing
pub mod Refine
mod Examples
use pxp_rpc.Base.{
  ℕ, zero, suc, Bool, true, false, ◌&&◌, List, [], ◌∷◌, ◌++◌, Option, none, some, ◌==◌,
  if◌then◌else◌, ◌>>=◌,
}

-- What the code calls: the server context of a connection, and libuv.
pub data Call : Type 0 where
  context_new : (conn funcmap : ℕ) → Call
  context_start context_delete stream_close : (conn : ℕ) → Call

-- The fields of `_pxprpc_libuv_sockconn` that are about the list. `serv` is `serv!=NULL`, `has_data`
-- that the stream's data is the connection, `stream_closed` the bit of `status`.
pub record Conn : Type 0 where
  pub serv : Bool
  pub prev : Option ℕ
  pub next : Option ℕ
  pub stream_closed : Bool
  pub has_data : Bool

abbrev pub Store : Type 0
Store = ℕ → Option Conn

unfoldable pub put : Store → ℕ → Option Conn → Store
put conns a c z = if z == a then c else conns z

-- `_pxprpc_libuv`
pub record Listener : Type 0 where
  pub funcmap : ℕ
  pub accepted_conn : Option ℕ

-- `listener` is none once it is freed. `calls` has the calls made, the last one first.
pub record World : Type 0 where
  pub listener : Option Listener
  pub conns : Store
  pub calls : List Call

abbrev pub points_to : Option ℕ → ℕ → Bool
points_to none a = false
points_to (some b) a = b == a

-- `sc->next->prev=prev`, if there is a next one, and `sc->prev->next=next`.
unfoldable pub set_prev : Store → Option ℕ → Option ℕ → Option Store
set_prev conns none prev = some conns
set_prev conns (some a) prev = conns a >>= λ c. some (put conns a (some (record c { prev = prev })))

unfoldable pub set_next : Store → Option ℕ → Option ℕ → Option Store
set_next conns none next = some conns
set_next conns (some a) next = conns a >>= λ c. some (put conns a (some (record c { next = next })))

-- `__buildLibuvSockconn`, with the address that malloc returns.
unfoldable pub build_conn : World → ℕ → Option World
build_conn w a = w.listener >>= λ l. set_prev w.conns l.accepted_conn (some a) >>= λ conns.
    some (record {
      listener = some (record l { accepted_conn = some a });
      conns = put conns a (
          some (record {
            serv = true;
            prev = none;
            next = l.accepted_conn;
            stream_closed = false;
            has_data = false;
          }));
      calls = Call.context_new a l.funcmap ∷ w.calls;
    })

-- `__uvListenConnectionCb`, on a stream of a known type: `accepts` is `uv_accept(..)>=0`.
unfoldable pub on_connection : World → ℕ → Bool → Option World
on_connection w a accepts = build_conn w a >>= λ v. v.conns a >>= λ c. some (
    if accepts
    then record v {
      conns = put v.conns a (some (record c { has_data = true }));
      calls = Call.context_start a ∷ v.calls;
    }
    else v)

-- `__sockAbsIo1Close`
unfoldable pub close_io : World → ℕ → Option World
close_io w a = w.conns a >>= λ c. some (
    if c.stream_closed then w else record w {
      conns = put w.conns a (some (record c { stream_closed = true }));
      calls = Call.stream_close a ∷ w.calls;
    })

-- `sc->serv!=NULL && sc->serv->acceptedConn==sc`, and the assignment under it.
unfoldable pub forget_head : Option Listener → Conn → ℕ → Option (Option Listener)
forget_head listener c a =
    if c.serv
    then (listener >>= λ l.
        some
          (some (if points_to l.accepted_conn a then record l { accepted_conn = c.next } else l)))
    else some listener

-- `__freeLibuvSockconn`
unfoldable pub free_conn : World → ℕ → Option World
free_conn w a = w.conns a >>= λ c. set_prev w.conns c.next c.prev >>= λ conns1.
    set_next conns1 c.prev c.next >>= λ conns2. forget_head w.listener c a >>= λ listener.
    some (record {
      listener = listener;
      conns = put conns2 a none;
      calls = Call.context_delete a ∷ w.calls;
    })

-- `__freeLibuvSockconn2`: libuv calls it once, after `uv_close`. Without the data it gets NULL.
unfoldable pub on_closed : World → ℕ → Option World
on_closed w a = w.conns a >>= λ c. if c.has_data then free_conn w a else none

-- The loop of `pxprpc_libuv_server_delete`. `some none` is that the fuel ran out.
unfoldable pub detach_all : ℕ → World → Option ℕ → Option (Option World)
detach_all fuel w none = some (some w)
detach_all zero w (some a) = some none
detach_all (suc fuel) w (some a) = w.conns a >>= λ c.
    close_io (record w { conns = put w.conns a (some (record c { serv = false })) }) a >>= λ v.
    detach_all fuel v c.next

-- `pxprpc_libuv_server_delete`
unfoldable pub delete_server : ℕ → World → Option (Option World)
delete_server fuel w = w.listener >>= λ l.
    detach_all fuel w l.accepted_conn >>= λ r. some (r >>= λ v. some (record v { listener = none }))

-- What happens to the connections. `fuel` bounds the loop of `delete_server`.
pub data Event : Type 0 where
  connection : ℕ → Bool → Event
  closing closed : ℕ → Event
  deleted : Event

unfoldable pub step : ℕ → World → Event → Option World
step fuel w (Event.connection a accepts) = on_connection w a accepts
step fuel w (Event.closing a) = close_io w a
step fuel w (Event.closed a) = on_closed w a
step fuel w Event.deleted = delete_server fuel w >>= λ r. r

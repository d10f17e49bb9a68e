-- ===== src/Manager.antt =====
-- socket/SockSessionManager.h, socket/SockSessionManager.cpp and socket/IoServiceOwner.h: the one
-- manager of the process, which holds the current session, and the sessions that asio keeps alive
-- through the handlers bound to them.
pub mod Requests
pub mod System
pub mod Connect
pub mod Readers
pub mod Failures
use socktestprogram.Prelude.{
  ℕ, zero, suc, ◌+◌, ◌≡◌, Bool, true, false, Option, none, some, List, [], ◌∷◌, ◌++◌, String, map,
  length, get_elem?, set, if◌then◌else◌,
}
use socktestprogram.Host.{ByteOrder}
use socktestprogram.Session.{
  Session, State, Result, Effect, Exception, M, ◌>>=◌, ◌>>◌, done, raised, undefined, run, this,
  put, async_connect, async_read_header, async_read_body, async_write, post_closed, close_socket,
  pump, server_on, print, create, set_timeout, set_net_message_pumper, set_net_connected, connect,
  close, write, skip, is_socket_failed, handle_connected, handle_header_read, handle_body_read,
  handle_closed, handle_written,
}

-- `io_` is not set by the constructor.
pub data Io : Type 0 where
  unset null service : Io

-- The fields of SockSessionManager. A session is known by its place among the sessions.
pub record Manager : Type 0 where
  pub ptr : Option ℕ
  pub io : Io
  pub redistribute : Option String
  pub server_connected : Option String

-- `pending` holds the operations that asio has under way, `calls` what was called and printed, both
-- with the session that asked for it.
pub record World : Type 0 where
  pub manager : Manager
  pub sessions : List Session
  pub pending : List (ℕ × Effect)
  pub calls : List (Option ℕ × Effect)

pub data Outcome : Type 0 where
  ok : World → Outcome
  threw : Exception → World → Outcome
  fault : Outcome

-- SockSessionManager::SockSessionManager
unfoldable pub init : Manager
init = record { ptr = none; io = unset; redistribute = none; server_connected = none }

-- What asio is asked to do, and completes later by a handler.
unfoldable pub is_operation : Effect → Bool
is_operation (async_connect e) = true
is_operation async_read_header = true
is_operation (async_read_body n) = true
is_operation (async_write bytes) = true
is_operation post_closed = true
is_operation close_socket = false
is_operation (pump cb t m) = false
is_operation (server_on cb name) = false
is_operation (print message) = false

unfoldable pub operations : ℕ → List Effect → List (ℕ × Effect)
operations i [] = []
operations i (e ∷ es) = let rest = operations i es in if is_operation e then (i, e) ∷ rest else rest

unfoldable pub immediate : ℕ → List Effect → List (Option ℕ × Effect)
immediate i [] = []
immediate i (e ∷ es) =
    let rest = immediate i es in if is_operation e then rest else (some i, e) ∷ rest

-- The world after a member function of session `i`.
unfoldable pub settle : World → ℕ → State → World
settle w i t = record w {
  sessions = set w.sessions i t.session;
  pending = w.pending ++ operations i t.effects;
  calls = w.calls ++ immediate i t.effects;
}

unfoldable pub after : World → ℕ → Result (Unit {0}) → Outcome
after w i (done a t) = ok (settle w i t)
after w i (raised e t) = threw e (settle w i t)
after w i undefined = fault

-- A call on session `i`; there is no session behind a dangling number.
unfoldable pub on_session : ℕ → M (Unit {0}) → World → Outcome
on_session i m w = elim (get_elem? w.sessions i) [ none ↦ fault | some x ↦ after w i (run m x) ]

unfoldable pub register_io : World → World
register_io w = record w { manager = record (w.manager) { io = service } }

unfoldable pub unregister_id : World → World
unregister_id w = record w { manager = record (w.manager) { io = null } }

unfoldable pub set_default_redistribute : Option String → World → World
set_default_redistribute cb w = record w { manager = record (w.manager) { redistribute = cb } }

unfoldable pub set_default_server_on : Option String → World → World
set_default_server_on cb w = record w { manager = record (w.manager) { server_connected = cb } }

unfoldable pub has_current_session : World → Bool
has_current_session w = elim w.manager.ptr [ none ↦ false | some i ↦ true ]

unfoldable pub failed_at : Option Session → Bool
failed_at none = false
failed_at (some x) = is_socket_failed x

-- `currentSession()->isSocketFailed()`, of a manager that has a session.
unfoldable pub current_failed : World → Bool
current_failed w = elim w.manager.ptr [ none ↦ false | some i ↦ failed_at (get_elem? w.sessions i) ]

-- SockSessionManager::write
unfoldable pub manager_write : ByteOrder → ℕ → ℕ → List ℕ → ℕ → World → Outcome
manager_write o now type_code buffer length w = elim w.manager.ptr [
  | none ↦ ok (record w { calls = w.calls ++ (none, print "Error: session is not present") ∷ [] })
  | some i ↦ on_session i (write o now type_code buffer length) w
]

-- The calls on a new session before it becomes the current one.
unfoldable pub set_up : (String → String → Option ℕ) → ℕ → String → Manager → M (Unit {0})
set_up resolve now server_id m = do
  set_timeout 3_000_000
  set_net_message_pumper m.redistribute
  set_net_connected m.server_connected
  connect resolve now (some server_id)

-- `if (ptr_) ptr_->close();`
unfoldable pub close_current : World → Outcome
close_current w = elim w.manager.ptr [ none ↦ ok w | some i ↦ on_session i close w ]

unfoldable pub make_current : ℕ → Outcome → Outcome
make_current i (ok w) = ok (record w { manager = record (w.manager) { ptr = some i } })
make_current i (threw e w) = threw e w
make_current i fault = fault

-- The new session, with what it asked for, is the last one.
unfoldable pub adopt : World → Result (Unit {0}) → Outcome
adopt w (done a t) =
    let i = length w.sessions in
    make_current i (
      close_current (record w {
        sessions = w.sessions ++ t.session ∷ [];
        pending = w.pending ++ operations i t.effects;
        calls = w.calls ++ immediate i t.effects;
      }))
adopt w (raised e t) = threw e w
adopt w undefined = fault

-- SockSessionManager::connectTo. A session that cannot connect is destroyed with its last pointer.
unfoldable pub connect_to :
    (String → String → Option ℕ) → ℕ → String → String → String → String → World → Outcome
connect_to resolve now host port server_id descr w = elim w.manager.io [
  | unset ↦ fault
  | null ↦ fault
  | service ↦ adopt w (run (set_up resolve now server_id w.manager) (create host port descr))
]

-- How an operation of asio ends: with an error, or with the bytes that were read.
pub data Completion : Type 0 where
  failed : Completion
  finished : List ℕ → Completion

-- asio fills the buffer of a read before it calls the handler.
unfoldable pub handler : ByteOrder → Effect → Completion → M (Unit {0})
handler o (async_connect e) failed = handle_connected true
handler o (async_connect e) (finished bytes) = handle_connected false
handler o async_read_header failed = handle_header_read o true
handler o async_read_header (finished bytes) = do
  x ← this
  put (record x { head_length = bytes })
  handle_header_read o false
handler o (async_read_body n) failed = handle_body_read o true
handler o (async_read_body n) (finished bytes) = do
  x ← this
  put (record x { buffer = bytes })
  handle_body_read o false
handler o (async_write bytes) failed = handle_written true
handler o (async_write bytes) (finished _) = handle_written false
handler o post_closed failed = handle_closed true
handler o post_closed (finished bytes) = handle_closed false
handler o close_socket c = skip
handler o (pump cb t m) c = skip
handler o (server_on cb name) c = skip
handler o (print message) c = skip

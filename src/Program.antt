-- ===== src/Program.antt =====
-- How the parts of main.cpp work together for a message: a script sends it through exports.cpp and the
-- current session, and the callback of the session at the other end hands it to the script there.
pub mod Messages
use socktestprogram.Prelude.{
  ℕ, Option, none, some, ◌==◌, List, [], ◌∷◌, ◌++◌, String, if◌then◌else◌, length,
}
use socktestprogram.Host.{ByteOrder}
use socktestprogram.Asio.{Writer}
use socktestprogram.Lua.{Lua, Script, skip, ◌>>◌}
use socktestprogram.Script.{on_decode_buffer}
use socktestprogram.Session.{
  Effect, async_connect, async_read_header, async_read_body, async_write, post_closed, close_socket,
  pump, server_on, print,
}
use socktestprogram.Session.Stream.{Message}
use socktestprogram.Manager.{
  World, Outcome, ok, threw, fault, on_session, handler, finished, set_default_redistribute,
  set_default_server_on,
}
use socktestprogram.Exports.{Answer, answered, lua_error, send_buffer}

abbrev pub bytes_of_write : Effect → Option (List ℕ)
bytes_of_write (async_write bytes) = some bytes
bytes_of_write (async_connect e) = none
bytes_of_write async_read_header = none
bytes_of_write (async_read_body n) = none
bytes_of_write post_closed = none
bytes_of_write close_socket = none
bytes_of_write (pump cb t m) = none
bytes_of_write (server_on cb name) = none
bytes_of_write (print message) = none

-- The bytes of an operation, if it is a write of session `i`.
abbrev pub write_of : ℕ → ℕ × Effect → Option (List ℕ)
write_of i p = if i == p.0 then bytes_of_write p.1 else none

abbrev pub with_write : Option (List ℕ) → List (List ℕ) → List (List ℕ)
with_write none bs = bs
with_write (some b) bs = b ∷ bs

abbrev pub unless_write : Option (List ℕ) → ℕ × Effect → List (ℕ × Effect) → List (ℕ × Effect)
unless_write none p ps = p ∷ ps
unless_write (some b) p ps = ps

-- The writes of session `i` among the operations under way, and the others.
unfoldable pub writes_of : ℕ → List (ℕ × Effect) → List (List ℕ)
writes_of i [] = []
writes_of i (p ∷ ps) = with_write (write_of i p) (writes_of i ps)

unfoldable pub no_writes : ℕ → List (ℕ × Effect) → List (ℕ × Effect)
no_writes i [] = []
no_writes i (p ∷ ps) = unless_write (write_of i p) p (no_writes i ps)

-- The world and what is on the wire of a session, or why there is none: a call of the script failed,
-- or a second write was started while one was under way.
pub data Sent : Type 0 where
  sent : World → List ℕ → Sent
  refused : Answer → Sent
  overlapping : Sent

abbrev pub after_call : Answer → (World → Sent) → Sent
after_call (answered (ok w)) next = next w
after_call (answered (threw e w)) next = refused (answered (threw e w))
after_call (answered fault) next = refused (answered fault)
after_call (lua_error message) next = refused (lua_error message)

abbrev pub then_sent : Sent → (World → List ℕ → Sent) → Sent
then_sent (sent w wire) next = next w wire
then_sent (refused a) next = refused a
then_sent overlapping next = overlapping

-- The one write that session `i` has under way completes without an error: its handler is called.
unfoldable pub complete : Writer → ByteOrder → ℕ → List (List ℕ) → World → List ℕ → Sent
complete wr o i [] w wire = sent w wire
complete wr o i (b ∷ []) w wire =
    after_call
      (answered (
        on_session i (handler o (async_write b) (finished []))
          (record w { pending = no_writes i w.pending })))
      (λ v. sent v (wr.write wire b))
complete wr o i (b ∷ c ∷ bs) w wire = overlapping

-- The callbacks that the handle `prepare` of `main` gives to the manager.
unfoldable pub install : World → World
install w =
    set_default_server_on (some "L_onServerConnectionEstablished")
      (set_default_redistribute (some "L_onDecodeBuffer") w)

module _ (l : Lua) where
  -- The calls of `SendBuffer` that a script makes, each with a string and an integer, when the write
  -- of one completes before the next one. Session `i` is the current one.
  unfoldable pub send_all :
      (List ℕ → String)
      → ByteOrder
      → Writer
      → ℕ
      → ℕ
      → List (l.Value × l.Value)
      → World
      → List ℕ
      → Sent
  unfolding complete
  send_all c_string o wr now i [] w wire = sent w wire
  send_all c_string o wr now i ((a, b) ∷ calls) w wire =
      then_sent
        (after_call (send_buffer l c_string o now (a ∷ b ∷ []) w)
          (λ v. complete wr o i (writes_of i v.pending) v wire))
        (send_all c_string o wr now i calls)

  -- The calls of the callback that `main` installs, `L_onDecodeBuffer`, for the messages that a
  -- session gets.
  unfoldable pub notify : List Message → Script l (Unit {0})
  notify [] = skip l
  notify (m ∷ ms) = on_decode_buffer l m.0 m.1 (length m.1) >> notify ms

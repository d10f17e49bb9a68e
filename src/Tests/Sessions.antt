-- ===== src/Tests/Sessions.antt =====
-- The theorems on socket/SockSession.cpp at concrete sessions.
use socktestprogram.Prelude.{ℕ, ◌≡◌, refl, false, none, some, List, [], ◌∷◌, ◌++◌, arith}
use socktestprogram.Host.{x86}
use socktestprogram.Asio.{list_reader}
use socktestprogram.Session.{
  Session, run, done, raised, create, async_write, async_read_header, pump, length_error, write,
  handle_header_read, handle_body_read, resize,
}
use socktestprogram.Session.Frame.{network_bytes, write_lem}
use socktestprogram.Session.Handlers.{handle_header_read_lem, handle_body_read_lem}
use socktestprogram.Session.Stream.{Message, receive, send, conn, next, for_header}
use socktestprogram.Session.RoundTrip.{receive-send, bad_header-short, stopped}

abbrev fresh : Session
fresh = record {
  last_op = none;
  timeout = 3_000_000;
  connecting_timeout = false;
  socket_failed = false;
  head_length = 0 ∷ 0 ∷ 0 ∷ 0 ∷ [];
  buffer = [];
  host = "localhost";
  port = "4001";
  description = "test";
  callback = some "L_onDecodeBuffer";
  on_connected = some "L_onServerConnectionEstablished";
  connecting_server = "world";
}

create_fields : (create "localhost" "4001" "test").timeout ≡ 3_000_000
unfolding create
create_fields = refl

abbrev messages : List Message
messages = (7, 1 ∷ 2 ∷ 3 ∷ []) ∷ (300, []) ∷ (0, 255 ∷ []) ∷ []

receive-send_example :
    (z : Session) × (receive x86 list_reader 6
        (conn fresh for_header [] (send x86 5 fresh messages))
      ≡ conn z for_header messages [])
receive-send_example =
    receive-send x86 list_reader 5 fresh fresh messages "L_onDecodeBuffer" (omega arith) refl

bad_header-short_example :
    next x86 list_reader
      (next x86 list_reader (conn fresh for_header [] (network_bytes 2 ++ (6 ∷ 7 ∷ []) ++ 8 ∷ [])))
    ≡ stopped (record fresh { head_length = network_bytes 2; buffer = resize 2 [] }) [] (8 ∷ [])
bad_header-short_example =
    bad_header-short x86 list_reader fresh [] (6 ∷ 7 ∷ []) (8 ∷ []) (omega arith)

write_lem_example :
    run (write x86 5 7 (1 ∷ 2 ∷ []) 2) fresh
    ≡ done tt (record {
      session = record fresh { last_op = some 5 };
      effects = async_write (0 ∷ 0 ∷ 0 ∷ 6 ∷ 0 ∷ 0 ∷ 0 ∷ 7 ∷ 1 ∷ 2 ∷ []) ∷ [];
    })
write_lem_example = write_lem x86 5 7 (1 ∷ 2 ∷ []) fresh (omega arith) (omega arith)

abbrev with_head : ℕ → Session
with_head n = record fresh { head_length = network_bytes n }

handle_header_read_lem_example :
    run (handle_header_read x86 false) (with_head 0xffff_ffff)
    ≡ raised length_error (record { session = with_head 0xffff_ffff; effects = [] })
handle_header_read_lem_example =
    handle_header_read_lem x86 false (with_head 0xffff_ffff) 0xffff_ffff (omega arith) refl

abbrev with_body : List ℕ → Session
with_body bytes = record fresh { buffer = bytes }

handle_body_read_lem_example :
    run (handle_body_read x86 false) (with_body (0 ∷ 0 ∷ 1 ∷ 2 ∷ 9 ∷ []))
    ≡ done tt (record {
      session = with_body (0 ∷ 0 ∷ 1 ∷ 2 ∷ 9 ∷ []);
      effects = pump "L_onDecodeBuffer" 258 (9 ∷ []) ∷ async_read_header ∷ [];
    })
handle_body_read_lem_example =
    handle_body_read_lem x86 (with_body (0 ∷ 0 ∷ 1 ∷ 2 ∷ 9 ∷ [])) 258 (9 ∷ []) "L_onDecodeBuffer"
      (omega arith) refl refl

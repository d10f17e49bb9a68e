-- ===== src/Tests/Managers.antt =====
-- The theorems on socket/SockSessionManager.cpp at concrete worlds.
use socktestprogram.Prelude.{ℕ, ◌≡◌, refl, true, Option, none, some, [], ◌∷◌, arith, String}
use socktestprogram.Host.{x86}
use socktestprogram.Session.{
  Session, async_connect, async_read_header, post_closed, server_on, create, resolve_error,
  handle_connected, is_socket_failed,
}
use socktestprogram.Manager.{
  Manager, World, ok, threw, ok, service, connect_to, on_session, handler, finished, after, settle,
  operations, immediate, is_operation,
}
use socktestprogram.Manager.System.{Reach, here, next, completes, connects}
use socktestprogram.Manager.Readers.{IsOrderly, reach-IsOrderly}
use socktestprogram.Manager.Connect.{
  connect_to-replaces, connect_to-unresolved, with_new, new_session,
}
use socktestprogram.Manager.Failures.{HasFailed, reach-HasFailed}

-- Every host has the endpoint 1, but the one with no name.
abbrev resolve : String → String → Option ℕ
resolve host port = some 1

abbrev nowhere : String → String → Option ℕ
nowhere host port = none

abbrev idle : Manager
idle = record {
  ptr = none;
  io = service;
  redistribute = some "L_onDecodeBuffer";
  server_connected = some "L_onServerConnectionEstablished";
}

abbrev empty : World
empty = record { manager = idle; sessions = []; pending = []; calls = [] }

abbrev first : Session
first = new_session idle 5 "a" "11000" "dir" "directory"

abbrev connecting : World
connecting = with_new empty first 1 []

abbrev connected : World
connected = record connecting {
  pending = (0, async_read_header) ∷ [];
  calls = (some 0, server_on "L_onServerConnectionEstablished" "dir") ∷ [];
}

abbrev replaced : World
replaced =
    with_new connected (new_session idle 9 "b" "12000" "world" "world") 1 ((0, post_closed) ∷ [])

-- The connect completes, and then the manager connects to another server.
path : Reach x86 resolve connecting replaced
unfolding on_session handler after settle handle_connected operations immediate is_operation
path = next (next here (completes [] [] 0 (async_connect 1) (finished []) refl refl)) (
    connects 9 "b" "12000" "world" "world" (
      connect_to-replaces resolve 9 "b" "12000" "world" "world" connected refl 1 0 first refl refl
        refl))

connecting-IsOrderly : IsOrderly connecting
connecting-IsOrderly = record { single = λ i. ground arith; known = omega arith }

reach-IsOrderly_example : IsOrderly replaced
reach-IsOrderly_example = reach-IsOrderly x86 resolve connecting-IsOrderly path

connect_to-unresolved_example :
    connect_to nowhere 9 "b" "12000" "world" "world" connected ≡ threw resolve_error connected
connect_to-unresolved_example =
    connect_to-unresolved nowhere 9 "b" "12000" "world" "world" connected refl refl

-- The session of `connecting`, once its connect has failed.
abbrev broken_world : World
broken_world = record connecting {
  sessions = record first { connecting_timeout = true } ∷ [];
  pending = [];
}

reach-HasFailed_example : HasFailed 0 (
    with_new broken_world
      (new_session idle 9 "b" "12000" "world" "world")
      1
      ((0, post_closed) ∷ []))
unfolding is_socket_failed create
reach-HasFailed_example =
    reach-HasFailed x86 resolve 0
      (record { session = record first { connecting_timeout = true }; found = refl; failed = refl })
      (next here (
        connects 9 "b" "12000" "world" "world" (
          connect_to-replaces resolve 9 "b" "12000" "world" "world" broken_world refl 1 0
            (record first { connecting_timeout = true }) refl refl refl)))

connect_to-replaces_example :
    connect_to resolve 9 "b" "12000" "world" "world" connected ≡ ok replaced
connect_to-replaces_example =
    connect_to-replaces resolve 9 "b" "12000" "world" "world" connected refl 1 0 first refl refl
      refl

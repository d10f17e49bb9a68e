-- ===== src/Tests/Apps.antt =====
-- The theorems on the application at a world list of two servers.
use Prim.Native.String.{len, compare}
use socktestprogram.Prelude.{
  ℕ, suc, ◌+◌, ◌<◌, ◌==◌, Ordering, ◌≡◌, refl, sym, Bool, true, false, Option, none, some, List, [],
  ◌∷◌, ◌++◌, String, arith, append-nil, if◌then◌else◌,
}
use socktestprogram.App.Dispatcher.{Cached, done, raised, check, dispatch, run_chain}
use socktestprogram.App.Dispatcher.Queue.{now, dispatched, check-sticks}
use socktestprogram.App.Handlers.{
  event_name, directory_server, directory_connected, world_connected, Server, Decoded, Request,
  request_world_list, request_user_register, request_login, request_create_player, proto_name,
  Outside, send_buffer, connect_server, Connector, Handler, on_directory_connected, et_no_data,
}
use socktestprogram.App.Connector.{App, call, no_handlers, started, distribute_rules}
use socktestprogram.App.Connector.Rules.{
  Response, response_world_list, response_user_register, response_login, response_create_player,
  place, proto, event_of, rules,
}
use socktestprogram.App.Connector.Flow.{
  Input, begin, directory_made, world_made, server_list, user_registered, login_answer,
  player_created, play, CanCall,
}
use socktestprogram.App.Connector.Frames.{play_lem}

abbrev is : String → String → Bool
is s t = elim (compare s t) [ Ordering.eq ↦ true | _ ↦ false ]

abbrev code : Response → ℕ
code r = place (event_of r) + 2

abbrev to_id : String → Option ℕ
to_id s =
    if is s "ResponseWorldList"
    then some 2
    else if is s "ResponseUserRegister"
    then some 3
    else if is s "ResponseLogin"
    then some 4
    else if is s "ResponseCreatePlayer"
    then some 5
    else some (len s)

abbrev id : Request → ℕ
id r = len (proto_name r)

abbrev packed : Request → List ℕ
packed r = id r ∷ []

abbrev servers : List Server
servers = record { host = 10 ∷ []; port = 1 ∷ [] } ∷ record { host = 11 ∷ []; port = 2 ∷ [] } ∷ []

abbrev world_list : Decoded
world_list = record { world_list = some servers; exception = none }

-- An answer of the login server that knows no player.
abbrev no_player : Decoded
no_player = record { world_list = none; exception = some et_no_data }

abbrev outside : Outside
outside = record {
  to_id = to_id;
  pack_cmd = λ r. some (packed r);
  decode = λ s bytes. some (if is s "ResponseWorldList" then world_list else no_player);
  resolves = λ s. true;
}

outside-CanCall : CanCall outside id packed
outside-CanCall = record { code = codes; positive = positives; bytes = λ r. refl; directory = refl }
  where
    codes : (r : Request) → to_id (proto_name r) ≡ some (id r)
    codes request_world_list = refl
    codes (request_user_register a p) = refl
    codes (request_login d a p anonymous) = refl
    codes (request_create_player anonymous d a) = refl

    positives : (r : Request) → 0 < id r
    positives request_world_list = omega arith
    positives (request_user_register a p) = omega arith
    positives (request_login d a p anonymous) = omega arith
    positives (request_create_player anonymous d a) = omega arith

-- From the start of the program to the creation of a player, with two inputs in the fourth frame.
abbrev login : List (List Input)
login =
    (begin ∷ [])
    ∷ (directory_made ∷ [])
    ∷ (server_list (1 ∷ []) none servers ∷ [])
    ∷ (user_registered (2 ∷ []) no_player ∷ world_made ∷ [])
    ∷ []
    ∷ (login_answer (3 ∷ []) no_player ∷ [])
    ∷ (player_created (4 ∷ []) no_player ∷ [])
    ∷ []

play_lem_example :
    (distribute_rules outside ≡ some (rules outside code))
    × (play outside code login (started outside)
        ≡ some (
            done (record {
              handlers = (started outside).handlers;
              cache = [];
              world = record {
                chosen_server = some (record { host = 10 ∷ []; port = 1 ∷ [] });
                commands =
                    connect_server directory_server (event_name directory_connected) "directory"
                    ∷ send_buffer (16 ∷ []) 16
                    ∷ send_buffer (19 ∷ []) 19
                    ∷ connect_server
                        (record { host = 10 ∷ []; port = 1 ∷ [] })
                        (event_name world_connected)
                        "world"
                    ∷ send_buffer (12 ∷ []) 12
                    ∷ send_buffer (19 ∷ []) 19
                    ∷ [];
              };
            })))
play_lem_example =
    play_lem outside id packed outside-CanCall code login
      (λ r q. shifted (place (event_of r)) (place (event_of q))) ids
      (
        (tt, tt),
        ((tt, tt), (((refl, refl), tt), ((refl, (tt, tt)), (tt, ((refl, tt), ((refl, tt), tt)))))),
      )
  where
    shifted : (m n : ℕ) → (m + 2 == n + 2) ≡ (m == n)
    shifted m n = ground arith

    ids : (r : Response) → to_id (proto r) ≡ some (code r)
    ids response_world_list = refl
    ids response_user_register = refl
    ids response_login = refl
    ids response_create_player = refl

-- Nothing can be sent.
abbrev silent : Outside
silent = record outside { to_id = λ s. none }

abbrev stuck : Cached Handler (Option Decoded) Connector
stuck = record {
  event = event_name directory_connected;
  chain = on_directory_connected ∷ [];
  more = none;
}

abbrev waiting : App silent
waiting = record (no_handlers silent) { cache = stuck ∷ [] }

check-sticks_example :
    ((new : List (Cached Handler (Option Decoded) Connector)) × ((dispatch Handler
          (Option Decoded)
          Connector
          (event_name world_connected)
          none
          waiting).cache
        ≡ (stuck ∷ []) ++ new))
    × ((fuel : ℕ)
        → (f : App silent) × (check Handler (Option Decoded) Connector (call silent) (suc fuel) (
              dispatch Handler (Option Decoded) Connector (event_name world_connected) none waiting)
            ≡ some (raised f)))
unfolding run_chain call
check-sticks_example =
    check-sticks Handler (Option Decoded) Connector (call silent) stuck [] waiting
      (dispatch Handler (Option Decoded) Connector (event_name world_connected) none waiting) fails
      refl (dispatched (event_name world_connected) none now)
  where
    fails :
        (d : App silent)
        → (e : App silent) × (cs : List (Cached Handler (Option Decoded) Connector)) × (run_chain
              Handler
              (Option Decoded)
              Connector
              (call silent)
              stuck.chain
              stuck.event
              stuck.more
              d
            ≡ raised e)
          × (e.cache ≡ d.cache ++ cs)
    fails d = (d, [], refl, sym (append-nil d.cache))

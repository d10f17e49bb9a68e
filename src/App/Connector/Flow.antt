-- ===== src/App/Connector/Flow.antt =====
-- What the application does for what happens to it, frame by frame.
use socktestprogram.Prelude.{true, ℕ, ◌<◌, ◌≡◌, Option, none, some, List, [], ◌∷◌, if◌then◌else◌}
use socktestprogram.App.Dispatcher.{done, raised}
use socktestprogram.App.Handlers.{
  event_name, directory_server, user_name, password, device_id, is_anonymous, directory_connected,
  world_connected, Server, Decoded, Request, request_world_list, request_user_register,
  request_login, request_create_player, proto_name, Outside, send_buffer, connect_server, Connector,
  first, command, has_no_data,
}
use socktestprogram.App.Connector.{
  App, Ended, redirect_net_buffer, server_connect_on, start_up, frame_check,
}
use socktestprogram.App.Connector.Rules.{
  Response, response_world_list, response_user_register, response_login, response_create_player,
  proto, rules,
}

-- What happens to the application: the call of `startUp`, a server that is connected, a message.
pub data Input : Type 0 where
  begin : Input
  directory_made : Input
  world_made : Input
  server_list : (bytes : List ℕ) (exception : Option (List ℕ)) → List Server → Input
  user_registered : (bytes : List ℕ) → Decoded → Input
  login_answer : (bytes : List ℕ) → Decoded → Input
  player_created : (bytes : List ℕ) → Decoded → Input

module _ (o : Outside) where
  abbrev pub listed : Option (List ℕ) → List Server → Decoded
  listed exception servers = record { world_list = some servers; exception = exception }

  abbrev pub redirect : (Response → ℕ) → Response → List ℕ → App o → Ended o
  redirect code r bytes d = redirect_net_buffer o (rules o code) (code r) bytes d

  -- The call of the application for an input.
  unfoldable pub enter : (Response → ℕ) → Input → App o → Ended o
  enter code begin d = done (start_up o d)
  enter code directory_made d = done (server_connect_on o (event_name directory_connected) d)
  enter code world_made d = done (server_connect_on o (event_name world_connected) d)
  enter code (server_list bytes exception servers) d = redirect code response_world_list bytes d
  enter code (user_registered bytes m) d = redirect code response_user_register bytes d
  enter code (login_answer bytes m) d = redirect code response_login bytes d
  enter code (player_created bytes m) d = redirect code response_create_player bytes d

  abbrev pub then_enter : Ended o → (App o → Option (Ended o)) → Option (Ended o)
  then_enter (done d) next = next d
  then_enter (raised d) next = some (raised d)

  -- The inputs of a frame, then those of the next ones: each frame ends with a check.
  unfoldable pub play_frame : (Response → ℕ) → List Input → App o → Option (Ended o)
  unfolding enter
  play_frame code [] d = frame_check o d
  play_frame code (i ∷ is) d = then_enter (enter code i d) (play_frame code is)

  abbrev pub then_play : Option (Ended o) → (App o → Option (Ended o)) → Option (Ended o)
  then_play none next = none
  then_play (some (done d)) next = next d
  then_play (some (raised d)) next = some (raised d)

  unfoldable pub play : (Response → ℕ) → List (List Input) → App o → Option (Ended o)
  unfolding play_frame
  play code [] d = some (done d)
  play code (f ∷ fs) d = then_play (play_frame code f d) (play code fs)

  -- What the application is meant to do for an input, without a queue: `id` and `packed` are the type
  -- code and the bytes of a request.
  module _ (id : Request → ℕ) (packed : Request → List ℕ) where
    abbrev ask : Request → Connector → Connector
    ask r = command (send_buffer (packed r) (id r))

    abbrev pub register : Request
    register = request_user_register user_name password

    abbrev pub join : Option Server → Connector → Connector
    join none w = w
    join (some s) w = command (connect_server s (event_name world_connected) "world") w

    abbrev pub react : Input → Connector → Connector
    react begin w =
        command (connect_server directory_server (event_name directory_connected) "directory") w
    react directory_made w = ask request_world_list w
    react world_made w = ask (request_login device_id user_name password is_anonymous) w
    react (server_list bytes exception servers) w =
        ask register (record w { chosen_server = first servers })
    react (user_registered bytes m) w = join w.chosen_server w
    react (login_answer bytes m) w =
        if has_no_data m.exception
        then ask (request_create_player is_anonymous device_id user_name) w
        else w
    react (player_created bytes m) w = w

    abbrev pub react_all : List Input → Connector → Connector
    react_all [] w = w
    react_all (i ∷ is) w = react_all is (react i w)

    abbrev pub react_frames : List (List Input) → Connector → Connector
    react_frames [] w = w
    react_frames (f ∷ fs) w = react_frames fs (react_all f w)

  -- The host of a server, if there is one, is resolved.
  abbrev pub IsReachable : Option Server → Type 0
  IsReachable none = Unit
  IsReachable (some s) = o.resolves s ≡ true

  -- Every request has a type code other than 0, and is packed, and the host of the directory server is
  -- resolved.
  pub record CanCall (id : Request → ℕ) (packed : Request → List ℕ) : Type 0 where
    pub code : (r : Request) → o.to_id (proto_name r) ≡ some (id r)
    pub positive : (r : Request) → 0 < id r
    pub bytes : (r : Request) → o.pack_cmd r ≡ some (packed r)
    pub directory : o.resolves directory_server ≡ true

  -- The bytes of a message are decoded as the message, and the host of the first server of a list is
  -- resolved.
  abbrev pub IsUsable : Input → Type 0
  IsUsable begin = Unit
  IsUsable directory_made = Unit
  IsUsable world_made = Unit
  IsUsable (server_list bytes exception servers) =
      (o.decode (proto response_world_list) bytes ≡ some (listed exception servers))
      × IsReachable (first servers)
  IsUsable (user_registered bytes m) = o.decode (proto response_user_register) bytes ≡ some m
  IsUsable (login_answer bytes m) = o.decode (proto response_login) bytes ≡ some m
  IsUsable (player_created bytes m) = o.decode (proto response_create_player) bytes ≡ some m

  abbrev pub AllUsable : List Input → Type 0
  AllUsable [] = Unit
  AllUsable (i ∷ is) = IsUsable i × AllUsable is

  abbrev pub FramesUsable : List (List Input) → Type 0
  FramesUsable [] = Unit
  FramesUsable (f ∷ fs) = AllUsable f × FramesUsable fs

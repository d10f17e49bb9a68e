-- ===== src/App/Handlers.antt =====
-- ConnectHandler.lua, GlobalMsgHolder.lua and NetworkCmd.lua: what the handlers of the application do.
use Prim.Native.Char.{code}
use socktestprogram.Prelude.{
  ℕ, Bool, true, false, Option, none, some, List, [], ◌∷◌, ◌++◌, String, if◌then◌else◌, ltb,
}
use socktestprogram.Binding.Decoding.{same_bytes}
use socktestprogram.App.Dispatcher.{Name}

-- The fields of ModelEvent.
pub data ModelEvent : Type 0 where
  world_list_notify directory_register_user_notify login_notify create_player_notify : ModelEvent
  disconnected_from_server directory_connected world_connected : ModelEvent

pub record Server : Type 0 where
  pub host : List ℕ
  pub port : List ℕ

-- A message that protobuf.lua has decoded, by the fields that are read without a test for nil.
pub record Decoded : Type 0 where
  pub world_list : Option (List Server)
  pub exception : Option (List ℕ)

-- The messages that the application sends, with their fields.
pub data Request : Type 0 where
  request_world_list : Request
  request_user_register : (account password : List ℕ) → Request
  request_login : (device_id account password : List ℕ) → Bool → Request
  request_create_player : Bool → (device_id account : List ℕ) → Request

abbrev pub proto_name : Request → String
proto_name request_world_list = "RequestWorldList"
proto_name (request_user_register a p) = "RequestUserRegister"
proto_name (request_login d a p anonymous) = "RequestLogin"
proto_name (request_create_player anonymous d a) = "RequestCreatePlayer"

-- What the application takes from protobuf.lua and the resolver: `Proto.toID`, `Proto.packCmd`, which
-- may raise an error, and `protobuf.decode`.
pub record Outside : Type 0 where
  pub to_id : String → Option ℕ
  pub pack_cmd : Request → Option (List ℕ)
  pub decode : String → List ℕ → Option Decoded
  -- Whether the host of a server is resolved: `mm.ConnectServer` throws where it is not.
  pub resolves : Server → Bool

-- The bytes of a text.
abbrev pub codes : String → List ℕ
codes String.[] = []
codes (String.◌∷◌ c s) = code c ∷ codes s

-- netevent/events.lua
abbrev pub event_name : ModelEvent → Name
event_name disconnected_from_server = codes "Model.Net.DisconnectedFromServer"
event_name directory_connected = codes "Model.Net.DirectoryConnected"
event_name world_connected = codes "Model.Net.WorldConnected"
event_name world_list_notify = codes "Model.Net.WorldListNotify"
event_name directory_register_user_notify = codes "Model.Net.DirectoryRegisterUserNotify"
event_name login_notify = codes "Model.Net.WorldLoginNotify"
event_name create_player_notify = codes "Model.Net.CreatePlayerNotify"

-- model.lua
abbrev pub user_name : List ℕ
user_name = codes "baihai"

abbrev pub password : List ℕ
password = codes "baipasswd"

abbrev pub directory_server : Server
directory_server = record { host = codes "192.168.1.105"; port = codes "11000" }

abbrev pub device_id : List ℕ
device_id = codes "X51"

abbrev pub is_anonymous : Bool
is_anonymous = true

-- The calls of the functions of "mm".
pub data Command : Type 0 where
  send_buffer : List ℕ → ℕ → Command
  connect_server : Server → Name → String → Command

-- The field `chosenServer`, and the calls of "mm" that were made.
pub record Connector : Type 0 where
  pub chosen_server : Option Server
  pub commands : List Command

pub data Did : Type 0 where
  fine : Connector → Did
  failed : Connector → Did

pub data Handler : Type 0 where
  handle_world_list_notify handle_login_notify handle_create_player_notify : Handler
  handle_user_register : Handler
  on_world_list_notify on_disconnected on_directory_connected on_world_connected : Handler
  on_user_registered on_login_notify on_create_player_notify : Handler

abbrev pub first : List Server → Option Server
first [] = none
first (s ∷ ss) = some s

abbrev pub command : Command → Connector → Connector
command c w = record w { commands = w.commands ++ c ∷ [] }

abbrev pub et_no_data : List ℕ
et_no_data = codes "ET_NO_DATA"

abbrev pub has_no_data : Option (List ℕ) → Bool
has_no_data none = false
has_no_data (some exception) = same_bytes et_no_data exception

module _ (o : Outside) where
  -- NetworkCmd.Send behind its tests
  abbrev pub post : Option ℕ → Option (List ℕ) → Connector → Did
  post none buffer w = failed w
  post (some id) buffer w =
      if ltb 0 id
      then elim buffer [ none ↦ failed w | some bytes ↦ fine (command (send_buffer bytes id) w) ]
      else failed w

  -- NetworkCmd.Send
  unfoldable pub send : Request → Connector → Did
  send r w = post (o.to_id (proto_name r)) (o.pack_cmd r) w

  -- What a message handler does with a field of no message.
  abbrev pub with_message : Option Decoded → (Decoded → Connector → Did) → Connector → Did
  with_message none f w = failed w
  with_message (some m) f w = f m w

  abbrev pub with_list : Option (List Server) → (List Server → Connector → Did) → Connector → Did
  with_list none f w = failed w
  with_list (some servers) f w = f servers w

  -- `mm.ConnectServer`: nothing is called after an exception.
  abbrev pub connect : Server → ModelEvent → String → Connector → Did
  connect s e description w =
      if o.resolves s
      then fine (command (connect_server s (event_name e) description) w)
      else failed w

  -- NetworkCmd.ConnectToWorld for the server that was chosen
  abbrev pub to_chosen : Option Server → Connector → Did
  to_chosen none w = fine w
  to_chosen (some s) w = connect s world_connected "world" w

  abbrev register : Connector → Did
  unfolding send
  register = send (request_user_register user_name password)

  -- The handlers, without what they print.
  unfoldable pub handle : Handler → Option Decoded → Connector → Did
  unfolding send
  handle handle_world_list_notify more w =
      with_message more (λ m. with_list m.world_list (λ ss. fine)) w
  handle handle_login_notify more w = with_message more (λ m. fine) w
  handle handle_create_player_notify more w = with_message more (λ m. fine) w
  handle handle_user_register more w = with_message more (λ m. fine) w
  handle on_world_list_notify more w =
      with_message more
        (λ m. with_list m.world_list (λ ss v.
          send (request_user_register user_name password) (record v { chosen_server = first ss })))
        w
  handle on_disconnected more w = connect directory_server directory_connected "directory" w
  handle on_directory_connected more w = send request_world_list w
  handle on_world_connected more w =
      send (request_login device_id user_name password is_anonymous) w
  handle on_user_registered more w = with_message more (λ m v. to_chosen v.chosen_server v) w
  handle on_login_notify more w =
      with_message more
        (λ m v.
          if has_no_data m.exception
          then send (request_create_player is_anonymous device_id user_name) v
          else fine v)
        w
  handle on_create_player_notify more w = fine w

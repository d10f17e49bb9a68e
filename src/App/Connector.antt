-- ===== src/App/Connector.antt =====
-- The handlers in the queue of events, Pumper.lua and init.lua: what is registered, and the functions
-- that exports.cpp and L_notification.cpp call.
pub mod Rules
pub mod Flow
pub mod Entries
pub mod Frames
use socktestprogram.Prelude.{
  true, ℕ, zero, suc, ◌==◌, Bool, false, Option, none, some, List, [], ◌∷◌, ◌++◌, String,
  if◌then◌else◌, ltb, length,
}
use socktestprogram.Binding.Decoding.{same_bytes}
use socktestprogram.App.Dispatcher.{
  Name, Dispatcher, Ran, done, raised, dispatch, add_handler, check, go_on,
}
use socktestprogram.App.Handlers.{
  event_name, directory_server, user_name, password, device_id, is_anonymous, Command, Connector,
  Decoded, Did, Handler, ModelEvent, Outside, Request, Server, command, connect_server,
  create_player_notify, directory_connected, directory_register_user_notify,
  disconnected_from_server, et_no_data, failed, fine, first, handle, handle_create_player_notify,
  handle_login_notify, handle_user_register, handle_world_list_notify, has_no_data, login_notify,
  on_create_player_notify, on_directory_connected, on_disconnected, on_login_notify,
  on_user_registered, on_world_connected, on_world_list_notify, post, proto_name,
  request_create_player, request_login, request_user_register, request_world_list, send,
  send_buffer, to_chosen, with_list, with_message, world_connected, world_list_notify,
}

module _ (o : Outside) where
  abbrev pub App : Type 0
  App = Dispatcher Handler (Option Decoded) Connector

  abbrev pub Ended : Type 0
  Ended = Ran Handler (Option Decoded) Connector

  abbrev pub in_app : App → Did → Ended
  in_app d (fine w) = done (record d { world = w })
  in_app d (failed w) = raised (record d { world = w })

  -- The call of a handler by the dispatcher.
  unfoldable pub call : Handler → Name → Option Decoded → App → Ended
  unfolding handle
  call h event more d = in_app d (handle o h more d.world)

  abbrev pub no_handlers : App
  no_handlers = record {
    handlers = λ e. none;
    cache = [];
    world = record { chosen_server = none; commands = [] };
  }

  -- GlobalMessageHolder.init, ConnectorHandler:init
  abbrev pub registered : List (ModelEvent × Handler)
  registered =
      (world_list_notify, handle_world_list_notify)
      ∷ (login_notify, handle_login_notify)
      ∷ (create_player_notify, handle_create_player_notify)
      ∷ (directory_register_user_notify, handle_user_register)
      ∷ (disconnected_from_server, on_disconnected)
      ∷ (directory_connected, on_directory_connected)
      ∷ (world_connected, on_world_connected)
      ∷ (directory_register_user_notify, on_user_registered)
      ∷ (world_list_notify, on_world_list_notify)
      ∷ (login_notify, on_login_notify)
      ∷ (create_player_notify, on_create_player_notify)
      ∷ []

  unfoldable pub add_all : List (ModelEvent × Handler) → App → App
  add_all [] d = d
  add_all ((e, h) ∷ hs) d =
      add_all hs (add_handler Handler (Option Decoded) Connector (event_name e) h d)

  -- The application when init.lua has run.
  unfoldable pub started : App
  unfolding add_all
  started = add_all registered no_handlers

  -- A rule of `distributeRules`
  pub record Rule : Type 0 where
    pub type_code : ℕ
    pub proto : String
    pub event : ModelEvent

  abbrev pub made : String → ModelEvent → Option ℕ → Option Rule
  made proto event none = none
  made proto event (some id) = some (record { type_code = id; proto = proto; event = event })

  -- `MakeRule`: an error without an id
  unfoldable pub make_rule : String → ModelEvent → Option Rule
  make_rule proto event = made proto event (o.to_id proto)

  abbrev pub put_rule : Option Rule → Option (List Rule) → Option (List Rule)
  put_rule none rules = none
  put_rule (some r) none = none
  put_rule (some r) (some rules) = some (r ∷ rules)

  -- `distributeRules`
  unfoldable pub distribute_rules : Option (List Rule)
  unfolding make_rule
  distribute_rules = put_rule (make_rule "ResponseWorldList" world_list_notify) (
      put_rule (make_rule "ResponseUserRegister" directory_register_user_notify) (
        put_rule (make_rule "ResponseLogin" login_notify)
          (put_rule (make_rule "ResponseCreatePlayer" create_player_notify) (some []))))

  abbrev pub redistribute : Rule → Option Decoded → App → (App → Ended) → Ended
  redistribute v none d next = raised d
  redistribute v (some m) d next =
      next (dispatch Handler (Option Decoded) Connector (event_name v.event) (some m) d)

  -- `redirectNetBuffer`
  unfoldable pub redirect_net_buffer : List Rule → ℕ → List ℕ → App → Ended
  redirect_net_buffer [] typecode buffer d = done d
  redirect_net_buffer (v ∷ vs) typecode buffer d =
      if v.type_code == typecode
      then redistribute v (o.decode v.proto buffer) d (redirect_net_buffer vs typecode buffer)
      else redirect_net_buffer vs typecode buffer d

  -- `serverConnectOn`
  unfoldable pub server_connect_on : Name → App → App
  server_connect_on server_event d = dispatch Handler (Option Decoded) Connector server_event none d

  -- `startUp`
  unfoldable pub start_up : App → App
  start_up d =
      dispatch Handler (Option Decoded) Connector (event_name disconnected_from_server) none d

  -- The call of `EventDispatcher.check` by `frameUpdate`, with a round for each event.
  unfoldable pub frame_check : App → Option Ended
  frame_check d = check Handler (Option Decoded) Connector call (suc (length d.cache)) d

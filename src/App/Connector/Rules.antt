-- ===== src/App/Connector/Rules.antt =====
-- The handlers of the application's events, and the events of its messages.
use socktestprogram.Prelude.{
  ℕ, ◌==◌, ◌≡◌, refl, Bool, Option, none, some, List, [], map, ◌∷◌, ◌++◌, String, if◌then◌else◌,
}
use socktestprogram.Binding.Decoding.{same_bytes}
use socktestprogram.App.Dispatcher.{done, dispatch, add_handler, chain_of}
use socktestprogram.App.Handlers.{
  event_name, ModelEvent, world_list_notify, directory_register_user_notify, login_notify,
  create_player_notify, disconnected_from_server, directory_connected, world_connected, Decoded,
  Outside, Connector, Handler,
}
use socktestprogram.App.Connector.{
  App, no_handlers, registered, add_all, started, Rule, distribute_rules, make_rule,
  redirect_net_buffer,
}

-- An event has one number.
abbrev pub place : ModelEvent → ℕ
place world_list_notify = 0
place directory_register_user_notify = 1
place login_notify = 2
place create_player_notify = 3
place disconnected_from_server = 4
place directory_connected = 5
place world_connected = 6

-- The messages that the application gets.
pub data Response : Type 0 where
  response_world_list response_user_register response_login response_create_player : Response

abbrev pub proto : Response → String
proto response_world_list = "ResponseWorldList"
proto response_user_register = "ResponseUserRegister"
proto response_login = "ResponseLogin"
proto response_create_player = "ResponseCreatePlayer"

abbrev pub event_of : Response → ModelEvent
event_of response_world_list = world_list_notify
event_of response_user_register = directory_register_user_notify
event_of response_login = login_notify
event_of response_create_player = create_player_notify

-- The names of the events differ.
names-differ : (x y : ModelEvent) → same_bytes (event_name x) (event_name y) ≡ (place x == place y)
names-differ world_list_notify world_list_notify = refl
names-differ world_list_notify directory_register_user_notify = refl
names-differ world_list_notify login_notify = refl
names-differ world_list_notify create_player_notify = refl
names-differ world_list_notify disconnected_from_server = refl
names-differ world_list_notify directory_connected = refl
names-differ world_list_notify world_connected = refl
names-differ directory_register_user_notify world_list_notify = refl
names-differ directory_register_user_notify directory_register_user_notify = refl
names-differ directory_register_user_notify login_notify = refl
names-differ directory_register_user_notify create_player_notify = refl
names-differ directory_register_user_notify disconnected_from_server = refl
names-differ directory_register_user_notify directory_connected = refl
names-differ directory_register_user_notify world_connected = refl
names-differ login_notify world_list_notify = refl
names-differ login_notify directory_register_user_notify = refl
names-differ login_notify login_notify = refl
names-differ login_notify create_player_notify = refl
names-differ login_notify disconnected_from_server = refl
names-differ login_notify directory_connected = refl
names-differ login_notify world_connected = refl
names-differ create_player_notify world_list_notify = refl
names-differ create_player_notify directory_register_user_notify = refl
names-differ create_player_notify login_notify = refl
names-differ create_player_notify create_player_notify = refl
names-differ create_player_notify disconnected_from_server = refl
names-differ create_player_notify directory_connected = refl
names-differ create_player_notify world_connected = refl
names-differ disconnected_from_server world_list_notify = refl
names-differ disconnected_from_server directory_register_user_notify = refl
names-differ disconnected_from_server login_notify = refl
names-differ disconnected_from_server create_player_notify = refl
names-differ disconnected_from_server disconnected_from_server = refl
names-differ disconnected_from_server directory_connected = refl
names-differ disconnected_from_server world_connected = refl
names-differ directory_connected world_list_notify = refl
names-differ directory_connected directory_register_user_notify = refl
names-differ directory_connected login_notify = refl
names-differ directory_connected create_player_notify = refl
names-differ directory_connected disconnected_from_server = refl
names-differ directory_connected directory_connected = refl
names-differ directory_connected world_connected = refl
names-differ world_connected world_list_notify = refl
names-differ world_connected directory_register_user_notify = refl
names-differ world_connected login_notify = refl
names-differ world_connected create_player_notify = refl
names-differ world_connected disconnected_from_server = refl
names-differ world_connected directory_connected = refl
names-differ world_connected world_connected = refl

module _ (o : Outside) where
  -- The handlers of the events.
  abbrev pub Table : Type 0
  Table = ModelEvent → Option (List Handler)

  abbrev chain_in : Option (List Handler) → List Handler
  chain_in = chain_of Handler (Option Decoded) Connector

  abbrev pub HasTable : App o → Table → Type 0
  HasTable d k = (x : ModelEvent) → d.handlers (event_name x) ≡ k x

  abbrev pub extended : List (ModelEvent × Handler) → Table → Table
  extended [] k = k
  extended ((y, h) ∷ hs) k =
      extended hs (λ x. if place y == place x then some (chain_in (k y) ++ h ∷ []) else k x)

  chosen :
      {b c : Bool} {f g m n : Option (List Handler)} (h : Handler)
      → b ≡ c
      → f ≡ g
      → m ≡ n
      → (if b then some (chain_in f ++ h ∷ []) else m)
        ≡ (if c then some (chain_in g ++ h ∷ []) else n)
  chosen h p q r = cc

  add_all-HasTable :
      (hs : List (ModelEvent × Handler)) (d : App o) (k : Table)
      → HasTable d k
      → HasTable (add_all o hs d) (extended hs k)
  unfolding add_all add_handler
  add_all-HasTable [] d k t = t
  add_all-HasTable ((y, h) ∷ hs) d k t =
      add_all-HasTable hs _ _ (λ x. chosen h (names-differ y x) (t y) (t x))

  -- The handlers that init.lua has registered.
  abbrev pub handlers : Table
  handlers = extended (registered o) (λ x. none)

  pub started-HasTable : HasTable (started o) handlers
  unfolding started
  started-HasTable = add_all-HasTable (registered o) (no_handlers o) (λ x. none) (λ x. refl)

  -- The rules have different codes.
  abbrev pub CodesDiffer : (Response → ℕ) → Type 0
  CodesDiffer code =
      (r q : Response) → (code r == code q) ≡ (place (event_of r) == place (event_of q))

  abbrev pub rules : (Response → ℕ) → List (Rule o)
  rules code =
      map (λ r. record { type_code = code r; proto = proto r; event = event_of r })
        (response_world_list ∷ response_user_register ∷ response_login ∷ response_create_player
          ∷ [])

  pub distribute_rules_lem :
      (code : Response → ℕ)
      → ((r : Response) → o.to_id (proto r) ≡ some (code r))
      → distribute_rules o ≡ some (rules code)
  unfolding distribute_rules make_rule
  distribute_rules_lem code ids =
      rw
        (
          ids response_world_list,
          ids response_user_register,
          ids response_login,
          ids response_create_player,
        )
        refl

  -- A message is dispatched once, as the event of its rule.
  pub redirect_lem :
      (code : Response → ℕ) (r : Response) (bytes : List ℕ) (m : Decoded) (d : App o)
      → CodesDiffer code
      → o.decode (proto r) bytes ≡ some m
      → redirect_net_buffer o (rules code) (code r) bytes d
        ≡ done (dispatch Handler (Option Decoded) Connector (event_name (event_of r)) (some m) d)
  unfolding redirect_net_buffer
  redirect_lem code response_world_list bytes m d differ e =
      rw
        (
          differ response_world_list response_world_list,
          differ response_user_register response_world_list,
          differ response_login response_world_list,
          differ response_create_player response_world_list,
          e,
        )
        refl
  redirect_lem code response_user_register bytes m d differ e =
      rw
        (
          differ response_world_list response_user_register,
          differ response_user_register response_user_register,
          differ response_login response_user_register,
          differ response_create_player response_user_register,
          e,
        )
        refl
  redirect_lem code response_login bytes m d differ e =
      rw
        (
          differ response_world_list response_login,
          differ response_user_register response_login,
          differ response_login response_login,
          differ response_create_player response_login,
          e,
        )
        refl
  redirect_lem code response_create_player bytes m d differ e =
      rw
        (
          differ response_world_list response_create_player,
          differ response_user_register response_create_player,
          differ response_login response_create_player,
          differ response_create_player response_create_player,
          e,
        )
        refl

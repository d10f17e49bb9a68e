-- ===== src/App/Connector/Entries.antt =====
-- The event of each input, and what its handlers do.
use socktestprogram.Prelude.{
  subst, String, ℕ, ◌≡◌, refl, ap, sym, ◌∙◌, Bool, true, false, Option, none, some, List, [], ◌∷◌,
  ◌++◌, if◌then◌else◌, lt→ltb,
}
use socktestprogram.App.Dispatcher.{Name, Cached, done, dispatch, keep}
use socktestprogram.App.Dispatcher.Queue.{Acts, acted}
use socktestprogram.App.Handlers.{
  connect_server, connect, event_name, directory_server, user_name, password, device_id,
  is_anonymous, ModelEvent, world_list_notify, directory_register_user_notify, login_notify,
  create_player_notify, disconnected_from_server, directory_connected, world_connected, Server,
  Decoded, Request, request_world_list, request_login, request_create_player, Outside, send_buffer,
  Connector, Did, fine, failed, Handler, first, to_chosen, command, send, has_no_data, handle,
  handle_world_list_notify, handle_login_notify, handle_create_player_notify, handle_user_register,
  on_world_list_notify, on_disconnected, on_directory_connected, on_world_connected,
  on_user_registered, on_login_notify, on_create_player_notify,
}
use socktestprogram.App.Connector.{in_app, call, App, server_connect_on, start_up}
use socktestprogram.App.Connector.Rules.{
  Response, response_world_list, response_user_register, response_login, response_create_player,
  HasTable, handlers, CodesDiffer, redirect_lem,
}
use socktestprogram.App.Connector.Flow.{
  IsReachable, Input, begin, directory_made, world_made, server_list, user_registered, login_answer,
  player_created, listed, enter, react, register, join, CanCall, IsUsable,
}

module _ (o : Outside) where
  abbrev pub Entry : Type 0
  Entry = Cached Handler (Option Decoded) Connector

  abbrev entry : ModelEvent → List Handler → Option Decoded → Entry
  entry e chain more = record { event = event_name e; chain = chain; more = more }

  -- The event of an input.
  abbrev pub entry_of : Input → Entry
  entry_of begin = entry disconnected_from_server (on_disconnected ∷ []) none
  entry_of directory_made = entry directory_connected (on_directory_connected ∷ []) none
  entry_of world_made = entry world_connected (on_world_connected ∷ []) none
  entry_of (server_list bytes exception servers) =
      entry world_list_notify (handle_world_list_notify ∷ on_world_list_notify ∷ [])
        (some (listed o exception servers))
  entry_of (user_registered bytes m) =
      entry directory_register_user_notify (handle_user_register ∷ on_user_registered ∷ []) (some m)
  entry_of (login_answer bytes m) =
      entry login_notify (handle_login_notify ∷ on_login_notify ∷ []) (some m)
  entry_of (player_created bytes m) =
      entry create_player_notify (handle_create_player_notify ∷ on_create_player_notify ∷ [])
        (some m)

  abbrev pub queued : App o → Entry → App o
  queued d c = record d { cache = d.cache ++ c ∷ [] }

  dispatched :
      (e : ModelEvent) (more : Option Decoded) (d : App o) (hs : List Handler)
      → HasTable o d (handlers o)
      → handlers o e ≡ some hs
      → dispatch Handler (Option Decoded) Connector (event_name e) more d
        ≡ queued d (entry e hs more)
  unfolding dispatch
  dispatched e more d hs t h =
      ap (λ r. keep Handler (Option Decoded) Connector (event_name e) more r d) (t e ∙ h)

  pub enter_lem :
      (code : Response → ℕ) (i : Input) (d : App o)
      → CodesDiffer o code
      → HasTable o d (handlers o)
      → IsUsable o i
      → enter o code i d ≡ done (queued d (entry_of i))
  unfolding enter start_up server_connect_on
  enter_lem code begin d differ t q = ap done (dispatched disconnected_from_server none d _ t refl)
  enter_lem code directory_made d differ t q =
      ap done (dispatched directory_connected none d _ t refl)
  enter_lem code world_made d differ t q = ap done (dispatched world_connected none d _ t refl)
  enter_lem code (server_list bytes exception servers) d differ t q =
      redirect_lem o code response_world_list bytes _ d differ q.0
      ∙ ap done (dispatched world_list_notify _ d _ t refl)
  enter_lem code (user_registered bytes m) d differ t q =
      redirect_lem o code response_user_register bytes _ d differ q
      ∙ ap done (dispatched directory_register_user_notify _ d _ t refl)
  enter_lem code (login_answer bytes m) d differ t q =
      redirect_lem o code response_login bytes _ d differ q
      ∙ ap done (dispatched login_notify _ d _ t refl)
  enter_lem code (player_created bytes m) d differ t q =
      redirect_lem o code response_create_player bytes _ d differ q
      ∙ ap done (dispatched create_player_notify _ d _ t refl)

  module _ (id : Request → ℕ) (packed : Request → List ℕ) (can : CanCall o id packed) where
    send_lem :
        (r : Request) (w : Connector)
        → send o r w ≡ fine (command (send_buffer (packed r) (id r)) w)
    unfolding send
    send_lem r w = rw (can.code r, lt→ltb 0 (id r) (can.positive r), can.bytes r) refl

    abbrev pub did : Did → Connector
    did (fine w) = w
    did (failed w) = w

    abbrev pub act : Handler → Name → Option Decoded → Connector → Connector
    act h e more w = did (handle o h more w)

    -- The server that was chosen is reachable.
    abbrev pub Chosen : Connector → Type 0
    Chosen w = IsReachable o w.chosen_server

    abbrev Fine : Did → Type 0
    Fine r = (v : Connector) × (r ≡ fine v) × Chosen v

    called :
        (h : Handler) (e : Name) (more : Option Decoded)
        → ((w : Connector) → Chosen w → Fine (handle o h more w))
        → (d : App o) → Chosen d.world
        → (call o h e more d ≡ done (record d { world = act h e more d.world }))
          × Chosen (act h e more d.world)
    unfolding call
    called h e more f d p =
        let (v, q, k) = f d.world p in
        (
          ap (in_app o d) q ∙ ap (λ (r : Did). done (record d { world = did r })) (sym q),
          subst Chosen (ap did (sym q)) k,
        )

    sends : (r : Request) (w : Connector) → Chosen w → Fine (send o r w)
    sends r w p = (_, send_lem r w, p)

    connects :
        (s : Server) (e : ModelEvent) (description : String) (w : Connector)
        → o.resolves s ≡ true
        → connect o s e description w
          ≡ fine (command (connect_server s (event_name e) description) w)
    connects s e description w h = rw h refl

    to_chosen-join :
        (s : Option Server) (w : Connector)
        → IsReachable o s
        → to_chosen o s w ≡ fine (join o id packed s w)
    to_chosen-join none w h = refl
    to_chosen-join (some s) w h = connects s world_connected "world" w h

    join-Chosen : (s : Option Server) (w : Connector) → Chosen w → Chosen (join o id packed s w)
    join-Chosen none w p = p
    join-Chosen (some s) w p = p

    abbrev creation : Request
    creation = request_create_player is_anonymous device_id user_name

    abbrev created : Bool → Connector → Connector
    created b w = if b then command (send_buffer (packed creation) (id creation)) w else w

    created-fine :
        (b : Bool) (w : Connector) → (if b then send o creation w else fine w) ≡ fine (created b w)
    created-fine true w = send_lem creation w
    created-fine false w = refl

    created-Chosen : (b : Bool) (w : Connector) → Chosen w → Chosen (created b w)
    created-Chosen true w p = p
    created-Chosen false w p = p

    pub react-Chosen :
        (i : Input) (w : Connector) → IsUsable o i → Chosen w → Chosen (react o id packed i w)
    react-Chosen begin w q p = p
    react-Chosen directory_made w q p = p
    react-Chosen world_made w q p = p
    react-Chosen (server_list bytes exception servers) w q p = q.1
    react-Chosen (user_registered bytes m) w q p = join-Chosen w.chosen_server w p
    react-Chosen (login_answer bytes m) w q p = created-Chosen (has_no_data m.exception) w p
    react-Chosen (player_created bytes m) w q p = p

    abbrev EntryActs : Entry → Type 0
    EntryActs c = Acts Handler (Option Decoded) Connector (call o) act Chosen c.chain c.event c.more

    pub entry-Acts : (i : Input) → IsUsable o i → EntryActs (entry_of i)
    unfolding handle
    entry-Acts begin q = (
      called on_disconnected _ none (λ w p.
          (_, connects directory_server directory_connected "directory" w can.directory, p)),
      tt,
    )
    entry-Acts directory_made q =
        (called on_directory_connected _ none (sends request_world_list), tt)
    entry-Acts world_made q = (
      called on_world_connected _ none
          (sends (request_login device_id user_name password is_anonymous)),
      tt,
    )
    entry-Acts (server_list bytes exception servers) q = (
      called handle_world_list_notify _ (some (listed o exception servers)) (λ w p. (_, refl, p)),
      (
        called on_world_list_notify _ (some (listed o exception servers))
            (λ w p. sends (register o id packed) (record w { chosen_server = first servers }) q.1),
        tt,
      ),
    )
    entry-Acts (user_registered bytes m) q = (
      called handle_user_register _ (some m) (λ w p. (_, refl, p)),
      (
        called on_user_registered _ (some m)
            (λ w p. (_, to_chosen-join w.chosen_server w p, join-Chosen w.chosen_server w p)),
        tt,
      ),
    )
    entry-Acts (login_answer bytes m) q = (
      called handle_login_notify _ (some m) (λ w p. (_, refl, p)),
      (
        called on_login_notify _ (some m) (λ w p. (
          _,
          created-fine (has_no_data m.exception) w,
          created-Chosen (has_no_data m.exception) w p,
        )),
        tt,
      ),
    )
    entry-Acts (player_created bytes m) q = (
      called handle_create_player_notify _ (some m) (λ w p. (_, refl, p)),
      (called on_create_player_notify _ (some m) (λ w p. (_, refl, p)), tt),
    )

    abbrev pub acted_entry : Entry → Connector → Connector
    acted_entry c =
        acted Handler (Option Decoded) Connector (call o) act Chosen c.chain c.event c.more

    pub entry-react :
        (i : Input) (w : Connector) → Chosen w → acted_entry (entry_of i) w ≡ react o id packed i w
    unfolding handle
    entry-react begin w p =
        ap did (connects directory_server directory_connected "directory" w can.directory)
    entry-react directory_made w p = ap did (send_lem request_world_list w)
    entry-react world_made w p = ap did (send_lem _ w)
    entry-react (server_list bytes exception servers) w p =
        ap did (send_lem (register o id packed) _)
    entry-react (user_registered bytes m) w p = ap did (to_chosen-join w.chosen_server w p)
    entry-react (login_answer bytes m) w p = ap did (created-fine (has_no_data m.exception) w)
    entry-react (player_created bytes m) w p = refl

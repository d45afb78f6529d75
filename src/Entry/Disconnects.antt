-- ===== src/Entry/Disconnects.antt =====
-- The disconnection of a client from the control panel.
use monidroid.Base.{ℕ, ◌≡◌, ◌≢◌, ◌∙◌, refl, true, Option, none, some, List, []}
use monidroid.Protocol.{bytes_eq}
use monidroid.Control.{
  returned, MessageHandler, new_app, find, assign, on_event, on_request, dispatch, run_event,
  on_message, msg_key, req_id_key,
}
use monidroid.Control.Json.{JsonLibrary, IsJsonLibrary}
use monidroid.Client.Send.{force_disconnect}
use monidroid.Server.Data.{Server, ClientContext, context, contains}
use monidroid.Server.Decimal.{to_string}
use monidroid.Server.Main.{force_disconnect_id}
use monidroid.Server.Registry.{force_disconnect_id_lem}
use monidroid.Entry.{Program}
use monidroid.Entry.Names.{disconnect_client, id_key}
use monidroid.Entry.Handlers.{Host, get_client_json, handle_disconnect, setup_control}

module _ {J : Type 0} (json : JsonLibrary J) (lib : IsJsonLibrary J json) (host : Host) where
  reported :
      (x : ClientContext)
      → json.at (get_client_json json x) id_key ≡ some (json.string (to_string x.id))
  unfolding get_client_json bytes_eq
  reported x = lib.at-object _ id_key refl

  event_found :
      find disconnect_client (setup_control json host new_app).handlers
      ≡ some (handle_disconnect json)
  unfolding setup_control new_app on_event on_request find assign bytes_eq
  event_found = refl

  no_request : find disconnect_client (setup_control json host new_app).request_handlers ≡ none
  unfolding setup_control new_app on_event on_request find assign bytes_eq
  no_request = refl

  handled :
      (g : Program) (s : Server) (obj v : J) (text : List ℕ)
      → g.server ≡ some s
      → json.at obj id_key ≡ some v
      → json.get_string v ≡ some text
      → handle_disconnect json g obj
        ≡ returned (record g { server = some (force_disconnect_id s text).0 }) tt
  unfolding handle_disconnect
  handled g s obj v text e1 e2 e3 = rw (handle_disconnect, e1, e2, e3) refl

  dispatched :
      (id : Option J) (g : Program) (obj : J) (h : MessageHandler Program J) (g' : Program)
      → h g obj ≡ returned g' tt
      → dispatch json id none (some h) g obj ≡ returned g' []
  unfolding dispatch run_event
  dispatched none g obj h g' e = rw (e) refl
  dispatched (some id) g obj h g' e = rw (e) refl

  -- A control panel that sends the id that `getClientJson` gives for a client, in a message to disconnect it,
  -- gets no reply; that client, if it is registered, is disconnected with the error, and nothing else of the
  -- server and of the program changes.
  pub disconnect-get_client_json :
      (g : Program) (s : Server) (x : ClientContext) (obj m : J)
      → g.server ≡ some s
      → context x.id s.contexts ≡ some x
      → contains x.id s.clients ≡ true
      → json.at obj msg_key ≡ some m
      → json.get_string m ≡ some disconnect_client
      → json.at obj id_key ≡ json.at (get_client_json json x) id_key
      → (s' : Server) × (on_message json (setup_control json host new_app) g (some obj)
          ≡ returned (record g { server = some s' }) [])
        × (s'.clients ≡ s.clients)
        × (s'.notices ≡ s.notices)
        × (s'.running ≡ s.running)
        × (s'.accepting ≡ s.accepting)
        × (s'.current_id ≡ s.current_id)
        × ((j : ℕ) → x.id ≢ j → context j s'.contexts ≡ context j s.contexts)
        × (context x.id s'.contexts ≡ some (record x { client = force_disconnect x.client true }))
  unfolding on_message
  disconnect-get_client_json g s x obj m e1 e2 e3 e4 e5 e6 =
      let (answered, clients, notices, runs, accepts, next, others, itself) =
        (force_disconnect_id_lem s x.id).0 e3 in
      let s' = (force_disconnect_id s (to_string x.id)).0 in
      let h =
        handled g s obj (json.string (to_string x.id)) (to_string x.id) e1 (e6 ∙ reported x)
          (lib.get_string-string (to_string x.id)) in
      (
        s',
        rw (on_message, e4, e5, event_found, no_request)
            (dispatched (json.at obj req_id_key) g obj (handle_disconnect json)
              (record g { server = some s' }) h),
        clients,
        notices,
        runs,
        accepts,
        next,
        others,
        itself x e2,
      )

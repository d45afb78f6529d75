-- ===== src/Entry/Handlers.antt =====
-- server/main.cpp: the handlers of the control interface, `setupControl`.
use monidroid.Base.{ℕ, Bool, true, false, Option, none, some, List, [], ◌∷◌, map, if◌then◌else◌}
use monidroid.Control.{
  Outcome, bind, returned, thrown, undefined, MdApp, MessageHandler, RequestHandler, on_event,
  on_request,
}
use monidroid.Control.Json.{JsonLibrary}
use monidroid.Server.Data.{ClientContext, context}
use monidroid.Server.Main.{force_disconnect_id}
use monidroid.Server.Decimal.{to_string}
use monidroid.Entry.{Program, Starts, start_servers, stop_servers, shutdown, server_runs}
use monidroid.Entry.Names.{
  get_config, get_clients, set_state, shutdown_event, disconnect_client, version_key, enabled_key,
  hostname_key, addresses_key, clients_key, enable_key, id_key, address_key, connection_type_key,
  name_key, connected_at_key, usb_text, wifi_text, incorrect_usage,
}

-- What the handlers get from outside: the version, the name of the host and what it resolves to (whether an
-- address is one of IPv4, and its text; `none` is an exception), and what the servers meet.
pub record Host : Type 0 where
  pub version : List ℕ
  pub name : List ℕ
  pub resolved : Option (List (Bool × List ℕ))
  pub starts : Starts

-- The set that `Server::clients` returns.
unfoldable pub clients_of : List ClientContext → List ℕ → List ClientContext
clients_of xs [] = []
clients_of xs (i ∷ is) = elim (context i xs) [
  | none ↦ clients_of xs is
  | some x ↦ x ∷ clients_of xs is
]

-- The loop over the addresses of the host.
unfoldable pub v4_addresses : List (Bool × List ℕ) → List (List ℕ)
v4_addresses [] = []
v4_addresses ((is_v4, text) ∷ xs) = if is_v4 then text ∷ v4_addresses xs else v4_addresses xs

module _ {J : Type 0} (json : JsonLibrary J) where
  -- `getClientJson`
  unfoldable pub get_client_json : ClientContext → J
  get_client_json ctx = json.object (
      (id_key, json.string (to_string ctx.id))
      ∷ (address_key, json.string ctx.address)
      ∷ (connection_type_key, json.string (if ctx.client.is_usb then usb_text else wifi_text))
      ∷ (name_key, json.string ctx.client.model_name)
      ∷ (connected_at_key, json.number ctx.connected_at)
      ∷ [])

  unfoldable pub handle_config : Host → RequestHandler Program J
  unfolding v4_addresses
  handle_config host g arg = elim host.resolved [
    | none ↦ thrown g
    | some addrs ↦ returned g (
      json.object (
          (version_key, json.string host.version)
          ∷ (enabled_key, json.boolean (server_runs g))
          ∷ (hostname_key, json.string host.name)
          ∷ (addresses_key, json.array (map json.string (v4_addresses addrs)))
          ∷ []),
      [],
    )
  ]

  unfoldable pub handle_clients : RequestHandler Program J
  unfolding clients_of get_client_json
  handle_clients g arg = returned g (
    json.object (
        (
          clients_key,
          json.array (elim g.server [
            | none ↦ []
            | some s ↦ map get_client_json (clients_of s.contexts s.clients)
          ]),
        )
        ∷ []),
    [],
  )

  -- The answer of the handler of `SET_STATE` after the servers were started or stopped.
  unfoldable pub enabled_reply : Bool → J × List ℕ
  enabled_reply b = (json.object ((enabled_key, json.boolean b) ∷ []), [])

  unfoldable pub set_enabled : Host → Bool → Program → Outcome Program (J × List ℕ)
  unfolding enabled_reply
  set_enabled host true g =
      bind (start_servers host.starts g) (λ _ g'. returned g' (enabled_reply true))
  set_enabled host false g = returned (stop_servers g) (enabled_reply false)

  unfoldable pub handle_state : Host → RequestHandler Program J
  unfolding set_enabled
  handle_state host g arg = elim (json.at arg enable_key) [
    | none ↦ returned g (json.null, incorrect_usage)
    | some v ↦ elim (json.get_bool v) [ none ↦ thrown g | some enable ↦ set_enabled host enable g ]
  ]

  unfoldable pub handle_shutdown : MessageHandler Program J
  handle_shutdown g msg = returned (shutdown g) tt

  -- A message without an id is undefined: `[]` of a constant value has no such key.
  unfoldable pub handle_disconnect : MessageHandler Program J
  handle_disconnect g msg = elim g.server [
    | none ↦ returned g tt
    | some s ↦ elim (json.at msg id_key) [
      | none ↦ undefined
      | some id ↦ elim (json.get_string id) [
        | none ↦ thrown g
        | some text ↦ returned (record g { server = some (force_disconnect_id s text).0 }) tt
      ]
    ]
  ]

  unfoldable pub setup_control : Host → MdApp Program J → MdApp Program J
  unfolding on_event on_request
  setup_control host app = on_event disconnect_client handle_disconnect (
      on_event shutdown_event handle_shutdown (
        on_request set_state (handle_state host)
          (on_request get_clients handle_clients (on_request get_config (handle_config host) app))))

-- ===== src/Entry/Requests.antt =====
-- A request to start or to stop the servers, from the message to the reply.
use monidroid.Base.{ℕ, ◌≡◌, ◌∙◌, refl, Bool, true, false, ◌&&◌, some, List, [], ◌∷◌}
use monidroid.Protocol.{bytes_eq}
use monidroid.Control.{
  Outcome, returned, new_app, find, assign, on_event, on_request, on_message, msg_key, req_id_key,
  data_key,
}
use monidroid.Control.Json.{JsonLibrary, IsJsonLibrary}
use monidroid.Control.Dispatch.{Answers, on_message-Answers}
use monidroid.Entry.{Program, can_bind, current_id, server_runs, echo_runs, usb_runs, stop_servers}
use monidroid.Entry.States.{CanStart, reset_server_lem, start_servers-IsUp}
use monidroid.Entry.Names.{set_state, enable_key, enabled_key}
use monidroid.Entry.Handlers.{Host, handle_state, set_enabled, enabled_reply, setup_control}

-- What is to run runs, and nothing else.
pub record IsEnabled (b : Bool) (g g' : Program) : Type 0 where
  pub server : server_runs g' ≡ b
  pub echo : echo_runs g' ≡ b
  pub usb : usb_runs g' && g.usb_avaliable ≡ b && g.usb_avaliable
  pub same_id : current_id g' ≡ current_id g
  pub same_avaliable : g'.usb_avaliable ≡ g.usb_avaliable

stop_servers-IsEnabled : (g : Program) → IsEnabled false g (stop_servers g)
unfolding stop_servers current_id
stop_servers-IsEnabled g =
    let (sv, n, ec, u, a) = reset_server_lem g in
    record {
      server = rw (sv) refl;
      echo = refl;
      usb = refl;
      same_id = rw (sv) n;
      same_avaliable = a;
    }

usb_both : (a b : Bool) → (b ≡ true → a ≡ true) → a && b ≡ true && b
usb_both true b h = refl
usb_both false true h = h refl
usb_both false false h = refl

module _ {J : Type 0} (json : JsonLibrary J) (lib : IsJsonLibrary J json) (host : Host)
    (g : Program) where
  set_enabled-IsEnabled :
      (b : Bool)
      → (server_runs g ≡ false → can_bind host.starts g ≡ true)
      → host.starts.adapter_opens ≡ true
      → host.starts.echo_binds ≡ true
      → CanStart host.starts
      → (g' : Program) × (set_enabled json host b g ≡ returned g' (enabled_reply json b))
        × IsEnabled b g g'
  unfolding set_enabled
  set_enabled-IsEnabled true h0 h1 h2 h3 =
      let (g', e, up, i, a, again) = start_servers-IsUp host.starts g h0 h1 h2 (λ _. h3) in
      (
        g',
        rw (set_enabled, e) refl,
        record {
          server = up.server;
          echo = up.echo;
          usb = usb_both (usb_runs g') g.usb_avaliable (λ h. up.usb (a ∙ h));
          same_id = i;
          same_avaliable = a;
        },
      )
  set_enabled-IsEnabled false h0 h1 h2 h3 = (stop_servers g, refl, stop_servers-IsEnabled g)

  found :
      find set_state (setup_control json host new_app).request_handlers
      ≡ some (handle_state json host)
  unfolding setup_control new_app on_event on_request find assign bytes_eq
  found = refl

  handled :
      {d v : J} {r : Outcome Program (J × List ℕ)} (obj m : J) (b : Bool)
      → json.at obj msg_key ≡ some m
      → json.at obj data_key ≡ some d
      → json.at d enable_key ≡ some v
      → json.get_bool v ≡ some b
      → set_enabled json host b g ≡ r
      → handle_state json host g (json.value obj data_key json.null) ≡ r
  unfolding handle_state
  handled obj m b e1 e4 e5 e6 e =
      rw (lib.value-at obj json.null m data_key msg_key e1, e4, handle_state, e5, e6) e

  -- The request to enable or to disable the servers, where their constructors can do what they must, which for
  -- the server includes that its port can be bound if none runs, though one that ended may still have it: it is
  -- answered once, under its own id and with the value that it asked for; after it the server, the echo server,
  -- and the USB server, if one could be started when the program was, all run, or none of them does; and the
  -- ids of clients go on where they were.
  pub set_state-IsEnabled :
      (obj m id d v : J) (b : Bool)
      → json.at obj msg_key ≡ some m
      → json.get_string m ≡ some set_state
      → json.at obj req_id_key ≡ some id
      → json.at obj data_key ≡ some d
      → json.at d enable_key ≡ some v
      → json.get_bool v ≡ some b
      → (server_runs g ≡ false → can_bind host.starts g ≡ true)
      → host.starts.adapter_opens ≡ true
      → host.starts.echo_binds ≡ true
      → CanStart host.starts
      → (g' : Program) × (reply : J) × (on_message json
            (setup_control json host new_app)
            g
            (some obj)
          ≡ returned g' (reply ∷ []))
        × Answers json lib id (json.object ((enabled_key, json.boolean b) ∷ [])) [] reply
        × IsEnabled b g g'
  unfolding enabled_reply
  set_state-IsEnabled obj m id d v b e1 e2 e3 e4 e5 e6 h0 h1 h2 h3 =
      let (g', e, up) = set_enabled-IsEnabled b h0 h1 h2 h3 in
      let (reply, r, a) =
        on_message-Answers json lib (setup_control json host new_app) g g' obj m id
          (json.object ((enabled_key, json.boolean b) ∷ [])) set_state [] (handle_state json host)
          e1 e2 e3 found (handled obj m b e1 e4 e5 e6 e) in
      (g', reply, r, a, up)

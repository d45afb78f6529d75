-- ===== src/Runs/ControlRuns.antt =====
-- Runs of the entry point and of the control interface.
use monidroid.Base.{ℕ, ◌≢◌, ◌≡◌, refl, ◌++◌, true, false, none, some, [], ◌∷◌}
use monidroid.Protocol.{bytes_eq}
use monidroid.Control.{
  returned, new_app, emit, on_event, on_request, find, assign, on_message, msg_key, req_id_key,
  data_key,
}
use monidroid.Control.Dispatch.{Answers}
use monidroid.Client.Send.{new_client, force_disconnect}
use monidroid.Server.Data.{Server, ClientContext, context, contains}
use monidroid.Server.Decimal.{to_string}
use monidroid.Server.Main.{new_server}
use monidroid.Entry.Disconnects.{disconnect-get_client_json}
use monidroid.Echo.{new_echo_server}
use monidroid.Usb.{hotplug, new_usb_server}
use monidroid.Entry.{
  Program, Starts, reset_server, current_id, can_bind, make_server, make_echo_server,
  make_usb_server, shutdown,
}
use monidroid.Entry.Names.{
  set_state, enable_key, enabled_key, disconnect_client, id_key, connected_event, client_key,
}
use monidroid.Entry.Handlers.{get_client_json, Host, handle_state, setup_control}
use monidroid.Entry.Requests.{IsEnabled, set_state-IsEnabled}
use monidroid.Entry.Startup.{
  Options, Boot, initial, require, first_usb_server, set_avaliable, start_up, message, published,
  deferred, interrupt, Loop, waits, success, failure, step, run_app, main,
}
use monidroid.Entry.Ends.{begin, main-deferred, main_hangs, main_hangs-published}
use monidroid.Runs.Documents.{Document, documents, documents-IsJsonLibrary}
use monidroid.Runs.Samples.{pixel, pix}

abbrev starts : Starts
starts = record {
  server_binds = true;
  server_rebinds = false;
  adapter_opens = true;
  echo_binds = true;
  os_id = pix;
  hostname = pixel;
  adb_on_path = true;
  adb_beside = false;
  hotplugs = true;
  present = [];
}

abbrev host : Host
host = record { version = pix; name = pixel; resolved = none; starts = starts }

-- A request to stop the servers.
abbrev stop_data : Document
stop_data = documents.object ((enable_key, documents.boolean false) ∷ [])

abbrev stop : Document
stop = documents.object (
    (msg_key, documents.string set_state)
    ∷ (req_id_key, documents.number 7)
    ∷ (data_key, stop_data)
    ∷ [])

abbrev options : Options
options = record { version = false; help = false; force_usb = true }

abbrev boot : Boot
boot = record { elevated = true; healthy = true; listens = true; starts = starts }

-- The program after its start.
abbrev started : Program
started = record {
  server = some (record {
    running = true;
    accepting = true;
    contexts = [];
    clients = [];
    current_id = 0;
    notices = [];
  });
  echo_server = some (new_echo_server pix pixel);
  usb_server = some (record { running = true; devices = []; clients = []; refs = 0 });
  usb_avaliable = true;
  next_id = 0;
  destroyed = [];
  stopped = false;
  closing = false;
}

started_lem : start_up true boot initial ≡ returned started tt
unfolding start_up initial require first_usb_server set_avaliable make_server make_echo_server
    make_usb_server new_server new_usb_server reset_server current_id can_bind hotplug
started_lem = refl

abbrev served : Program → Loop Document
served g = record { program = g; replies = []; asio_ex = false }

interrupted : run_app documents (interrupt ∷ []) (begin started) ≡ waits (served (shutdown started))
unfolding run_app step
interrupted = refl

idle : run_app documents [] (begin started) ≡ waits (served started)
unfolding run_app
idle = refl

closing_lem : (shutdown started).closing ≡ true
unfolding shutdown
closing_lem = refl

found :
    find set_state (setup_control documents host new_app).request_handlers
    ≡ some (handle_state documents host)
unfolding setup_control new_app on_event on_request find assign bytes_eq
found = refl

stop_has :
    (documents.at stop msg_key ≡ some (documents.string set_state))
    × (documents.at stop req_id_key ≡ some (documents.number 7))
    × (documents.at stop data_key ≡ some stop_data)
    × (documents.at stop_data enable_key ≡ some (documents.boolean false))
unfolding bytes_eq
stop_has = (refl, refl, refl, refl)

set_state-IsEnabled_example :
    (g' : Program) × (reply : Document) × (on_message documents
        (setup_control documents host new_app)
        started
        (some stop)
      ≡ returned g' (reply ∷ []))
    × Answers documents documents-IsJsonLibrary
        (documents.number 7)
        (documents.object ((enabled_key, documents.boolean false) ∷ []))
        []
        reply
    × IsEnabled false started g'
set_state-IsEnabled_example =
    set_state-IsEnabled documents documents-IsJsonLibrary host started stop
      (documents.string set_state) (documents.number 7) stop_data (documents.boolean false) false
      stop_has.0 refl stop_has.1 stop_has.2 stop_has.3 refl (λ h. cc h) refl refl (refl, refl)

main-deferred_example :
    main documents (some options) boot ((interrupt ∷ []) ++ (deferred ∷ [])) ≡ success
main-deferred_example =
    main-deferred documents options boot started (interrupt ∷ []) (served (shutdown started)) refl
      refl started_lem interrupted [] closing_lem

-- A message whose name is a number.
abbrev malformed : Document
malformed = documents.object ((msg_key, documents.number 1) ∷ [])

malformed_has : documents.at malformed msg_key ≡ some (documents.number 1)
unfolding bytes_eq
malformed_has = refl

main_hangs_example :
    main documents
      (some options)
      boot
      ([] ++ (message host (some malformed) ∷ interrupt ∷ deferred ∷ []))
    ≡ failure
main_hangs_example =
    main_hangs documents options boot started [] (served started) refl refl started_lem idle
      (interrupt ∷ deferred ∷ []) host malformed (documents.number 1) refl malformed_has refl

-- A client that is registered, and the message that disconnects it.
abbrev phone : ClientContext
phone = record { id = 4; address = pixel; connected_at = 9; client = new_client; joinable = true }

abbrev serving : Server
serving = record {
  running = true;
  accepting = true;
  contexts = phone ∷ [];
  clients = 4 ∷ [];
  current_id = 5;
  notices = [];
}

abbrev with_phone : Program
with_phone = record started { server = some serving }

abbrev goodbye : Document
goodbye =
    documents.object (
      (msg_key, documents.string disconnect_client) ∷ (id_key, documents.string (to_string 4)) ∷ [])

goodbye_has :
    (context 4 serving.contexts ≡ some phone)
    × (contains 4 serving.clients ≡ true)
    × (documents.at goodbye msg_key ≡ some (documents.string disconnect_client))
    × (documents.at goodbye id_key ≡ documents.at (get_client_json documents phone) id_key)
unfolding context contains bytes_eq get_client_json
goodbye_has = (refl, refl, refl, refl)

disconnect-get_client_json_example :
    (s' : Server) × (on_message documents
        (setup_control documents host new_app)
        with_phone
        (some goodbye)
      ≡ returned (record with_phone { server = some s' }) [])
    × (s'.clients ≡ serving.clients)
    × (s'.notices ≡ serving.notices)
    × (s'.running ≡ serving.running)
    × (s'.accepting ≡ serving.accepting)
    × (s'.current_id ≡ serving.current_id)
    × ((j : ℕ) → 4 ≢ j → context j s'.contexts ≡ context j serving.contexts)
    × (context 4 s'.contexts ≡ some (record phone { client = force_disconnect new_client true }))
disconnect-get_client_json_example =
    disconnect-get_client_json documents documents-IsJsonLibrary host with_phone serving phone
      goodbye (documents.string disconnect_client) refl goodbye_has.0 goodbye_has.1 goodbye_has.2
      refl goodbye_has.3

-- A phone whose name is a byte that UTF-8 does not have.
abbrev odd_phone : ClientContext
odd_phone = record {
  id = 4;
  address = pixel;
  connected_at = 9;
  client = record new_client { model_name = 0xff ∷ [] };
  joinable = true;
}

main_hangs-published_example :
    main documents (some options) boot (
      []
      ++ (published
            (emit documents connected_event client_key (get_client_json documents odd_phone))
          ∷ interrupt
          ∷ deferred
          ∷ []))
    ≡ failure
main_hangs-published_example =
    main_hangs-published documents options boot started [] (served started) refl refl started_lem
      idle documents-IsJsonLibrary (interrupt ∷ deferred ∷ []) odd_phone refl refl

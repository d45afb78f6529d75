-- ===== src/Runs/ServerRuns.antt =====
-- Runs of the server's registry and of a client's thread.
use mathlib.Core.Quot
use mathlib.Core.Option
use monidroid.Base.{ℕ, ◌≡◌, refl, arith, true, false, List, [], ◌∷◌}
use monidroid.Client.Data.{Client, ClientState}
use monidroid.Client.Identify.{Read, received, returned, identify_client}
use monidroid.Client.Identify.Handshake.{greeting, settings}
use monidroid.Client.Identify.Complete.{identify_client_hello}
use monidroid.Server.Data.{ClientContext, Server, client_connected, contains}
use monidroid.Server.Main.{Session, refused, threw, over, communication_main}
use monidroid.Server.Sessions.{HasLeft, communication_main_leaves, communication_main_stays}
use monidroid.Runs.Samples.{fresh, pixel}

abbrev entry : ℕ → ClientContext
entry i = record { id = i; address = []; connected_at = 0; client = fresh; joinable = true }

abbrev server : Server
server = record {
  running = true;
  accepting = true;
  contexts = entry 2 ∷ entry 1 ∷ entry 0 ∷ [];
  clients = 1 ∷ 0 ∷ [];
  current_id = 3;
  notices = [];
}

abbrev hello : List Read
hello = received (greeting false pixel) ∷ received pixel ∷ received (settings 1920 1080 60) ∷ []

abbrev known : Client
known = record fresh {
  is_usb = false;
  model_name = pixel;
  preffered = record { width = 1920; height = 1080; refresh_rate = 60 };
  state = ClientState.identified;
  net_buffer = [];
}

identifies : identify_client hello fresh ≡ returned true known []
identifies =
    identify_client_hello fresh false pixel 1920 1080 60 [] refl (omega arith) (omega arith)
      (omega arith) (omega arith) (omega arith)

not_yet : contains 2 server.clients ≡ false
unfolding contains
not_yet = refl

abbrev fails : Session
fails = record { reads = hello; connecting = threw pixel; events = [] }

communication_main_leaves_example :
    (s' : Server) × (communication_main server 2 fresh fails ≡ over s') × HasLeft server 2 s'
communication_main_leaves_example =
    communication_main_leaves server 2 fresh known fails [] not_yet identifies tt

abbrev no_slot : Session
no_slot = record { reads = hello; connecting = refused; events = [] }

communication_main_stays_example :
    (s' : Server) × (communication_main server 2 fresh no_slot ≡ over s')
    × (s'.clients ≡ 2 ∷ 1 ∷ 0 ∷ [])
    × (s'.notices ≡ client_connected 2 ∷ [])
communication_main_stays_example =
    communication_main_stays server 2 fresh known no_slot true [] not_yet identifies (λ _. refl)

abbrev started : Server
started = record {
  running = true;
  accepting = true;
  contexts = [];
  clients = [];
  current_id = 0;
  notices = [];
}

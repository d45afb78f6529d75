-- ===== src/Server/Main.antt =====
-- server/server.cpp: the operations of the server.
use monidroid.Base.{ℕ, ◌+◌, Bool, true, false, Option, none, some, List, [], ◌∷◌, if◌then◌else◌}
use monidroid.Protocol.{bytes_eq, monitor_connect_fail}
use monidroid.Client.Data.{Client}
use monidroid.Client.Send.{new_client, send_error, send_error_message, force_disconnect}
use monidroid.Client.Identify.{Read, returned, waiting, identify_client, connect_monitor}
use monidroid.Client.Frames.{FrameEvent, send_frames, disconnect_monitor}
use monidroid.Server.Decimal.{to_string}
use monidroid.Server.Data.{
  Server, Notice, client_connected, client_disconnected, update, contains, insert, erase,
}

-- The constructor; `none` is an exception: the acceptor cannot be bound to the port of the protocol, or the
-- adapter cannot be opened. The next id is static.
unfoldable pub new_server : (binds opens : Bool) → ℕ → Option Server
new_server binds opens current_id =
    if binds
    then (if opens
        then some (record {
          running = true;
          accepting = true;
          contexts = [];
          clients = [];
          current_id = current_id;
          notices = [];
        })
        else none)
    else none

-- What `async_accept` calls its handler with.
pub data Accepted : Type 0 where
  socket : List ℕ → ℕ → Accepted
  aborted : Accepted
  failed : Accepted

-- The handler of `serverMainAsync` in its two parts, between which the new thread runs already: a new context
-- under the next id; then the handle of the thread, which the context gets, and the next accept.
unfoldable pub add_context : Server → List ℕ → ℕ → Server
add_context s address now = record s {
  contexts =
      record {
        id = s.current_id;
        address = address;
        connected_at = now;
        client = new_client;
        joinable = false;
      }
      ∷ s.contexts;
  current_id = s.current_id + 1;
  accepting = false;
}

unfoldable pub store_handle : Server → ℕ → Server
store_handle s i = record s {
  contexts = update (λ x. record x { joinable = true }) i s.contexts;
  accepting = true;
}

-- The whole handler; an error is the end.
unfoldable pub on_accept : Server → Accepted → Server
unfolding add_context store_handle
on_accept s (socket address now) = store_handle (add_context s address now) s.current_id
on_accept s aborted = record s { running = false; accepting = false }
on_accept s failed = record s { running = false; accepting = false }

-- The first and the last locked part of `communicationMain`.
unfoldable pub register : Server → ℕ → Server
register s i = record s { clients = insert i s.clients }

unfoldable pub unregister : Server → ℕ → Server
unregister s i =
    if contains i s.clients
    then record s {
      clients = erase i s.clients;
      contexts = update (λ x. record x { joinable = false }) i s.contexts;
    }
    else s

unfoldable pub notify : Server → Notice → Server
notify s n = record s { notices = n ∷ s.notices }

-- A change to the client of a context.
unfoldable pub set_client : Server → ℕ → Client → Server
set_client s i c = record s { contexts = update (λ x. record x { client = c }) i s.contexts }

-- How `adapterConnectMonitor` ends.
pub data Connecting : Type 0 where
  plugged : ℕ → Connecting
  refused : Connecting
  threw : List ℕ → Connecting

-- What the thread of a client meets: the reads of the handshake, the answer of the adapter, and the events
-- of the frame loop.
pub record Session : Type 0 where
  pub reads : List Read
  pub connecting : Connecting
  pub events : List FrameEvent

-- The thread's function returned, or it still waits for the client or streams to it.
pub data Run : Type 0 where
  over : Server → Run
  busy : Server → Run

-- The end that all ways but the two early returns come to.
unfoldable pub finish : Server → ℕ → Run
unfolding unregister notify
finish s i = over (notify (unregister s i) (client_disconnected i))

-- Steps 3 and 4 of `communicationMain`.
unfoldable pub stream : Server → ℕ → Client → List FrameEvent → Run
unfolding set_client finish
stream s i c events =
    let (frames, left) = send_frames events c in
    if left
    then finish (set_client s i (disconnect_monitor frames.client)) i
    else busy (set_client s i frames.client)

-- Step 2, with the handler of the exception.
unfoldable pub connect : Server → ℕ → Client → Session → Run
unfolding set_client finish
connect s i c session = elim session.connecting [
  | plugged m ↦ stream s i (connect_monitor c (some m)).0 session.events
  | refused ↦ over (set_client s i (send_error (connect_monitor c none).0 monitor_connect_fail))
  | threw what ↦ finish (set_client s i (send_error_message c what)) i
]

-- `communicationMain` for the context `i` with the client `c`.
unfoldable pub communication_main : Server → ℕ → Client → Session → Run
unfolding register set_client notify
communication_main s i c session =
    let s' = register s i in
    elim (identify_client session.reads c) [
      | waiting w ↦ busy (set_client s' i w.client)
      | returned ok c' rest ↦
          if ok
          then connect (notify (set_client s' i c') (client_connected i)) i c' session
          else over (set_client s' i c')
    ]

-- `Server::forceDisconnect`: the first registered client whose id, in decimal, is the text.
unfoldable pub find_id : List ℕ → List ℕ → Option ℕ
find_id text [] = none
find_id text (i ∷ is) = if bytes_eq (to_string i) text then some i else find_id text is

unfoldable pub on_client : (Client → Client) → Server → ℕ → Server
on_client f s i = record s {
  contexts = update (λ x. record x { client = f x.client }) i s.contexts;
}

unfoldable pub force_disconnect_id : Server → List ℕ → Server × Bool
unfolding on_client
force_disconnect_id s text = elim (find_id text s.clients) [
  | none ↦ (s, false)
  | some i ↦ (on_client (λ c. force_disconnect c true) s i, true)
]

-- `~Server`: every registered client is disconnected and its thread joined, without the lock.
unfoldable pub close_all : List ℕ → Server → Server
unfolding on_client
close_all [] s = s
close_all (i ∷ is) s =
    let s' = on_client (λ c. force_disconnect c false) s i in
    close_all is
      (record s' { contexts = update (λ x. record x { joinable = false }) i s'.contexts })

unfoldable pub close_server : Server → Server
unfolding close_all
close_server s = close_all s.clients (record s { clients = []; accepting = false })

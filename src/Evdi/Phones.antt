-- ===== src/Evdi/Phones.antt =====
-- server/server.cpp on server/client.cpp and server/linux/evdi.cpp: the whole session of a phone.
use Prim.Native.Nat.{max, min}
use mathlib.Core.Option
use monidroid.Base.{
  ℕ, ◌/◌, ◌*◌, ◌^◌, ◌<◌, ◌≡◌, ◌∙◌, ap, refl, Bool, true, false, some, List, [], ◌∷◌, ◌++◌, length,
}
use monidroid.Client.Data.{Client, ClientState, connected, streaming}
use monidroid.Client.Send.{new_client, write, send_error, force_disconnect}
use monidroid.Client.Identify.{received, connect_monitor}
use monidroid.Client.Identify.Handshake.{greeting, settings}
use monidroid.Client.Identify.Complete.{identify_client_hello}
use monidroid.Client.Frames.{
  Frames, forced, frame_event, frame_loop, start_frames, send_frames, disconnect_monitor,
}
use monidroid.Client.Frames.Limits.{frame_loop-append}
use monidroid.Server.Data.{
  ClientContext, Server, client_connected, client_disconnected, context, contains, update,
}
use monidroid.Server.Main.{
  plugged, Session, over, finish, stream, connect, set_client, communication_main,
}
use monidroid.Server.Sessions.{
  begun, begun-clients, identified, finish_lem, context-update_self, detach, put,
}
use monidroid.Evdi.Data.{MonitorContext, Request}
use monidroid.Evdi.Monitor.{monitor_request_frame}
use monidroid.Evdi.Streams.{rounds_of, shown, IsCalm, loop_shown, message, message-state}

shown-state :
    (rs : List (Request × List ℕ)) (m : MonitorContext) (c : Client)
    → (shown rs m c).state ≡ c.state
shown-state [] m c = refl
shown-state ((r, jpeg) ∷ rs) m c =
    let (m', st) = monitor_request_frame r m in
    shown-state rs m' (message st jpeg c) ∙ message-state st jpeg c

-- A loop that streams, and then meets a forced disconnection.
forced_off :
    (s : Frames)
    → s.client.state ≡ streaming
    → frame_loop (forced true ∷ []) s ≡ (record s { client = force_disconnect s.client true }, true)
unfolding frame_loop frame_event force_disconnect send_error write
forced_off s e = rw e refl

cut_off :
    (rs : List (Request × List ℕ)) (m : MonitorContext) (c : Client)
    → IsCalm rs m 0 0
    → let (s, left) = send_frames (rounds_of rs m ++ forced true ∷ []) c in
      (left ≡ true)
      × (s.client ≡ force_disconnect (shown rs m (record c { state = streaming })) true)
unfolding send_frames start_frames
cut_off rs m c calm =
    let s = start_frames c in
    let (a, b, k) = loop_shown rs m s refl calm in
    let e =
      frame_loop-append (rounds_of rs m) (forced true ∷ []) s k
      ∙ forced_off (frame_loop (rounds_of rs m) s).0
          (ap (λ (x : Client). x.state) a ∙ shown-state rs m s.client) in
    (
      ap (λ (x : Frames × Bool). x.1) e,
      ap (λ (x : Frames × Bool). x.0.client) e ∙ ap (λ x. force_disconnect x true) a,
    )

-- The client after the handshake.
abbrev pub phone : Bool → List ℕ → ℕ → ℕ → ℕ → Client
phone usb name w h r = record new_client {
  is_usb = usb;
  model_name = name;
  preffered = record {
    width = max (w / 2 * 2) (h / 2 * 2);
    height = min (w / 2 * 2) (h / 2 * 2);
    refresh_rate = r;
  };
  state = ClientState.identified;
  net_buffer = [];
}

-- What the thread of the phone meets.
abbrev pub visit :
    Bool → List ℕ → ℕ → ℕ → ℕ → ℕ → List (Request × List ℕ) → MonitorContext → Session
visit usb name w h r k rs m = record {
  reads = received (greeting usb name) ∷ received name ∷ received (settings w h r) ∷ [];
  connecting = plugged k;
  events = rounds_of rs m ++ forced true ∷ [];
}

-- What is left of it: the set of clients is as before, the control panel has been told of the phone and of
-- its end, and the context has the client `c`, whose thread is detached.
pub record Served (s : Server) (i : ℕ) (c : Client) (s' : Server) : Type 0 where
  pub clients : s'.clients ≡ s.clients
  pub notices : s'.notices ≡ client_disconnected i ∷ client_connected i ∷ s.notices
  pub now :
      (x : ClientContext)
      → context i s.contexts ≡ some x
      → context i s'.contexts ≡ some (record x { client = c; joinable = false })

streams_off :
    (s : Server) (i : ℕ) (c : Client) (session : Session) (k : ℕ) (f : Client)
    → session.connecting ≡ plugged k
    → (let (frames, left) = send_frames session.events (connect_monitor c (some k)).0 in
        (left ≡ true) × (frames.client ≡ f))
    → connect s i c session ≡ finish (set_client s i (disconnect_monitor f)) i
unfolding connect stream
streams_off s i c session k f e (l, q) = rw (e, connect) (rw (l, q) refl)

-- The context of the client after three changes.
thrice :
    (i : ℕ) (c f : Client) (xs ys : List ClientContext) (x : ClientContext)
    → ys ≡ update (put f) i (update (put c) i xs)
    → context i xs ≡ some x
    → context i (update detach i ys) ≡ some (record x { client = f; joinable = false })
thrice i c f xs ys x q e =
    context-update_self detach i ys (λ _. refl)
    ∙ ap (λ zs. Option.map detach (context i zs)) q
    ∙ ap (Option.map detach) (
        context-update_self (put f) i (update (put c) i xs) (λ _. refl)
        ∙ ap (Option.map (put f))
            (context-update_self (put c) i xs (λ _. refl) ∙ ap (Option.map (put c)) e))

-- A whole session on Linux, with compressions and writes that succeed: a phone greets in three reads, the adapter
-- plugs in a monitor, the phone is streamed to while the requests go on calmly (fewer than 15 failures in a
-- row, fewer than ten changes of the mode without a frame), and then the control panel disconnects it. Its
-- thread returns; the client that it leaves has been sent one frame for each answer of the monitor that one is
-- ready and one message for each that it is off, in their order, and then the error that says so, and nothing
-- else, and its monitor is released and its socket shut; the set of clients is as before, the control panel has been told once that it
-- came and once that it has gone, and its thread is detached.
pub communication_main-Served :
    (s : Server) (i : ℕ) (usb : Bool) (name : List ℕ) (w h r k : ℕ) (rs : List (Request × List ℕ))
    (m : MonitorContext)
    → contains i s.clients ≡ false
    → 0 < length name
    → length name < 2 ^ 31
    → w < 2 ^ 32
    → h < 2 ^ 32
    → r < 2 ^ 32
    → IsCalm rs m 0 0
    → let live : Client = record (phone usb name w h r) { monitor = some k; state = streaming } in
      (s' : Server) × (communication_main s i new_client (visit usb name w h r k rs m) ≡ over s')
      × Served s i (disconnect_monitor (force_disconnect (shown rs m live) true)) s'
communication_main-Served s i usb name w h r k rs m new pos fits hw hh hr calm =
    let c = phone usb name w h r in
    let live : Client = record c { monitor = some k; state = streaming } in
    let f = disconnect_monitor (force_disconnect (shown rs m live) true) in
    let hello =
      identify_client_hello new_client usb name w h r [] (unfold new_client in refl) pos fits hw hh
        hr in
    let (ec, en, ex) = begun-clients s i c new in
    let b = begun s i c in
    (
      _,
      identified s i new_client c (visit usb name w h r k rs m) [] hello
          ∙ streams_off b i c (visit usb name w h r k rs m) k
              (force_disconnect (shown rs m live) true) refl
              (unfold connect_monitor in
                cut_off rs m (record c { monitor = some k; state = connected }) calm)
          ∙ finish_lem (set_client b i f) i s.clients (unfold set_client in ec),
      record {
        clients = refl;
        notices = unfold set_client in ap (λ n. client_disconnected i ∷ n) en;
        now = λ x e.
            thrice i c f s.contexts (set_client b i f).contexts x
              (unfold set_client in ap (update (put f) i) ex) e;
      },
    )

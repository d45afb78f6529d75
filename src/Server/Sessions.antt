-- ===== src/Server/Sessions.antt =====
-- What a client's thread leaves behind in the server.
use monidroid.Base.{
  ℕ, ◌≡◌, ◌≢◌, refl, sym, ap, ◌∙◌, arith, Bool, true, false, Option, none, some, List, [], ◌∷◌,
  ◌==◌, if◌then◌else◌,
}
use mathlib.Core.Option
use monidroid.Protocol.{monitor_connect_fail}
use monidroid.Client.Data.{Client}
use monidroid.Client.Send.{send_error, send_error_message}
use monidroid.Client.Identify.{Read, returned, identify_client, connect_monitor}
use monidroid.Client.Frames.{FrameEvent, send_frames, disconnect_monitor}
use monidroid.Server.Data.{
  ClientContext, Server, client_connected, client_disconnected, context, update, contains, insert,
  erase,
}
use monidroid.Server.Main.{
  register, unregister, notify, set_client, Connecting, plugged, refused, threw, Session, over,
  finish, stream, connect, communication_main,
}

-- A change to a context changes that one, and keeps the ids.
pub context-update :
    (f : ClientContext → ClientContext) (i j : ℕ) (xs : List ClientContext)
    → ((x : ClientContext) → (f x).id ≡ x.id)
    → context j (update f i xs) ≡ (if i == j then Option.map f (context j xs) else context j xs)
unfolding context update
context-update f i j [] h = ground arith
context-update f i j (x ∷ xs) h = ground (arith, h x, context-update f i j xs h)

-- The set after a client has come, and after it has gone again.
come : (i : ℕ) (js : List ℕ) → contains i js ≡ false → insert i js ≡ i ∷ js
unfolding insert
come i js h = rw h

gone : (i : ℕ) (js : List ℕ) → (contains i (i ∷ js) ≡ true) × (erase i (i ∷ js) ≡ js)
unfolding contains erase
gone i js = ground arith

-- The server where the set holds `i` besides, when its thread comes to the end.
pub finish_lem :
    (s : Server) (i : ℕ) (js : List ℕ)
    → s.clients ≡ i ∷ js
    → finish s i
      ≡ over (record s {
        clients = js;
        contexts = update (λ x. record x { joinable = false }) i s.contexts;
        notices = client_disconnected i ∷ s.notices;
      })
unfolding finish unregister notify
finish_lem s i js e = ground (arith, gone i js)

-- The sessions that get past the early returns, and whose frame loop is left.
abbrev pub Departs : Client → Connecting → List FrameEvent → Type 0
Departs c (plugged m) events = (send_frames events (connect_monitor c (some m)).0).1 ≡ true
Departs c refused events = ⊥
Departs c (threw what) events = Unit {0}

-- The server after such a session of the client `i`.
pub record HasLeft (s : Server) (i : ℕ) (s' : Server) : Type 0 where
  pub clients : s'.clients ≡ s.clients
  pub notices : s'.notices ≡ client_disconnected i ∷ client_connected i ∷ s.notices
  pub detached : (x : ClientContext) → context i s'.contexts ≡ some x → x.joinable ≡ false
  pub others : (j : ℕ) → i ≢ j → context j s'.contexts ≡ context j s.contexts

pub connect_finishes :
    (s : Server) (i : ℕ) (c : Client) (session : Session) (cn : Connecting)
    → session.connecting ≡ cn
    → Departs c cn session.events
    → (k : Client) × (connect s i c session ≡ finish (set_client s i k) i)
unfolding connect stream
connect_finishes s i c session (plugged m) e d = (
  disconnect_monitor (send_frames session.events (connect_monitor c (some m)).0).0.client,
  rw (e, connect) (rw d),
)
connect_finishes s i c session refused e d = absurd d
connect_finishes s i c session (threw what) e d = (send_error_message c what, rw (e, connect))

abbrev pub detach : ClientContext → ClientContext
detach x = record x { joinable = false }

abbrev pub put : Client → ClientContext → ClientContext
put k x = record x { client = k }

context-update_other :
    (f : ClientContext → ClientContext) (i j : ℕ) (xs : List ClientContext)
    → ((x : ClientContext) → (f x).id ≡ x.id)
    → i ≢ j
    → context j (update f i xs) ≡ context j xs
context-update_other f i j xs h n = ground (arith, context-update f i j xs h)

pub context-update_self :
    (f : ClientContext → ClientContext) (i : ℕ) (xs : List ClientContext)
    → ((x : ClientContext) → (f x).id ≡ x.id)
    → context i (update f i xs) ≡ Option.map f (context i xs)
context-update_self f i xs h = ground (arith, context-update f i i xs h)

detached_lem :
    (o : Option ClientContext) (x : ClientContext)
    → Option.map detach o ≡ some x
    → x.joinable ≡ false
detached_lem none x e = cc
detached_lem (some y) x e = ground arith

has_left :
    (s s' : Server) (i : ℕ) (c k : Client)
    → s'.clients ≡ s.clients
    → s'.notices ≡ client_disconnected i ∷ client_connected i ∷ s.notices
    → s'.contexts ≡ update detach i (update (put k) i (update (put c) i s.contexts))
    → HasLeft s i s'
has_left s s' i c k ec en ex = record {
  clients = ec;
  notices = en;
  detached = λ x e.
      detached_lem (context i (update (put k) i (update (put c) i s.contexts))) x
        (sym (context-update_self detach i _ λ _. refl) ∙ ap (context i) (sym ex) ∙ e);
  others = λ j n.
      ap (context j) ex
      ∙ context-update_other detach i j _ (λ _. refl) n
      ∙ context-update_other (put k) i j _ (λ _. refl) n
      ∙ context-update_other (put c) i j _ (λ _. refl) n;
}

unfoldable pub begun : (s : Server) (i : ℕ) (c : Client) → Server
begun s i c = notify (set_client (register s i) i c) (client_connected i)

pub begun-clients :
    (s : Server) (i : ℕ) (c : Client)
    → contains i s.clients ≡ false
    → ((begun s i c).clients ≡ i ∷ s.clients)
      × ((begun s i c).notices ≡ client_connected i ∷ s.notices)
      × ((begun s i c).contexts ≡ update (put c) i s.contexts)
unfolding begun notify set_client register
begun-clients s i c new = (come i s.clients new, refl, refl)

pub identified :
    (s : Server) (i : ℕ) (c c' : Client) (session : Session) (rest : List Read)
    → identify_client session.reads c ≡ returned true c' rest
    → communication_main s i c session ≡ connect (begun s i c') i c' session
unfolding communication_main begun
identified s i c c' session rest e = rw (e, communication_main)

-- A client that identifies itself, and whose adapter either connects it until the frame loop is left, or
-- throws: when its thread returns, the set of clients is as it was, the control panel has been told of the
-- client once and of its end once, the thread is detached, and no other context has changed.
pub communication_main_leaves :
    (s : Server) (i : ℕ) (c c' : Client) (session : Session) (rest : List Read)
    → contains i s.clients ≡ false
    → identify_client session.reads c ≡ returned true c' rest
    → Departs c' session.connecting session.events
    → (s' : Server) × (communication_main s i c session ≡ over s') × HasLeft s i s'
communication_main_leaves s i c c' session rest new e d =
    let (k, ek) = connect_finishes (begun s i c') i c' session session.connecting refl d in
    let (ec, en, ex) = begun-clients s i c' new in
    (
      _,
      identified s i c c' session rest e
          ∙ ek
          ∙ finish_lem (set_client (begun s i c') i k) i s.clients (unfold set_client in ec),
      has_left s _ i c' k refl (unfold set_client in ap (λ n. client_disconnected i ∷ n) en)
          (unfold set_client in ap (λ n. update detach i (update (put k) i n)) ex),
    )

pub refused_lem :
    (s : Server) (i : ℕ) (c : Client) (session : Session)
    → session.connecting ≡ refused
    → (k : Client) × (connect s i c session ≡ over (set_client s i k))
unfolding connect
refused_lem s i c session e =
    (send_error (connect_monitor c none).0 monitor_connect_fail, rw (e, connect))

-- A client that does not identify itself, or that the adapter refuses, returns early: it stays in the set
-- of clients and the control panel is not told that it has gone, though it was told of a client that the
-- adapter refuses.
pub communication_main_stays :
    (s : Server) (i : ℕ) (c c' : Client) (session : Session) (ok : Bool) (rest : List Read)
    → contains i s.clients ≡ false
    → identify_client session.reads c ≡ returned ok c' rest
    → (ok ≡ true → session.connecting ≡ refused)
    → (s' : Server) × (communication_main s i c session ≡ over s')
      × (s'.clients ≡ i ∷ s.clients)
      × (s'.notices ≡ (if ok then client_connected i ∷ s.notices else s.notices))
communication_main_stays s i c c' session true rest new e r =
    let (k, ek) = refused_lem (begun s i c') i c' session (r refl) in
    let (ec, en, ex) = begun-clients s i c' new in
    (_, identified s i c c' session rest e ∙ ek, unfold set_client in ec, unfold set_client in en)
communication_main_stays s i c c' session false rest new e r = (
  set_client (register s i) i c',
  unfold communication_main in rw (e, communication_main) refl,
  unfold set_client register in come i s.clients new,
  unfold set_client register in refl,
)

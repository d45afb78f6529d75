-- ===== src/Server/Threads.antt =====
-- server/server.cpp as its threads see it: the acceptor, one thread for each client, the control panel, and
-- the thread that destroys the server, interleaved in any order. A step is what runs under the lock at once,
-- or one call of the notifier; what a client says, and when, is left open.
pub mod Views
pub mod Invariant
pub mod Joins
use monidroid.Base.{
  ℕ, ◌≡◌, Bool, true, false, none, some, Option, List, [], ◌∷◌, ◌==◌, ◌⊎◌, if◌then◌else◌,
}
use monidroid.Client.Data.{Client}
use monidroid.Client.Send.{force_disconnect}
use monidroid.Server.Data.{
  ClientContext, Server, client_connected, client_disconnected, context, contains, update,
}
use monidroid.Server.Main.{
  failed, new_server, add_context, store_handle, on_accept, register, unregister, notify,
  set_client, on_client, force_disconnect_id,
}

-- Where the thread of a client stands in `communicationMain`; an id that no connection has is `unborn`.
pub data Stage : Type 0 where
  unborn : Stage
  accepted : Stage  -- before the first lock
  registered : Stage  -- in `identifyClient`
  told : Stage  -- after `onClientConnected`: connecting, then streaming
  leaving : Stage  -- before the last lock
  removed : Stage  -- before `onClientDisconnected`
  rejected : Stage  -- returned after a failed identification
  turned_away : Stage  -- returned after a refusal of the adapter
  ended : Stage  -- returned at the end

-- Where `~Server` stands: not called; before its lock, having cancelled and closed the acceptor; in its loop,
-- with the contexts it has still to take from its copy; in the `join` of one; or returned.
pub data Closing : Type 0 where
  serving : Closing
  cancelled : Closing
  closing : List ℕ → Closing
  joining : ℕ → List ℕ → Closing
  closed : Closing

-- `storing` is the context whose thread the handler of an accept has started and whose handle it has still to
-- store, and `copied` is the whole copy that `~Server` has made.
pub record Threads : Type 0 where
  pub server : Server
  pub stage : ℕ → Stage
  pub storing : Option ℕ
  pub phase : Closing
  pub copied : List ℕ

unfoldable pub at {ℓ} : {A : Type ℓ} → ℕ → A → (ℕ → A) → ℕ → A
at i a f j = if i == j then a else f j

-- A thread comes to another stage, with what it does to the server.
abbrev pub move : Threads → ℕ → Stage → Server → Threads
move t i p s = record t { server = s; stage = at i p t.stage }

-- The handle in a context is joinable, or is not.
abbrev pub HasHandle : Threads → ℕ → Bool → Type 0
HasHandle t j b = (x : ClientContext) × (context j t.server.contexts ≡ some x) × (x.joinable ≡ b)

-- The lock of `~Server`.
unfoldable pub begin_close : Threads → Threads
begin_close t = record t {
  server = record t.server { clients = [] };
  phase = closing t.server.clients;
  copied = t.server.clients;
}

-- One round of its loop, up to the `join` of a joinable handle, which is moved out of the context; and the
-- round of a handle that is not.
unfoldable pub close_next : Threads → ℕ → List ℕ → Threads
unfolding on_client
close_next t i is =
    let s = on_client (λ c. force_disconnect c false) t.server i in
    record t {
      server = record s { contexts = update (λ x. record x { joinable = false }) i s.contexts };
      phase = joining i is;
    }

unfoldable pub skip_next : Threads → ℕ → List ℕ → Threads
unfolding on_client
skip_next t i is = record t {
  server = on_client (λ c. force_disconnect c false) t.server i;
  phase = closing is;
}

-- The thread has returned.
unfoldable pub is_over : Stage → Bool
is_over rejected = true
is_over turned_away = true
is_over ended = true
is_over unborn = false
is_over accepted = false
is_over registered = false
is_over told = false
is_over leaving = false
is_over removed = false

-- The steps of the thread `i`. At its last lock it detaches its handle, if it is in the set; where that has not
-- been stored yet, `detach` throws, and the process ends without a further step.
pub data Runs (t : Threads) (i : ℕ) : Threads → Type 0 where
  registers : t.stage i ≡ accepted → Runs t i (move t i registered (register t.server i))
  identifies :
      (c : Client)
      → t.stage i ≡ registered
      → Runs t i (move t i told (notify (set_client t.server i c) (client_connected i)))
  rejects :
      (c : Client) → t.stage i ≡ registered → Runs t i (move t i rejected (set_client t.server i c))
  refuses :
      (c : Client) → t.stage i ≡ told → Runs t i (move t i turned_away (set_client t.server i c))
  leaves : (c : Client) → t.stage i ≡ told → Runs t i (move t i leaving (set_client t.server i c))
  removes :
      t.stage i ≡ leaving
      → (contains i t.server.clients ≡ true → HasHandle t i true)
      → Runs t i (move t i removed (unregister t.server i))
  ends : t.stage i ≡ removed → Runs t i (move t i ended (notify t.server (client_disconnected i)))

-- The steps of all: the handler of an accept, which starts the thread and then stores its handle, and which
-- can still run after the acceptor was cancelled; a client's thread; the control panel's disconnection of a
-- client; and those of `~Server`, whose `join` waits for the thread.
pub data Step (t : Threads) : Threads → Type 0 where
  accepts :
      (address : List ℕ) (now : ℕ)
      → t.server.accepting ≡ true
      → t.storing ≡ none
      → Step t (record (move t t.server.current_id accepted (add_context t.server address now)) {
        storing = some t.server.current_id;
      })
  stores :
      (i : ℕ)
      → t.storing ≡ some i
      → Step t (record t { server = store_handle t.server i; storing = none })
  fails :
      t.server.accepting ≡ true
      → t.storing ≡ none
      → Step t (record t { server = on_accept t.server failed })
  runs : (i : ℕ) {u : Threads} → Runs t i u → Step t u
  forces :
      (text : List ℕ)
      → t.phase ≡ serving
      → Step t (record t { server = (force_disconnect_id t.server text).0 })
  cancels : t.phase ≡ serving → Step t (record t { phase = cancelled })
  copies : t.phase ≡ cancelled → Step t (begin_close t)
  joins :
      (i : ℕ) (is : List ℕ)
      → t.phase ≡ closing (i ∷ is)
      → HasHandle t i true
      → Step t (close_next t i is)
  skips :
      (i : ℕ) (is : List ℕ)
      → t.phase ≡ closing (i ∷ is)
      → HasHandle t i false
      → Step t (skip_next t i is)
  joined :
      (i : ℕ) (is : List ℕ)
      → t.phase ≡ joining i is
      → is_over (t.stage i) ≡ true
      → Step t (record t { phase = closing is })
  returns : t.phase ≡ closing [] → Step t (record t { phase = closed })

pub data Steps (t : Threads) : Threads → Type 0 where
  here : Steps t t
  next : {u v : Threads} → Steps t u → Step u v → Steps t v

-- A server that has just been made.
abbrev pub initial : Server → Threads
initial s = record { server = s; stage = λ _. unborn; storing = none; phase = serving; copied = [] }

-- The states that a new server comes to.
abbrev pub Reach : ℕ → Threads → Type 0
Reach i t = (s : Server) × (new_server true true i ≡ some s) × Steps (initial s) t

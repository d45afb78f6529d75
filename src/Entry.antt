-- ===== src/Entry.antt =====
-- server/main.cpp: the servers of the program, and how they are started and stopped.
pub mod Names
pub mod States
pub mod Handlers
pub mod Requests
pub mod Disconnects
pub mod Startup
pub mod Closing
pub mod Ends
use monidroid.Base.{ℕ, Bool, true, false, Option, none, some, List, [], ◌∷◌, if◌then◌else◌}
use monidroid.Control.{Outcome, returned, thrown, Step, pure, ◌>>=◌, ◌>>◌}
use monidroid.Server.Data.{Server}
use monidroid.Server.Main.{new_server, close_server}
use monidroid.Echo.{EchoServer, new_echo_server, close_echo_server}
use monidroid.Usb.{UsbDevice, UsbServer, new_usb_server, close_usb_server}

-- The global variables. `next_id` is `Server::g_currentId` where there is no server, which has it as
-- `current_id`; `stopped` says whether the context of asio has been stopped, `closing` whether the control
-- interface has been told to close, and `destroyed` has the servers that were destroyed, as the destructor
-- left them.
pub record Program : Type 0 where
  pub server : Option Server
  pub echo_server : Option EchoServer
  pub usb_server : Option UsbServer
  pub usb_avaliable : Bool
  pub next_id : ℕ
  pub destroyed : List Server
  pub stopped : Bool
  pub closing : Bool

-- What the constructors of the servers meet: whether the port of the server can be bound, and whether it can
-- while the acceptor of another server still has it; whether the adapter opens; whether the port of the echo
-- server can be bound; and what the one for USB looks for, with the devices that are there.
pub record Starts : Type 0 where
  pub server_binds : Bool
  pub server_rebinds : Bool
  pub adapter_opens : Bool
  pub echo_binds : Bool
  pub os_id : List ℕ
  pub hostname : List ℕ
  pub adb_on_path : Bool
  pub adb_beside : Bool
  pub hotplugs : Bool
  pub present : List (UsbDevice × Bool)

-- `g_server.reset()`
unfoldable pub reset_server : Program → Program
reset_server g = elim g.server [
  | none ↦ g
  | some s ↦
      let s' = close_server s in
      record g { server = none; next_id = s'.current_id; destroyed = s' ∷ g.destroyed }
]

-- `Server::g_currentId`
unfoldable pub current_id : Program → ℕ
current_id g = elim g.server [ none ↦ g.next_id | some s ↦ s.current_id ]

-- Whether the acceptor of a new server can be bound: an old server holds the port, also one that does not run.
unfoldable pub can_bind : Starts → Program → Bool
can_bind e g = elim g.server [ none ↦ e.server_binds | some _ ↦ e.server_rebinds ]

-- `g_server = std::make_unique<Server>(...)`: the new one is made first, then the old one is destroyed.
unfoldable pub make_server : Starts → Step Program (Unit {0})
unfolding reset_server current_id can_bind
make_server e g = elim (new_server (can_bind e g) e.adapter_opens (current_id g)) [
  | none ↦ thrown g
  | some new ↦ returned (record (reset_server g) { server = some new }) tt
]

unfoldable pub make_echo_server : Starts → Step Program (Unit {0})
make_echo_server e g =
    if e.echo_binds
    then returned (record g { echo_server = some (new_echo_server e.os_id e.hostname) }) tt
    else thrown g

unfoldable pub make_usb_server : Starts → Step Program (Unit {0})
make_usb_server e g = elim (new_usb_server e.adb_on_path e.adb_beside e.hotplugs e.present) [
  | none ↦ thrown g
  | some new ↦ returned (record g { usb_server = some new }) tt
]

-- The three tests of `startServers`.
abbrev pub server_runs : Program → Bool
server_runs g = elim g.server [ none ↦ false | some s ↦ s.running ]

abbrev pub echo_runs : Program → Bool
echo_runs g = elim g.echo_server [ none ↦ false | some s ↦ s.started ]

abbrev pub usb_runs : Program → Bool
usb_runs g = elim g.usb_server [ none ↦ false | some s ↦ s.running ]

unfoldable pub start_server : Starts → Step Program (Unit {0})
start_server e g = if server_runs g then returned g tt else make_server e g

unfoldable pub start_echo_server : Starts → Step Program (Unit {0})
start_echo_server e g = if echo_runs g then returned g tt else make_echo_server e g

unfoldable pub start_usb_server : Starts → Step Program (Unit {0})
start_usb_server e g =
    if usb_runs g
    then returned g tt
    else (if g.usb_avaliable then make_usb_server e g else returned g tt)

unfoldable pub start_servers : Starts → Step Program (Unit {0})
unfolding start_server start_echo_server start_usb_server
start_servers e = do start_server e; start_echo_server e; start_usb_server e

unfoldable pub stop_servers : Program → Program
unfolding reset_server
stop_servers g = record (reset_server g) { echo_server = none; usb_server = none }

unfoldable pub shutdown : Program → Program
unfolding stop_servers
shutdown g = record (stop_servers (record g { stopped = true })) { closing = true }

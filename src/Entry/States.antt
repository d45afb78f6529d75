-- ===== src/Entry/States.antt =====
-- The servers after they were started and stopped.
use monidroid.Base.{
  none, ℕ, if◌then◌else◌, if-true, ◌≡◌, refl, ◌∙◌, arith, Bool, true, false, ◌||◌, some, List, [],
  ◌∷◌, Bool-cases, Option-cases, inl, inr,
}
use monidroid.Control.{◌>>◌, >>-returned, returned}
use monidroid.Server.Data.{Server}
use monidroid.Server.Main.{new_server, close_server, close_all, on_client}
use monidroid.Echo.{new_echo_server}
use monidroid.Usb.{UsbDevice, UsbServer, hotplug_callback, hotplug, new_usb_server}
use monidroid.Entry.{
  Program, Starts, reset_server, current_id, can_bind, make_server, make_echo_server,
  make_usb_server, server_runs, echo_runs, usb_runs, start_server, start_echo_server,
  start_usb_server, start_servers,
}

-- All that a program can have runs.
pub record IsUp (g : Program) : Type 0 where
  pub server : server_runs g ≡ true
  pub echo : echo_runs g ≡ true
  pub usb : g.usb_avaliable ≡ true → usb_runs g ≡ true

close_all-current_id : (is : List ℕ) (s : Server) → (close_all is s).current_id ≡ s.current_id
unfolding close_all on_client
close_all-current_id [] s = refl
close_all-current_id (i ∷ is) s = close_all-current_id is _

close_server-current_id : (s : Server) → (close_server s).current_id ≡ s.current_id
unfolding close_server
close_server-current_id s =
    close_all-current_id s.clients (record s { clients = []; accepting = false })

-- What the end of a server leaves.
pub reset_server_lem :
    (g : Program)
    → let g' = reset_server g in
      (g'.server ≡ none)
      × (g'.next_id ≡ current_id g)
      × (g'.echo_server ≡ g.echo_server)
      × (g'.usb_server ≡ g.usb_server)
      × (g'.usb_avaliable ≡ g.usb_avaliable)
unfolding reset_server current_id
reset_server_lem g = elim (Option-cases g.server) [
  | inl e ↦ rw (reset_server, current_id, e) (e, refl, refl, refl, refl)
  | inr (s, e) ↦
      rw (reset_server, current_id, e) (refl, close_server-current_id s, refl, refl, refl)
]

abbrev fresh : ℕ → Server
fresh i = record {
  running = true;
  accepting = true;
  contexts = [];
  clients = [];
  current_id = i;
  notices = [];
}

make_server_lem :
    (e : Starts) (g : Program)
    → can_bind e g ≡ true
    → e.adapter_opens ≡ true
    → make_server e g
      ≡ returned (record (reset_server g) { server = some (fresh (current_id g)) }) tt
unfolding make_server new_server
make_server_lem e g b h = rw (make_server, new_server, b, h) refl

-- What the start of one server does to the others.
record HasStarted (g g' : Program) : Type 0 where
  same_id : current_id g' ≡ current_id g
  same_avaliable : g'.usb_avaliable ≡ g.usb_avaliable
  server : server_runs g ≡ true → server_runs g' ≡ true
  echo : echo_runs g ≡ true → echo_runs g' ≡ true

start_server_lem :
    (e : Starts) (g : Program)
    → (server_runs g ≡ false → can_bind e g ≡ true)
    → e.adapter_opens ≡ true
    → (g' : Program) × (start_server e g ≡ returned g' tt)
      × (server_runs g' ≡ true)
      × HasStarted g g'
unfolding start_server current_id
start_server_lem e g b h = elim (Bool-cases (server_runs g)) [
  | inl t ↦ (
    g,
    rw (t) refl,
    t,
    record { same_id = refl; same_avaliable = refl; server = λ x. x; echo = λ x. x },
  )
  | inr f ↦
      let (sv, n, ec, u, a) = reset_server_lem g in
      (
        record (reset_server g) { server = some (fresh (current_id g)) },
        rw (f) (make_server_lem e g (b f) h),
        refl,
        record { same_id = refl; same_avaliable = a; server = λ _. refl; echo = λ x. rw (ec) x },
      )
]

start_echo_server_lem :
    (e : Starts) (g : Program)
    → e.echo_binds ≡ true
    → (g' : Program) × (start_echo_server e g ≡ returned g' tt)
      × (echo_runs g' ≡ true)
      × HasStarted g g'
unfolding start_echo_server current_id make_echo_server new_echo_server
start_echo_server_lem e g h = elim (Bool-cases (echo_runs g)) [
  | inl t ↦ (
    g,
    rw (t) refl,
    t,
    record { same_id = refl; same_avaliable = refl; server = λ x. x; echo = λ x. x },
  )
  | inr f ↦ (
    record g { echo_server = some (new_echo_server e.os_id e.hostname) },
    rw (f, h) refl,
    refl,
    record { same_id = refl; same_avaliable = refl; server = λ x. x; echo = λ _. refl },
  )
]

-- The USB server can be started.
abbrev pub CanStart : Starts → Type 0
CanStart e = (e.adb_on_path || e.adb_beside ≡ true) × (e.hotplugs ≡ true)

abbrev nothing_yet : UsbServer
nothing_yet = record { running = true; devices = []; clients = []; refs = 0 }

hotplug-running :
    (ds : List (UsbDevice × Bool)) (s : UsbServer) → (hotplug ds s).running ≡ s.running
unfolding hotplug hotplug_callback
hotplug-running [] s = refl
hotplug-running ((dev, b) ∷ ds) s = hotplug-running ds (hotplug_callback s dev b) ∙ ground arith

usb_made :
    (e : Starts) (g : Program)
    → g.usb_avaliable ≡ true
    → CanStart e
    → (if g.usb_avaliable then make_usb_server e g else returned g tt)
      ≡ returned (record g { usb_server = some (hotplug e.present nothing_yet) }) tt
unfolding make_usb_server new_usb_server
usb_made e g a (p, q) =
    if-true g.usb_avaliable _ _ a ∙ rw (make_usb_server, new_usb_server, p, q) refl

start_usb_server_lem :
    (e : Starts) (g : Program)
    → (g.usb_avaliable ≡ true → CanStart e)
    → (g' : Program) × (start_usb_server e g ≡ returned g' tt)
      × (g.usb_avaliable ≡ true → usb_runs g' ≡ true)
      × HasStarted g g'
unfolding start_usb_server current_id make_usb_server new_usb_server
start_usb_server_lem e g h = elim (Bool-cases (usb_runs g)) [
  | inl t ↦ (
    g,
    rw (t) refl,
    (λ _. t),
    record { same_id = refl; same_avaliable = refl; server = λ x. x; echo = λ x. x },
  )
  | inr f ↦ elim (Bool-cases g.usb_avaliable) [
    | inl a ↦ (
      record g { usb_server = some (hotplug e.present nothing_yet) },
      rw (f) (usb_made e g a (h a)),
      (λ _. hotplug-running e.present nothing_yet),
      record { same_id = refl; same_avaliable = refl; server = λ x. x; echo = λ x. x },
    )
    | inr n ↦ (
      g,
      rw (f, n) refl,
      (λ y. cc),
      record { same_id = refl; same_avaliable = refl; server = λ x. x; echo = λ x. x },
    )
  ]
]

-- The three steps one after the other.
chain :
    (e : Starts) (g g1 g2 g3 : Program)
    → start_server e g ≡ returned g1 tt
    → start_echo_server e g1 ≡ returned g2 tt
    → start_usb_server e g2 ≡ returned g3 tt
    → start_servers e g ≡ returned g3 tt
unfolding start_servers
chain e g g1 g2 g3 e1 e2 e3 =
    >>-returned (start_server e) (start_echo_server e >> start_usb_server e) g e1
    ∙ >>-returned (start_echo_server e) (start_usb_server e) g1 e2
    ∙ e3

-- Nothing is started where all runs.
start_usb_server-runs :
    (e : Starts) (g : Program)
    → (g.usb_avaliable ≡ true → usb_runs g ≡ true)
    → start_usb_server e g ≡ returned g tt
unfolding start_usb_server
start_usb_server-runs e g h = elim (Bool-cases g.usb_avaliable) [
  | inl a ↦ if-true (usb_runs g) _ _ (h a)
  | inr n ↦ elim (Bool-cases (usb_runs g)) [ inl t ↦ rw (t) refl | inr f ↦ rw (f, n) refl ]
]

start_servers-IsUp_again : (e : Starts) (g : Program) → IsUp g → start_servers e g ≡ returned g tt
unfolding start_server start_echo_server
start_servers-IsUp_again e g up =
    chain e g g g g server_kept echo_kept (start_usb_server-runs e g up.usb)
  where
    server_kept : start_server e g ≡ returned g tt
    server_kept = rw (up.server) refl

    echo_kept : start_echo_server e g ≡ returned g tt
    echo_kept = rw (up.echo) refl

-- Starting the servers, where their constructors can do what they must, leaves all of them running: the server
-- and the echo server, and the USB server if one could be started before. The ids of clients go on where they
-- were, those of a server that had ended included. To start again changes nothing, whatever is met then.
pub start_servers-IsUp :
    (e : Starts) (g : Program)
    → (server_runs g ≡ false → can_bind e g ≡ true)
    → e.adapter_opens ≡ true
    → e.echo_binds ≡ true
    → (g.usb_avaliable ≡ true → CanStart e)
    → (g' : Program) × (start_servers e g ≡ returned g' tt)
      × IsUp g'
      × (current_id g' ≡ current_id g)
      × (g'.usb_avaliable ≡ g.usb_avaliable)
      × ((e' : Starts) → start_servers e' g' ≡ returned g' tt)
unfolding start_servers
start_servers-IsUp e g h0 h1 h2 h3 =
    let (g1, e1, r1, k1) = start_server_lem e g h0 h1 in
    let (g2, e2, r2, k2) = start_echo_server_lem e g1 h2 in
    let (g3, e3, r3, k3) = start_usb_server_lem e g2 (λ a. h3 (cc)) in
    let up : IsUp g3 = record {
      server = k3.server (k2.server r1);
      echo = k3.echo r2;
      usb = λ a. r3 (cc);
    } in
    (g3, chain e g g1 g2 g3 e1 e2 e3, up, cc, cc, λ e'. start_servers-IsUp_again e' g3 up)

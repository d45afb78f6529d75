-- ===== src/Entry/Closing.antt =====
-- The context of asio is stopped where the control interface is told to close, and only there.
pub mod Messages
use monidroid.Base.{
  ℕ, ◌≡◌, ◌∙◌, sym, subst, refl, Bool, true, false, Option, none, some, List, [], ◌∷◌, All,
  Bool-cases, if-both, Option-cases, inl, inr,
}
use monidroid.Protocol.{bytes_eq}
use monidroid.Control.{
  Outcome, returned, thrown, undefined, Step, ◌>>◌, bind, RequestHandler, MessageHandler, new_app,
  find, assign, on_event, on_request, on_message, dispatch, run_request, run_event, msg_key,
  req_id_key, data_key,
}
use monidroid.Control.Json.{JsonLibrary}
use monidroid.Server.Main.{new_server}
use monidroid.Usb.{new_usb_server}
use monidroid.Entry.{
  Program, Starts, reset_server, current_id, can_bind, make_server, make_echo_server,
  make_usb_server, start_server, start_echo_server, start_usb_server, start_servers, stop_servers,
  shutdown, server_runs, echo_runs, usb_runs,
}
use monidroid.Entry.Handlers.{
  Host, handle_config, handle_clients, handle_state, set_enabled, handle_shutdown,
  handle_disconnect, setup_control,
}
use monidroid.Entry.Names.{enable_key, id_key}
use monidroid.Entry.Startup.{Boot, require, catch, first_usb_server, set_avaliable, start_up}

-- What holds of the state after a call that returns.
abbrev pub Holds : {S A : Type 0} → (S → Type 0) → Outcome S A → Type 0
Holds P (returned s a) = P s
Holds P (thrown s) = Unit {0}
Holds P undefined = Unit {0}

Holds-bind :
    {S A B : Type 0} (P : S → Type 0) (o : Outcome S A) (f : A → Step S B)
    → Holds P o
    → ((s : S) (a : A) → P s → Holds P (f a s))
    → Holds P (bind o f)
Holds-bind P (returned s a) f h k = k s a h
Holds-bind P (thrown s) f h k = tt
Holds-bind P undefined f h k = tt

-- The context of asio has been stopped if and only if the control interface is told to close.
abbrev pub IsSound : Program → Type 0
IsSound g = g.closing ≡ g.stopped

-- A step keeps that.
abbrev pub Keeps : Step Program (Unit {0}) → Type 0
Keeps m = (g : Program) → IsSound g → Holds IsSound (m g)

reset_server-IsSound : (g : Program) → IsSound g → IsSound (reset_server g)
unfolding reset_server
reset_server-IsSound g h = elim (Option-cases g.server) [
  | inl e ↦ rw (reset_server, e) h
  | inr (s, e) ↦ rw (reset_server, e) h
]

make_server-Keeps : (e : Starts) → Keeps (make_server e)
unfolding make_server
make_server-Keeps e g h =
    elim (Option-cases (new_server (can_bind e g) e.adapter_opens (current_id g))) [
      | inl n ↦ rw (make_server, n) tt
      | inr (s, n) ↦ rw (make_server, n) (reset_server-IsSound g h)
    ]

make_echo_server-Keeps : (e : Starts) → Keeps (make_echo_server e)
unfolding make_echo_server
make_echo_server-Keeps e g h = elim (Bool-cases e.echo_binds) [
  | inl n ↦ rw (make_echo_server, n) h
  | inr n ↦ rw (make_echo_server, n) tt
]

make_usb_server-Keeps : (e : Starts) → Keeps (make_usb_server e)
unfolding make_usb_server
make_usb_server-Keeps e g h =
    elim (Option-cases (new_usb_server e.adb_on_path e.adb_beside e.hotplugs e.present)) [
      | inl n ↦ rw (make_usb_server, n) tt
      | inr (s, n) ↦ rw (make_usb_server, n) h
    ]

-- Two steps one after the other.
Keeps->> : (m k : Step Program (Unit {0})) → Keeps m → Keeps k → Keeps (m >> k)
Keeps->> m k h h' g s = Holds-bind IsSound (m g) (λ _. k) (h g s) (λ g' _ s'. h' g' s')

start_servers-Keeps : (e : Starts) → Keeps (start_servers e)
unfolding start_servers start_server start_echo_server start_usb_server
start_servers-Keeps e =
    Keeps->> (start_server e) (start_echo_server e >> start_usb_server e)
      (λ g h. if-both (Holds IsSound) (server_runs g) h (make_server-Keeps e g h))
      (Keeps->> (start_echo_server e) (start_usb_server e)
        (λ g h. if-both (Holds IsSound) (echo_runs g) h (make_echo_server-Keeps e g h))
        (λ g h.
          if-both (Holds IsSound) (usb_runs g) h
            (if-both (Holds IsSound) g.usb_avaliable (make_usb_server-Keeps e g h) h)))

require-Keeps : (b : Bool) → Keeps (require b)
unfolding require
require-Keeps true g h = h
require-Keeps false g h = tt

first_usb_server-Keeps : (force : Bool) (e : Starts) → Keeps (first_usb_server force e)
unfolding first_usb_server catch make_usb_server
first_usb_server-Keeps true e g h = make_usb_server-Keeps e g h
first_usb_server-Keeps false e g h =
    elim (Option-cases (new_usb_server e.adb_on_path e.adb_beside e.hotplugs e.present)) [
      | inl n ↦ rw (first_usb_server, catch, make_usb_server, n) h
      | inr (s, n) ↦ rw (first_usb_server, catch, make_usb_server, n) h
    ]

pub start_up-Keeps : (force : Bool) (boot : Boot) → Keeps (start_up force boot)
unfolding start_up set_avaliable
start_up-Keeps force boot = Keeps->> _ _ (require-Keeps boot.elevated) (
    Keeps->> _ _ (require-Keeps boot.healthy) (
      Keeps->> _ _ (require-Keeps boot.listens) (
        Keeps->> _ _ (make_server-Keeps boot.starts) (
          Keeps->> _ _ (make_echo_server-Keeps boot.starts)
            (Keeps->> _ _ (first_usb_server-Keeps force boot.starts) (λ g h. h))))))

stop_servers-IsSound : (g : Program) → IsSound g → IsSound (stop_servers g)
unfolding stop_servers
stop_servers-IsSound g h = reset_server-IsSound g h

pub shutdown-flags : (g : Program) → ((shutdown g).closing ≡ true) × ((shutdown g).stopped ≡ true)
unfolding shutdown stop_servers reset_server
shutdown-flags g = elim (Option-cases g.server) [
  | inl e ↦ (refl, rw (shutdown, stop_servers, reset_server, e) refl)
  | inr (s, e) ↦ (refl, rw (shutdown, stop_servers, reset_server, e) refl)
]

pub shutdown-IsSound : (g : Program) → IsSound (shutdown g)
shutdown-IsSound g = let (c, s) = shutdown-flags g in c ∙ sym s

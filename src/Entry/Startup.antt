-- ===== src/Entry/Startup.antt =====
-- server/main.cpp: `main`, from the options to the code of the exit.
use monidroid.Base.{Bool, true, false, Option, none, some, List, [], ◌∷◌, if◌then◌else◌}
use monidroid.Control.{returned, thrown, undefined, Step, ◌>>◌, new_app, on_message}
use monidroid.Control.Json.{JsonLibrary}
use monidroid.Entry.{Program, Starts, make_server, make_echo_server, make_usb_server, shutdown}
use monidroid.Entry.Handlers.{Host, setup_control}

-- The options of the command line that matter here; the others change what is logged.
pub record Options : Type 0 where
  pub version : Bool
  pub help : Bool
  pub force_usb : Bool

-- What `main` meets before its loop: whether `checkElevation` and `videoHealthCheck` return, whether the port
-- of the control interface can be listened on, and what the servers meet.
pub record Boot : Type 0 where
  pub elevated : Bool
  pub healthy : Bool
  pub listens : Bool
  pub starts : Starts

-- The globals before `main`.
unfoldable pub initial : Program
initial = record {
  server = none;
  echo_server = none;
  usb_server = none;
  usb_avaliable = false;
  next_id = 0;
  destroyed = [];
  stopped = false;
  closing = false;
}

-- A call that may throw.
unfoldable pub require : Bool → Step Program (Unit {0})
require ok g = if ok then returned g tt else thrown g

-- The `try` around the USB server.
unfoldable pub catch : Step Program (Unit {0}) → Step Program (Unit {0})
catch m g = elim (m g) [
  | returned g' _ ↦ returned g' tt
  | thrown g' ↦ returned g' tt
  | undefined ↦ undefined
]

unfoldable pub first_usb_server : Bool → Starts → Step Program (Unit {0})
unfolding catch
first_usb_server force e = if force then make_usb_server e else catch (make_usb_server e)

unfoldable pub set_avaliable : Step Program (Unit {0})
set_avaliable g =
    returned (record g { usb_avaliable = elim g.usb_server [ none ↦ false | some _ ↦ true ] }) tt

-- From the health checks to `g_usbAvaliable`.
unfoldable pub start_up : Bool → Boot → Step Program (Unit {0})
unfolding require first_usb_server set_avaliable
start_up force boot = do
  require boot.elevated
  require boot.healthy
  require boot.listens
  make_server boot.starts
  make_echo_server boot.starts
  first_usb_server force boot.starts
  set_avaliable

-- What happens while `g_app->run()` runs: a message of a control panel; the functions that were deferred are
-- called; one of these is the end of an `emit`, which publishes the value; SIGINT; an exception in the thread
-- of asio.
pub data Event (J : Type 0) : Type 0 where
  message : Host → Option J → Event J
  deferred : Event J
  published : J → Event J
  interrupt : Event J
  asio_failed : Event J

-- The state of the loop: the replies that were sent, newest first, and whether `asioEx` is set.
pub record Loop (J : Type 0) : Type 0 where
  pub program : Program
  pub replies : List J
  pub asio_ex : Bool

-- `run` returned or an exception left it, with the loop as the thread of asio then leaves it; something
-- undefined was done; or it waits.
pub data RunEnd (J : Type 0) : Type 0 where
  left : Loop J → RunEnd J
  threw : Loop J → RunEnd J
  broke : RunEnd J
  waits : Loop J → RunEnd J

-- What follows where the loop waits, and what happens in the thread of asio once `run` has ended.
abbrev pub resume : {J : Type 0} → RunEnd J → (Loop J → RunEnd J) → (Loop J → Loop J) → RunEnd J
resume (waits l) k f = k l
resume (left l) k f = left (f l)
resume (threw l) k f = threw (f l)
resume broke k f = broke

-- How `main` ends, if it does: with 0 or with -1. `hangs` is a wait for a thread that does not end.
pub data Exit : Type 0 where
  success failure hangs broken running : Exit

module _ {J : Type 0} (json : JsonLibrary J) where
  -- The replies are dumped and sent.
  unfoldable pub send_replies : List J → Loop J → RunEnd J
  send_replies [] l = waits l
  send_replies (r ∷ rs) l = elim (json.dump r) [
    | none ↦ threw l
    | some text ↦ send_replies rs (record l { replies = r ∷ l.replies })
  ]

  -- A handler gets what it needs of the host with the message.
  unfoldable pub on_control : Host → Option J → Loop J → RunEnd J
  unfolding setup_control on_message send_replies
  on_control host msg l = elim (on_message json (setup_control json host new_app) l.program msg) [
    | returned g rs ↦ send_replies rs (record l { program = g })
    | thrown g ↦ threw (record l { program = g })
    | undefined ↦ broke
  ]

  -- The context of asio does not run any more once it has been stopped.
  unfoldable pub step : Event J → Loop J → RunEnd J
  unfolding on_control shutdown
  step (message host msg) l = on_control host msg l
  step (published obj) l = elim (json.dump obj) [ none ↦ threw l | some text ↦ waits l ]
  step deferred l = if l.program.closing then left l else waits l
  step interrupt l = waits (record l { program = shutdown l.program })
  step asio_failed l =
      if l.program.stopped
      then waits l
      else waits (record l { program = shutdown l.program; asio_ex = true })

  -- After `run`, SIGINT and an exception in the thread of asio still stop the context; nothing else counts.
  unfoldable pub asio_event : Event J → Loop J → Loop J
  unfolding shutdown
  asio_event (message host msg) l = l
  asio_event (published obj) l = l
  asio_event deferred l = l
  asio_event interrupt l = record l { program = shutdown l.program }
  asio_event asio_failed l = record l { program = shutdown l.program; asio_ex = true }

  unfoldable pub asio_rest : List (Event J) → Loop J → Loop J
  unfolding asio_event
  asio_rest [] l = l
  asio_rest (e ∷ es) l =
      let rest = asio_rest es (asio_event e l) in if l.program.stopped then l else rest

  unfoldable pub run_app : List (Event J) → Loop J → RunEnd J
  unfolding step asio_rest
  run_app [] l = waits l
  run_app (e ∷ es) l = resume (step e l) (λ l'. run_app es l') (asio_rest es)

  -- The end of `main`, where the thread of asio is joined: it ends where the context has been stopped.
  unfoldable pub join : Bool → Exit → Exit
  join stopped e = if stopped then e else hangs

  unfoldable pub leave_main : RunEnd J → Exit
  unfolding join
  leave_main (left l) = join l.program.stopped (if l.asio_ex then failure else success)
  leave_main (threw l) = join l.program.stopped failure
  leave_main broke = broken
  leave_main (waits l) = running

  -- `none` is a command line that cannot be parsed.
  unfoldable pub main : Option Options → Boot → List (Event J) → Exit
  unfolding start_up initial run_app leave_main
  main none boot events = failure
  main (some o) boot events =
      if o.version
      then success
      else (if o.help then success else elim (start_up o.force_usb boot initial) [
        | thrown g ↦ failure
        | undefined ↦ broken
        | returned g _ ↦
            leave_main (run_app events (record { program = g; replies = []; asio_ex = false }))
      ])

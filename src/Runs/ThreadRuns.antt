-- ===== src/Runs/ThreadRuns.antt =====
-- Interleavings of the server's threads.
use monidroid.Base.{◌≡◌, refl, true, none, some, []}
use monidroid.Client.Send.{new_client}
use monidroid.Server.Data.{
  Server, client_connected, client_disconnected, context, contains, insert, update,
}
use monidroid.Server.Main.{
  new_server, add_context, store_handle, register, unregister, notify, set_client, on_client,
}
use monidroid.Server.Threads.{
  accepted, registered, told, leaving, removed, ended, cancelled, closed, Threads, HasHandle, at,
  move, begin_close, close_next, is_over, registers, identifies, leaves, removes, ends, accepts,
  stores, runs, cancels, copies, joins, joined, returns, here, next, Reach, initial,
}
use monidroid.Server.Threads.Views.{about, story}
use monidroid.Server.Threads.Joins.{Reach-notices, Reach-late}

abbrev started : Server
started = record {
  running = true;
  accepting = true;
  contexts = [];
  clients = [];
  current_id = 5;
  notices = [];
}

-- A client is accepted; its thread registers before its handle is stored, and identifies itself.
abbrev t1 : Threads
t1 = record (move (initial started) 5 accepted (add_context started [] 0)) { storing = some 5 }

abbrev t2 : Threads
t2 = move t1 5 registered (register t1.server 5)

abbrev t3 : Threads
t3 = record t2 { server = store_handle t2.server 5; storing = none }

abbrev t4 : Threads
t4 = move t3 5 told (notify (set_client t3.server 5 new_client) (client_connected 5))

-- A second one is accepted when the acceptor has been cancelled, and its handle stored.
abbrev t5 : Threads
t5 = record t4 { phase = cancelled }

abbrev t6 : Threads
t6 = record (move t5 6 accepted (add_context t5.server [] 1)) { storing = some 6 }

abbrev t7 : Threads
t7 = record t6 { server = store_handle t6.server 6; storing = none }

to_cancelled : Reach 5 t7
unfolding new_server at add_context store_handle register set_client notify
to_cancelled = (
  started,
  refl,
  next
      (next
        (next
          (next
            (next (next (next here (accepts [] 0 refl refl)) (runs 5 (registers refl)))
              (stores 5 refl))
            (runs 5 (identifies new_client refl)))
          (cancels refl))
        (accepts [] 1 refl refl))
      (stores 6 refl),
)

-- The destructor copies the set, and waits for the first client's thread, which ends; the other client's
-- thread has not started its function.
abbrev t8 : Threads
t8 = begin_close t7

abbrev t9 : Threads
t9 = close_next t8 5 []

abbrev t10 : Threads
t10 = move t9 5 leaving (set_client t9.server 5 new_client)

abbrev t11 : Threads
t11 = move t10 5 removed (unregister t10.server 5)

abbrev t12 : Threads
t12 = move t11 5 ended (notify t11.server (client_disconnected 5))

abbrev t13 : Threads
t13 = record t12 { phase = closed }

has_handle : HasHandle t8 5 true
unfolding begin_close add_context store_handle register set_client notify context update
has_handle = (_, refl, refl)

to_joining : Reach 5 t9
unfolding begin_close close_next insert contains register set_client notify add_context store_handle
to_joining =
    let (s, e, r) = to_cancelled in (s, e, next (next r (copies refl)) (joins 5 [] refl has_handle))

to_closed : Reach 5 t13
unfolding begin_close close_next at is_over contains register set_client notify add_context
    store_handle insert on_client
to_closed =
    let (s, e, r) = to_joining in
    (
      s,
      e,
      next
          (next
            (next
              (next (next r (runs 5 (leaves new_client refl))) (runs 5 (removes refl (λ h. cc h))))
              (runs 5 (ends refl)))
            (joined 5 [] refl refl))
          (returns refl),
    )

Reach-notices_example : about 5 t13.server.notices ≡ story 5 (t13.stage 5)
Reach-notices_example = Reach-notices 5 t13 to_closed 5

Reach-late_example : HasHandle t13 6 true
unfolding close_next begin_close contains insert register set_client notify add_context store_handle
    at is_over
Reach-late_example = Reach-late 5 t13 to_closed refl 6 refl refl (λ e. cc e) (λ e. cc e) (λ e. cc e)

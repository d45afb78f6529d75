-- ===== src/Server/Sets.antt =====
-- server/server.h: the set `m_clients`, a `std::set` of pointers, whose order says nothing.
use mathlib.Core.Quot
use mathlib.Core.Quot.{Quot, Quot-set}
use mathlib.Core.Option
use monidroid.Base.{ℕ, ◌≡◌, Bool, List}
use monidroid.Server.Decimal.{to_string}
use monidroid.Server.Data.{Server, context, contains}
use monidroid.Server.Main.{register, unregister, force_disconnect_id, close_server}
use monidroid.Server.Shutdown.{closed}

-- Two lists hold the same clients.
abbrev pub SameClients : List ℕ → List ℕ → Type 0
SameClients is js = (i : ℕ) → contains i is ≡ contains i js

abbrev pub ClientsSet : Type 0
ClientsSet = Quot SameClients

abbrev pub set_of : Server → ClientsSet
set_of s = Quot.mk s.clients

member : ℕ → ClientsSet → Bool
member i = Quot.lift (hlevel) (contains i) (λ is js h. h i)

-- The server with its set in another order.
abbrev pub reordered : Server → List ℕ → Server
reordered s js = record s { clients = js }

-- What two servers, that differ in the order of their sets only, do alike.
pub record Alike (s s' : Server) (i : ℕ) : Type 0 where
  pub registered : set_of (register s i) ≡ set_of (register s' i)
  pub unregistered : set_of (unregister s i) ≡ set_of (unregister s' i)
  pub detached : (unregister s i).contexts ≡ (unregister s' i).contexts
  pub found : (force_disconnect_id s (to_string i)).1 ≡ (force_disconnect_id s' (to_string i)).1
  pub forced :
      (force_disconnect_id s (to_string i)).0.contexts
      ≡ (force_disconnect_id s' (to_string i)).0.contexts
  pub closed : (j : ℕ) → context j (close_server s).contexts ≡ context j (close_server s').contexts

-- ===== src/Server/Data.antt =====
-- server/server.h: the state of the server. The contexts are shared objects: `contexts` is the store of
-- all that were made, newest first, and everything else names them by their `id`.
use monidroid.Base.{ℕ, Bool, false, ◌||◌, Option, none, some, List, [], ◌∷◌, ◌==◌, if◌then◌else◌}
use monidroid.Client.Data.{Client}

-- `struct ClientContext`; `joinable` is that of its thread.
pub record ClientContext : Type 0 where
  pub id : ℕ
  pub address : List ℕ
  pub connected_at : ℕ
  pub client : Client
  pub joinable : Bool

-- The calls of the notifier.
pub data Notice : Type 0 where
  client_connected client_disconnected : ℕ → Notice

-- `class Server`; `accepting` says whether an `async_accept` is pending, and `notices` has the newest
-- first.
pub record Server : Type 0 where
  pub running : Bool
  pub accepting : Bool
  pub contexts : List ClientContext
  pub clients : List ℕ
  pub current_id : ℕ
  pub notices : List Notice

-- The context with an id, and a change to it.
unfoldable pub context : ℕ → List ClientContext → Option ClientContext
context i [] = none
context i (x ∷ xs) = if x.id == i then some x else context i xs

unfoldable pub update :
    (ClientContext → ClientContext) → ℕ → List ClientContext → List ClientContext
update f i [] = []
update f i (x ∷ xs) = if x.id == i then f x ∷ xs else x ∷ update f i xs

-- The set `m_clients`.
unfoldable pub contains : ℕ → List ℕ → Bool
contains i [] = false
contains i (j ∷ js) = j == i || contains i js

unfoldable pub insert : ℕ → List ℕ → List ℕ
insert i js = if contains i js then js else i ∷ js

unfoldable pub erase : ℕ → List ℕ → List ℕ
erase i [] = []
erase i (j ∷ js) = if j == i then js else j ∷ erase i js

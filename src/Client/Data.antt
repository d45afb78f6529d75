-- ===== src/Client/Data.antt =====
-- server/client.h: the state of a client.
use monidroid.Base.{ℕ, List, Bool, Option}
use monidroid.Edid.Data.{MonitorMode}

pub data ClientState : Type 0 where
  new identified connected streaming connection_closed disconnected error : ClientState

-- `struct Client`. `monitor` is the owning pointer, empty at first; of the socket the model keeps the
-- messages written to it, newest first, and whether it has been shut down.
pub record Client : Type 0 where
  pub state : ClientState
  pub net_buffer : List ℕ
  pub preffered : MonitorMode
  pub model_name : List ℕ
  pub is_usb : Bool
  pub monitor : Option ℕ
  pub sent : List (List ℕ)
  pub shut : Bool

-- ===== src/Server/Accepts.antt =====
-- The contexts of the accepted connections.
use monidroid.Base.{ℕ, ◌≤◌, ◌≡◌, none, List, [], ◌∷◌, if◌then◌else◌}
use monidroid.Server.Data.{Server, context}
use monidroid.Server.Main.{Accepted, on_accept}

-- No context has an id that is still to be given.
abbrev Unused : Server → Type 0
Unused s = (j : ℕ) → s.current_id ≤ j → context j s.contexts ≡ none

-- The handler's calls one after another, while an accept is pending.
unfoldable pub accept_all : List Accepted → Server → Server
accept_all [] s = s
accept_all (r ∷ rs) s = let rest = accept_all rs (on_accept s r) in if s.accepting then rest else s

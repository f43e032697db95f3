-- ===== src/Sockets/Leaks.antt =====
-- A queue whose connection was closed before the broker's channel was there.
use boostpow_api.Base.{ℕ, ◌<◌}
use boostpow_api.Base.Lists.{find? as find_first, All}
use boostpow_api.Sockets.{Pending, Server}

-- The subscriptions that wait are of connections that were made.
abbrev IsMade : ℕ → Pending → Type 0
IsMade sockets p = p.socket < sockets

abbrev AllMade : Server → Type 0
AllMade s = All (IsMade s.sockets) s.pending

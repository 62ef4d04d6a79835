-- ===== src/Server/Delivery.antt =====
-- Snapshots reach the client that asks for them.
use sysmonitor.Base.{◌+◌, ◌≤◌, ◌≡◌, false, List, [], ◌∷◌, ◌++◌, length}
use sysmonitor.Base.Text.{Bytes, IsText, contains}
use sysmonitor.Protocol.{Protocol, check_error}
use sysmonitor.Server.{Server, packet_head, buflen}

-- A snapshot that fits a packet and does not hold the words of a refusal.
abbrev pub Sendable : Bytes → Type 0
Sendable s = IsText s × (contains s check_error ≡ false) × (length s + 7 ≤ buflen)

abbrev pub AllSendable : List Bytes → Type 0
AllSendable [] = Unit {0}
AllSendable (s ∷ q) = Sendable s × AllSendable q

packet_of : Bytes → Bytes
packet_of s = packet_head (length s + 1) ++ (s ++ 0 ∷ [])

-- ===== src/Server/Order.antt =====
-- The server as a whole, over every history of connections, requests and turns.
use sysmonitor.Base.{
  true, false, ◌+◌, ◌≤◌, ◌<◌, ◌≡◌, Bool, List, [], ◌∷◌, ◌++◌, map, some, arith, length,
  length-append,
}
use sysmonitor.Base.Text.{Bytes}
use sysmonitor.Protocol.{snapshot}
use sysmonitor.Protocol.Writer.{Json}
use sysmonitor.Protocol.Queue.{Sublist}
use sysmonitor.Server.{Server, farewell, Event, comes, turn, buflen}
use sysmonitor.Server.Packet.{unpack}
use sysmonitor.Server.Clients.{AllReady}

abbrev pub AllFit : List Bytes → Type 0
AllFit [] = Unit {0}
AllFit (s ∷ q) = (length s + 7 ≤ buflen) × AllFit q

-- The packets that were sent, the queue, and the snapshots that were made.
Ordered : List Bytes → List Bytes → List Bytes → Type 0
Ordered sent q made =
    (texts : List Bytes) × (map unpack sent ≡ map some texts) × Sublist (texts ++ q) made

module _ {J : Json} where
  -- Fewer than 4096 bytes come in at once, and no snapshot is longer than 4089.
  abbrev pub Moderate : Event J → Type 0
  Moderate (comes fd input) = length input < buflen
  Moderate (turn monitors) = length (snapshot J monitors) + 7 ≤ buflen
  Moderate _ = Unit {0}

  abbrev pub AllModerate : List (Event J) → Type 0
  AllModerate [] = Unit {0}
  AllModerate (e ∷ es) = Moderate e × AllModerate es

  -- The snapshots that the turns make.
  abbrev pub made_by : Event J → List Bytes
  made_by (turn monitors) = snapshot J monitors ∷ []
  made_by _ = []

  abbrev pub made : List (Event J) → List Bytes
  made [] = []
  made (e ∷ es) = made_by e ++ made es

Kept : Server → List Bytes → Type 0
Kept s m =
    AllReady s.clients
    × (AllFit s.proto_manage.list_buf × (length s.proto_manage.list_buf ≤ 10))
    × Ordered s.sent s.proto_manage.list_buf m

pub length-farewell : (eof : Bool) → length (farewell eof) ≤ 100000
unfolding farewell
length-farewell true = omega arith
length-farewell false = omega arith

pub moderate-short :
    (front s : Bytes) → length front ≤ 100 → length s + 7 ≤ buflen → length (front ++ s) ≤ 100000
unfolding buflen
moderate-short front s f h = omega (arith, f, h, length-append front s)

-- ===== src/Server/Tests.antt =====
-- Clients of the server, with numbers for JSON values.
use sysmonitor.Base.{◌+◌, true, false, List, [], ◌∷◌, ◌++◌, ◌++◌, none, some}
use sysmonitor.Base.Int.{pos, negsuc}
use sysmonitor.Base.Text.{Bytes, codes}
use sysmonitor.Protocol.{Protocol}
use sysmonitor.Protocol.Tests.{unary}
use sysmonitor.Log.Tests.{now}
use sysmonitor.Server.{Client, Host, Server, Event, accepts, comes, fails, turn, new_client}

abbrev word : Bytes
word = codes "sysmonitor"

abbrev oldest : Bytes
oldest = codes "[[1,2]]"

abbrev newest : Bytes
newest = codes "[[3]]"

abbrev object : Protocol
object = record { checked = false; list_buf = oldest ∷ newest ∷ [] }

abbrev host : Host
host = record {
  logger = record {
    win32 = true;
    opens = λ f. true;
    log_flag = pos 1;
    clock = λ i. now;
    thread = 48879;
    path = codes "C:\\app" ++ 92 ∷ codes "m.exe";
  };
  has_ndb = true;
  peer = λ i. codes "10.0.0.1 port:80";
}

client : Client
client = new_client 7 (9 ∷ 9 ∷ [])

abbrev connected : Server
connected = record { proto_manage = object; clients = client ∷ []; sent = [] }

abbrev history : List (Event unary)
history =
    accepts (pos 7) []
    ∷ accepts (negsuc 0) []
    ∷ turn (none ∷ none ∷ [])
    ∷ comes 7 word
    ∷ turn (some (λ v. v + 2) ∷ [])
    ∷ fails 7 true
    ∷ []

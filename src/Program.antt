-- ===== src/Program.antt =====
-- `main` of SysMonitor/sys_monitor.cpp: the configuration, the table of monitors and the server,
-- and the events that reach the program.
pub mod Types
pub mod Visits
pub mod Serves
pub mod Tests
use sysmonitor.Base.{
  ℕ, Bool, true, false, ◌&&◌, List, [], ◌∷◌, Option, none, some, get_elem?, if◌then◌else◌,
}
use sysmonitor.Base.Fallible.{◌>>=◌}
use sysmonitor.Base.Int.{ℤ, pos}
use sysmonitor.Base.Text.{Bytes, codes, is_some}
use sysmonitor.Config.{MonitorConfig, Files, load_config}
use sysmonitor.Config.Os.{OsInfo, get_sys_os_info}
use sysmonitor.Log.{Logger, log, past}
use sysmonitor.Paths.{Time}
use sysmonitor.Monitor.{Monitor, Slots, build_monitor}
use sysmonitor.Protocol.Writer.{Json}
use sysmonitor.Server.{Server, Host, Event, accepts, comes, fails, turn, new_server, serve}

-- Whether `socket`, `bind` and `listen` succeed.
pub record Listening : Type 0 where
  pub has_socket : Bool
  pub is_bound : Bool
  pub is_listening : Bool

-- What `main` finds: the files, the log's, the addresses of those who connect, what the command
-- systeminfo prints, and the results of the calls on the listening socket.
pub record Machine : Type 0 where
  pub files : Files
  pub opens : Bytes → Bool
  pub clock : ℕ → Time
  pub thread : ℕ
  pub peer : ℕ → Bytes
  pub systeminfo : Bytes
  pub listening : Listening

unfoldable pub logger_of : Machine → ℤ → Logger
logger_of k flag = record {
  win32 = k.files.win32;
  opens = k.opens;
  log_flag = flag;
  clock = k.clock;
  thread = k.thread;
  path = k.files.path;
}

-- `blisten`
unfoldable pub blisten : Machine → Bool
blisten k = k.listening.has_socket && k.listening.is_bound && k.listening.is_listening

-- The configuration, the name of the system, the table of monitors, the server, what its callbacks
-- find, and whether `on_timer` runs.
pub record Program : Type 0 where
  pub config : MonitorConfig
  pub os_info : OsInfo
  pub slots : Slots
  pub server : Server
  pub host : Host
  pub has_timer : Bool

-- Is there an object 6?
unfoldable pub has_ndb : Slots → Bool
has_ndb slots = elim (get_elem? slots 6) [ none ↦ false | some o ↦ is_some o ]

-- A call of `WriteLog` where a call on the listening socket has failed.
unfoldable pub report : Bool → Machine → ℕ → Bytes → Option (Option (Bytes × Bytes))
report true k i value = some none
report false k i value = log (logger_of k (pos 0)) i (pos 1) value

-- `main` up to the event loop: `m`, `tmp` and `o` are what the new configuration object and the
-- reader's buffer hold. `none` is a fault, or, without WIN32, the end that `err` puts to the program.
unfoldable pub start_program : Machine → MonitorConfig → OsInfo → List ℕ → Option Program
start_program k m o tmp = do
  line0 ← report k.listening.has_socket k 0 (codes "listen failed")
  (config, tmp') ← load_config k.files m tmp
  line1 ← report k.listening.is_bound k 1 (codes "bind failed")
  line2 ← report k.listening.is_listening k 2 (codes "listen failed")
  os ← (if blisten k then get_sys_os_info k.files.win32 k.systeminfo o else some o)
  let slots = build_monitor k.files.win32 config.object_type
  some (record {
    config = config;
    os_info = os;
    slots = slots;
    server = new_server;
    host = record {
      logger = past 3 (logger_of k config.log_flag);
      has_ndb = has_ndb slots;
      peer = k.peer;
    };
    has_timer = blisten k;
  })

-- A connection, bytes from a client, a connection that fails, and a turn of `on_timer`, with what
-- each class of monitors makes of its array then.
pub data Happens (J : Json) : Type 0 where
  connects : ℤ → List ℕ → Happens J
  sends : ℕ → Bytes → Happens J
  breaks : ℕ → Bool → Happens J
  ticks : (Monitor → J.Value → J.Value) → Happens J

-- The monitor objects of the table, as the loop of `CProtocolManage::write` calls them.
unfoldable pub fills :
    (J : Json) → (Monitor → J.Value → J.Value) → Slots → List (Option (J.Value → J.Value))
fills J env [] = []
fills J env (none ∷ slots) = none ∷ fills J env slots
fills J env (some m ∷ slots) = some (env m) ∷ fills J env slots

unfoldable pub events : (J : Json) → Program → List (Happens J) → List (Event J)
events J p [] = []
events J p (connects fd memory ∷ hs) = accepts fd memory ∷ events J p hs
events J p (sends fd input ∷ hs) = comes fd input ∷ events J p hs
events J p (breaks fd eof ∷ hs) = fails fd eof ∷ events J p hs
events J p (ticks env ∷ hs) =
    let rest = events J p hs in if p.has_timer then turn (fills J env p.slots) ∷ rest else rest

-- The server behind a history; `none` is a write outside a buffer.
unfoldable pub run : (J : Json) → Program → List (Happens J) → Option Server
run J p hs = serve p.host (events J p hs) p.server

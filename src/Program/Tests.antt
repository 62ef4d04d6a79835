-- ===== src/Program/Tests.antt =====
-- A program that is configured with one monitor, of processes.
use sysmonitor.Base.{ℕ, true, List, [], ◌∷◌, replicate, ◌+◌}
use sysmonitor.Base.Text.{Bytes, codes}
use sysmonitor.Config.Tests.{sample, loaded, config_of}
use sysmonitor.Monitor.{Monitor, build_monitor}
use sysmonitor.Server.{Server, new_server}
use sysmonitor.Log.{past}
use sysmonitor.Log.Tests.{now}
use sysmonitor.Config.Os.{OsInfo}
use sysmonitor.Program.{Program, Machine, logger_of, has_ndb}

abbrev machine : Machine
machine = record {
  files = sample;
  opens = λ f. true;
  clock = λ i. now;
  thread = 48879;
  peer = λ i. codes "10.0.0.1 port:80";
  systeminfo = codes "\"PC\",\"Windows 7\",\"6.1\",\"x\"";
  listening = record { has_socket = true; is_bound = true; is_listening = true };
}

abbrev unknown_os : OsInfo
unknown_os = record { os_name = codes "?"; os_version = [] }

abbrev known_os : OsInfo
known_os = record { os_name = codes "\"Windows 7\""; os_version = codes "\"6.1\"" }

program : Program
program = record {
  config = config_of loaded;
  os_info = known_os;
  slots = build_monitor true (config_of loaded).object_type;
  server = new_server;
  host = record {
    logger = past 3 (logger_of machine (config_of loaded).log_flag);
    has_ndb = has_ndb (build_monitor true (config_of loaded).object_type);
    peer = machine.peer;
  };
  has_timer = true;
}

abbrev envs : List (Monitor → ℕ → ℕ)
envs = (λ m v. v + 2) ∷ (λ m v. v) ∷ []

-- Nine ones, and seven.
two_texts : List Bytes
two_texts = replicate 9 b'1' ∷ replicate 7 b'1' ∷ []

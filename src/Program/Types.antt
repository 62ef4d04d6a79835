-- ===== src/Program/Types.antt =====
-- What a started program holds.
use sysmonitor.Base.{ℕ, ◌≡◌, refl, sym, List, some, map, length, if◌then◌else◌}
use sysmonitor.Base.Fallible.{bind-elim, some-inj}
use sysmonitor.Base.Text.{codes}
use sysmonitor.Log.{past}
use sysmonitor.Monitor.{build_monitor}
use sysmonitor.Monitor.Slots.{monitor_of}
use sysmonitor.Monitor.Destroy.{delete_slots-build_monitor}
use sysmonitor.Config.{MonitorConfig, load_config}
use sysmonitor.Config.Os.{OsInfo, get_sys_os_info}
use sysmonitor.Config.Types.{load_config-length}
use sysmonitor.Server.{new_server}
use sysmonitor.Program.{Program, Machine, logger_of, blisten, has_ndb, report, start_program}

-- What `start_program` makes, if it does not fault.
pub start_program-parts :
    (k : Machine) (m : MonitorConfig) (o : OsInfo) (tmp : List ℕ) (p : Program)
    → start_program k m o tmp ≡ some p
    → (p.server ≡ new_server)
      × (p.has_timer ≡ blisten k)
      × (p.slots ≡ map (monitor_of k.files.win32) p.config.object_type)
      × (length p.config.object_type ≡ 7)
      × (p.host.logger ≡ past 3 (logger_of k p.config.log_flag))
      × (p.host.peer ≡ k.peer)
unfolding start_program
start_program-parts k m o tmp p e =
    bind-elim (report k.listening.has_socket k 0 (codes "listen failed")) _ p e λ line0 x0 e0.
      bind-elim (load_config k.files m tmp) _ p e0 λ (config, tmp') x1 e1.
        bind-elim (report k.listening.is_bound k 1 (codes "bind failed")) _ p e1 λ line1 x2 e2.
          bind-elim (report k.listening.is_listening k 2 (codes "listen failed")) _ p e2
            λ line2 x3 e3.
              bind-elim (if blisten k then get_sys_os_info k.files.win32 k.systeminfo o else some o)
                _ p e3
                λ os x4 e4.
                  let slots = build_monitor k.files.win32 config.object_type in
                  let made : record {
                    config = config;
                    os_info = os;
                    slots = slots;
                    server = new_server;
                    host = record {
                      logger = past 3 (logger_of k config.log_flag);
                      has_ndb = has_ndb slots;
                      peer = k.peer;
                    };
                    has_timer = blisten k;
                  }
                      ≡ p =
                    some-inj e4 in
                  let typed = load_config-length k.files m config tmp tmp' x1 in
                  let table =
                    (delete_slots-build_monitor k.files.win32 config.object_type typed).0 in
                  rw (sym made) (refl, refl, table, typed, refl, refl)

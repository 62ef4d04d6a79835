-- ===== src/Ndb/Tests.antt =====
-- A log with a warning in it.
use sysmonitor.Base.{
  true, map, ◌⊎◌, ◌↔◌, ◌≤◌, ◌≡◌, refl, arith, false, ◌∷◌, [], ◌++◌, Option, none, some, length,
  if◌then◌else◌, ◌==◌,
}
use sysmonitor.Base.Text.{Bytes, codes, text, starts, strstr}
use sysmonitor.Protocol.{trim_newline}
use sysmonitor.Ndb.{LogState, scan_log}
use sysmonitor.Ndb.Table.{
  Table, Attempts, returns, blocks, faults, log_row, write, destroy, destroy_logs, thread_ends,
}
use sysmonitor.Ndb.Blocking.{AnyOpens, write-faults}
use sysmonitor.Log.{Logger}
use sysmonitor.Log.Tests.{now}
use sysmonitor.Base.Int.{pos}
use sysmonitor.Ndb.Latch.{scan_log-latches}

abbrev log_bytes : Bytes
log_bytes = codes "2015-01-01 10:00 [Mgm] WARNING  x" ++ 10 ∷ []

abbrev before : LogState
before = record {
  file_size = 0;
  file_pos = 0;
  log_status = 0;
  log_err_msg = [];
  file_name = [];
  b_reset_status = false;
}

abbrev state_of : Option LogState → LogState
state_of none = before
state_of (some s) = s

after : LogState
unfolding scan_log
after = state_of (scan_log (some log_bytes) before)

status_test : after.log_status ≡ 1
unfolding after scan_log strstr starts text trim_newline
status_test = refl

before-after : scan_log (some log_bytes) before ≡ some after
unfolding after scan_log strstr starts text trim_newline
before-after = refl

scan_log-latches_example :
    (after.b_reset_status ≡ false)
    × (0 ≤ after.log_status)
    × (after.log_status ≤ 2)
    × (0 ≤ after.file_pos)
    × (after.file_pos ≤ length log_bytes)
scan_log-latches_example =
    scan_log-latches log_bytes before after refl (omega arith) (omega arith) before-after

-- The third attempt opens a file of 5 bytes.
abbrev files : Bytes → Attempts
files name = λ k. if k == 2 then some 5 else none

abbrev table : Table
table = record {
  held = false;
  m_map_log_state = (3, before) ∷ (4, record before { file_size = 9 }) ∷ [];
}

abbrev logger : Logger
logger = record {
  win32 = false;
  opens = λ f. true;
  log_flag = pos 0;
  clock = λ i. now;
  thread = 7;
  path = codes "/app/m";
}

write-faults_example :
    ((write logger files table ≡ faults) ↔ AnyOpens files table.m_map_log_state)
    × ((write logger files table ≡ faults)
        ⊎ (write logger files table ≡ returns (map log_row table.m_map_log_state, table)))
write-faults_example = write-faults files logger table refl refl

-- A monitor with a log is never destroyed.
destroy_test : destroy (record { held = false; m_map_log_state = (7, before) ∷ [] }) ≡ blocks
unfolding destroy destroy_logs thread_ends
destroy_test = refl

-- ===== src/MysqlMonitor.antt =====
-- SysMonitor/mysql_monitor.h and mysql_monitor.cpp: the connections of the monitor, its queries, and
-- what it appends to the JSON array that it is given. `none` is a fault: a connection or a row
-- that is not there, or a fault of what is called.
pub mod Cluster
pub mod Rows
pub mod Layout
pub mod Slaves
pub mod Kept
pub mod Tests
use sysmonitor.Base.{
  ℕ, zero, suc, ◌+◌, ◌-◌, Bool, true, false, List, [], ◌∷◌, ◌++◌, map, Option, none, some, ltb,
  ◌==◌, if◌then◌else◌, get_elem?, set, replicate,
}
use sysmonitor.Base.Int.{ℤ, pos, negsuc, pos_part}
use sysmonitor.Base.Fallible.{◌>>=◌}
use sysmonitor.Base.Text.{Bytes, codes}
use sysmonitor.ConnString.{ConnStr}
use sysmonitor.Mysql.Api.{MysqlApi, Row}
use sysmonitor.Mysql.Record.{
  RecordSet, Record, Got, code, value, get_data_text, get_record, next, get_cell,
}
use sysmonitor.Mysql.Connection.{Conn, new_conn, connect, execute, get_record_set, get_last_error}
use sysmonitor.MysqlMonitor.Cluster.{cluster_state}

-- A value that is appended: a text, or an array of arrays of texts.
pub data Item : Type 0 where
  text_item : Bytes → Item
  rows_item : List (List Bytes) → Item

abbrev pub mysql_master_slave : ℕ
mysql_master_slave = 1

abbrev pub mysql_ndb : ℕ
mysql_ndb = 2

abbrev pub no_text : Item
no_text = text_item []

-- The platform, the configuration that `write` reads, and the outputs of `ndb_mgm`.
pub record Setting : Type 0 where
  pub win32 : Bool
  pub mysql_type : ℤ
  pub mysql_dbcount : ℤ
  pub show : Option Bytes
  pub memoryusage : Option Bytes

-- `if (RC_S_OK == record->get_data(idx, &temp_value)) append(temp_value); else append("")`
unfoldable pub column : Option (Got Bytes) → Option Bytes
column none = none
column (some (code c)) = some []
column (some (value s)) = some s

-- The cells of one row that the loops append.
unfoldable pub slave_columns : Record → Option (List Bytes)
slave_columns r = do
  host ← column (get_data_text r 10)
  io ← column (get_data_text r 11)
  seconds ← column (get_data_text r 32)
  some (host ∷ io ∷ seconds ∷ [])

unfoldable pub status_column : Record → Option Bytes
status_column r = column (get_data_text r 1)

abbrev pub show_slave_status : Bytes
show_slave_status = codes "show slave status;"

abbrev pub default_proc : Bytes
default_proc = codes "call proc_general_monitor()"

-- The names of the 21 variables.
abbrev pub show_status : Bytes
show_status =
    codes "show status where variable_name in("
    ++ codes "'Questions', 'Com_select', 'Com_insert'"
    ++ codes ", 'Com_update', 'Com_delete', 'Uptime'"
    ++ codes ", 'Slow_queries', 'Threads_connected', 'Threads_running'"
    ++ codes
        ", 'Aborted_connects', 'Innodb_buffer_pool_pages_total', 'Innodb_buffer_pool_pages_free'"
    ++ codes ", 'Innodb_buffer_pool_read_requests', 'Innodb_buffer_pool_reads', 'Bytes_received'"
    ++ codes ", 'Bytes_sent', 'Connections', 'Qcache_free_memory'"
    ++ codes ", 'Qcache_hits', 'Queries', 'Table_locks_waited'"
    ++ codes ");"

-- The general procedure: its first cell, or nothing if that is NULL.
proc_cell : Option (Got Bytes) → Option (List Item)
proc_cell none = none
proc_cell (some (code c)) = some []
proc_cell (some (value s)) = some (text_item s ∷ [])

-- The four arrays of the cluster: on Windows they are appended empty, elsewhere for a cluster.
unfoldable pub cluster_items : Setting → Option (List Item)
cluster_items t = if t.win32 then some (replicate 4 (rows_item [])) else elim t.mysql_type [
  | negsuc n ↦ some []
  | pos n ↦
      if n == mysql_ndb
      then (do arrays ← cluster_state t.show t.memoryusage; some (map rows_item arrays))
      else some []
]

is_master_slave : ℤ → Bool
is_master_slave (pos n) = n == mysql_master_slave
is_master_slave (negsuc n) = false

-- How many connections are asked for their slaves, and the one that is used from then on.
unfoldable pub asked : Setting → ℕ
unfolding is_master_slave
asked t = if is_master_slave t.mysql_type then pos_part t.mysql_dbcount else 0

-- What is appended where there is no connection.
abbrev pub nothing : List Item
nothing = replicate 5 (rows_item []) ++ replicate 22 no_text

module _ {M : MysqlApi} where
  -- `for (i = 0; i < row_count; i++) { get_record(); ...; next(); }`
  unfoldable pub read_rows {ℓ} :
      {A : Type ℓ} → (Record → Option A) → ℕ → RecordSet M → Option (List A × RecordSet M)
  read_rows f zero s = some ([], s)
  read_rows f (suc n) s = do
    (rec, s1) ← get_record s
    r ← rec
    a ← f r
    (_, s2) ← next s1
    (rest, s3) ← read_rows f n s2
    some (a ∷ rest, s3)

  -- `execute(sql, TRUE)`, whose code is not looked at, and `get_record_set()`.
  unfoldable pub query_set : ConnStr → Bytes → Conn M → Option (Bool × Conn M)
  query_set raw sql c = do (_, c') ← execute raw sql true c; some (get_record_set c')

  -- The loop over a record set that is not NULL.
  unfoldable pub read_set {ℓ} :
      {A : Type ℓ} → (Record → Option A) → List A → Bool × Conn M → Option (List A × Conn M)
  read_set f without (false, c) = some (without, c)
  read_set f without (true, c) = do
    (rows, s) ← read_rows f c.record_set.row_count c.record_set
    some (rows, record c { record_set = s })

  unfoldable pub get_master_slave_data : ConnStr → Conn M → Option (List (List Bytes) × Conn M)
  get_master_slave_data raw c = do
    r ← query_set raw show_slave_status c
    read_set slave_columns [] r

  -- The loop over the connections from `i` on, `n` times.
  unfoldable pub slaves :
      ConnStr → ℕ → ℕ → List (Conn M) → Option (List (List Bytes) × List (Conn M))
  slaves raw i zero cs = some ([], cs)
  slaves raw i (suc n) cs = do
    c ← get_elem? cs i
    (rows, c') ← get_master_slave_data raw c
    (rest, cs') ← slaves raw (suc i) n (set cs i c')
    some (rows ++ rest, cs')

  unfoldable pub proc_items : Bool × Conn M → Option (List Item × Conn M)
  unfolding proc_cell
  proc_items (false, c) = some (no_text ∷ [], c)
  proc_items (true, c) = do
    (rec, s) ← get_record c.record_set
    r ← rec
    items ← proc_cell (get_data_text r 0)
    some (items, record c { record_set = s })

  unfoldable pub run_proc : ConnStr → Conn M → Option (List Item × Conn M)
  run_proc raw c = do r ← query_set raw default_proc c; proc_items r

  unfoldable pub run_status : ConnStr → Conn M → Option (List Item × Conn M)
  run_status raw c = do
    r ← query_set raw show_status c
    (texts, c') ← read_set status_column (replicate 21 []) r
    some (map text_item texts, c')

  -- `write`: the items that it appends, and the connections.
  unfoldable pub write : ConnStr → Setting → List (Conn M) → Option (List Item × List (Conn M))
  write raw t [] = some (nothing, [])
  write raw t (c ∷ cs) = do
    (master_slave, cs1) ← slaves raw 0 (asked t) (c ∷ cs)
    cluster ← cluster_items t
    conn ← get_elem? cs1 (asked t - 1)
    (proc, conn1) ← run_proc raw conn
    (status, conn2) ← run_status raw conn1
    some (rows_item master_slave ∷ cluster ++ proc ++ status, set cs1 (asked t - 1) conn2)

  -- The constructor's loop from `i` on, `n` times; `memory` is what the objects hold before they
  -- are set up. A connection with an error is not kept.
  unfoldable pub new_mysql_monitor :
      ConnStr → (ℕ → M.Handle) → List Bytes → ℕ → ℕ → Option (List (Conn M))
  new_mysql_monitor raw memory connstr i zero = some []
  new_mysql_monitor raw memory connstr i (suc n) = do
    str ← get_elem? connstr i
    (_, c) ← connect raw str (new_conn (memory i))
    rest ← new_mysql_monitor raw memory connstr (suc i) n
    some (if (get_last_error c).0 == 0 then c ∷ rest else rest)

  -- The destructor's loop: the `i`-th of the connections is deleted.
  unfoldable pub delete_from : ℕ → ℕ → List (Conn M) → Option (List (Conn M))
  delete_from i zero cs = some []
  delete_from i (suc n) cs = do c ← get_elem? cs i; rest ← delete_from (suc i) n cs; some (c ∷ rest)

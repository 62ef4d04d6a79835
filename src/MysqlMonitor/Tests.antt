-- ===== src/MysqlMonitor/Tests.antt =====
-- The monitor over a library whose handles are numbers: a handle other than 0 has an error.
use sysmonitor.Base.{
  ℕ, arith, ◌<◌, ◌≡◌, ◌⊎◌, refl, true, false, List, [], ◌∷◌, ◌++◌, map, none, some, length,
  replicate,
}
use sysmonitor.Base.Int.{pos}
use sysmonitor.Base.Stdio.{words, next_word, skip_space, word}
use sysmonitor.Base.Text.{Bytes, codes, text, strstr, strchr, strcmp_eq, atoi}
use sysmonitor.Rc.{rc_s_open}
use sysmonitor.Port.{write, lower, strlwr}
use sysmonitor.ConnString.{get_param_value, db_parse_cs, field_text}
use sysmonitor.Mysql.Api.{MysqlApi, Row, CursorLaw}
use sysmonitor.Mysql.Record.{
  new_record_set, set_mysql_res, get_record, get_data_text, get_cell, next,
}
use sysmonitor.Mysql.Record.Tests.{toy}
use sysmonitor.Mysql.Connection.{
  Conn, new_conn, connect, connect_to, execute, reconnect, clear_all_result_set, get_record_set,
  get_last_error,
}
use sysmonitor.Mysql.Connection.Tests.{blank, order}
use sysmonitor.MysqlMonitor
use sysmonitor.MysqlMonitor.{
  Item, text_item, rows_item, Setting, query_set, read_set, read_rows, slaves, asked,
  get_master_slave_data, show_slave_status, new_mysql_monitor, delete_from, cluster_items,
}
use sysmonitor.MysqlMonitor.Rows.{collected}
use sysmonitor.MysqlMonitor.Slaves.{get_master_slave_data-shown, shown}
use sysmonitor.MysqlMonitor.Layout.{leading, write-layout}
use sysmonitor.MysqlMonitor.Kept.{write-lost}
use sysmonitor.MysqlMonitor.Cluster.{get_ndb_show_state}

abbrev wide : Row
wide =
    replicate 10 none
    ++ some (codes "10.0.0.2") ∷ some (codes "Yes") ∷ replicate 20 none
    ++ some (codes "7") ∷ []

abbrev slave : MysqlApi
slave = record toy {
  real_connect = λ c h. (h, true);
  has_server = λ h. true;
  errno = λ h. h;
  query = λ q h. (h, 0);
  store_result = λ h. (h, some (record { rows = wide ∷ []; at = 0 }));
  num_fields = λ r. 33;
}

abbrev slave-CursorLaw : CursorLaw slave
slave-CursorLaw = record {
  rows = λ r. r.rows;
  position = λ r. r.at;
  num_rows-length = λ r. refl;
  fetch_row-get = λ r. refl;
  fetch_row-rows = λ r. refl;
  fetch_row-position = λ r h. refl;
  data_seek-rows = λ n r. refl;
  data_seek-position = λ n r. refl;
}

served : ℕ → Conn slave
served h = record {
  status = rc_s_open;
  mysql = h;
  myres = none;
  record_set = new_record_set {M = slave};
  str_db = some order;
  db_con = none;
  stored = [];
  freed = [];
}

asked_set : Conn slave
asked_set = elim (query_set blank show_slave_status (served 0)) [
  | none ↦ served 0
  | some (b, c) ↦ c
]

served-asked_set : query_set blank show_slave_status (served 0) ≡ some (true, asked_set)
unfolding asked_set served query_set execute reconnect clear_all_result_set get_record_set
served-asked_set = refl

asked_set-rows :
    asked_set.record_set
    ≡ set_mysql_res (new_record_set {M = slave}) (record { rows = wide ∷ []; at = 0 })
unfolding asked_set served query_set execute reconnect clear_all_result_set get_record_set
asked_set-rows = refl

get_master_slave_data-shown_example :
    collected (get_master_slave_data blank (served 0)) ≡ some (map shown (wide ∷ []))
get_master_slave_data-shown_example =
    get_master_slave_data-shown slave-CursorLaw blank (served 0) asked_set
      (new_record_set {M = slave}) (record { rows = wide ∷ []; at = 0 }) served-asked_set
      asked_set-rows refl (refl, omega arith)

abbrev setting : Setting
setting = record {
  win32 = false;
  mysql_type = pos 1;
  mysql_dbcount = pos 2;
  show = none;
  memoryusage = none;
}

abbrev general : Setting
general = record setting { win32 = true; mysql_type = pos 0 }

first_items : List Item × List (Conn slave)
first_items = elim (MysqlMonitor.write blank general (served 0 ∷ [])) [
  | none ↦ ([], [])
  | some r ↦ r
]

served-first_items :
    MysqlMonitor.write blank general (served 0 ∷ []) ≡ some (first_items.0, first_items.1)
unfolding first_items served MysqlMonitor.write execute get_record_set slaves asked
    get_master_slave_data query_set read_set cluster_items MysqlMonitor.run_proc
    MysqlMonitor.proc_items MysqlMonitor.run_status reconnect clear_all_result_set read_rows
    set_mysql_res get_record MysqlMonitor.status_column MysqlMonitor.column get_data_text get_cell
    next
served-first_items = refl

write-layout_example :
    (arrays : List (List (List Bytes))) × (texts : List Bytes) × (first_items.0
      ≡ map rows_item arrays ++ map text_item texts)
    × (length arrays ≡ leading general (served 0 ∷ []))
write-layout_example =
    write-layout blank general (served 0 ∷ []) first_items.1 first_items.0 served-first_items

abbrev memory : ℕ → ℕ
memory i = i

first_conn : Conn slave
first_conn = elim (connect blank order (new_conn {M = slave} 0)) [
  | none ↦ served 0
  | some (k, c) ↦ c
]

only_first :
    new_mysql_monitor {M = slave} blank memory (order ∷ order ∷ []) 0 2 ≡ some (first_conn ∷ [])
unfolding first_conn served new_mysql_monitor connect connect_to db_parse_cs get_param_value text
    strstr strchr write strlwr lower atoi field_text strcmp_eq new_conn get_last_error
only_first = refl

write-lost_example :
    ((length (first_conn ∷ []) ≡ 2) × (delete_from 0 2 (first_conn ∷ []) ≡ some (first_conn ∷ [])))
    ⊎ ((length (first_conn ∷ []) < 2)
        × (delete_from 0 2 (first_conn ∷ []) ≡ none)
        × (MysqlMonitor.write blank setting (first_conn ∷ []) ≡ none))
write-lost_example =
    write-lost blank memory (order ∷ order ∷ []) 2 setting first_conn [] only_first refl refl

state_test :
    get_ndb_show_state (codes "id=2 @10.0.0.1 (mysql-5.6 ndb-7.3, Nodegroup: 0, *)")
    ≡ some (codes "2" ∷ codes "10.0.0.1" ∷ codes "(mysql-5.6 ndb-7.3," ∷ [])
unfolding get_ndb_show_state words next_word skip_space word text strstr
state_test = refl

lost_test :
    get_ndb_show_state (codes "id=4 (not connected, accepting connect from 10.0.0.9)")
    ≡ some (codes "4" ∷ codes "10.0.0.9" ∷ codes "not connected" ∷ [])
unfolding get_ndb_show_state words next_word skip_space word text strstr
lost_test = refl

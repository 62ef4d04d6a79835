-- ===== src/Mysql/Connection/Tests.antt =====
-- A client of a connection whose server cannot be reached.
use sysmonitor.Base.{
  ℕ, ◌≡◌, refl, true, ◌<◌, arith, zero, suc, List, ◌∷◌, [], Option, none, some, replicate,
}
use sysmonitor.Base.Text.{Bytes, codes, text, strstr, strchr, strcmp_eq, atoi}
use sysmonitor.Rc.{rc_s_ok, rc_s_open}
use sysmonitor.Port.{write, lower, strlwr}
use sysmonitor.ConnString.{ConnStr, literal, get_param_value, db_parse_cs, field_text}
use sysmonitor.Mysql.Api.{MysqlApi, DrainLaw}
use sysmonitor.Mysql.Record.Tests.{toy}
use sysmonitor.Mysql.Record.{new_record_set}
use sysmonitor.Mysql.Connection.{
  Conn, new_conn, connect, connect_to, destroy, reconnect, execute, clear_all_result_set,
}
use sysmonitor.Mysql.Connection.Ledger.{
  Balanced, Call, step, connects, executes, gets_record_set, run,
}
use sysmonitor.Mysql.Connection.Lifetime.{run-destroy}

abbrev pub blank : ConnStr
blank = record {
  cs_name = literal [];
  db_driver = literal [];
  db_source = literal [];
  db_name = literal [];
  db_user = literal [];
  db_pwd = literal [];
  db_charset = literal [];
  db_host = literal [];
  db_port = 0;
  db_flag = 0;
  db_socket = literal [];
  db_slave_id = 0;
  db_keep_alive = 0;
  db_max_conn = 0;
  db_base_conn = 0;
  cs_buf = replicate 256 0;
}

abbrev pub order : Bytes
order = codes "x driver=\"MYSQLCI\" "

fresh : Conn toy
unfolding new_conn
fresh = new_conn {M = toy} 0

connected : Option (ℕ × Conn toy)
unfolding connect
connected = connect blank order fresh

failed : Conn toy
unfolding connected
failed = elim connected [ none ↦ fresh | some (c, s) ↦ s ]

-- The same library with its server up.
abbrev live : MysqlApi
live = record toy { real_connect = λ c h. (h, true); has_server = λ h. true }

abbrev served : Conn live
served = record {
  status = rc_s_open;
  mysql = 2;
  myres = none;
  record_set = new_record_set {M = live};
  str_db = some order;
  db_con = none;
  stored = [];
  freed = [];
}

queried : Conn live
unfolding execute
queried = elim (execute blank (codes "select 1") true served) [ none ↦ served | some (c, s) ↦ s ]

served-queried : execute blank (codes "select 1") true served ≡ some (rc_s_ok, queried)
unfolding queried execute reconnect clear_all_result_set connect
served-queried = refl

abbrev calls : List Call
calls = connects order ∷ executes (codes "select 1") true ∷ gets_record_set ∷ gets_record_set ∷ []

after : Conn live
unfolding run
after = elim (run blank calls (new_conn {M = live} 0)) [ none ↦ served | some s ↦ s ]

new_conn-after : run blank calls (new_conn {M = live} 0) ≡ some after
unfolding after run step execute connect connect_to db_parse_cs get_param_value text strstr strchr
    write strlwr lower atoi field_text strcmp_eq new_conn reconnect
new_conn-after = refl

run-destroy_example :
    Balanced after
    × ((destroy after).myres ≡ none)
    × ((destroy after).stored ≡ (destroy after).freed)
run-destroy_example = run-destroy blank 0 calls after new_conn-after

live-DrainLaw : DrainLaw live
live-DrainLaw = record { next_uses = uses; store_keeps = λ h. refl }
  where
    uses :
        (h : ℕ)
        → (live.next_result h).1 ≡ true
        → live.pending (live.next_result h).0 < live.pending h
    uses zero e = cc
    uses (suc n) e = omega arith

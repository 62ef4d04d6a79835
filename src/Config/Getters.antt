-- ===== src/Config/Getters.antt =====
-- The accessors of the loaded configuration. The object is made by the constructor and never
-- taken away, so that the test of the pointer to it always succeeds.
use sysmonitor.Base.{ℕ, Option, none, List, get_elem?}
use sysmonitor.Base.Int.{ℤ, pos, negsuc}
use sysmonitor.Base.Text.{Bytes}
use sysmonitor.LinkManager.Database.{DbConfig}
use sysmonitor.Config.{MonitorConfig, object_num}

pub get_port : MonitorConfig → ℤ
get_port m = m.listen_port

pub get_log_flag : MonitorConfig → ℤ
get_log_flag m = m.log_flag

pub get_object_type : MonitorConfig → List ℤ
get_object_type m = m.object_type

pub get_object_num : MonitorConfig → ℕ
get_object_num m = object_num

pub get_counter_num : MonitorConfig → ℤ
get_counter_num m = m.counter_num

pub get_counter_name : MonitorConfig → List Bytes
get_counter_name m = m.counter_name

pub get_web_counter_num : MonitorConfig → ℤ
get_web_counter_num m = m.web_counter_num

pub get_web_counter_name : MonitorConfig → List Bytes
get_web_counter_name m = m.web_counter_name

pub get_ndb_log_file_name : MonitorConfig → List Bytes
get_ndb_log_file_name m = m.ndb_log_file_name

pub get_ndb_log_num : MonitorConfig → ℤ
get_ndb_log_num m = m.ndb_file_num

pub get_process_num : MonitorConfig → ℤ
get_process_num m = m.process_num

pub get_process_name : MonitorConfig → List Bytes
get_process_name m = m.process_name

pub get_db_count : MonitorConfig → ℤ
get_db_count m = m.db_count

pub get_db_default_sel : MonitorConfig → ℤ
get_db_default_sel m = m.db_default_sel

pub get_db_config : MonitorConfig → List DbConfig
get_db_config m = m.db_config

-- `none` is a read outside the array.
unfoldable pub get_mysql_connection_string : MonitorConfig → ℤ → Option Bytes
get_mysql_connection_string m (pos i) = get_elem? m.mysql_connstr i
get_mysql_connection_string m (negsuc i) = none

unfoldable pub get_mysql_type : MonitorConfig → ℤ
get_mysql_type m = m.mysql_type

unfoldable pub get_mysql_dbcount : MonitorConfig → ℤ
get_mysql_dbcount m = m.mysql_database_num

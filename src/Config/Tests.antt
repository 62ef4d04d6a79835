-- ===== src/Config/Tests.antt =====
-- A configuration of one monitor.
use sysmonitor.Base.{
  ℕ, ◌++◌, ◌≡◌, ◌∙◌, refl, arith, true, List, ◌∷◌, [], Option, none, some, replicate,
}
use sysmonitor.Base.Int.{pos}
use sysmonitor.Base.Text.{
  Bytes, codes, c_string, text, strchr, strchr-Lacks, strstr, strncmp_eq, atoi,
}
use sysmonitor.Port.{write}
use sysmonitor.Paths.{get_current_path, read_path, cut_back, separator, put_at}
use sysmonitor.LinkManager.Database.{blank_config}
use sysmonitor.Ini.{returned, get_ini_key_string, get_ini_key_int}
use sysmonitor.Ini.Lines.{unlines}
use sysmonitor.Config.{
  MonitorConfig, Files, config_name, source_of, load_keys, load_config, ◌>>=◌, return,
}
use sysmonitor.Config.Loaded.{Counted, process, type_of}
use sysmonitor.Config.Counts.{load_config-Counted}
use sysmonitor.Config.Release.{destroy, held, destroy-load_config}
use sysmonitor.Config.Os.{OsInfo, get_sys_os_info, get_sys_os_info-values}

abbrev pub empty : MonitorConfig
empty = record {
  listen_port = pos 0;
  log_flag = pos 0;
  object_type = [];
  counter_num = pos 0;
  counter_name = [];
  mysql_type = pos 0;
  mysql_database_num = pos 0;
  mysql_connstr = [];
  web_counter_num = pos 0;
  web_counter_name = [];
  db_count = pos 0;
  db_default_sel = pos 0;
  db_config = replicate 5 blank_config;
  process_num = pos 0;
  process_name = [];
  ndb_file_num = pos 0;
  ndb_log_file_name = [];
}

-- A program in C:\app with this configuration.
abbrev pub files_of : Bytes → Files
files_of s = record { win32 = true; path = codes "C:\\app\\m.exe"; file = λ name. some s }

abbrev pub sample_text : Bytes
sample_text = unlines (
    codes "[monitortype]"
    ∷ codes "type1=6"
    ∷ codes "[process]"
    ∷ codes "process_num=2"
    ∷ codes "process_name1=a"
    ∷ codes "process_name2=bc"
    ∷ [])

abbrev pub sample : Files
sample = files_of sample_text

abbrev ini : Bytes
ini = codes "C:\\app\\config.ini"

named : (s : Bytes) → config_name (files_of s) ≡ some ini
unfolding config_name get_current_path read_path write c_string cut_back separator put_at
named s = refl

by_name :
    (s : Bytes) (m : MonitorConfig) (tmp : List ℕ)
    → load_config (files_of s) m tmp ≡ load_keys (source_of (files_of s) ini) m tmp
unfolding load_config load_keys
by_name s m tmp = rw (load_config, named s) refl

pub loaded : Option (MonitorConfig × List ℕ)
loaded = load_keys (source_of sample ini) empty (replicate 1024 0)

pub config_of : Option (MonitorConfig × List ℕ) → MonitorConfig
config_of none = empty
config_of (some (m, t)) = m

pub buffer_of : Option (MonitorConfig × List ℕ) → List ℕ
buffer_of none = []
buffer_of (some (m, t)) = t

processes_test : (config_of loaded).process_name ≡ codes "a" ∷ codes "bc" ∷ []
unfolding loaded config_of load_keys source_of get_ini_key_string get_ini_key_int text strchr strstr
    strncmp_eq atoi write ◌>>=◌ return returned
processes_test = refl

pub loaded-some :
    load_config sample empty (replicate 1024 0) ≡ some (config_of loaded, buffer_of loaded)
unfolding loaded config_of buffer_of load_keys source_of get_ini_key_string get_ini_key_int text
    strchr strstr strncmp_eq atoi write ◌>>=◌ return returned
loaded-some = by_name sample_text empty (replicate 1024 0) ∙ refl

-- `atoi` of the types that are not in the file is 0.
pub object_type_test :
    (config_of loaded).object_type ≡ pos 6 ∷ pos 0 ∷ pos 0 ∷ pos 0 ∷ pos 0 ∷ pos 0 ∷ pos 0 ∷ []
unfolding loaded config_of load_keys source_of get_ini_key_string get_ini_key_int text strchr strstr
    strncmp_eq atoi write ◌>>=◌ return returned
object_type_test = refl

load_config-Counted_example : Counted process (config_of loaded)
unfolding type_of
load_config-Counted_example =
    load_config-Counted sample empty (config_of loaded) (replicate 1024 0) (buffer_of loaded) 0
      process refl loaded-some (rw object_type_test refl)

-- Memory that nothing was written to.
abbrev garbage : MonitorConfig
garbage = record empty {
  counter_num = pos 77;
  web_counter_num = pos 9;
  web_counter_name = codes "?" ∷ [];
  ndb_file_num = pos 3;
}

abbrev five_text : Bytes
five_text = unlines (
    codes "[monitortype]"
    ∷ codes "type1=1"
    ∷ codes "type2=2"
    ∷ codes "type3=5"
    ∷ codes "type4=6"
    ∷ codes "type5=9"
    ∷ codes "[mysql]"
    ∷ codes "dbcount=1"
    ∷ codes "connectonstr1=x"
    ∷ codes "[ndb]"
    ∷ codes "num=1"
    ∷ codes "name1=n"
    ∷ [])

abbrev all_five : Files
all_five = files_of five_text

loaded_all : Option (MonitorConfig × List ℕ)
loaded_all = load_keys (source_of all_five ini) garbage (replicate 1024 0)

loaded_all-some :
    load_config all_five garbage (replicate 1024 0)
    ≡ some (config_of loaded_all, buffer_of loaded_all)
unfolding loaded_all config_of buffer_of load_keys source_of get_ini_key_string get_ini_key_int text
    strchr strstr strncmp_eq atoi write ◌>>=◌ return returned
loaded_all-some = by_name five_text garbage (replicate 1024 0) ∙ refl

loaded_types :
    (config_of loaded_all).object_type ≡ pos 1 ∷ pos 2 ∷ pos 5 ∷ pos 6 ∷ pos 9 ∷ pos 0 ∷ pos 0 ∷ []
unfolding loaded_all config_of load_keys source_of get_ini_key_string get_ini_key_int text strchr
    strstr strncmp_eq atoi write ◌>>=◌ return returned
loaded_types = refl

destroy-load_config_example :
    destroy (config_of loaded_all) ≡ some (replicate (held (config_of loaded_all)) none)
unfolding type_of
destroy-load_config_example =
    destroy-load_config all_five garbage (config_of loaded_all) (replicate 1024 0)
      (buffer_of loaded_all) 0 1 2 3 4 refl loaded_all-some (rw loaded_types refl)
      (rw loaded_types refl) (rw loaded_types refl) (rw loaded_types refl) (rw loaded_types refl)

-- One name too few for its count.
over_test : destroy (record empty { counter_num = pos 2; counter_name = codes "a" ∷ [] }) ≡ none
unfolding destroy
over_test = refl

abbrev unknown_os : OsInfo
unknown_os = record { os_name = codes "?"; os_version = [] }

-- The quotes of the command's output are kept.
abbrev os_host : Bytes
os_host = codes "\"PC\""

abbrev windows : Bytes
windows = codes "\"Windows 7\""

abbrev version : Bytes
version = codes "\"6.1\""

windows_test :
    get_sys_os_info true
      ((os_host ++ 44 ∷ (windows ++ 44 ∷ (version ++ 44 ∷ codes "\"x\""))) ++ 10 ∷ codes "y")
      unknown_os
    ≡ some (record { os_name = windows; os_version = version })
unfolding strchr
windows_test =
    get_sys_os_info-values os_host windows version (codes "\"x\"") (codes "y") unknown_os
      (strchr-Lacks 44 os_host refl) (strchr-Lacks 44 windows refl) (strchr-Lacks 44 version refl)
      (omega arith) (omega arith)
      (strchr-Lacks 10 (os_host ++ 44 ∷ (windows ++ 44 ∷ (version ++ 44 ∷ codes "\"x\""))) refl)
      (omega arith)

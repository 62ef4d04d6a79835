-- ===== src/Config.antt =====
-- SysMonitor/load_config.h and load_config.cpp: the configuration, read key by key from the ini
-- file. `none` is a write outside a buffer, or an array of a negative size.
pub mod Ensures
pub mod Lists
pub mod Sections
pub mod Types
pub mod Loaded
pub mod Counts
pub mod Release
pub mod Os
pub mod Getters
pub mod Tests
use sysmonitor.Base.{
  ℕ, zero, suc, ◌+◌, ◌-◌, ◌/◌, ◌%◌, ◌^◌, Bool, true, false, List, [], ◌∷◌, ◌++◌, Option, none, some,
  ltb, leb, ◌==◌, if◌then◌else◌, length, take, set, get_elem?, replicate,
}
use sysmonitor.Base.Fallible
use sysmonitor.Paths.{get_current_path}
use sysmonitor.Base.Int.{ℤ, pos, negsuc, pos_part, neg_part}
use sysmonitor.Base.Text.{Bytes, codes, c_string}
use sysmonitor.Base.Stdio.{digits}
use sysmonitor.LinkManager.Database.{DbConfig}
use sysmonitor.Ini.{get_ini_key_string, get_ini_key_int}

pub object_num : ℕ
object_num = 7

pub record MonitorConfig : Type 0 where
  pub listen_port : ℤ
  pub log_flag : ℤ
  pub object_type : List ℤ
  pub counter_num : ℤ
  pub counter_name : List Bytes
  pub mysql_type : ℤ
  pub mysql_database_num : ℤ
  pub mysql_connstr : List Bytes
  pub web_counter_num : ℤ
  pub web_counter_name : List Bytes
  pub db_count : ℤ
  pub db_default_sel : ℤ
  pub db_config : List DbConfig
  pub process_num : ℤ
  pub process_name : List Bytes
  pub ndb_file_num : ℤ
  pub ndb_log_file_name : List Bytes

-- The platform and the file; none if it cannot be opened.
pub record Source : Type 0 where
  pub win32 : Bool
  pub file : Option Bytes

-- The platform, what the system gives for the program, and the files that can be opened.
pub record Files : Type 0 where
  pub win32 : Bool
  pub path : Bytes
  pub file : Bytes → Option Bytes

-- A computation over the reader's static buffer.
abbrev pub Reads {ℓ} : Type ℓ → Type ℓ
Reads A = List ℕ → Option (A × List ℕ)

infixl 5 ◌>>=◌
unfoldable pub ◌>>=◌ {ℓ κ} : {A : Type ℓ} {B : Type κ} → Reads A → (A → Reads B) → Reads B
(r >>= f) tmp = elim (r tmp) [ none ↦ none | some (a, tmp') ↦ f a tmp' ]

unfoldable pub return {ℓ} : {A : Type ℓ} → A → Reads A
return a tmp = some (a, tmp)

unfoldable pub fault {ℓ} : {A : Type ℓ} → Reads A
fault tmp = none

-- A value stored in a `short`.
to_i16 : ℤ → ℤ
to_i16 z =
    let u = (pos_part z + (2 ^ 16 - neg_part z % 2 ^ 16)) % 2 ^ 16 in
    if ltb u (2 ^ 15) then pos u else negsuc (2 ^ 16 - 1 - u)

-- `sprintf_s(key, size, "%s%d", prefix, n)`, cut where the buffer ends.
key_of : ℕ → Bytes → ℕ → Bytes
unfolding digits
key_of size prefix n = take (size - 1) (prefix ++ digits 10 n)

get_string : Source → Bytes → Bytes → Reads Bytes
get_string f title key = get_ini_key_string f.win32 title key f.file

get_int : Source → Bytes → Bytes → Reads ℤ
get_int f title key = get_ini_key_int f.win32 title key f.file

-- The loop over `i` from `i` on, `n` times, that reads one name each.
read_names : Source → Bytes → Bytes → ℕ → ℕ → Reads (List Bytes)
unfolding get_string key_of
read_names f title prefix i zero = return []
read_names f title prefix i (suc n) = do
  s ← get_string f title (key_of 20 prefix (i + 1))
  rest ← read_names f title prefix (i + 1) n
  return (s ∷ rest)

-- `new char*[n]`, and the loop.
pub names : Source → Bytes → Bytes → ℤ → Reads (List Bytes)
unfolding read_names
names f title prefix (pos n) = read_names f title prefix 0 n
names f title prefix (negsuc n) = fault

-- `strcpy` into a field of DBCONFIG.
fit : Bytes → Reads Bytes
fit s tmp = if ltb (length s) 32 then some (s, tmp) else none

read_db : Source → ℕ → Reads DbConfig
unfolding get_string key_of fit
read_db f n = do
  a ← get_string f (codes "mssql") (key_of 20 (codes "data_source") n)
  source ← fit a
  b ← get_string f (codes "mssql") (key_of 20 (codes "data_base") n)
  base ← fit b
  c ← get_string f (codes "mssql") (key_of 20 (codes "user_name") n)
  user ← fit c
  d ← get_string f (codes "mssql") (key_of 20 (codes "password") n)
  password ← fit d
  return (record { data_source = source; data_base = base; user_name = user; password = password })

-- The loop over `i` from `i` on, `n` times, into `db_config`.
pub read_dbs : Source → List DbConfig → ℕ → ℕ → Reads (List DbConfig)
unfolding read_db
read_dbs f dbs i zero = return dbs
read_dbs f dbs i (suc n) = do
  c ← read_db f (i + 1)
  dbs' ← (if ltb i (length dbs) then return (set dbs i c) else fault)
  read_dbs f dbs' (i + 1) n

pub load_system : Source → MonitorConfig → Reads MonitorConfig
unfolding get_int names
load_system f m = do
  n ← get_int f (codes "system") (codes "counter_num")
  ns ← names f (codes "system") (codes "counter_name") n
  return (record m { counter_num = n; counter_name = ns })

pub load_mysql : Source → MonitorConfig → Reads MonitorConfig
unfolding get_int names
load_mysql f m = do
  t ← get_int f (codes "mysql") (codes "dbtype")
  n ← get_int f (codes "mysql") (codes "dbcount")
  ns ← names f (codes "mysql") (codes "connectonstr") n
  return (record m { mysql_type = t; mysql_database_num = n; mysql_connstr = ns })

-- The count is that of the section `web`, the names those of the section `system`.
pub load_web : Source → MonitorConfig → Reads MonitorConfig
unfolding get_int names
load_web f m = do
  n ← get_int f (codes "web") (codes "counter_num")
  ns ← names f (codes "system") (codes "counter_name") n
  return (record m { web_counter_num = n; web_counter_name = ns })

pub load_process : Source → MonitorConfig → Reads MonitorConfig
unfolding get_int names
load_process f m = do
  n ← get_int f (codes "process") (codes "process_num")
  ns ← names f (codes "process") (codes "process_name") n
  return (record m { process_num = n; process_name = ns })

pub load_mssql : Source → MonitorConfig → Reads MonitorConfig
unfolding get_int read_dbs to_i16
load_mssql f m = do
  n ← get_int f (codes "mssql") (codes "dbcount")
  sel ← get_int f (codes "mssql") (codes "dbsel")
  dbs ← read_dbs f m.db_config 0 (pos_part (to_i16 n))
  return (record m { db_count = to_i16 n; db_default_sel = to_i16 sel; db_config = dbs })

pub load_ndb : Source → MonitorConfig → Reads MonitorConfig
unfolding get_int names
load_ndb f m = do
  n ← get_int f (codes "ndb") (codes "num")
  ns ← names f (codes "ndb") (codes "name") n
  return (record m { ndb_file_num = n; ndb_log_file_name = ns })

-- The chain of tests on one `object_type[i]`.
pub load_object : Source → ℤ → MonitorConfig → Reads MonitorConfig
unfolding load_system load_mysql load_web load_process load_mssql load_ndb
load_object f (negsuc t) m = return m
load_object f (pos t) m =
    if t == 1
    then load_system f m
    else if t == 2
    then load_mysql f m
    else if t == 5
    then load_web f m
    else if t == 6
    then load_process f m
    else if t == 3
    then load_mssql f m
    else if t == 9
    then load_ndb f m
    else return m

pub load_objects : Source → List ℤ → MonitorConfig → Reads MonitorConfig
unfolding load_object
load_objects f [] m = return m
load_objects f (t ∷ ts) m = do m' ← load_object f t m; load_objects f ts m'

-- `object_type[i] = GetIniKeyInt("monitortype", "type<i+1>", filebuf)` from `i` on.
read_types : Source → ℕ → ℕ → Reads (List ℤ)
unfolding get_int key_of to_i16
read_types f i zero = return []
read_types f i (suc n) = do
  t ← get_int f (codes "monitortype") (key_of 6 (codes "type") (i + 1))
  rest ← read_types f (i + 1) n
  return (to_i16 t ∷ rest)

-- `LoadConfig`, once it has the name of the file.
unfoldable pub load_keys : Source → MonitorConfig → Reads MonitorConfig
unfolding get_int read_types load_objects to_i16 object_num
load_keys f m = do
  port ← get_int f (codes "service") (codes "port")
  flag ← get_int f (codes "service") (codes "logflag")
  types ← read_types f 0 object_num
  load_objects f types
      (record m { listen_port = to_i16 port; log_flag = flag; object_type = types })

-- The file with this name.
unfoldable pub source_of : Files → Bytes → Source
source_of fs name = record { win32 = fs.win32; file = fs.file name }

-- `filebuf`, once `GetCurrentPath` has filled it.
unfoldable pub config_name : Files → Option Bytes
config_name fs =
    Fallible.◌>>=◌ (get_current_path fs.win32 fs.path (replicate 256 0) (codes "config.ini"))
      c_string

-- `LoadConfig`
unfoldable pub load_config : Files → MonitorConfig → Reads MonitorConfig
load_config fs m tmp = elim (config_name fs) [
  | none ↦ none
  | some name ↦ load_keys (source_of fs name) m tmp
]

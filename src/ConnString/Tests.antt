-- ===== src/ConnString/Tests.antt =====
-- A connection string, looked up and parsed.
use sysmonitor.Base.{
  ℕ, ◌≡◌, refl, List, arith, ◌∷◌, [], Option, none, some, length, replicate, drop, set, ◌++◌,
}
use sysmonitor.Base.Text.{
  Bytes, codes, IsText, text, strchr, strstr, Lacks, text-IsText, strchr-Lacks, atoi,
}
use sysmonitor.Rc.{rc_s_ok}
use sysmonitor.ConnString.{ConnStr, literal, max_db_cs_len, found, get_param_value, db_parse_cs}
use sysmonitor.Port.{write, lower, strlwr}
use sysmonitor.ConnString.Param.{front, get_param_value_finds}
use sysmonitor.ConnString.Safety.{db_parse_cs-returns}

abbrev key : Bytes
key = codes "db"

abbrev sample : List ℕ
sample = codes " db=\"m1\" x"

sample-found : get_param_value sample key ≡ some (found 5 2)
unfolding get_param_value text strstr strchr
sample-found = refl

host-IsText : IsText (codes "m1")
unfolding text
host-IsText = text-IsText (codes "m1")

host_unquoted : Lacks b'"' (codes "m1")
unfolding strchr
host_unquoted = strchr-Lacks b'"' (codes "m1") refl

first_at : strstr (text (front [] key ++ (codes "m1" ++ b'"' ∷ codes " x"))) key ≡ some 1
unfolding strstr text
first_at = refl

get_param_value_finds_example :
    (get_param_value (front [] key ++ (codes "m1" ++ b'"' ∷ codes " x")) key ≡ some (found 5 2))
    × (text (drop 5 (set (front [] key ++ (codes "m1" ++ b'"' ∷ codes " x")) 7 0)) ≡ codes "m1")
get_param_value_finds_example =
    get_param_value_finds [] key (codes "m1") (codes " x") host-IsText host_unquoted first_at

abbrev blank : ConnStr
blank = record {
  cs_name = literal [];
  db_driver = literal [];
  db_source = literal [];
  db_name = literal [];
  db_user = literal [];
  db_pwd = literal [];
  db_charset = literal [];
  db_host = literal [];
  db_port = 0;
  db_flag = 0;
  db_socket = literal [];
  db_slave_id = 0;
  db_keep_alive = 0;
  db_max_conn = 0;
  db_base_conn = 0;
  cs_buf = replicate 256 0;
}

abbrev order : Bytes
order = codes "x driver=\"MYSQLCI\" source=\"h,3306\" "

order-IsText : IsText order
unfolding text
order-IsText = text-IsText order

db_parse_cs-returns_example :
    (r : ConnStr) × (db_parse_cs blank order ≡ some (rc_s_ok, r))
    × (length r.cs_buf ≡ max_db_cs_len)
db_parse_cs-returns_example = db_parse_cs-returns blank order refl order-IsText (omega arith)

parsed_port : Option ℕ
parsed_port = elim (db_parse_cs blank order) [ none ↦ none | some (c, r) ↦ some r.db_port ]

-- The port behind the comma.
parsed_port_test : parsed_port ≡ some 3306
unfolding parsed_port db_parse_cs get_param_value text strstr strchr write strlwr lower atoi
parsed_port_test = refl

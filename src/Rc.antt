-- ===== src/Rc.antt =====
-- SysMonitor/error.h: the status codes that the modelled operations return.
use sysmonitor.Base.{ℕ}

abbrev pub rc_s_ok : ℕ
rc_s_ok = 0

abbrev pub rc_s_init : ℕ
rc_s_init = 10

abbrev pub rc_s_open : ℕ
rc_s_open = 14

abbrev pub rc_s_unknown : ℕ
rc_s_unknown = 16

abbrev pub rc_s_null_value : ℕ
rc_s_null_value = 100

abbrev pub rc_s_status : ℕ
rc_s_status = 101

abbrev pub rc_s_cursor_end : ℕ
rc_s_cursor_end = 104

abbrev pub rc_e_nomem : ℕ
rc_e_nomem = 302

abbrev pub rc_e_illegal_param : ℕ
rc_e_illegal_param = 304

abbrev pub rc_e_index : ℕ
rc_e_index = 306

abbrev pub rc_e_unsupported : ℕ
rc_e_unsupported = 307

abbrev pub rc_e_db_connect : ℕ
rc_e_db_connect = 40000

abbrev pub rc_e_db_query : ℕ
rc_e_db_query = 40001

abbrev pub rc_s_failed : ℕ
rc_s_failed = 20000000

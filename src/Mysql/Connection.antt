-- ===== src/Mysql/Connection.antt =====
-- `CMysqlConnection`. An operation gives the code that it returns and the new connection; `none`
-- is a fault of the connection string's parser. `stored` and `freed` record, latest first, the
-- results that `mysql_store_result` has handed out and those given to `mysql_free_result`.
pub mod Ledger
pub mod Status
pub mod Drain
pub mod Opened
pub mod Lifetime
pub mod Tests
use sysmonitor.Base.{
  ℕ, zero, suc, ◌+◌, Bool, true, false, not, ◌&&◌, ◌||◌, List, [], ◌∷◌, Option, none, some, ◌==◌,
  if◌then◌else◌,
}
use sysmonitor.Base.Text.{Bytes, codes, strcmp_eq}
use sysmonitor.ConnString.{ConnStr, field_text, db_parse_cs}
use sysmonitor.Rc.{
  rc_s_ok, rc_s_init, rc_s_open, rc_s_unknown, rc_s_null_value, rc_s_status, rc_s_failed,
  rc_e_illegal_param, rc_e_db_connect, rc_e_db_query,
}
use sysmonitor.Mysql.Api.{MysqlApi}
use sysmonitor.Mysql.Record.{RecordSet, new_record_set, set_mysql_res}

pub record Conn (M : MysqlApi) : Type 0 where
  pub status : ℕ
  pub mysql : M.Handle
  pub myres : Option M.Res
  pub record_set : RecordSet M
  pub str_db : Option Bytes
  pub db_con : Option ConnStr
  pub stored : List M.Res
  pub freed : List M.Res

pub cr_server_gone_error : ℕ
cr_server_gone_error = 2006

pub cr_server_lost : ℕ
cr_server_lost = 2013

unfoldable pub is_lost : ℕ → Bool
unfolding cr_server_gone_error cr_server_lost
is_lost error = error == cr_server_gone_error || error == cr_server_lost

unfoldable pub exchange_error : ℕ → ℕ
unfolding is_lost
exchange_error error =
    if error == 0 then rc_s_ok else if is_lost error then rc_e_db_connect else rc_e_db_query

-- `RC_RETURN(RC_S_FAILED + error)` where the library's error is not 0: `db_lib_init`,
-- `db_thd_init`.
pub init_code : ℕ → ℕ
init_code error = if not (error == 0) then rc_s_failed + error else rc_s_ok

infixl 5 ◌>>=◌
abbrev ◌>>=◌ {ℓ κ} : {A : Type ℓ} {B : Type κ} → Option A → (A → Option B) → Option B
none >>= f = none
some a >>= f = f a

-- A result, if there is one, entered in a ledger.
log_stored {ℓ} : {A : Type ℓ} → Option A → List A → List A
log_stored none l = l
log_stored (some r) l = r ∷ l

unfoldable pub is_mysqlci : ConnStr → Bool
is_mysqlci cs = strcmp_eq (field_text cs cs.db_driver) (codes "MYSQLCI")

abbrev pub Result : MysqlApi → Type 0
Result M = Option (ℕ × Conn M)

module _ {M : MysqlApi} where
  unfoldable pub new_conn : M.Handle → Conn M
  new_conn h =
      let (h', ok) = M.init h in
      record {
        status = if ok then rc_s_init else rc_s_unknown;
        mysql = if ok then M.set_reconnect_flag 0 h' else h';
        myres = none;
        record_set = new_record_set;
        str_db = none;
        db_con = none;
        stored = [];
        freed = [];
      }

  -- One round of the loop: a result that is stored is freed at once.
  drain_round : Conn M → Conn M
  unfolding log_stored
  drain_round s =
      let (h, r) = M.store_result s.mysql in
      record s { mysql = h; stored = log_stored r s.stored; freed = log_stored r s.freed }

  -- `do { ... } while (0 == mysql_next_result(&m_mysql))`.
  unfoldable pub drain : ℕ → Conn M → Conn M
  unfolding drain_round
  drain zero s = s
  drain (suc fuel) s =
      let s' = drain_round s in
      let (h, more) = M.next_result s'.mysql in
      let s'' = record s' { mysql = h } in let rest = drain fuel s'' in if more then rest else s''

  -- `if (m_myres) { mysql_free_result(m_myres); m_myres = NULL; }`
  unfoldable pub free_myres : Conn M → Conn M
  unfolding log_stored
  free_myres s = record s { myres = none; freed = log_stored s.myres s.freed }

  unfoldable pub clear_all_result_set : Conn M → ℕ × Conn M
  unfolding drain free_myres
  clear_all_result_set s =
      let s' = drain (suc (M.pending s.mysql)) (free_myres s) in
      (exchange_error (M.errno s'.mysql), s')

  finish_connect : ConnStr → Conn M → ℕ × Conn M
  finish_connect cs s =
      let (h, error) = M.set_character_set (field_text cs cs.db_charset) s.mysql in
      if not (error == 0)
      then (rc_s_failed + error, record s { mysql = h })
      else (rc_s_ok, record s { mysql = (M.autocommit_off h).0 })

  -- `connect(const db_conn_str_t*)`
  unfoldable pub connect_to : Option ConnStr → Conn M → ℕ × Conn M
  unfolding finish_connect
  connect_to none s = (rc_s_null_value, s)
  connect_to (some cs) s =
      let (h, ok) = M.real_connect cs s.mysql in
      let s' = record s { status = rc_s_open; db_con = some cs; mysql = h } in
      if ok then finish_connect cs s' else (rc_s_failed, s')

  -- `connect(const CHAR_T*)`; `raw` is what the stack holds where the structure is put.
  unfoldable pub connect : ConnStr → Bytes → Conn M → Result M
  unfolding is_mysqlci
  connect raw str s = if not (s.status == rc_s_init) then some (rc_s_status, s) else do
    (rc, cs) ← db_parse_cs raw str
    some (
        if not (rc == rc_s_ok) || not (is_mysqlci cs)
        then (rc_e_illegal_param, s)
        else connect_to (some cs) (record s { str_db = some str }))

  pub disconnect : Conn M → ℕ × Conn M
  disconnect s =
      let s' = (clear_all_result_set s).1 in
      (rc_s_ok, record s' { mysql = M.close s'.mysql; status = rc_s_unknown })

  -- The destructor, which `Release` runs.
  unfoldable pub destroy : Conn M → Conn M
  destroy s = if not (s.status == rc_s_unknown) then (disconnect s).1 else s

  -- The server was lost: ping with automatic reconnection, and put the flag back.
  ping_again : Conn M → ℕ × Conn M
  ping_again s =
      let old = M.reconnect_flag s.mysql in
      let (h, error) = M.ping (M.set_reconnect_flag 1 s.mysql) in
      let s' = record s { mysql = M.set_reconnect_flag old h } in
      (if error == 0 then rc_s_ok else rc_s_failed, s')

  connect_again : ConnStr → Option Bytes → Option ConnStr → Conn M → Result M
  connect_again raw (some str) con s = connect raw str s
  connect_again raw none (some cs) s = some (connect_to (some cs) s)
  connect_again raw none none s = some (rc_s_failed, s)

  unfoldable pub reconnect : ConnStr → Conn M → Result M
  unfolding ping_again connect_again is_lost
  reconnect raw s =
      if not (s.status == rc_s_open)
      then some (rc_s_status, s)
      else let s' = (clear_all_result_set s).1 in
        let error = M.errno s'.mysql in
        if error == 0 && M.has_server s'.mysql
        then some (rc_s_ok, s')
        else if is_lost error
        then some (ping_again s')
        else connect_again raw s'.str_db s'.db_con s'

  ping_code : Conn M → ℕ × Conn M
  ping_code s = let (h, error) = M.ping s.mysql in (error, record s { mysql = h })

  pub check_connect : ConnStr → Bool → Bool → Conn M → Result M
  unfolding ping_code
  check_connect raw keep_alive fix s =
      if not (s.status == rc_s_open)
      then some (rc_s_status, s)
      else if fix
      then (let (error, s') = ping_code (clear_all_result_set s).1 in
          if error == 0 then some (rc_s_ok, s') else reconnect raw s')
      else if keep_alive
      then (let (error, s') = ping_code (clear_all_result_set s).1 in
          some (if not (error == 0) then rc_s_failed + error else rc_s_ok, s'))
      else some (rc_s_ok, s)

  run_query : Bytes → Conn M → ℕ × Conn M
  run_query sql s = let (h, error) = M.query sql s.mysql in (error, record s { mysql = h })

  -- `if (FALSE == bNeedResult) { return clear_all_result_set(); } return RC_S_OK;`
  end_execute : Bool → Conn M → ℕ × Conn M
  end_execute need s = if need then (rc_s_ok, s) else clear_all_result_set s

  -- The query has failed with `error`, and the connection is tried once more.
  retry : ConnStr → Bytes → Bool → ℕ → Conn M → Result M
  unfolding run_query end_execute
  retry raw sql need error s = do
    (rc, s') ← reconnect raw s
    let (again, s'') = run_query sql s'
    some (
        if rc == rc_s_ok
        then (if not (again == 0)
            then (exchange_error (M.errno s''.mysql), s'')
            else end_execute need s'')
        else (exchange_error error, s'))

  unfoldable pub execute : ConnStr → Bytes → Bool → Conn M → Result M
  unfolding retry run_query end_execute
  execute raw sql need s = if not (s.status == rc_s_open) then some (rc_s_status, s) else do
    (rc, s1) ← reconnect raw s
    let (error, s2) = run_query sql (clear_all_result_set s1).1
    if not (rc == rc_s_ok)
        then some (rc_s_failed, s1)
        else if not (error == 0)
        then retry raw sql need error s2
        else some (end_execute need s2)

  -- `commit` and `rollback`.
  end_transaction : (M.Handle → M.Handle × Bool) → Conn M → ℕ × Conn M
  end_transaction call s =
      if not (s.status == rc_s_open)
      then (rc_s_status, s)
      else let s' = (clear_all_result_set s).1 in
        let (h, failed) = call s'.mysql in
        (if failed then rc_s_failed else rc_s_ok, record s' { mysql = h })

  pub commit : Conn M → ℕ × Conn M
  unfolding end_transaction
  commit = end_transaction M.commit_fails

  pub rollback : Conn M → ℕ × Conn M
  unfolding end_transaction
  rollback = end_transaction M.rollback_fails

  unfoldable pub get_last_error : Conn M → ℕ × Bytes
  get_last_error s = (M.errno s.mysql, M.error s.mysql)

  -- `m_myres = mysql_store_result(&m_mysql)`, and the set on it.
  open_result : Conn M → Bool × Conn M
  unfolding log_stored
  open_result s =
      let (h, r) = M.store_result s.mysql in
      let s' = record s { mysql = h; myres = r; stored = log_stored r s.stored } in
      elim r [
        | none ↦ (false, s')
        | some res ↦ (true, record s' { record_set = set_mysql_res s'.record_set res })
      ]

  next_open : Conn M → Bool × Conn M
  unfolding open_result free_myres
  next_open s =
      let (h, more) = M.next_result s.mysql in
      let s' = record (free_myres s) { mysql = h } in if more then open_result s' else (false, s')

  -- True: the record set of the connection stands on a result.
  unfoldable pub get_record_set : Conn M → Bool × Conn M
  unfolding next_open open_result
  get_record_set s =
      if not (s.status == rc_s_open)
      then (false, s)
      else elim s.myres [ none ↦ open_result s | some r ↦ next_open s ]

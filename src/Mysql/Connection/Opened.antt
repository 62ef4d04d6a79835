-- ===== src/Mysql/Connection/Opened.antt =====
-- A connection that is open stays open, but for `disconnect`.
use sysmonitor.Base.{
  ℕ, ◌≡◌, ◌∙◌, Bool, true, false, Option, none, some, arith, Option-cases, inl, inr,
}
use sysmonitor.Base.Text.{Bytes}
use sysmonitor.ConnString.{ConnStr}
use sysmonitor.Rc.{rc_s_open}
use sysmonitor.Mysql.Api.{MysqlApi}
use sysmonitor.Mysql.Connection.{
  Conn, clear_all_result_set, connect, ping_again, connect_again, reconnect, ping_code,
  check_connect, run_query, end_execute, retry, free_myres, execute, end_transaction, commit,
  rollback, Result, open_result, next_open, get_record_set,
}
use sysmonitor.Mysql.Connection.Status.{clear-status, connect_to-status}

module _ {M : MysqlApi} where
  abbrev pub Opened : Conn M → Type 0
  Opened s = s.status ≡ rc_s_open

  -- Whatever comes back is open.
  abbrev pub OpenedResult : Result M → Type 0
  OpenedResult none = Unit
  OpenedResult (some (c, s)) = Opened s

  pub connect-Opened :
      (raw : ConnStr) (str : Bytes) (s : Conn M) → Opened s → OpenedResult (connect raw str s)
  unfolding connect
  connect-Opened raw str s o = ground (arith, o)

  connect_again-Opened :
      (raw : ConnStr) (str : Option Bytes) (con : Option ConnStr) (s : Conn M)
      → Opened s
      → OpenedResult (connect_again raw str con s)
  unfolding connect_again
  connect_again-Opened raw (some str) con s o = connect-Opened raw str s o
  connect_again-Opened raw none (some cs) s o = connect_to-status cs s
  connect_again-Opened raw none none s o = o

  clear-Opened : (s : Conn M) → Opened s → Opened (clear_all_result_set s).1
  clear-Opened s o = clear-status s ∙ o

  pub reconnect-Opened : (raw : ConnStr) (s : Conn M) → Opened s → OpenedResult (reconnect raw s)
  unfolding reconnect ping_again
  reconnect-Opened raw s o =
      let s' = (clear_all_result_set s).1 in
      let o' = clear-Opened s o in
      ground (arith, o, o', connect_again-Opened raw s'.str_db s'.db_con s' o')

  pub check_connect-Opened :
      (raw : ConnStr) (keep fix : Bool) (s : Conn M)
      → Opened s
      → OpenedResult (check_connect raw keep fix s)
  unfolding check_connect ping_code
  check_connect-Opened raw keep fix s o =
      let o' = clear-Opened s o in
      ground (arith, o, o', reconnect-Opened raw (ping_code (clear_all_result_set s).1).1 o')

  end_execute-Opened : (need : Bool) (s : Conn M) → Opened s → Opened (end_execute need s).1
  unfolding end_execute
  end_execute-Opened true s o = o
  end_execute-Opened false s o = clear-Opened s o

  retry-Opened :
      (raw : ConnStr) (sql : Bytes) (need : Bool) (error : ℕ) (s : Conn M)
      → Opened s
      → OpenedResult (retry raw sql need error s)
  unfolding retry run_query
  retry-Opened raw sql need error s o = elim (Option-cases (reconnect raw s)) [
    | inl e ↦ rw e tt
    | inr ((rc, s'), e) ↦
        let o' : Opened s' = rw e at (reconnect-Opened raw s o) in
        rw e (ground (arith, o', end_execute-Opened need (run_query sql s').1 o'))
  ]

  pub execute-Opened :
      (raw : ConnStr) (sql : Bytes) (need : Bool) (s : Conn M)
      → Opened s
      → OpenedResult (execute raw sql need s)
  unfolding execute run_query
  execute-Opened raw sql need s o = elim (Option-cases (reconnect raw s)) [
    | inl e ↦ rw e (ground (arith, o))
    | inr ((rc, s1), e) ↦
        let o1 : Opened s1 = rw e at (reconnect-Opened raw s o) in
        let c = clear-Opened s1 o1 in
        let s2 = (run_query sql (clear_all_result_set s1).1).1 in
        let error = (run_query sql (clear_all_result_set s1).1).0 in
        rw e (
          ground
            (arith, o, o1, c, end_execute-Opened need s2 c, retry-Opened raw sql need error s2 c))
  ]

  open_result-Opened : (s : Conn M) → Opened s → Opened (open_result s).1
  unfolding open_result
  open_result-Opened s o = elim (Option-cases (M.store_result s.mysql).1) [
    | inl n ↦ rw (n, open_result) o
    | inr (x, n) ↦ rw (n, open_result) o
  ]

  pub get_record_set-Opened : (s : Conn M) → Opened s → Opened (get_record_set s).1
  unfolding get_record_set next_open free_myres
  get_record_set-Opened s o = elim (Option-cases s.myres) [
    | inl n ↦ ground (arith, n, o, open_result-Opened s o)
    | inr (r, n) ↦
        let h = (M.next_result s.mysql).0 in
        ground (arith, n, o, open_result-Opened (record (free_myres s) { mysql = h }) o)
  ]

  end_transaction-Opened :
      (call : M.Handle → M.Handle × Bool) (s : Conn M)
      → Opened s
      → Opened (end_transaction call s).1
  unfolding end_transaction
  end_transaction-Opened call s o = ground (arith, clear-Opened s o)

  pub commit-Opened : (s : Conn M) → Opened s → Opened (commit s).1
  unfolding commit
  commit-Opened s o = end_transaction-Opened M.commit_fails s o

  pub rollback-Opened : (s : Conn M) → Opened s → Opened (rollback s).1
  unfolding rollback
  rollback-Opened s o = end_transaction-Opened M.rollback_fails s o

-- ===== src/Mysql/Connection/Status.antt =====
-- The status of a connection, and what the codes of its operations say.
use sysmonitor.Base.{
  ℕ, zero, suc, ◌≡◌, ◌≢◌, refl, sym, ap, ◌∙◌, true, false, ◌&&◌, some, arith, Bool-cases,
  Option-cases, inl, inr, ◌==◌, ◌⊎◌,
}
use sysmonitor.Base.Text.{Bytes, codes, strcmp_eq, strcmp_eq_refl, eq_of_strcmp_eq}
use sysmonitor.ConnString.{ConnStr, field_text, db_parse_cs}
use sysmonitor.Rc.{rc_s_ok, rc_s_open, rc_s_status, rc_s_init, rc_s_failed, rc_e_illegal_param}
use sysmonitor.Mysql.Api.{MysqlApi, QueryLaw}
use sysmonitor.Mysql.Connection.{
  Conn, drain_round, drain, free_myres, clear_all_result_set, finish_connect, connect_to,
  is_mysqlci, connect, connect_again, reconnect, run_query, retry, execute, is_lost, exchange_error,
}

-- The driver that a string names.
abbrev pub driver_of : ConnStr → Bytes
driver_of cs = field_text cs cs.db_driver

-- The string does not parse, or names another driver.
abbrev pub Refused : ConnStr → Bytes → Type 0
Refused raw str =
    (rc : ℕ) × (cs : ConnStr) × (db_parse_cs raw str ≡ some (rc, cs))
    × ((rc ≢ rc_s_ok) ⊎ (driver_of cs ≢ codes "MYSQLCI"))

ne_of : {m n : ℕ} → (m == n) ≡ false → m ≢ n
ne_of h e = absurd (ground (arith, h, e))

driver_ne :
    (cs : ConnStr)
    → strcmp_eq (driver_of cs) (codes "MYSQLCI") ≡ false
    → driver_of cs ≢ codes "MYSQLCI"
driver_ne cs h e =
    let yes : strcmp_eq (driver_of cs) (codes "MYSQLCI") ≡ true =
      ap (λ d. strcmp_eq d (codes "MYSQLCI")) e ∙ strcmp_eq_refl (codes "MYSQLCI") in
    let stuck = sym yes ∙ h in cc stuck

exchange_error-eq-ok : (error : ℕ) → exchange_error error ≡ rc_s_ok → error ≡ 0
unfolding exchange_error
exchange_error-eq-ok error e = ground arith

module _ {M : MysqlApi} where
  drain-status : (f : ℕ) (s : Conn M) → (drain f s).status ≡ s.status
  unfolding drain drain_round
  drain-status zero s = refl
  drain-status (suc f) s =
      let s1 = record (drain_round s) { mysql = (M.next_result (drain_round s).mysql).0 } in
      elim (Bool-cases (M.next_result (drain_round s).mysql).1) [
        | inl e ↦ rw e (drain-status f s1)
        | inr e ↦ rw e
      ]

  drain-str_db : (f : ℕ) (s : Conn M) → (drain f s).str_db ≡ s.str_db
  unfolding drain drain_round
  drain-str_db zero s = refl
  drain-str_db (suc f) s =
      let s1 = record (drain_round s) { mysql = (M.next_result (drain_round s).mysql).0 } in
      elim (Bool-cases (M.next_result (drain_round s).mysql).1) [
        | inl e ↦ rw e (drain-str_db f s1)
        | inr e ↦ rw e
      ]

  pub clear-status : (s : Conn M) → (clear_all_result_set s).1.status ≡ s.status
  unfolding clear_all_result_set free_myres
  clear-status s = drain-status (suc (M.pending s.mysql)) (free_myres s)

  clear-str_db : (s : Conn M) → (clear_all_result_set s).1.str_db ≡ s.str_db
  unfolding clear_all_result_set free_myres
  clear-str_db s = drain-str_db (suc (M.pending s.mysql)) (free_myres s)

  -- `reconnect` on a connection that was opened by a connection string never connects again: with
  -- an error other than a lost server, or none and no server, it comes back to `connect`, which
  -- refuses an open connection. Nothing but the reading of results has then been done.
  reconnect-refused :
      (raw : ConnStr) (s : Conn M) (str : Bytes)
      → s.status ≡ rc_s_open
      → s.str_db ≡ some str
      → let s' = (clear_all_result_set s).1 in
        is_lost (M.errno s'.mysql) ≡ false
        → ((M.errno s'.mysql == 0) && M.has_server s'.mysql) ≡ false
        → reconnect raw s ≡ some (rc_s_status, s')
  unfolding reconnect connect_again connect
  reconnect-refused raw s str opened by lost up =
      let s' = (clear_all_result_set s).1 in
      let st : s'.status ≡ rc_s_open = clear-status s ∙ opened in
      let db : s'.str_db ≡ some str = clear-str_db s ∙ by in
      ground (arith, st, db, opened, lost, up)

  pub connect_to-status :
      (cs : ConnStr) (s : Conn M) → (connect_to (some cs) s).1.status ≡ rc_s_open
  unfolding connect_to finish_connect
  connect_to-status cs s = ground arith

  connect_to-kept :
      (cs : ConnStr) (s : Conn M)
      → ((connect_to (some cs) s).1.str_db ≡ s.str_db)
        × ((connect_to (some cs) s).1.db_con ≡ some cs)
  unfolding connect_to finish_connect
  connect_to-kept cs s = (ground arith, ground arith)

  -- What `connect` does with a connection string, by the status that it finds and by what is in the
  -- string.
  abbrev pub Connects : ConnStr → Bytes → Conn M → ℕ → Conn M → Type 0
  Connects raw str s c s' =
      ((s.status ≢ rc_s_init) × (c ≡ rc_s_status) × (s' ≡ s))
      ⊎ ((s.status ≡ rc_s_init) × Refused raw str × (c ≡ rc_e_illegal_param) × (s' ≡ s))
      ⊎ ((s.status ≡ rc_s_init)
          × ((cs : ConnStr) × (db_parse_cs raw str ≡ some (rc_s_ok, cs))
              × (driver_of cs ≡ codes "MYSQLCI")
              × (s'.db_con ≡ some cs))
          × (s'.str_db ≡ some str)
          × (s'.status ≡ rc_s_open))

  connect-parsed :
      (raw cs : ConnStr) (str : Bytes) (s s' : Conn M) (rc c : ℕ)
      → s.status ≡ rc_s_init
      → db_parse_cs raw str ≡ some (rc, cs)
      → connect raw str s ≡ some (c, s')
      → Connects raw str s c s'
  unfolding connect is_mysqlci
  connect-parsed raw cs str s s' rc c fresh n e = elim (Bool-cases (rc == rc_s_ok)) [
    | inr bad ↦
        let code : c ≡ rc_e_illegal_param = ground (arith, fresh, n, bad, e) in
        let same : s' ≡ s = ground (arith, fresh, n, bad, e) in
        inr (inl (fresh, (rc, cs, n, inl (ne_of bad)), code, same))
    | inl ok ↦ elim (Bool-cases (strcmp_eq (driver_of cs) (codes "MYSQLCI"))) [
      | inr other ↦
          let code : c ≡ rc_e_illegal_param = ground (arith, fresh, n, ok, other, e) in
          let same : s' ≡ s = ground (arith, fresh, n, ok, other, e) in
          inr (inl (fresh, (rc, cs, n, inr (driver_ne cs other)), code, same))
      | inl same ↦
          let s1 = connect_to (some cs) (record s { str_db = some str }) in
          let t : s1.1 ≡ s' = ground (arith, fresh, n, ok, same, e) in
          let (by, con) = connect_to-kept cs (record s { str_db = some str }) in
          let opened = connect_to-status cs (record s { str_db = some str }) in
          let is_ok : rc ≡ rc_s_ok = ground (arith, ok) in
          inr (
            inr (
              fresh,
              (
                cs,
                n ∙ ap (λ r. some (r, cs)) is_ok,
                eq_of_strcmp_eq (driver_of cs) (codes "MYSQLCI") same,
                ap (λ x. x.db_con) (sym t) ∙ con,
              ),
              ap (λ x. x.str_db) (sym t) ∙ by,
              ap (λ x. x.status) (sym t) ∙ opened,
            ))
    ]
  ]

  pub connect-Connects :
      (raw : ConnStr) (str : Bytes) (s s' : Conn M) (c : ℕ)
      → connect raw str s ≡ some (c, s')
      → Connects raw str s c s'
  unfolding connect
  connect-Connects raw str s s' c e = elim (Bool-cases (s.status == rc_s_init)) [
    | inr old ↦
        let code : c ≡ rc_s_status = ground (arith, old, e) in
        let same : s' ≡ s = ground (arith, old, e) in inl (ne_of old, code, same)
    | inl fresh ↦ elim (Option-cases (db_parse_cs raw str)) [
      | inl n ↦ absurd (ground (arith, fresh, n, e))
      | inr ((rc, cs), n) ↦ connect-parsed raw cs str s s' rc c (ground (arith, fresh)) n e
    ]
  ]

  -- A connection whose server could not be reached cannot be connected again.
  connect_failed :
      (raw : ConnStr) (str again : Bytes) (s s' : Conn M)
      → connect raw str s ≡ some (rc_s_failed, s')
      → connect raw again s' ≡ some (rc_s_status, s')
  unfolding connect
  connect_failed raw str again s s' e = ground (arith, connect-Connects raw str s s' rc_s_failed e)

  retry_ok :
      (Q : QueryLaw M) (raw : ConnStr) (sql : Bytes) (error : ℕ) (s s' : Conn M)
      → error ≢ 0
      → retry raw sql true error s ≡ some (rc_s_ok, s')
      → (h : M.Handle) × ((M.query sql h).1 ≡ 0) × (s'.mysql ≡ (M.query sql h).0)
  unfolding retry
  retry_ok Q raw sql error s s' failed e = elim (Option-cases (reconnect raw s)) [
    | inl n ↦ ground arith
    | inr ((rc, s1), n) ↦
        let tell = Q.fails_tell sql s1.mysql in
        let code = exchange_error-eq-ok (M.errno (M.query sql s1.mysql).0) in
        let first = exchange_error-eq-ok error in
        (s1.mysql, ground (arith, n, e, tell, code, first), ground (arith, n, e, tell, code, first))
  ]

  -- What `execute` with a result asked for says by RC_S_OK: the query was run, last on a handle on
  -- which it did not fail, and nothing has been done to the handle since.
  execute_ok :
      (Q : QueryLaw M) (raw : ConnStr) (sql : Bytes) (s s' : Conn M)
      → execute raw sql true s ≡ some (rc_s_ok, s')
      → (h : M.Handle) × ((M.query sql h).1 ≡ 0) × (s'.mysql ≡ (M.query sql h).0)
  unfolding execute
  execute_ok Q raw sql s s' e = elim (Option-cases (reconnect raw s)) [
    | inl n ↦ ground arith
    | inr ((rc, s1), n) ↦
        let h1 = (clear_all_result_set s1).1.mysql in
        let s2 = (run_query sql (clear_all_result_set s1).1).1 in
        let error = (M.query sql h1).1 in
        elim (Bool-cases (error == 0)) [
          | inl none_left ↦ (h1, ground arith, ground (arith, n, e))
          | inr failed ↦ retry_ok Q raw sql error s2 s' (ground arith) (ground (arith, n, e))
        ]
  ]

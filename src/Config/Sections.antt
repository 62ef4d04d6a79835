-- ===== src/Config/Sections.antt =====
-- The sections of `LoadConfig` and the chain of tests on a type, for any property of the configuration.
use sysmonitor.Base.{ℕ, ◌≡◌, List, length, ◌==◌, Bool-cases, inl, inr}
use sysmonitor.Base.Int.{ℤ, pos, negsuc, pos_part}
use sysmonitor.Base.Text.{Bytes, codes}
use sysmonitor.LinkManager.Database.{DbConfig}
use sysmonitor.Config.{
  MonitorConfig, Source, ◌>>=◌, return, get_int, to_i16, names, load_system, load_mysql, load_web,
  load_process, load_mssql, load_ndb, load_object,
}
use sysmonitor.Config.Ensures.{Ensures, bind-Ensures, return-Ensures, any-Ensures}
use sysmonitor.Config.Lists.{Filled, names-length, read_dbs-all}

-- What each section ensures is ensured of every type.
pub load_object-Ensures {ℓ} :
    (P : MonitorConfig → Type ℓ) (f : Source) (t : ℤ) (m : MonitorConfig) (tmp : List ℕ)
    → P m
    → Ensures P (load_system f m tmp)
    → Ensures P (load_mysql f m tmp)
    → Ensures P (load_web f m tmp)
    → Ensures P (load_process f m tmp)
    → Ensures P (load_mssql f m tmp)
    → Ensures P (load_ndb f m tmp)
    → Ensures P (load_object f t m tmp)
unfolding load_object
load_object-Ensures P f (negsuc t) m tmp h a b c d e k = return-Ensures P m tmp h
load_object-Ensures P f (pos t) m tmp h a b c d e k = elim (Bool-cases (t == 1)) [
  | inl q ↦ rw q a
  | inr q1 ↦ elim (Bool-cases (t == 2)) [
    | inl q ↦ rw (q1, q) b
    | inr q2 ↦ elim (Bool-cases (t == 5)) [
      | inl q ↦ rw (q1, q2, q) c
      | inr q3 ↦ elim (Bool-cases (t == 6)) [
        | inl q ↦ rw (q1, q2, q3, q) d
        | inr q4 ↦ elim (Bool-cases (t == 3)) [
          | inl q ↦ rw (q1, q2, q3, q4, q) e
          | inr q5 ↦ elim (Bool-cases (t == 9)) [
            | inl q ↦ rw (q1, q2, q3, q4, q5, q) k
            | inr q6 ↦ rw (q1, q2, q3, q4, q5, q6) (return-Ensures P m tmp h)
          ]
        ]
      ]
    ]
  ]
]

module _ {ℓ} (P : MonitorConfig → Type ℓ) (f : Source) (m : MonitorConfig) (tmp : List ℕ) where
  -- A section with a count and a list of names.
  section-Ensures :
      (title key from prefix : Bytes) (put : ℤ → List Bytes → MonitorConfig) (t : List ℕ)
      → ((n : ℤ) (ns : List Bytes) → n ≡ pos (length ns) → P (put n ns))
      → Ensures P
          ((get_int f title key >>= λ n. names f from prefix n >>= λ ns. return (put n ns)) t)
  section-Ensures title key from prefix put t h = bind-Ensures _ P _ _ _ (any-Ensures _) λ n t1 x.
      bind-Ensures _ P _ _ _ (names-length f from prefix n t1)
        λ ns t2 e. return-Ensures P (put n ns) t2 (h n ns e)

  pub load_system-Ensures :
      ((n : ℤ) (ns : List Bytes)
        → n ≡ pos (length ns)
        → P (record m { counter_num = n; counter_name = ns }))
      → Ensures P (load_system f m tmp)
  unfolding load_system
  load_system-Ensures h = section-Ensures _ _ _ (codes "counter_name") _ tmp h

  pub load_mysql-Ensures :
      ((k n : ℤ) (ns : List Bytes)
        → n ≡ pos (length ns)
        → P (record m { mysql_type = k; mysql_database_num = n; mysql_connstr = ns }))
      → Ensures P (load_mysql f m tmp)
  unfolding load_mysql
  load_mysql-Ensures h = bind-Ensures _ P _ _ _ (any-Ensures _) λ k t x.
      section-Ensures (codes "mysql") (codes "dbcount") (codes "mysql") (codes "connectonstr")
        (λ n ns. record m { mysql_type = k; mysql_database_num = n; mysql_connstr = ns }) t (h k)

  pub load_web-Ensures :
      ((n : ℤ) (ns : List Bytes)
        → n ≡ pos (length ns)
        → P (record m { web_counter_num = n; web_counter_name = ns }))
      → Ensures P (load_web f m tmp)
  unfolding load_web
  load_web-Ensures h = section-Ensures _ _ _ (codes "counter_name") _ tmp h

  pub load_process-Ensures :
      ((n : ℤ) (ns : List Bytes)
        → n ≡ pos (length ns)
        → P (record m { process_num = n; process_name = ns }))
      → Ensures P (load_process f m tmp)
  unfolding load_process
  load_process-Ensures h = section-Ensures _ _ _ (codes "process_name") _ tmp h

  pub load_ndb-Ensures :
      ((n : ℤ) (ns : List Bytes)
        → n ≡ pos (length ns)
        → P (record m { ndb_file_num = n; ndb_log_file_name = ns }))
      → Ensures P (load_ndb f m tmp)
  unfolding load_ndb
  load_ndb-Ensures h = section-Ensures _ _ _ (codes "name") _ tmp h

  pub load_mssql-Ensures :
      ((n sel : ℤ) (dbs : List DbConfig)
        → Filled (length m.db_config) (pos_part n) dbs
        → P (record m { db_count = n; db_default_sel = sel; db_config = dbs }))
      → Ensures P (load_mssql f m tmp)
  unfolding load_mssql
  load_mssql-Ensures h = bind-Ensures _ P _ _ _ (any-Ensures _) λ n t x.
      bind-Ensures _ P _ _ _ (any-Ensures _) λ sel t2 x2.
        bind-Ensures _ P _ _ _ (read_dbs-all f m.db_config (pos_part (to_i16 n)) t2)
          λ dbs t3 filled.
            return-Ensures P
              (record m { db_count = to_i16 n; db_default_sel = to_i16 sel; db_config = dbs }) t3
              (h (to_i16 n) (to_i16 sel) dbs filled)

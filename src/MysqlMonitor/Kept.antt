-- ===== src/MysqlMonitor/Kept.antt =====
-- A connection with an error is not kept, and the count of the configuration stays.
use sysmonitor.Base.{
  ℕ, zero, suc, ◌+◌, ◌≤◌, ◌<◌, ◌≡◌, ◌⊎◌, refl, ap, Bool, true, false, List, [], ◌∷◌, none, some,
  arith, length, drop, get_elem?, set, length-set, ◌==◌, ltb, if◌then◌else◌, Bool-cases,
  Option-cases, inl, inr,
}
use sysmonitor.Base.Fallible.{bind-elim, some-inj}
use sysmonitor.Base.Int.{pos}
use sysmonitor.Base.Text.{Bytes}
use sysmonitor.ConnString.{ConnStr}
use sysmonitor.Mysql.Api.{MysqlApi}
use sysmonitor.Mysql.Connection.{Conn, connect, new_conn, get_last_error}
use sysmonitor.MysqlMonitor.{
  Setting, asked, slaves, get_master_slave_data, write, new_mysql_monitor, delete_from,
}

get_elem?-past : {A : Type 0} (xs : List A) (i : ℕ) → length xs ≤ i → get_elem? xs i ≡ none
get_elem?-past [] i h = refl
get_elem?-past (x ∷ xs) zero h = absurd (omega arith)
get_elem?-past (x ∷ xs) (suc i) h = get_elem?-past xs i (omega arith)

drop-get :
    {A : Type 0} (xs : List A) (i : ℕ)
    → i < length xs
    → (x : A) × (get_elem? xs i ≡ some x) × (drop i xs ≡ x ∷ drop (suc i) xs)
drop-get [] i h = absurd (omega arith)
drop-get (x ∷ xs) zero h = (x, refl, refl)
drop-get (x ∷ xs) (suc i) h = drop-get xs i (omega arith)

drop-end : {A : Type 0} (xs : List A) (i : ℕ) → length xs ≤ i → drop i xs ≡ []
drop-end [] zero h = refl
drop-end [] (suc i) h = refl
drop-end (x ∷ xs) zero h = absurd (omega arith)
drop-end (x ∷ xs) (suc i) h = drop-end xs i (omega arith)

module _ {M : MysqlApi} where
  keep_if-length :
      (b : Bool) (c : Conn M) (rest : List (Conn M)) (n : ℕ)
      → length rest ≤ n
      → length (if b then c ∷ rest else rest) ≤ suc n
  keep_if-length true c rest n h = omega arith
  keep_if-length false c rest n h = omega arith

  new_mysql_monitor-length :
      (raw : ConnStr) (memory : ℕ → M.Handle) (connstr : List Bytes) (i n : ℕ) (cs : List (Conn M))
      → new_mysql_monitor raw memory connstr i n ≡ some cs
      → length cs ≤ n
  unfolding new_mysql_monitor
  new_mysql_monitor-length raw memory connstr i zero cs e = omega (arith, ap length (some-inj e))
  new_mysql_monitor-length raw memory connstr i (suc n) cs e =
      bind-elim (get_elem? connstr i) _ cs e λ str e0 e1.
        bind-elim (connect raw str (new_conn (memory i))) _ cs e1 λ (k, c) e2 e3.
          bind-elim (new_mysql_monitor raw memory connstr (suc i) n) _ cs e3 λ rest e4 e5.
            let h = new_mysql_monitor-length raw memory connstr (suc i) n rest e4 in
            let b = (get_last_error c).0 == 0 in
            omega (arith, keep_if-length b c rest n h, ap length (some-inj e5))

  delete_from-all :
      (n i : ℕ) (cs : List (Conn M)) → i + n ≡ length cs → delete_from i n cs ≡ some (drop i cs)
  unfolding delete_from
  delete_from-all zero i cs h = rw (drop-end cs i (omega arith)) refl
  delete_from-all (suc n) i cs h =
      let (c, at, front) = drop-get cs i (omega arith) in
      rw (at, front, delete_from-all n (suc i) cs (omega arith)) refl

  delete_from-short :
      (n i : ℕ) (cs : List (Conn M)) → length cs < i + suc n → delete_from i (suc n) cs ≡ none
  unfolding delete_from
  delete_from-short zero i cs h = rw (get_elem?-past cs i (omega arith)) refl
  delete_from-short (suc n) i cs h = elim (Option-cases (get_elem? cs i)) [
    | inl e ↦ rw e refl
    | inr (c, e) ↦ rw (e, delete_from-short n (suc i) cs (omega arith)) refl
  ]

  slaves-short :
      (raw : ConnStr) (n i : ℕ) (cs : List (Conn M))
      → length cs < i + suc n
      → slaves raw i (suc n) cs ≡ none
  unfolding slaves
  slaves-short raw zero i cs h = rw (get_elem?-past cs i (omega arith)) refl
  slaves-short raw (suc n) i cs h = elim (Option-cases (get_elem? cs i)) [
    | inl e ↦ rw e refl
    | inr (c, e) ↦ elim (Option-cases (get_master_slave_data raw c)) [
      | inl d ↦ rw (e, d) refl
      | inr ((rows, c'), d) ↦
          let size = length-set cs i c' in
          rw (e, d, slaves-short raw n (suc i) (set cs i c') (omega (arith, size, h))) refl
    ]
  ]

  write-short :
      (raw : ConnStr) (t : Setting) (c : Conn M) (cs : List (Conn M)) (n : ℕ)
      → asked t ≡ suc n
      → length (c ∷ cs) < suc n
      → write raw t (c ∷ cs) ≡ none
  unfolding write
  write-short raw t c cs n a h = rw (a, slaves-short raw n 0 (c ∷ cs) (omega (arith, h))) refl

  -- The monitor of replicating servers, set up from the configured connections, has at least one
  -- that works. Either every connection was kept, and the destructor deletes each of them; or at
  -- least one was not, and both `write` and the destructor go past the end of the connections.
  pub write-lost :
      (raw : ConnStr) (memory : ℕ → M.Handle) (connstr : List Bytes) (n : ℕ) (t : Setting)
      (c : Conn M) (cs : List (Conn M))
      → new_mysql_monitor raw memory connstr 0 n ≡ some (c ∷ cs)
      → t.mysql_type ≡ pos 1
      → t.mysql_dbcount ≡ pos n
      → ((length (c ∷ cs) ≡ n) × (delete_from 0 n (c ∷ cs) ≡ some (c ∷ cs)))
        ⊎ ((length (c ∷ cs) < n)
            × (delete_from 0 n (c ∷ cs) ≡ none)
            × (write raw t (c ∷ cs) ≡ none))
  unfolding asked
  write-lost raw memory connstr zero t c cs e ty d =
      absurd (omega (arith, new_mysql_monitor-length raw memory connstr 0 zero (c ∷ cs) e))
  write-lost raw memory connstr (suc n) t c cs e ty d =
      let h = new_mysql_monitor-length raw memory connstr 0 (suc n) (c ∷ cs) e in
      let a : asked t ≡ suc n = rw (ty, d) refl in
      elim (Bool-cases (ltb (length (c ∷ cs)) (suc n))) [
        | inl s ↦
            let less : length (c ∷ cs) < suc n = ground (arith, s) in
            inr (
              less,
              delete_from-short n 0 (c ∷ cs) (omega (arith, less)),
              write-short raw t c cs n a less,
            )
        | inr s ↦
            let all : length (c ∷ cs) ≡ suc n = ground (arith, s, h) in
            inl (all, delete_from-all (suc n) 0 (c ∷ cs) (omega (arith, all)))
      ]

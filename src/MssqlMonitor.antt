-- ===== src/MssqlMonitor.antt =====
-- SysMonitor/mssql_monitor.h and mssql_monitor.cpp: the monitor that samples the counters of SQL
-- Server databases through the pool of links. `none` is a fault: no link, a counter that the
-- first sample does not have, or a difference that no int holds. A query takes no time, `Sleep`
-- a second.
pub mod Pool
pub mod Tests
use sysmonitor.Base.{
  ℕ, zero, suc, ◌+◌, ◌-◌, ◌^◌, Bool, true, false, ◌&&◌, ◌||◌, List, [], ◌∷◌, ◌++◌, Option, none,
  some, ltb, leb, ◌==◌, if◌then◌else◌, get_elem?, set, replicate,
}
use sysmonitor.Base.Fallible.{◌>>=◌}
use sysmonitor.Base.Int.{ℤ, pos, negsuc, pos_part, neg_part, sub_ℕ, is_int}
use sysmonitor.Base.Text.{Bytes, codes}
use sysmonitor.LinkManager.Database.{Ado, DbConfig}
use sysmonitor.LinkManager.{LinkManager, get_link, free_link}

-- The record set `CADORecordset` on a database, as a parameter: `Open` (none if it fails),
-- `IsOpen`, `GetRecordCount`, and the number of column 0 of a row (none if the call throws).
pub record Records (A : Ado) : Type 1 where
  pub Rs : Type 0
  pub open_rs : Bytes → Option A.Db → Option Rs
  pub is_open_rs : Rs → Bool
  pub record_count : Rs → ℤ
  pub value : Rs → ℕ → Option ℤ

-- The query, with the name of the database in it.
unfoldable pub select_str : Bytes → Bytes
select_str data_base =
    codes "select cntr_value from sys.sysperfinfo where counter_name in "
    ++ codes "('Full Scans/sec', 'Average Latch Wait Time (ms)', 'User Connections', "
    ++ codes "'Processes blocked') or (counter_name in ('buffer cache hit ratio', "
    ++ codes "'buffer cache hit ratio base','Lazy Writes/sec', 'Page reads/sec', "
    ++ codes "'Page writes/sec', 'Database pages') and object_name like '%buffer manager%') or "
    ++ codes "(counter_name in ('Cache Hit Ratio', 'Cache Hit Ratio base') and instance_name = '"
    ++ data_base
    ++ codes "') or (counter_name in ('Number of Deadlocks/sec', 'Average Wait Time (ms)', "
    ++ codes "'Lock Requests/sec') and instance_name = '_Total') "
    ++ codes "order by object_name, counter_name"

-- A value that is appended: a number, or the text of a percentage with two decimals, by its parts.
pub data Item : Type 0 where
  number : ℤ → Item
  percentage : ℤ → ℤ → Item

-- `a - b`; none is an overflow of the ints.
minus : ℤ → ℤ → Option ℤ
minus a b =
    let d = sub_ℕ (pos_part a + neg_part b) (neg_part a + pos_part b) in
    if is_int d then some d else none

-- Which counters are differences, and which are appended.
is_difference : ℕ → Bool
is_difference j = j == 0 || (leb 4 j && leb j 6) || leb 13 j

is_percentage : ℕ → Bool
is_percentage j = j == 2 || j == 8

is_shown : ℕ → Bool
is_shown j = j == 0 || (leb 3 j && leb j 6) || ltb 8 j

-- `vt_data2[j]` after the subtraction; none is a read outside one of the samples.
unfoldable pub counter : ℕ → List ℤ → List ℤ → Option ℤ
unfolding is_difference minus
counter j vt_data1 vt_data2 = do
  b ← get_elem? vt_data2 j
  if is_difference j then (do a ← get_elem? vt_data1 j; minus b a) else some b

append_counter : ℕ → ℤ → List ℤ → Option (List Item)
append_counter j v vt_data2 =
    if is_percentage j
    then (do base ← get_elem? vt_data2 (j - 1); some (percentage base v ∷ []))
    else some (if is_shown j then number v ∷ [] else [])

-- The loop over `j` from `j` on, `n` times.
unfoldable pub counters : ℕ → ℕ → List ℤ → List ℤ → Option (List Item)
unfolding append_counter is_percentage is_shown
counters j zero vt_data1 vt_data2 = some []
counters j (suc n) vt_data1 vt_data2 = do
  v ← counter j vt_data1 vt_data2
  let vt_data2' = set vt_data2 j v
  items ← append_counter j v vt_data2'
  rest ← counters (suc j) n vt_data1 vt_data2'
  some (items ++ rest)

module _ {A : Ado} (R : Records A) where
  -- The rows from `i` on, `n` of them: the vector was resized with zeros, which stay once a call
  -- has thrown.
  unfoldable pub read_values : R.Rs → ℕ → ℕ → List ℤ
  read_values rs i zero = []
  read_values rs i (suc n) = elim (R.value rs i) [
    | none ↦ replicate (suc n) (pos 0)
    | some v ↦ v ∷ read_values rs (suc i) n
  ]

  -- A count below 0 makes `resize` throw, and is returned.
  sample_of : R.Rs → ℤ → ℤ × List ℤ
  sample_of rs (pos n) = (pos n, read_values rs 0 n)
  sample_of rs (negsuc n) = (negsuc n, [])

  -- The block under `try`.
  unfoldable pub sample : Bytes → Option A.Db → ℤ × List ℤ
  unfolding sample_of
  sample query db = elim (R.open_rs query db) [
    | none ↦ (pos 0, [])
    | some rs ↦ if R.is_open_rs rs then sample_of rs (R.record_count rs) else (pos 0, [])
  ]

  -- `get_counter_value` at the time `now`, by a link for any database.
  unfoldable pub get_counter_value :
      List DbConfig → ℕ → ℕ → LinkManager A → Option ((ℤ × List ℤ) × LinkManager A)
  get_counter_value db_config now data_sel m = do
    let got = get_link m now data_sel false
    i ← got.0
    link ← get_elem? got.1.links i
    config ← get_elem? db_config data_sel
    some (sample (select_str config.data_base) link.ado_db, free_link got.1 i)

  -- The two samples of one database, a second apart.
  unfoldable pub sample_twice :
      List DbConfig → ℕ → ℕ → LinkManager A → Option (List Item × LinkManager A)
  sample_twice db_config now i m = do
    (first, m1) ← get_counter_value db_config now i m
    (second, m2) ← get_counter_value db_config (now + 1) i m1
    items ← counters 0 (pos_part second.0) first.1 second.1
    some (items, m2)

  -- The loop over the databases from `i` on, `n` times: `temp` is not emptied in between.
  unfoldable pub sample_all :
      List DbConfig
      → ℕ
      → ℕ
      → ℕ
      → List Item
      → LinkManager A
      → Option (List (List Item) × LinkManager A)
  sample_all db_config now i zero temp m = some ([], m)
  sample_all db_config now i (suc n) temp m = do
    (items, m1) ← sample_twice db_config now i m
    (rest, m2) ← sample_all db_config (now + 1) (suc i) n (temp ++ items) m1
    some ((temp ++ items) ∷ rest, m2)

  -- `write`: the arrays that it appends.
  unfoldable pub write :
      List DbConfig → ℕ → ℤ → LinkManager A → Option (List (List Item) × LinkManager A)
  write db_config now datanum m = sample_all db_config now 0 (pos_part datanum) [] m

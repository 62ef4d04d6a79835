-- ===== src/Mysql/Api.antt =====
-- The calls that simple_mysql.cpp makes of the MySQL client library, as a parameter. A call takes
-- the handle `MYSQL` and gives the new handle with what the C function returns.
use sysmonitor.Base.{ℕ, suc, ◌<◌, ◌≡◌, ◌≢◌, Bool, true, List, Option, get_elem?, length}
use sysmonitor.Base.Text.{Bytes}
use sysmonitor.ConnString.{ConnStr}

-- A row: NULL or a text for each column.
abbrev pub Row : Type 0
Row = List (Option Bytes)

pub record MysqlApi : Type 1 where
  pub Handle : Type 0
  pub Res : Type 0
  -- `mysql_init`, `mysql_real_connect`: is the pointer that comes back not NULL?
  pub init : Handle → Handle × Bool
  pub real_connect : ConnStr → Handle → Handle × Bool
  pub set_character_set : Bytes → Handle → Handle × ℕ
  pub autocommit_off : Handle → Handle × Bool
  pub close : Handle → Handle
  pub errno : Handle → ℕ
  pub error : Handle → Bytes
  -- the test of the handle's fields in `didConnected`
  pub has_server : Handle → Bool
  pub reconnect_flag : Handle → ℕ
  pub set_reconnect_flag : ℕ → Handle → Handle
  pub ping : Handle → Handle × ℕ
  pub query : Bytes → Handle → Handle × ℕ
  -- do `mysql_commit` and `mysql_rollback` fail?
  pub commit_fails : Handle → Handle × Bool
  pub rollback_fails : Handle → Handle × Bool
  pub store_result : Handle → Handle × Option Res
  -- `mysql_next_result(h) == 0`: there is one more result
  pub next_result : Handle → Handle × Bool
  -- how many results of the last query are still to be read
  pub pending : Handle → ℕ
  pub num_fields : Res → ℕ
  pub num_rows : Res → ℕ
  pub fetch_row : Res → Res × Option Row
  pub data_seek : ℕ → Res → Res
  pub fetch_lengths : Res → List ℕ
  pub field_names : Res → List Bytes

-- Documented: each further result uses one up.
pub record DrainLaw (M : MysqlApi) : Type 0 where
  pub next_uses :
      (h : M.Handle) → (M.next_result h).1 ≡ true → M.pending (M.next_result h).0 < M.pending h
  pub store_keeps : (h : M.Handle) → M.pending (M.store_result h).0 ≡ M.pending h

-- Documented: after a query that fails the handle tells an error.
pub record QueryLaw (M : MysqlApi) : Type 0 where
  pub fails_tell :
      (sql : Bytes) (h : M.Handle) → (M.query sql h).1 ≢ 0 → M.errno (M.query sql h).0 ≢ 0

-- Documented: a stored result is a list of rows with a position in it, which `mysql_fetch_row`
-- reads and advances, and `mysql_data_seek` sets.
pub record CursorLaw (M : MysqlApi) : Type 0 where
  pub rows : M.Res → List Row
  pub position : M.Res → ℕ
  pub num_rows-length : (r : M.Res) → M.num_rows r ≡ length (rows r)
  pub fetch_row-get : (r : M.Res) → (M.fetch_row r).1 ≡ get_elem? (rows r) (position r)
  pub fetch_row-rows : (r : M.Res) → rows (M.fetch_row r).0 ≡ rows r
  pub fetch_row-position :
      (r : M.Res) → position r < length (rows r) → position (M.fetch_row r).0 ≡ suc (position r)
  pub data_seek-rows : (n : ℕ) (r : M.Res) → rows (M.data_seek n r) ≡ rows r
  pub data_seek-position : (n : ℕ) (r : M.Res) → position (M.data_seek n r) ≡ n

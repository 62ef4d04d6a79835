-- ===== src/LinkManager/Database.antt =====
-- The database object of a link, `CADODatabase`, as a parameter.
use sysmonitor.Base.{Bool, []}
use sysmonitor.Base.Text.{Bytes}

-- `DBCONFIG` of load_config.h.
pub record DbConfig : Type 0 where
  pub data_source : Bytes
  pub data_base : Bytes
  pub user_name : Bytes
  pub password : Bytes

unfoldable pub blank_config : DbConfig
blank_config = record { data_source = []; data_base = []; user_name = []; password = [] }

-- `new CADODatabase()`, `Close()`, `Open(...)` with the string made of the configuration, and
-- `IsOpen()`.
pub record Ado : Type 1 where
  pub Db : Type 0
  pub new_db : Db
  pub close_db : Db → Db
  pub open_db : DbConfig → Db → Db
  pub is_open : Db → Bool

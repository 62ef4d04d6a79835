-- ===== src/LinkManager.antt =====
-- SysMonitor/link_manager.h and link_manager.cpp: the pool of database links.
pub mod Database
pub mod Select
pub mod Acquire
pub mod Secondary
pub mod Ownership
pub mod Tests
use sysmonitor.Base.{
  ℕ, zero, suc, ◌+◌, Bool, true, false, not, ◌||◌, ◌&&◌, List, [], ◌∷◌, Option, none, some, ltb,
  leb, ◌==◌, if◌then◌else◌, get_elem?, get_or, set, take, drop, replicate, length, map, ◌++◌,
}
use sysmonitor.Base.Int.{ℤ, pos, negsuc}
use sysmonitor.LinkManager.Database.{Ado, DbConfig, blank_config}

pub max_link_num : ℕ
max_link_num = 30

pub max_dbcount : ℕ
max_dbcount = 5

pub record OpLink (A : Ado) : Type 0 where
  pub is_busy : Bool
  pub cur_sel : ℕ
  pub is_connected : Bool
  pub busy_time : ℕ
  pub ado_db : Option A.Db

pub record LinkManager (A : Ado) : Type 0 where
  pub default_sel : ℕ
  pub db_count : ℕ
  pub db_config : List DbConfig
  pub fail_count : ℕ
  pub links : List (OpLink A)

-- `if (m_nDefaultSel < 0 || m_nDefaultSel >= m_nDbCount) m_nDefaultSel = 0;`
default_of : ℤ → ℕ → ℕ
default_of (negsuc n) count = 0
default_of (pos n) count = if leb count n then 0 else n

-- The search of `GetLink` under the lock: the link at which the loop breaks, or the first free
-- one, or none. `at` is the index of the list's head.
pub select_link : {A : Ado} → Bool → ℕ → List (OpLink A) → ℕ → Option ℕ → Option ℕ
select_link primary sel [] at first = first
select_link primary sel (l ∷ ls) at first =
    let first' : Option ℕ = elim first [ none ↦ some at | some i ↦ some i ] in
    let rest = select_link primary sel ls (at + 1) (if l.is_busy then first else first') in
    if l.is_busy then rest else if not primary || l.cur_sel == sel then some at else rest

module _ (A : Ado) where
  -- `ConnectDataBase`: the object after the call, and whether it is open.
  connect_database : DbConfig → Option A.Db → Option A.Db × Bool
  connect_database c none = (none, false)
  connect_database c (some db) = let db' = A.open_db c (A.close_db db) in (some db', A.is_open db')

  close_ado : Option A.Db → Option A.Db
  close_ado none = none
  close_ado (some db) = some (A.close_db db)

module _ {A : Ado} where
  -- The constructor's `memset`.
  pub zeroed : OpLink A
  zeroed = record {
    is_busy = false;
    cur_sel = 0;
    is_connected = false;
    busy_time = 0;
    ado_db = none;
  }

  -- `_Init`: the old database object is deleted, and a new one made.
  init_link : ℕ → OpLink A → OpLink A
  init_link sel l = record l {
    cur_sel = sel;
    ado_db = some A.new_db;
    is_connected = false;
    is_busy = false;
  }

  -- `none` is a copy of more configurations than `m_dbConfig` holds; the count is not negative.
  unfoldable pub init : ℕ → ℤ → List DbConfig → LinkManager A → Option (LinkManager A)
  unfolding default_of init_link max_dbcount
  init count sel configs m =
      if ltb max_dbcount count
      then none
      else some (record m {
        db_count = count;
        default_sel = default_of sel count;
        db_config = take count configs ++ drop count m.db_config;
        links = map (init_link (default_of sel count)) m.links;
      })

  exit_link : OpLink A → OpLink A
  exit_link l = record l { ado_db = none }

  pub exit : LinkManager A → LinkManager A
  unfolding exit_link
  exit m = record m { links = map exit_link m.links }

  update_link : LinkManager A → ℕ → OpLink A → LinkManager A
  update_link m i l = record m { links = set m.links i l }

  succeeded : LinkManager A → LinkManager A
  succeeded m = record m { fail_count = if ltb 0 m.fail_count then 0 else m.fail_count }

  config_at : LinkManager A → ℕ → DbConfig
  config_at m i = get_or m.db_config i blank_config

  -- The block `if (bPrimary) { ... }` on the link, and whether it has connected now.
  connect_default : LinkManager A → OpLink A → OpLink A × Bool
  unfolding connect_database close_ado config_at
  connect_default m l =
      let moved = not (l.cur_sel == m.default_sel) in
      let l' =
        if moved then record l { ado_db = close_ado A l.ado_db; is_connected = false } else l in
      let (db, ok) = connect_database A (config_at m m.default_sel) l'.ado_db in
      if l'.is_connected
      then (l', false)
      else if ok
      then (record l' { ado_db = db; is_connected = true; cur_sel = m.default_sel }, true)
      else (record l' { ado_db = db }, false)

  -- `_Connect2`
  connect2 : LinkManager A → ℕ → ℕ → OpLink A → OpLink A × Bool
  unfolding connect_database close_ado config_at
  connect2 m now dbsel l =
      let (db, ok) = connect_database A (config_at m dbsel) (close_ado A l.ado_db) in
      if ok
      then (record l { ado_db = db; is_connected = true; cur_sel = dbsel; busy_time = now }, true)
      else (record l { ado_db = db }, false)

  -- The link is given back after a connection that failed.
  give_up : LinkManager A → ℕ → OpLink A → Option ℕ × LinkManager A
  unfolding update_link
  give_up m i l = (
    none,
    record (update_link m i (record l { is_busy = false })) { fail_count = m.fail_count + 1 },
  )

  -- The link after `connect_default`, and whether it has connected in it.
  finish_primary : LinkManager A → ℕ → ℕ → OpLink A × Bool → Option ℕ × LinkManager A
  unfolding succeeded update_link give_up
  finish_primary m now i (l, fresh) =
      let m' = if fresh then succeeded m else m in
      if l.is_connected
      then (some i, update_link m' i (record l { busy_time = now }))
      else give_up m' i l

  -- The link reserved, and what `_Connect2` makes of it if it is called.
  finish_other : LinkManager A → ℕ → ℕ → OpLink A → OpLink A × Bool → Option ℕ × LinkManager A
  unfolding succeeded update_link give_up
  finish_other m now i l (l', ok) =
      if l.is_connected
      then (some i, update_link m i (record l { busy_time = now }))
      else if ok
      then (some i, update_link (succeeded m) i l')
      else give_up m i l'

  -- Behind the lock, with the link that was reserved.
  get_reserved : LinkManager A → ℕ → ℕ → Bool → ℕ → Option (OpLink A) → Option ℕ × LinkManager A
  unfolding finish_primary finish_other connect_default connect2
  get_reserved m now dbsel primary i none = (none, m)
  get_reserved m now dbsel primary i (some l) =
      let l' = record l { is_busy = true } in
      if primary
      then finish_primary m now i (connect_default m l')
      else finish_other m now i l' (connect2 m now dbsel l')

  on_selected : LinkManager A → ℕ → ℕ → Bool → Option ℕ → Option ℕ × LinkManager A
  unfolding get_reserved
  on_selected m now dbsel primary none = (none, m)
  on_selected m now dbsel primary (some i) =
      get_reserved m now dbsel primary i (get_elem? m.links i)

  -- The index of the link that `GetLink` returns, none for NULL; `now` is `time(NULL)`, and `dbsel`
  -- is not negative.
  unfoldable pub get_link : LinkManager A → ℕ → ℕ → Bool → Option ℕ × LinkManager A
  unfolding on_selected select_link max_dbcount
  get_link m now dbsel primary =
      if leb max_dbcount dbsel
      then (none, m)
      else on_selected m now dbsel primary (select_link primary m.default_sel m.links 0 none)

  on_link : LinkManager A → ℕ → (OpLink A → OpLink A) → LinkManager A
  on_link m i f = elim (get_elem? m.links i) [
    | none ↦ m
    | some l ↦ record m { links = set m.links i (f l) }
  ]

  unfoldable pub free_link : LinkManager A → ℕ → LinkManager A
  unfolding on_link
  free_link m i = on_link m i (λ l. record l { busy_time = 0; is_busy = false })

  unfoldable pub disconnect_link : LinkManager A → ℕ → LinkManager A
  unfolding on_link close_ado
  disconnect_link m i = on_link m i λ l. record l {
    ado_db = close_ado A l.ado_db;
    is_connected = false;
    busy_time = 0;
    is_busy = false;
  }

  unfoldable pub check_connect : LinkManager A → ℕ → LinkManager A
  unfolding on_link close_ado
  check_connect m i =
      on_link m i λ l. record l { ado_db = close_ado A l.ado_db; is_connected = false }

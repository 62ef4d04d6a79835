-- ===== src/Ndb/Table.antt =====
-- `CNdbMonitor`: the table of logs, by the thread that scans each, and the lock around it. A mutex
-- that its own thread locks again never returns.
use sysmonitor.Base.{
  ℕ, zero, suc, Bool, true, false, List, [], ◌∷◌, ◌++◌, map, Option, none, some, ltb, ◌==◌,
  if◌then◌else◌,
}
use sysmonitor.Base.Int.{pos}
use sysmonitor.Base.Stdio.{digits}
use sysmonitor.Base.Text.{Bytes, codes}
use sysmonitor.Log.{Logger, log, past}
use sysmonitor.Ndb
use sysmonitor.Ndb.{LogState, log_normal, scan_log}

-- What a call does: it returns, waits for ever, or reads or writes what is not there.
pub data Run {ℓ} (A : Type ℓ) : Type ℓ where
  returns : A → Run A
  blocks : Run A
  faults : Run A

infixl 5 ◌>>=◌
abbrev pub ◌>>=◌ {ℓ κ} : {A : Type ℓ} {B : Type κ} → Run A → (A → Run B) → Run B
returns a >>= f = f a
blocks >>= f = blocks
faults >>= f = faults

-- `held`: the calling thread has locked the mutex.
pub record Table : Type 0 where
  pub held : Bool
  pub m_map_log_state : List (ℕ × LogState)

unfoldable pub lock : Table → Run Table
lock t = if t.held then blocks else returns (record t { held = true })

unfoldable pub unlock : Table → Table
unlock t = record t { held = false }

unfoldable pub find_log : ℕ → List (ℕ × LogState) → Option LogState
find_log tid [] = none
find_log tid ((k, st) ∷ m) = let rest = find_log tid m in if k == tid then some st else rest

unfoldable pub put_log : ℕ → LogState → List (ℕ × LogState) → List (ℕ × LogState)
put_log tid st [] = []
put_log tid st ((k, old) ∷ m) =
    let rest = put_log tid st m in if k == tid then (k, st) ∷ m else (k, old) ∷ rest

-- The fields that are copied; the name of the file stays.
unfoldable pub set_state : LogState → LogState → LogState
set_state new old = record new { file_name = old.file_name }

unfoldable pub set_file_state : ℕ → LogState → Table → Run Table
set_file_state tid st t = do
  t' ← lock t
  returns (elim (find_log tid t'.m_map_log_state) [
    | none ↦ unlock t'
    | some old ↦
        unlock (record t' { m_map_log_state = put_log tid (set_state st old) t'.m_map_log_state })
  ])

unfoldable pub get_file_sate : ℕ → Table → Run (LogState × Table)
get_file_sate tid t = do
  t' ← lock t
  elim (find_log tid t'.m_map_log_state) [ none ↦ faults | some st ↦ returns (st, unlock t') ]

unfoldable pub reset_log : ℕ → List (ℕ × LogState) → List (ℕ × LogState)
reset_log tid [] = []
reset_log tid ((k, st) ∷ m) =
    let rest = reset_log tid m in
    if tid == 0
    then (k, Ndb.reset_log_status st) ∷ rest
    else if k == tid
    then (k, Ndb.reset_log_status st) ∷ m
    else (k, st) ∷ rest

-- The thread 0 stands for all.
unfoldable pub reset_table : ℕ → Table → Run Table
reset_table tid t = do
  t' ← lock t
  returns (unlock (record t' { m_map_log_state = reset_log tid t'.m_map_log_state }))

-- The attempts to open a file: the size of the file if the attempt with this number opens it.
abbrev pub Attempts : Type 0
Attempts = ℕ → Option ℕ

-- `while (-1 == hFile && read_time > 0)`
unfoldable pub open_again : ℕ → ℕ → Attempts → Option ℕ
open_again zero k attempt = attempt k
open_again (suc read_time) k attempt =
    let next = open_again read_time (suc k) attempt in
    elim (attempt k) [ none ↦ next | some size ↦ some size ]

-- The size that `lseek` tells, of the file that is opened once and then up to ten times again.
unfoldable pub cur_file_size : Attempts → Option ℕ
cur_file_size attempt = open_again 10 0 attempt

-- The line of the log for a file that is open; its offset is 0 then.
unfoldable pub sizes_line : ℕ → LogState → Bytes
unfolding digits
sizes_line size st =
    codes "cur_file_size:"
    ++ digits 10 size
    ++ codes " file_size:"
    ++ digits 10 st.file_size
    ++ codes " file_pos:"
    ++ digits 10 0

-- One log of the loop: a file that can be opened is logged, and one that has become shorter is read
-- from its start again.
unfoldable pub compare_log : Logger → (Bytes → Attempts) → ℕ → LogState → Table → Run Table
compare_log l files tid st t = elim (cur_file_size (files st.file_name)) [
  | none ↦ returns t
  | some size ↦
      let shrunk = record st { file_pos = 0; file_size = size } in
      let again =
        set_file_state tid shrunk
          (record t { m_map_log_state = put_log tid shrunk t.m_map_log_state }) in
      elim (log l 0 (pos 1) (sizes_line size st)) [
        | none ↦ faults
        | some line ↦ if ltb size st.file_size then again else returns t
      ]
]

unfoldable pub compare_logs : Logger → (Bytes → Attempts) → List (ℕ × LogState) → Table → Run Table
compare_logs l files [] t = returns t
compare_logs l files ((tid, st) ∷ m) t = do
  t' ← compare_log l files tid st t
  compare_logs (past 1 l) files m t'

unfoldable pub compare_file_state : Logger → (Bytes → Attempts) → Table → Run Table
compare_file_state l files t = compare_logs l files t.m_map_log_state t

-- One array that `write` appends.
pub record LogRow : Type 0 where
  pub log_status : ℕ
  pub log_err_msg : Bytes
  pub file_name : Bytes
  pub tid : ℕ

unfoldable pub log_row : ℕ × LogState → LogRow
log_row (tid, st) = record {
  log_status = st.log_status;
  log_err_msg = st.log_err_msg;
  file_name = st.file_name;
  tid = tid;
}

unfoldable pub write : Logger → (Bytes → Attempts) → Table → Run (List LogRow × Table)
write l files t = do
  t' ← lock t
  t'' ← compare_file_state l files t'
  returns (map log_row t''.m_map_log_state, unlock t'')

scanned : Option LogState → Run LogState
scanned none = faults
scanned (some st) = returns st

-- One turn of a scanning thread, on the bytes of its file if that can be opened: the state that is
-- found is the table's own, and is scanned outside the lock.
unfoldable pub scan_turn : ℕ → Option Bytes → Table → Run Table
unfolding scanned
scan_turn tid file t = do
  (st, t') ← get_file_sate tid t
  st' ← scanned (scan_log file st)
  set_file_state tid st' t'

-- `map.insert`, which keeps an entry that is there, in the order of the keys.
unfoldable pub insert_log : ℕ → LogState → List (ℕ × LogState) → List (ℕ × LogState)
insert_log tid st [] = (tid, st) ∷ []
insert_log tid st ((k, old) ∷ m) =
    let rest = insert_log tid st m in
    if ltb tid k
    then (tid, st) ∷ (k, old) ∷ m
    else if k == tid
    then (k, old) ∷ m
    else (k, old) ∷ rest

-- The constructor, on what `stat` and `pthread_create` give for each file: its size and a thread.
-- `none` where the process exits.
unfoldable pub new_logs :
    List (Bytes × Option ℕ × Option ℕ) → List (ℕ × LogState) → Option (List (ℕ × LogState))
new_logs [] m = some m
new_logs ((name, none, tid) ∷ files) m = none
new_logs ((name, some size, none) ∷ files) m = none
new_logs ((name, some size, some tid) ∷ files) m = new_logs files (
    insert_log tid
      (record {
        file_size = size;
        file_pos = 0;
        log_status = log_normal;
        log_err_msg = [];
        file_name = name;
        b_reset_status = false;
      })
      m)

-- Does `thread_func` of this thread return? Its loop has no end.
unfoldable pub thread_ends : ℕ → Bool
thread_ends tid = false

-- The loop of the destructor: each thread is waited for before its entry is deleted.
unfoldable pub destroy_logs : List (ℕ × LogState) → Run (List (ℕ × LogState))
unfolding thread_ends
destroy_logs [] = returns []
destroy_logs ((tid, st) ∷ m) = let rest = destroy_logs m in if thread_ends tid then rest else blocks

unfoldable pub destroy : Table → Run Table
unfolding destroy_logs
destroy t = do m ← destroy_logs t.m_map_log_state; returns (record t { m_map_log_state = m })

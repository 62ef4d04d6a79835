-- ===== src/Monitor/Process.antt =====
-- `CProcessMonitor` of SysMonitor/monitor_system.cpp: the configured processes, by the process list
-- and the output of netstat. `none` is a word that is too long for its buffer, a state that no
-- line has set, or a pipe that could not be opened.
use sysmonitor.Base.{
  ℕ, ◌+◌, Bool, false, List, [], ◌∷◌, ◌++◌, Option, none, some, ltb, ◌==◌, if◌then◌else◌, length,
}
use sysmonitor.Base.Fallible.{◌>>=◌}
use sysmonitor.Base.Int.{ℤ, pos, negsuc}
use sysmonitor.Base.Text.{Bytes, codes, text, strcmp_eq}
use sysmonitor.Base.Stdio.{next_word, next_int, read_lines}

-- `m_map_process_name_pid`
abbrev pub Pids : Type 0
Pids = List (Bytes × List ℕ)

-- One entry of the process list: its name, its number, and whether OpenProcess opens it.
pub record Entry : Type 0 where
  pub exe : Bytes
  pub pid : ℕ
  pub opens : Bool

unfoldable pub find_pids : Bytes → Pids → Option (List ℕ)
find_pids name [] = none
find_pids name ((k, pids) ∷ m) =
    let rest = find_pids name m in if strcmp_eq k name then some pids else rest

-- `m_map_process_name_pid[name].push_back(pid)`
unfoldable pub push_pid : Bytes → ℕ → Pids → Pids
push_pid name pid [] = (name, pid ∷ []) ∷ []
push_pid name pid ((k, pids) ∷ m) =
    let rest = push_pid name pid m in
    if strcmp_eq k name then (k, pids ++ pid ∷ []) ∷ m else (k, pids) ∷ rest

-- The loop over the configured names for one process.
unfoldable pub match_names : List Bytes → Entry → Pids → Pids
match_names [] e m = m
match_names (name ∷ names) e m =
    match_names names e (if strcmp_eq name e.exe then push_pid e.exe e.pid m else m)

-- `GetProcessList`, once the snapshot is taken: the map keeps what earlier calls have put in it.
unfoldable pub get_process_list : List Bytes → List Entry → Pids → Pids
get_process_list names [] m = m
get_process_list names (e ∷ es) m =
    get_process_list names es (if e.opens then match_names names e m else m)

-- The variables of `write` that outlive a line: `state` (none before it is set), `pid`,
-- `nread_line`, and the lines that the pipe still holds.
pub record Reading : Type 0 where
  pub state : Option Bytes
  pub pid : ℤ
  pub nread_line : ℕ
  pub lines : List Bytes

-- What one line sets, with the buffers of 10, 50, 50 and 100 bytes: a conversion that fails leaves
-- the variables behind it as they were.
sized : ℕ → Option (Bytes × Bytes) → Option (Option Bytes)
sized n none = some none
sized n (some (w, rest)) = if ltb (length w) n then some (some rest) else none

put_pid : Reading → Option (ℤ × Bytes) → Reading
put_pid r none = r
put_pid r (some (pid, rest)) = record r { pid = pid }

set_state : Reading → Option (Bytes × Bytes) → Option Reading
unfolding put_pid
set_state r none = some r
set_state r (some (w, rest)) =
    if ltb (length w) 100
    then some (put_pid (record r { state = some w }) (next_int rest))
    else none

scan_words : Reading → Option Bytes → (Reading → Bytes → Option Reading) → Option Reading
scan_words r none k = some r
scan_words r (some rest) k = k r rest

-- `sscanf(pbuffer, "%s %s %s %s %d\n", ...)`
unfoldable pub scan_line : Bytes → Reading → Option Reading
unfolding sized set_state scan_words
scan_line line r = do
  s1 ← sized 10 (next_word line)
  scan_words r s1 λ r1 rest1. do
    s2 ← sized 50 (next_word rest1)
    scan_words r1 s2 λ r2 rest2. do
      s3 ← sized 50 (next_word rest2)
      scan_words r2 s3 λ r3 rest3. set_state r3 (next_word rest3)

is_pid : ℤ → ℕ → Bool
is_pid (pos n) pid = n == pid
is_pid (negsuc n) pid = false

-- The test of one line: 1 if it is counted.
unfoldable pub counted : ℕ → Reading → Option ℕ
unfolding is_pid
counted pid r =
    if is_pid r.pid pid
    then elim r.state [
      | none ↦ none
      | some state ↦ some (if strcmp_eq state (codes "ESTABLISHED") then 1 else 0)
    ]
    else some 0

-- `while (fgets(pbuffer, 1000, ppipe))` for one process number, over the lines that are left.
unfoldable pub count_lines : ℕ → List Bytes → Reading → Option (ℕ × Reading)
count_lines pid [] r = some (0, record r { lines = [] })
count_lines pid (line ∷ lines) r = do
  r' ← (if ltb 3 r.nread_line then scan_line (text line) r else some r)
  n ← (if ltb 3 r.nread_line then counted pid r' else some 0)
  (more, r'') ← count_lines pid lines (record r' { nread_line = r'.nread_line + 1 })
  some (n + more, r'')

-- The loop over the numbers of one name.
unfoldable pub count_pids : List ℕ → Reading → Option (ℕ × Reading)
count_pids [] r = some (0, r)
count_pids (pid ∷ pids) r = do
  (n, r') ← count_lines pid r.lines r
  (more, r'') ← count_pids pids r'
  some (n + more, r'')

-- One array that is appended.
pub record Row : Type 0 where
  pub process_name : Bytes
  pub tcpnum : ℕ
  pub process_status : ℕ

unfoldable pub process_row : Bytes → Option (List ℕ) → Reading → Option (Row × Reading)
process_row name none r = some (record { process_name = name; tcpnum = 0; process_status = 0 }, r)
process_row name (some pids) r = do
  (n, r') ← count_pids pids r
  some (record { process_name = name; tcpnum = n; process_status = 1 }, r')

unfoldable pub process_rows : Pids → List Bytes → Reading → Option (List Row × Reading)
process_rows m [] r = some ([], r)
process_rows m (name ∷ names) r = do
  (row, r') ← process_row name (find_pids name m) r
  (rows, r'') ← process_rows m names r'
  some (row ∷ rows, r'')

-- The pipe, before its first line is read.
unfoldable pub opened : Bytes → Reading
opened out = record {
  state = none;
  pid = pos 0;
  nread_line = 0;
  lines = read_lines (length out) 999 out;
}

-- `write`, on the process list (none if it cannot be taken) and the output of netstat: what is
-- appended, and the map.
unfoldable pub write :
    List Bytes → Option (List Entry) → Option Bytes → Pids → Option (List Row × Pids)
write names none out m = some ([], m)
write names (some es) out m = do
  netstat ← out
  let m' = get_process_list names es m
  (rows, _) ← process_rows m' names (opened netstat)
  some (rows, m')

-- ===== src/LinuxMonitor.antt =====
-- SysMonitor/linux_monitor_system.cpp: the samplers that read texts under /proc. A file that is
-- read in lines is the list of the lines that `getline` gives. `none` is a fault: a word behind
-- the end of its buffer, or a buffer or a variable that nothing has filled.
pub mod Disks
pub mod Rates
pub mod DiskStats
pub mod Tests
use sysmonitor.Base.{
  ℕ, zero, suc, ◌+◌, ◌-◌, Bool, List, [], ◌∷◌, ◌++◌, Option, none, some, ltb, ◌==◌, if◌then◌else◌,
  length, take, replicate, get_elem?,
}
use sysmonitor.Base.Fallible.{◌>>=◌}
use sysmonitor.Base.Int.{ℤ, pos, pos_part, neg_part, sub_ℕ, is_int}
use sysmonitor.Base.Text.{Bytes, c_string, codes, contains}
use sysmonitor.Base.Stdio.{words, next_word, next_int}

-- `read` of at most 80 bytes into a buffer of 80 zeros.
unfoldable pub read_80 : Bytes → Option Bytes
unfolding c_string
read_80 file = c_string (take 80 file ++ replicate (80 - length file) 0)

-- `buffer[strlen(buffer) - 1] = 0`; none is a write in front of the buffer.
cut_last : Bytes → Option Bytes
cut_last [] = none
cut_last (x ∷ s) = some (take (length s) (x ∷ s))

unfoldable pub get_kernel_version : Bytes → Option Bytes
unfolding cut_last
get_kernel_version file = do s ← read_80 file; cut_last s

unfoldable pub get_os_name : Bytes → Option Bytes
unfolding cut_last
get_os_name file = do s ← read_80 file; cut_last s

-- The words that `sscanf` stores, over what the buffers of `size` bytes hold.
unfoldable pub store : ℕ → List Bytes → List Bytes → Option (List Bytes)
store size [] buf = some buf
store size (w ∷ ws) [] = none
store size (w ∷ ws) (b ∷ buf) =
    let rest = store size ws buf in
    if ltb (length w) size then (do r ← rest; some (w ∷ r)) else none

unfoldable pub get_loadavg : Bytes → Option Bytes
get_loadavg file = do
  s ← read_80 file
  let stored = words 5 s
  _ ← store 10 stored (replicate 5 [])
  get_elem? stored 0

-- A row of the disks: `buf[3]`, `buf[2]`, and a 0.
pub record Disk : Type 0 where
  pub name : Bytes
  pub blocks : Bytes

-- The loop over the lines: `buf` keeps what a line does not overwrite.
unfoldable pub get_diskinfo : List Bytes → List Bytes → Option (List Disk)
get_diskinfo buf [] = some []
get_diskinfo buf (line ∷ lines) = do
  buf' ← store 32 (words 4 line) buf
  blocks ← get_elem? buf' 2
  name ← get_elem? buf' 3
  rest ← get_diskinfo buf' lines
  some (if contains name (codes "da") then record { name = name; blocks = blocks } ∷ rest else rest)

-- `sscanf(buffer, "%s %s %d ", ...)`; none is a word too long, or a number that is not there.
tcp_line : Bytes → Option ℤ
tcp_line line = do
  (w0, s0) ← next_word line
  (w1, s1) ← next_word s0
  _ ← store 32 (w0 ∷ w1 ∷ []) ([] ∷ [] ∷ [])
  (n, _) ← next_int s1
  some n

-- The loop ends at the first line with the word.
unfoldable pub get_tcp_connections : List Bytes → Option ℤ
unfolding tcp_line
get_tcp_connections [] = none
get_tcp_connections (line ∷ lines) =
    let rest = get_tcp_connections lines in
    if contains line (codes "TCP") then tcp_line line else rest

-- An int variable that is given the value; none is an overflow.
unfoldable pub int_value : ℤ → Option ℤ
int_value n = if is_int n then some n else none

-- So many `%d`.
unfoldable pub ints : ℕ → Bytes → Option (List ℤ)
unfolding int_value
ints zero s = some []
ints (suc n) s = do (v, rest) ← next_int s; v' ← int_value v; vs ← ints n rest; some (v' ∷ vs)

unfoldable pub add_int : ℤ → ℤ → Option ℤ
unfolding int_value
add_int a b = int_value (sub_ℕ (pos_part a + pos_part b) (neg_part a + neg_part b))

unfoldable pub sum_ints : ℤ → List ℤ → Option ℤ
unfolding add_int
sum_ints total [] = some total
sum_ints total (n ∷ ns) = do t ← add_int total n; sum_ints t ns

-- The sum of the times and the idle time, from the first line of the file.
unfoldable pub get_cpu_time : Bytes → Option (ℤ × ℤ)
get_cpu_time line = do
  (cpu, s) ← next_word line
  _ ← store 5 (cpu ∷ []) ([] ∷ [])
  times ← ints 7 s
  all_time ← sum_ints (pos 0) times
  idle_time ← get_elem? times 3
  some (all_time, idle_time)

-- `strtof` with a cast behind it, as a parameter; none is a float that the type does not hold.
pub record Casts : Type 0 where
  pub to_int : Bytes → Option ℤ
  pub to_int64 : Bytes → Option ℤ

-- The variables of `get_meminfo`, and what it has appended.
pub record Mem : Type 0 where
  pub content : Bytes
  pub vmalloctotal_kb : Option ℤ
  pub appended : List ℤ

-- `sscanf(buffer, "%s%s", content, content)`: the last word that is stored stays.
unfoldable pub stored_last : List Bytes → Bytes → Option Bytes
stored_last [] content = some content
stored_last (w ∷ ws) content =
    let rest = stored_last ws w in if ltb (length w) 16 then rest else none

-- One of the tests of a line; the line has lost its last byte behind it.
unfoldable pub on_key : Bytes → (Mem → Option Mem) → Bytes × Mem → Option (Bytes × Mem)
unfolding stored_last
on_key key put (line, m) =
    let cut = take (length line - 1) line in
    if contains line key
    then (do
      c ← stored_last (words 2 cut) m.content
      m' ← put (record m { content = c })
      some (cut, m'))
    else some (line, m)

module _ (C : Casts) where
  put_int : Mem → Option Mem
  put_int m = do n ← C.to_int m.content; some (record m { appended = m.appended ++ n ∷ [] })

  put_total : Mem → Option Mem
  put_total m = do
    n ← C.to_int64 m.content
    some (record m { vmalloctotal_kb = some n; appended = m.appended ++ n ∷ [] })

  put_rest : Mem → Option Mem
  put_rest m = do
    n ← C.to_int64 m.content
    total ← m.vmalloctotal_kb
    let left = sub_ℕ (pos_part total + neg_part n) (neg_part total + pos_part n)
    some (record m { appended = m.appended ++ left ∷ [] })

  unfoldable pub mem_line : Bytes → Mem → Option Mem
  unfolding put_int put_total put_rest
  mem_line line m = do
    p1 ← on_key (codes "MemTotal") put_int (line, m)
    p2 ← on_key (codes "MemFree") put_int p1
    p3 ← on_key (codes "VmallocTotal") put_total p2
    p4 ← on_key (codes "VmallocUsed") put_rest p3
    some p4.1

  -- From empty `content`, with the total not set.
  unfoldable pub get_meminfo : List Bytes → Mem → Option Mem
  get_meminfo [] m = some m
  get_meminfo (line ∷ lines) m = do m' ← mem_line line m; get_meminfo lines m'

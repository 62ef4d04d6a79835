-- ===== src/LinuxMonitor/Rates.antt =====
-- `CLinuxSysinfo`: the counts that are sampled twice, a second apart, with the uptime, and `write`.
-- A long has 64 bits, low bytes first.
use sysmonitor.Base.{
  ℕ, zero, suc, ◌+◌, ◌-◌, ◌^◌, List, [], ◌∷◌, ◌++◌, Option, none, some, ltb, if◌then◌else◌, length,
  map, take,
}
use sysmonitor.Base.Fallible.{◌>>=◌}
use sysmonitor.Base.Int.{ℤ, pos, negsuc, pos_part, neg_part, sub_ℕ}
use sysmonitor.Base.Text.{Bytes, codes, contains, is_space}
use sysmonitor.Base.Stdio.{next_word, next_int, skip_space}
use sysmonitor.LinuxMonitor.{
  Disk, Casts, get_diskinfo, get_meminfo, get_loadavg, get_tcp_connections, get_kernel_version,
  get_os_name, get_cpu_time, int_value, add_int, read_80,
}

-- A word of at most so many bytes, and what is left.
unfoldable pub word_upto : ℕ → Bytes → Bytes × Bytes
word_upto zero s = ([], s)
word_upto (suc n) [] = ([], [])
word_upto (suc n) (x ∷ s) =
    let (w, rest) = word_upto n s in if is_space x then ([], x ∷ s) else (x ∷ w, rest)

-- `%04s`: a width.
unfoldable pub next_upto : ℕ → Bytes → Option (Bytes × Bytes)
unfolding word_upto
next_upto n s = elim (skip_space s) [ [] ↦ none | x ∷ t ↦ some (word_upto n (x ∷ t)) ]

-- What a conversion makes of the variables: those behind one that fails keep what they hold. A word
-- goes into 32 bytes.
module _ {A : Type 0} where
  unfoldable pub on_word : Option (Bytes × Bytes) → A → (Bytes → Bytes → Option A) → Option A
  on_word none st k = some st
  on_word (some (w, rest)) st k = if ltb (length w) 32 then k w rest else none

  unfoldable pub on_int : Option (ℤ × Bytes) → A → (ℤ → Bytes → Option A) → Option A
  on_int none st k = some st
  on_int (some (n, rest)) st k = do v ← int_value n; k v rest

  -- So many `%s`, of which the words are not looked at.
  unfoldable pub skip_words : ℕ → Bytes → A → (Bytes → Option A) → Option A
  unfolding on_word
  skip_words zero s st k = k s
  skip_words (suc n) s st k = on_word (next_word s) st λ w rest. skip_words n rest st k

-- The variables of `get_disk_io`: `buf[2]` (none before it is set) and the two counts.
pub record DiskIo : Type 0 where
  pub name : Option Bytes
  pub read_num : ℤ
  pub write_num : ℤ

-- `sscanf(buffer, "%04s%08s%s %d %s %s %s %d %s %s %s %s %s %s", ...)`
unfoldable pub disk_line : Bytes → DiskIo → Option DiskIo
unfolding on_word on_int
disk_line line st = on_word (next_upto 4 line) st λ w0 s0. on_word (next_upto 8 s0) st λ w1 s1.
    on_word (next_word s1) st λ name s2.
      let st1 = record st { name = some name } in
      on_int (next_int s2) st1 λ read_num s3.
        let st2 = record st1 { read_num = read_num } in
        skip_words 3 s3 st2 λ s4. on_int (next_int s4) st2 λ write_num s5.
          let st3 = record st2 { write_num = write_num } in skip_words 6 s5 st3 λ s6. some st3

-- The loop over the lines.
unfoldable pub get_disk_io : List Bytes → DiskIo → ℤ → Option ℤ
get_disk_io [] st io_num = some io_num
get_disk_io (line ∷ lines) st io_num = do
  st' ← disk_line line st
  name ← st'.name
  if contains name (codes "da")
      then (do
        both ← add_int st'.read_num st'.write_num
        more ← add_int io_num both
        get_disk_io lines st' more)
      else get_disk_io lines st' io_num

-- The variables of `get_network_transfers`.
pub record Transfers : Type 0 where
  pub receive_bytes : ℕ
  pub transmit_bytes : ℕ

-- `%d` into a long that was 0, or that an earlier `%d` has filled: the four low bytes.
low_bytes : ℤ → ℕ
low_bytes (pos n) = n
low_bytes (negsuc n) = 2 ^ 32 - suc n

-- `sscanf(buffer, "%s %d %s %s %s %s %s %s %d %s", ...)`
unfoldable pub net_line : Bytes → Transfers → Option Transfers
unfolding on_word on_int low_bytes
net_line line st = skip_words 1 line st λ s0. on_int (next_int s0) st λ received s1.
    let st1 = record st { receive_bytes = low_bytes received } in
    skip_words 6 s1 st1 λ s2. on_int (next_int s2) st1 λ sent s3.
      let st2 = record st1 { transmit_bytes = low_bytes sent } in skip_words 1 s3 st2 λ s4. some st2

unfoldable pub get_network_transfers : List Bytes → Transfers → ℕ → Option ℕ
get_network_transfers [] st bytes = some bytes
get_network_transfers (line ∷ lines) st bytes =
    if contains line (codes "eth")
    then (do
      st' ← net_line line st
      get_network_transfers lines st' (bytes + (st'.receive_bytes + st'.transmit_bytes)))
    else get_network_transfers lines st bytes

-- Floats, as a parameter: `%f` of `sscanf`, and `"%.2f"` of a percentage of floats and of ints.
pub record Floats : Type 1 where
  pub Float : Type 0
  pub next_float : Bytes → Option (Float × Bytes)
  pub percentage : Float → Float → Bytes
  pub percentage_int : ℤ → ℤ → Bytes

-- The files that are read twice.
pub record Sample : Type 0 where
  pub diskstats : List Bytes
  pub stat : Bytes
  pub net_dev : List Bytes

-- A value that is appended.
pub data Item : Type 0 where
  number : ℤ → Item
  text : Bytes → Item
  disks : List Disk → Item

unfoldable sub_int : ℤ → ℤ → Option ℤ
sub_int a b = int_value (sub_ℕ (pos_part a + neg_part b) (neg_part a + pos_part b))

-- The counts of one sample.
pub record Counts : Type 0 where
  pub disk_io : ℤ
  pub cpu_all_time : ℤ
  pub cpu_idle : ℤ
  pub network_transfers : ℕ

unfoldable pub take_sample : Sample → Option Counts
take_sample s = do
  io ← get_disk_io s.diskstats (record { name = none; read_num = pos 0; write_num = pos 0 }) (pos 0)
  (all_time, idle) ← get_cpu_time s.stat
  bytes ← get_network_transfers s.net_dev (record { receive_bytes = 0; transmit_bytes = 0 }) 0
  some
      (record { disk_io = io; cpu_all_time = all_time; cpu_idle = idle; network_transfers = bytes })

module _ (F : Floats) where
  unfoldable pub get_monitor_data_sec : Sample → Sample → Option (List Item)
  unfolding sub_int
  get_monitor_data_sec first second = do
    a ← take_sample first
    b ← take_sample second
    io ← sub_int b.disk_io a.disk_io
    all_time ← sub_int b.cpu_all_time a.cpu_all_time
    idle ← sub_int b.cpu_idle a.cpu_idle
    busy ← sub_int all_time idle
    some (
        number io
        ∷ number (sub_ℕ b.network_transfers a.network_transfers)
        ∷ text (take 9 (F.percentage_int busy all_time))
        ∷ [])

  -- none is a float that no conversion has set.
  unfoldable pub get_systemtime : Bytes → Option Bytes
  get_systemtime file = do
    s ← read_80 file
    (alltime, s1) ← F.next_float s
    (idletime, s2) ← F.next_float s1
    some (take 29 (F.percentage idletime alltime))

-- The files under /proc during one call of `write`.
pub record Proc : Type 0 where
  pub partitions : List Bytes
  pub meminfo : List Bytes
  pub loadavg : Bytes
  pub sockstat : List Bytes
  pub first : Sample
  pub second : Sample
  pub version : Bytes
  pub ostype : Bytes
  pub uptime : Bytes

-- `write`: the values that it appends; `buf` is what the memory of `get_diskinfo` held.
unfoldable pub write : Floats → Casts → List Bytes → Proc → Option (List Item)
write F C buf p = do
  drives ← get_diskinfo buf p.partitions
  mem ← get_meminfo C p.meminfo (record { content = []; vmalloctotal_kb = none; appended = [] })
  load ← get_loadavg p.loadavg
  tcp ← get_tcp_connections p.sockstat
  rates ← get_monitor_data_sec F p.first p.second
  version ← get_kernel_version p.version
  os_name ← get_os_name p.ostype
  systemtime ← get_systemtime F p.uptime
  some (
      (disks drives ∷ map number mem.appended)
      ++ (number (pos 0)
          ∷ text load
          ∷ number (pos 0)
          ∷ number (pos 0)
          ∷ number (pos 0)
          ∷ number tcp
          ∷ [])
      ++ rates
      ++ (text version ∷ text os_name ∷ text systemtime ∷ []))

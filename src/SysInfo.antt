-- ===== src/SysInfo.antt =====
-- `CSysInfo` of SysMonitor/monitor_system.cpp: the drives, the memory and the performance counters
-- of a Windows machine.
pub mod Adds
pub mod Counters
pub mod Drives
pub mod Web
pub mod Tests
use sysmonitor.Base.{
  ℕ, zero, suc, ◌+◌, ◌*◌, ◌/◌, Bool, true, false, ◌&&◌, List, [], ◌∷◌, ◌++◌, Option, none, some,
  ltb, if◌then◌else◌, get_elem?, length, take, drop,
}
use sysmonitor.Base.Count.{count, remove}
use sysmonitor.Base.Fallible.{◌>>=◌}
use sysmonitor.Base.Text.{Bytes, c_string}
use sysmonitor.Monitor.Number.{add_json_key_value}

-- The PDH library during one call of `WriteCounterVaule`, as a parameter: whether `PdhOpenQuery`
-- succeeds, `PdhAddCounter` of the counter with that number and name, the first
-- `PdhCollectQueryData`, and the text that `_gcvt` writes of a counter's value (none if
-- `PdhGetFormattedCounterValue` fails).
pub record Pdh : Type 0 where
  pub opens : Bool
  pub adds : ℕ → Bytes → Bool
  pub collects : Bool
  pub value : ℕ → Option Bytes

-- What the process holds: the blocks of `GlobalAlloc`, by number, the next number, the blocks whose
-- counter is in the query, and whether the query is open.
pub record Held : Type 0 where
  pub blocks : List ℕ
  pub next : ℕ
  pub counters : List ℕ
  pub query : Bool

alloc : Held → Held
alloc h = record h { blocks = h.next ∷ h.blocks; next = h.next + 1 }

-- `PdhRemoveCounter` and `GlobalFree`; none if the counter is not in the query, or the block is
-- not allocated.
release : ℕ → Held → Option Held
release b h =
    if ltb 0 (count b h.counters) && ltb 0 (count b h.blocks)
    then some (record h { counters = remove b h.counters; blocks = remove b h.blocks })
    else none

-- The loop behind `Cleanup`.
unfoldable pub cleanup : List ℕ → Held → Option Held
unfolding release
cleanup [] h = some h
cleanup (b ∷ vt) h = do h' ← release b h; cleanup vt h'

module _ (P : Pdh) where
  -- The loop that adds the counters from `i` on, `n` of them: whether it ends without a `goto`,
  -- `vt_hcounter`, and what is held. `none` is a name outside the list.
  unfoldable pub add_counters : List Bytes → ℕ → ℕ → List ℕ → Held → Option (Bool × List ℕ × Held)
  unfolding alloc
  add_counters names i zero vt h = some (true, vt, h)
  add_counters names i (suc n) vt h = elim (get_elem? names i) [
    | none ↦ none
    | some name ↦
        if P.adds i name
        then add_counters names (suc i) n (vt ++ h.next ∷ [])
            (record (alloc h) { counters = h.next ∷ h.counters })
        else some (false, vt, alloc h)
  ]

  -- The loop over the values from `j` on: what it appends until a value cannot be had.
  unfoldable pub append_values : ℕ → List ℕ → Option (List Bytes)
  append_values j [] = some []
  append_values j (b ∷ vt) = elim (P.value j) [
    | none ↦ some []
    | some json_data ↦ do
      text ← add_json_key_value json_data
      rest ← append_values (suc j) vt
      some (text ∷ rest)
  ]

  -- Behind the loop that adds: the second collection's result is not looked at.
  sampled : Bool → List ℕ → Option (List Bytes)
  sampled added vt = if added && P.collects then append_values 0 vt else some []

  -- `WriteCounterVaule`: the texts that it appends, and what is held behind it.
  unfoldable pub write_counter_vaule : ℕ → List Bytes → Held → Option (List Bytes × Held)
  unfolding sampled
  write_counter_vaule counter_num names h =
      if P.opens
      then (do
        (added, vt, h1) ← add_counters names 0 counter_num [] (record h { query = true })
        texts ← sampled added vt
        h2 ← cleanup vt h1
        some (texts, record h2 { query = false }))
      else some ([], h)

-- What the system tells of the machine, as a parameter: the buffer of `GetLogicalDriveStrings`,
-- whether a drive is fixed, its total and free kilobytes as `_gcvt` writes them (none if
-- `GetDiskFreeSpaceEx` fails), and the texts of the four sizes of memory.
pub record Machine : Type 0 where
  pub drive_strings : Bytes
  pub is_fixed : Bytes → Bool
  pub disk_space : Bytes → Option (Bytes × Bytes)
  pub memory : List Bytes

-- A value that is appended.
pub data Item : Type 0 where
  text : Bytes → Item
  disks : List (List Bytes) → Item

-- `AddJsonKeyValue` for each text.
unfoldable pub add_texts : List Bytes → Option (List Bytes)
add_texts [] = some []
add_texts (t ∷ ts) = do t' ← add_json_key_value t; ts' ← add_texts ts; some (t' ∷ ts')

module _ (M : Machine) where
  -- The row of a drive, if it has one.
  unfoldable pub drive_rows : Bytes → Option (List (List Bytes))
  drive_rows strdriver =
      if M.is_fixed strdriver
      then elim (M.disk_space strdriver) [
        | none ↦ some []
        | some (total, free) ↦ do
          row ← add_texts (take 1 strdriver ∷ total ∷ free ∷ [])
          some (row ∷ [])
      ]
      else some []

  -- The loop over the drives from `i` on, `n` of them.
  unfoldable pub disk_data : ℕ → ℕ → Option (List (List Bytes))
  disk_data i zero = some []
  disk_data i (suc n) = do
    strdriver ← c_string (drop (i * 4) M.drive_strings)
    rows ← drive_rows strdriver
    rest ← disk_data (suc i) n
    some (rows ++ rest)

texts : List Bytes → List Item
texts [] = []
texts (t ∷ ts) = text t ∷ texts ts

-- `write`, with the configured counters and the version and name of the system.
unfoldable pub write :
    Machine → Pdh → ℕ → List Bytes → Bytes → Bytes → Held → Option (List Item × Held)
unfolding texts
write M P counter_num names os_version os_name h = do
  drives ← disk_data M 0 (length M.drive_strings / 4)
  memory ← add_texts M.memory
  (counters, h') ← write_counter_vaule P counter_num names h
  some (disks drives ∷ texts (memory ++ counters ++ os_version ∷ os_name ∷ []), h')

-- ===== src/Monitor.antt =====
-- SysMonitor/monitor_system.h and monitor_system.cpp: the table of monitor objects. Each class of
-- monitors has one object, which `get_instance` makes.
pub mod Number
pub mod Slots
pub mod Destroy
pub mod Process
pub mod Message
pub mod Pipe
pub mod Counts
pub mod Tests
use sysmonitor.Base.{
  ℕ, zero, suc, ◌+◌, Bool, true, false, ◌&&◌, List, [], ◌∷◌, Option, none, some, ◌==◌, ltb,
  if◌then◌else◌, replicate, set, length, get_elem?,
}
use sysmonitor.Base.Int.{ℤ, pos, negsuc}

-- The classes of the builds that the project makes: those of Oracle are left out.
pub data Monitor : Type 0 where
  sys_info : Monitor
  mysql : Monitor
  mssql : Monitor
  web : Monitor
  process : Monitor
  linux_sysinfo : Monitor
  ndb : Monitor

-- The numbers of the types, as in the configuration.
unfoldable pub type_number : Monitor → ℕ
type_number sys_info = 1
type_number mysql = 2
type_number mssql = 3
type_number web = 5
type_number process = 6
type_number linux_sysinfo = 7
type_number ndb = 9

abbrev pub Slots : Type 0
Slots = List (Option Monitor)

-- One test of `ConcreteMonitor`; the last that holds decides.
unfoldable pub concrete_if : ℤ → Monitor → ℕ → Slots → Slots
concrete_if (negsuc t) m index slots = slots
concrete_if (pos t) m index slots = if t == type_number m then set slots index (some m) else slots

unfoldable pub windows_monitors : ℤ → ℕ → Slots → Slots
windows_monitors t index slots =
    concrete_if t mssql index (concrete_if t process index (concrete_if t sys_info index slots))

unfoldable pub concrete_monitor : Bool → ℕ → ℤ → Slots → Slots
concrete_monitor win32 index t slots =
    let slots' = (if win32 then windows_monitors t index slots else slots) in
    concrete_if t ndb index (
      concrete_if t web index
        (concrete_if t linux_sysinfo index (concrete_if t mysql index slots')))

-- The loop of the constructor of CProtocolManage from `i` on.
unfoldable pub concrete_from : Bool → ℕ → List ℤ → Slots → Slots
concrete_from win32 i [] slots = slots
concrete_from win32 i (t ∷ ts) slots =
    concrete_from win32 (suc i) ts (concrete_monitor win32 i t slots)

-- `vector.resize(OBJECT_NUM)`, and the loop.
unfoldable pub build_monitor : Bool → List ℤ → Slots
build_monitor win32 types = concrete_from win32 0 types (replicate 7 none)

-- `none` is an index outside the vector.
unfoldable pub get_monitor_obj : Slots → ℕ → Option (Option Monitor)
get_monitor_obj slots index = get_elem? slots index

unfoldable pub is_deleted : Monitor → List Monitor → Bool
is_deleted m [] = false
is_deleted m (d ∷ ds) =
    let rest = is_deleted m ds in if type_number m == type_number d then true else rest

-- The destructor: `deleted` are the objects that it has deleted, latest first. `none` is the
-- deletion of an object that is no more.
unfoldable pub delete_slots : Slots → List Monitor → Option (List Monitor)
delete_slots [] deleted = some deleted
delete_slots (none ∷ slots) deleted = delete_slots slots deleted
delete_slots (some m ∷ slots) deleted =
    let rest = delete_slots slots (m ∷ deleted) in if is_deleted m deleted then none else rest

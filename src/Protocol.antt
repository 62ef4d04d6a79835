-- ===== src/Protocol.antt =====
-- SysMonitor/protocol_manage.h and protocol_manage.cpp: the queue of snapshots and the words
-- that a client sends to read them.
pub mod Writer
pub mod Queue
pub mod Read
pub mod Threads
pub mod Tests
use sysmonitor.Base.{
  ℕ, zero, suc, ◌+◌, ◌-◌, ◌≡◌, refl, Bool, true, false, ◌&&◌, List, [], ◌∷◌, ◌++◌, Option, none,
  some, ltb, leb, ◌==◌, if◌then◌else◌, length, drop, take,
}
use sysmonitor.Base.Text.{Bytes, codes, strcmp_eq}
use sysmonitor.Protocol.Writer.{Json}

unfoldable pub check_word : Bytes
check_word = codes "sysmonitor"

unfoldable pub check_error : Bytes
check_error = codes "check error."

unfoldable pub deal_ndb_operation : Bytes
deal_ndb_operation = codes "ignore"

pub record Protocol : Type 0 where
  pub checked : Bool
  pub list_buf : List Bytes

-- The constructor.
unfoldable pub new_protocol : Protocol
new_protocol = record { checked = false; list_buf = [] }

-- What a call of `read` leaves in the caller's buffer, the count it returns, and whether it has
-- called `reset_log_status` of the ndb monitor.
pub record Reply : Type 0 where
  pub count : ℕ
  pub buf : Bytes
  pub resets : Bool

get_last_buf : Bool → Protocol → Reply × Protocol
get_last_buf resets p = elim p.list_buf [
  | [] ↦ (record { count = 0; buf = []; resets = resets }, p)
  | first ∷ rest ↦ (
    record { count = length first + 1; buf = first; resets = resets },
    record p { list_buf = rest },
  )
]

-- With `HAS_NDB`; `has_ndb` says that there is a monitor object 6.
unfoldable pub read : Bool → Bytes → Protocol → Reply × Protocol
unfolding get_last_buf
read has_ndb word p =
    if strcmp_eq word check_word
    then get_last_buf false (record p { checked = true })
    else if strcmp_eq word deal_ndb_operation
    then get_last_buf has_ndb p
    else (record { count = length check_error + 1; buf = check_error; resets = false }, p)

unfoldable pub rset_list_buf : ℕ → List Bytes → List Bytes
rset_list_buf limit_size q =
    if leb limit_size (length q) && ltb 5 (length q) then drop (length q - 5) q else q

-- `rfind("\n")`
rfind_newline : Bytes → Option ℕ
rfind_newline [] = none
rfind_newline (x ∷ s) = elim (rfind_newline s) [
  | none ↦ if x == 10 then some 0 else none
  | some i ↦ some (suc i)
]

-- `strJsonData.replace(found, 2, "")`
unfoldable pub trim_newline : Bytes → Bytes
unfolding rfind_newline
trim_newline s = elim (rfind_newline s) [ none ↦ s | some i ↦ take i s ++ drop (i + 2) s ]

-- The loop of `write`: each monitor object, where there is one, fills an array of its own.
unfoldable pub collect : (J : Json) → List (Option (J.Value → J.Value)) → J.Value → J.Value
collect J [] last = last
collect J (none ∷ ms) last = collect J ms (J.append last J.empty_array)
collect J (some fill ∷ ms) last = collect J ms (J.append last (fill J.empty_array))

unfoldable pub snapshot : (J : Json) → List (Option (J.Value → J.Value)) → Bytes
unfolding collect
snapshot J monitors = trim_newline (J.write (collect J monitors J.null))

-- `write`: the count it returns, and the object. The line of the log that it writes last is in
-- `handle` of Server.antt, with the faults that it may have.
unfoldable pub write : (J : Json) → List (Option (J.Value → J.Value)) → Protocol → ℕ × Protocol
write J monitors p =
    let s = snapshot J monitors in
    (length s + 1, record p { list_buf = rset_list_buf 10 p.list_buf ++ s ∷ [] })

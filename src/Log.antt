-- ===== src/Log.antt =====
-- `WriteLog` of SysMonitor/func.h: the file it appends to, and what it appends. `none` is a write
-- outside a buffer, or a text that `sprintf_s` of WIN32 refuses.
pub mod Writes
pub mod Fits
pub mod Tests
use sysmonitor.Base.{
  ℕ, zero, suc, ◌+◌, ◌-◌, ◌*◌, ◌/◌, ◌%◌, Bool, true, false, List, [], ◌∷◌, ◌++◌, Option, none, some,
  ltb, ◌==◌, if◌then◌else◌, length, take, get_or, replicate,
}
use sysmonitor.Base.Fallible.{◌>>=◌}
use sysmonitor.Base.Int.{ℤ, pos, negsuc}
use sysmonitor.Base.Text.{Bytes, codes, c_string}
use sysmonitor.Base.Stdio.{digits}
use sysmonitor.Paths.{max_path, Time, get_current_path}

-- `%0<w>d`
with_zeros : ℕ → ℕ → Bytes
unfolding digits
with_zeros w n = let d = digits 10 n in replicate (w - length d) 48 ++ d

hex_digit : ℕ → ℕ
hex_digit d = if ltb d 10 then 48 + d else 55 + d

-- `%0<w>X`, for a number of at most `w` digits.
hex : ℕ → ℕ → Bytes
unfolding hex_digit
hex zero n = []
hex (suc w) n = hex w (n / 16) ++ hex_digit (n % 16) ∷ []

-- `sprintf_s` or `strcpy` of a text to a buffer of so many bytes.
unfoldable pub fits : ℕ → Bytes → Option Bytes
fits size s = if ltb (length s) size then some s else none

-- `szPrefix`
unfoldable pub file_prefix : Bool → Bytes → Option Bytes
unfolding fits
file_prefix win32 [] = some (codes "DB")
file_prefix win32 (x ∷ p) = if win32 then fits 32 (x ∷ p) else some (take 31 (x ∷ p))

-- The loop over `path` from its end down: what is in front of the last `\`.
unfoldable pub folder_of : ℕ → Bytes → Bytes
folder_of zero path = path
folder_of (suc loop) path =
    let rest = folder_of loop path in if get_or path loop 0 == 92 then take loop path else rest

-- The prefix and the date.
unfoldable pub dated : Bytes → Time → Bytes
unfolding with_zeros
dated prefix t =
    prefix ++ with_zeros 4 t.year ++ with_zeros 2 t.month ++ with_zeros 2 t.day ++ codes ".log"

-- `szFileName`; `path` is what the system gives for the program, as in `get_current_path`.
unfoldable pub log_file : Bool → Bytes → Time → Bytes → Option Bytes
unfolding file_prefix folder_of dated fits max_path
log_file win32 prefix t path =
    if win32
    then (do
      shown ← file_prefix win32 prefix
      let whole = take 255 path
      let folder = folder_of (length whole) whole
      log_folder ← fits 256 (folder ++ codes "\\log")
      fits max_path (log_folder ++ codes "\\" ++ dated shown t))
    else (do
      shown ← file_prefix win32 prefix
      buf ← get_current_path win32 path (replicate 256 0) (take (max_path - 1) (dated shown t))
      s ← c_string buf
      fits max_path s)

-- The time and the thread.
unfoldable pub stamp : Bool → Time → ℕ → Bytes
unfolding with_zeros hex digits
stamp win32 t thread =
    let day = with_zeros 4 t.year ++ 45 ∷ (with_zeros 2 t.month ++ 45 ∷ with_zeros 2 t.day) in
    let clock = with_zeros 2 t.hour ++ 58 ∷ (with_zeros 2 t.minute ++ 58 ∷ with_zeros 2 t.second) in
    let millis = if win32 then 46 ∷ with_zeros 3 t.milliseconds else [] in
    let id = if win32 then hex 8 thread else digits 10 thread in
    day ++ 47 ∷ (clock ++ millis ++ 91 ∷ (id ++ codes "]--"))

-- `szMessage`, a buffer of 100 KB, whose last two bytes `sprintf_s` leaves to the line's end.
unfoldable pub message : Bool → Time → ℕ → Bytes → Option Bytes
unfolding fits stamp
message win32 t thread value = do
  line ← fits (100 * 1024 - 2) (stamp win32 t thread ++ take (100 * 1024 - 1) value)
  some (line ++ 13 ∷ 10 ∷ [])

-- Nothing, or the file's name and what is appended to it. `value` is the text that the format
-- stands for, and `opens` tells whether `fopen` opens a file.
unfoldable pub write_log :
    Bool → (Bytes → Bool) → ℤ → Bytes → Bytes → Time → ℕ → Bytes → Option (Option (Bytes × Bytes))
unfolding log_file message
write_log win32 opens (negsuc n) prefix value t thread path = some none
write_log win32 opens (pos zero) prefix value t thread path = some none
write_log win32 opens (pos (suc n)) prefix value t thread path = do
  file ← log_file win32 prefix t path
  if opens file
      then (do text ← message win32 t thread value; some (some (file, text)))
      else some none

-- What the calls of `WriteLog` find: the platform, the files, the flag of the configuration, the
-- time at each call, the thread, and the program's path.
pub record Logger : Type 0 where
  pub win32 : Bool
  pub opens : Bytes → Bool
  pub log_flag : ℤ
  pub clock : ℕ → Time
  pub thread : ℕ
  pub path : Bytes

-- The `i`th call from now on, with the file that is named by LOGFILENAME.
unfoldable pub log : Logger → ℕ → ℤ → Bytes → Option (Option (Bytes × Bytes))
log l i level value =
    write_log l.win32 l.opens level (codes "sysmonitor") value (l.clock i) l.thread l.path

-- The log past `n` calls.
unfoldable pub past : ℕ → Logger → Logger
past n l = record l { clock = λ i. l.clock (n + i) }

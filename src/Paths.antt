-- ===== src/Paths.antt =====
-- `GetCurrentPath` and `GetFormatSystemTime` of SysMonitor/func.cpp: the path of a file beside the
-- program, and the text of a time. `none` is a read or a write outside a buffer.
pub mod Beside
pub mod Tests
use sysmonitor.Base.{
  ℕ, zero, suc, ◌+◌, Bool, List, [], ◌∷◌, ◌++◌, Option, none, some, ◌==◌, if◌then◌else◌, length,
  take, drop, set, get_or, ◌-◌,
}
use sysmonitor.Base.Fallible.{◌>>=◌}
use sysmonitor.Base.Text.{Bytes, codes, c_string}
use sysmonitor.Base.Stdio.{digits}
use sysmonitor.Port
use sysmonitor.Port.{put_nul}

unfoldable pub max_path : ℕ
max_path = 260

-- `\` with WIN32, and `/`.
unfoldable pub separator : Bool → ℕ
separator win32 = if win32 then 92 else 47

-- The buffer once the program's path is in it: `GetModuleFileName`, or `read` of
-- /proc/<pid>/cmdline and the NUL at MAX_PATH.
unfoldable pub read_path : Bool → Bytes → List ℕ → Option (List ℕ)
unfolding max_path
read_path win32 path buf =
    if win32
    then Port.write buf (take (max_path - 1) path ++ 0 ∷ [])
    else put_nul max_path (Port.write buf (take 256 path))

-- The loop from the end of the text, at `i`: the offset behind the separator.
unfoldable pub cut_back : ℕ → ℕ → List ℕ → Option (ℕ × List ℕ)
cut_back sep zero buf = none
cut_back sep (suc i) buf =
    let buf' = set buf (suc i) 0 in
    let rest = cut_back sep i buf' in if get_or buf' i 0 == sep then some (suc i, buf') else rest

-- `memcpy(p, pFileName, strlen(pFileName))`
unfoldable pub put_at : ℕ → Bytes → List ℕ → Option (List ℕ)
put_at p s buf = do tail ← Port.write (drop p buf) s; some (take p buf ++ tail)

-- What the buffer holds behind `GetCurrentPath`.
unfoldable pub get_current_path : Bool → Bytes → List ℕ → Bytes → Option (List ℕ)
get_current_path win32 path buf file_name = do
  filled ← read_path win32 path buf
  text ← c_string filled
  (p, cut) ← cut_back (separator win32) (length text) filled
  put_at p file_name cut

-- The fields of `struct tm` or of `SYSTEMTIME`, of which milliseconds are there with WIN32 alone.
pub record Time : Type 0 where
  pub year : ℕ
  pub month : ℕ
  pub day : ℕ
  pub hour : ℕ
  pub minute : ℕ
  pub second : ℕ
  pub milliseconds : ℕ

-- The text in `current_time`, cut where the buffer of `str_len` bytes ends, and what is returned.
unfoldable pub get_format_system_time : Bool → Time → ℕ → Bytes × ℕ
unfolding digits
get_format_system_time win32 t str_len =
    let day = digits 10 t.year ++ digits 10 t.month ++ digits 10 t.day in
    let clock = digits 10 t.hour ++ 58 ∷ (digits 10 t.minute ++ 58 ∷ digits 10 t.second) in
    let millis = if win32 then 46 ∷ digits 10 t.milliseconds else [] in
    let text = take (str_len - 1) (day ++ 32 ∷ (clock ++ millis)) in (text, length text + 1)

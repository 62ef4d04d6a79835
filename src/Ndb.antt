-- ===== src/Ndb.antt =====
-- SysMonitor/ndb_monitor.h and ndb_monitor.cpp: the state that a thread keeps of one log file.
-- `none` is a line of fewer than four words, or one that ends at its fourth, where the code reads
-- what its buffers happen to hold, and a word that is longer than its buffer.
pub mod Latch
pub mod Table
pub mod Blocking
pub mod Tests
use sysmonitor.Base.{
  ℕ, zero, suc, ◌+◌, ◌-◌, Bool, true, false, not, ◌&&◌, ◌||◌, List, [], ◌∷◌, ◌++◌, map, Option,
  none, some, ltb, leb, ◌==◌, if◌then◌else◌, length, drop,
}
use sysmonitor.Base.Fallible.{◌>>=◌}
use sysmonitor.Base.Text.{Bytes, codes, text, is_space, contains}
use sysmonitor.Base.Stdio.{next_word, fgets}
use sysmonitor.Protocol.{trim_newline}

pub log_normal : ℕ
log_normal = 0

pub log_warning : ℕ
log_warning = 1

pub log_error : ℕ
log_error = 2

pub read_line_num : ℕ
read_line_num = 100

pub record LogState : Type 0 where
  pub file_size : ℕ
  pub file_pos : ℕ
  pub log_status : ℕ
  pub log_err_msg : Bytes
  pub file_name : Bytes
  pub b_reset_status : Bool

-- `%s` into a buffer of 500 bytes: the word and its NUL.
word_500 : Bytes → Option (Bytes × Bytes)
unfolding next_word
word_500 s = do (w, rest) ← next_word s; if ltb (length w) 500 then some (w, rest) else none

-- The lengths of the first three words, and the fourth.
fields : Bytes → Option (ℕ × Bytes)
unfolding word_500
fields s = do
  (date, s1) ← word_500 s
  (time, s2) ← word_500 s1
  (other, s3) ← word_500 s2
  (tag, s4) ← word_500 s3
  some (length date + 1 + length time + 1 + length other + 1, tag)

upper : ℕ → ℕ
upper c = if leb b'a' c && leb c b'z' then c - 32 else c

pub strupr : Bytes → Bytes
unfolding upper
strupr = map upper

-- The status that a line sets, if it sets one.
alarm : Bytes → ℕ → Option ℕ
unfolding log_error log_warning
alarm tag status =
    let warns =
      (contains tag (codes "WARNING") || contains tag (codes "ALERT"))
      && not (status == log_error) in
    if contains tag (codes "ERROR")
    then some log_error
    else if warns
    then some log_warning
    else none

-- The block `if (b_update_errmsg)`.
raise : ℕ → Bytes → LogState → LogState
raise status msg st =
    if st.b_reset_status
    then record st { log_err_msg = []; log_status = 0; b_reset_status = false }
    else record st { log_status = status; log_err_msg = msg }

-- One line that `fgets` has read.
scan_line : Bytes → LogState → Option LogState
unfolding fields strupr alarm raise
scan_line buf st = do
  (before, tag) ← fields buf
  elim (alarm (strupr tag) st.log_status) [
    | none ↦ some st
    | some status ↦
        let at = before + length tag + 1 in
        if ltb (length buf) at then none else some (raise status (trim_newline (drop at buf)) st)
  ]

-- `sizeof(buf) - 1`
line_bytes : ℕ
line_bytes = 999

-- The loop over at most so many lines; what is left of the file.
scan_lines : ℕ → Bytes → LogState → Option (LogState × Bytes)
unfolding scan_line fgets
scan_lines zero s st = some (st, s)
scan_lines (suc n) [] st = some (st, [])
scan_lines (suc n) (x ∷ s) st = elim (scan_line (text (fgets line_bytes (x ∷ s)).0) st) [
  | none ↦ none
  | some st' ↦ scan_lines n (fgets line_bytes (x ∷ s)).1 st'
]

-- `scan_log`, on the file's bytes; none if it cannot be opened.
unfoldable pub scan_log : Option Bytes → LogState → Option LogState
unfolding scan_lines read_line_num line_bytes
scan_log none st = some st
scan_log (some file) st = do
  (st', rest) ← scan_lines read_line_num (drop st.file_pos file) st
  some (record st' { file_pos = st.file_pos + (length (drop st.file_pos file) - length rest) })

pub reset_log_status : LogState → LogState
reset_log_status st = record st { log_err_msg = []; log_status = 0; b_reset_status = true }

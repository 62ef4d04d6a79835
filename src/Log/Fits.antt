-- ===== src/Log/Fits.antt =====
-- The calls of `WriteLog` that stay inside their buffers.
use sysmonitor.Base.{
  ℕ, zero, suc, ◌+◌, ◌≤◌, ◌<◌, ◌≡◌, refl, true, false, [], ◌∷◌, ◌++◌, none, some, Option, arith,
  length, Bool-cases, inl, inr, length-append,
}
use sysmonitor.Base.Int.{ℤ, pos, negsuc}
use sysmonitor.Base.Text.{Bytes, Lacks, codes}
use sysmonitor.Log.{dated, stamp, write_log, Logger, log, past}
use sysmonitor.Log.Writes.{log_file-fits, message-fits, log_file-over}

-- The name of the log file in the folder log of `dir`, and the time in front of a line, are within
-- their buffers, at whatever time.
abbrev pub Named : Logger → Bytes → Type 0
Named l dir =
    (length (dir ++ codes "\\log") < 256)
    × ((i : ℕ)
        → length ((dir ++ codes "\\log") ++ codes "\\" ++ dated (codes "sysmonitor") (l.clock i))
          < 260)
    × ((i : ℕ) → length (stamp true (l.clock i) l.thread) ≤ 100)

-- A program with WIN32 that stands in a folder whose name leaves room for the log's.
abbrev pub LogFits : Logger → Type 0
LogFits l =
    (l.win32 ≡ true)
    × ((dir : Bytes) × (prog : Bytes) × (l.path ≡ dir ++ 92 ∷ prog)
        × Lacks 92 prog
        × (length (dir ++ 92 ∷ prog) ≤ 255)
        × Named l dir)

pub past-LogFits : (n : ℕ) (l : Logger) → LogFits l → LogFits (past n l)
unfolding past
past-LogFits n l (w, (dir, prog, e, h, short, (f, name, line))) =
    (w, (dir, prog, e, h, short, (f, (λ i. name (n + i)), (λ i. line (n + i)))))

pub log-fits :
    (l : Logger) (i : ℕ) (level : ℤ) (value : Bytes)
    → LogFits l
    → length value ≤ 100000
    → (w : Option (Bytes × Bytes)) × (log l i level value ≡ some w)
unfolding log write_log
log-fits l i (negsuc n) value h v = (none, refl)
log-fits l i (pos zero) value h v = (none, refl)
log-fits l i (pos (suc n)) value (w, (dir, prog, e, lacks, short, (f, name, line))) v =
    let t = l.clock i in
    let file = (dir ++ codes "\\log") ++ codes "\\" ++ dated (codes "sysmonitor") t in
    let named =
      log_file-fits 115 (codes "ysmonitor") t dir prog lacks short (omega arith) f (name i) in
    let size = length-append (stamp true t l.thread) value in
    let text = message-fits true t l.thread value (omega (arith, v, line i, size)) in
    elim (Bool-cases (l.opens file)) [
      | inl o ↦ (
        some (file, (stamp true t l.thread ++ value) ++ 13 ∷ 10 ∷ []),
        rw (w, e, named, o) (rw text refl),
      )
      | inr o ↦ (none, rw (w, e, named, o) refl)
    ]

-- Without WIN32 each call of a level above 0 writes outside its buffer.
pub log-over :
    (l : Logger) (i n : ℕ) (value : Bytes) → l.win32 ≡ false → log l i (pos (suc n)) value ≡ none
unfolding log write_log
log-over l i n value w = rw (w, log_file-over 115 (codes "ysmonitor") (l.clock i) l.path) refl

-- ===== src/Log/Writes.antt =====
-- What `WriteLog` appends, and to which file.
use sysmonitor.Base.{
  ℕ, zero, suc, ◌+◌, ◌-◌, ◌≤◌, ◌<◌, ◌≡◌, refl, ap, ◌∙◌, Bool, true, false, [], ◌∷◌, ◌++◌, none,
  some, arith, ◌==◌, length, take, get_or, ltb, get_or-append_at, take-all, length-append,
  take-append_at, length-replicate, replicate,
}
use sysmonitor.Base.Int.{pos}
use sysmonitor.Base.Fallible.{◌>>=◌}
use sysmonitor.Base.Text.{Bytes, Lacks, codes, c_string}
use sysmonitor.Paths.{Time, max_path}
use sysmonitor.Paths.Beside.{get_current_path-over}
use sysmonitor.Log.{file_prefix, fits, folder_of, dated, log_file, stamp, message, write_log}

Lacks-get_or : (c : ℕ) (s : Bytes) (n : ℕ) → Lacks c s → n < length s → (get_or s n 0 == c) ≡ false
Lacks-get_or c [] n h l = absurd (omega (arith, l))
Lacks-get_or c (x ∷ s) zero h l = ground (arith, h.0)
Lacks-get_or c (x ∷ s) (suc n) h l = Lacks-get_or c s n h.1 (omega (arith, l))

get_or-behind : (s t : Bytes) (x n : ℕ) → get_or (s ++ x ∷ t) (suc (length s + n)) 0 ≡ get_or t n 0
get_or-behind [] t x n = ap (λ i. get_or (x ∷ t) (suc i) 0) (omega arith)
get_or-behind (y ∷ s) t x n =
    ap (λ i. get_or (s ++ x ∷ t) i 0) (omega arith) ∙ get_or-behind s t x n

-- The loop finds the last `\`.
folder_of-cut :
    (dir prog : Bytes) (n : ℕ)
    → Lacks 92 prog
    → n ≤ length prog
    → folder_of (suc (length dir + n)) (dir ++ 92 ∷ prog) ≡ dir
unfolding folder_of
folder_of-cut dir prog zero h l =
    let k : length dir + 0 ≡ length dir = omega arith in
    let found : (get_or (dir ++ 92 ∷ prog) (length dir) 0 == 92) ≡ true =
      let at = get_or-append_at dir prog 92 0 (length dir) refl in ground (arith, at) in
    rw (k, found) (take-append_at dir (92 ∷ prog) (length dir) refl)
folder_of-cut dir prog (suc n) h l =
    let k : length dir + suc n ≡ suc (length dir + n) = omega arith in
    let other : (get_or (dir ++ 92 ∷ prog) (suc (length dir + n)) 0 == 92) ≡ false =
      rw (get_or-behind dir prog 92 n) (Lacks-get_or 92 prog n h (omega (arith, l))) in
    rw (k, other) (folder_of-cut dir prog n h (omega (arith, l)))

pub fits-some : (n : ℕ) (s : Bytes) → length s < n → fits n s ≡ some s
unfolding fits
fits-some n s h = let t : ltb (length s) n ≡ true = ground (arith, h) in rw t refl

pub message-fits :
    (win32 : Bool) (t : Time) (thread : ℕ) (value : Bytes)
    → length (stamp win32 t thread ++ value) < 102398
    → message win32 t thread value ≡ some ((stamp win32 t thread ++ value) ++ 13 ∷ 10 ∷ [])
unfolding message
message-fits win32 t thread value h =
    let short : length value ≤ 102399 =
      omega (arith, h, length-append (stamp win32 t thread) value) in
    let whole : take 102399 value ≡ value = take-all value 102399 short in
    ap (λ v. fits 102398 (stamp win32 t thread ++ v) >>= λ line. some (line ++ 13 ∷ 10 ∷ [])) whole
    ∙ ap (λ o. o >>= λ line. some (line ++ 13 ∷ 10 ∷ []))
        (fits-some 102398 (stamp win32 t thread ++ value) h)

-- `GetCurrentPath` does not accept the buffer `path`.
pub log_file-over :
    (x : ℕ) (prefix : Bytes) (t : Time) (path : Bytes) → log_file false (x ∷ prefix) t path ≡ none
unfolding log_file file_prefix
log_file-over x prefix t path =
    let size : length (replicate {A = ℕ} 256 0) ≤ 260 =
      omega (arith, length-replicate {A = ℕ} 256 0) in
    ap (λ o. o >>= λ buf. c_string buf >>= λ s. fits max_path s)
      (get_current_path-over path (take (max_path - 1) (dated (take 31 (x ∷ prefix)) t))
        (replicate 256 0) size)

-- The name of the file, with WIN32.
pub log_file-fits :
    (x : ℕ) (prefix : Bytes) (t : Time) (dir prog : Bytes)
    → Lacks 92 prog
    → length (dir ++ 92 ∷ prog) ≤ 255
    → length (x ∷ prefix) < 32
    → length (dir ++ codes "\\log") < 256
    → length ((dir ++ codes "\\log") ++ codes "\\" ++ dated (x ∷ prefix) t) < 260
    → log_file true (x ∷ prefix) t (dir ++ 92 ∷ prog)
      ≡ some ((dir ++ codes "\\log") ++ codes "\\" ++ dated (x ∷ prefix) t)
unfolding log_file file_prefix max_path
log_file-fits x prefix t dir prog h short p1 p2 p3 =
    let path = dir ++ 92 ∷ prog in
    let folder = dir ++ codes "\\log" in
    let file = folder ++ codes "\\" ++ dated (x ∷ prefix) t in
    let whole : take 255 path ≡ path = take-all path 255 short in
    let len : length path ≡ suc (length dir + length prog) =
      omega (arith, length-append dir (92 ∷ prog)) in
    let cut : folder_of (length path) path ≡ dir =
      ap (λ n. folder_of n path) len ∙ folder_of-cut dir prog (length prog) h (omega arith) in
    rw (fits-some 32 (x ∷ prefix) p1, whole, cut, fits-some 256 folder p2, fits-some 260 file p3)
      refl

-- With WIN32, a message of a level above 0 is appended, with the time, the thread and the line's
-- end, to the file named by the prefix and the date in the folder log beside the program, if the
-- names and the message fit their buffers and the file opens. Without WIN32 the same call writes
-- outside its buffer for the path, whatever the program's path, the message and the file.
pub write_log_lem :
    (opens : Bytes → Bool) (level : ℕ) (x : ℕ) (prefix value : Bytes) (t : Time) (thread : ℕ)
    (dir prog elsewhere : Bytes)
    → Lacks 92 prog
    → length (dir ++ 92 ∷ prog) ≤ 255
    → length (x ∷ prefix) < 32
    → length (dir ++ codes "\\log") < 256
    → length ((dir ++ codes "\\log") ++ codes "\\" ++ dated (x ∷ prefix) t) < 260
    → opens ((dir ++ codes "\\log") ++ codes "\\" ++ dated (x ∷ prefix) t) ≡ true
    → length (stamp true t thread ++ value) < 102398
    → (write_log true opens (pos (suc level)) (x ∷ prefix) value t thread (dir ++ 92 ∷ prog)
        ≡ some (
            some (
              (dir ++ codes "\\log") ++ codes "\\" ++ dated (x ∷ prefix) t,
              (stamp true t thread ++ value) ++ 13 ∷ 10 ∷ [],
            )))
      × (write_log false opens (pos (suc level)) (x ∷ prefix) value t thread elsewhere ≡ none)
unfolding write_log
write_log_lem opens level x prefix value t thread dir prog elsewhere h short p1 p2 p3 o m = (
  rw (log_file-fits x prefix t dir prog h short p1 p2 p3, o)
      (rw (message-fits true t thread value m) refl),
  rw (log_file-over x prefix t elsewhere) refl,
)

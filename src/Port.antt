-- ===== src/Port.antt =====
-- SysMonitor/port.cpp: bounded string search and copy, and lower case.
pub mod Write
pub mod Search
pub mod Copy
pub mod Tests
use sysmonitor.Base.{
  ℕ, zero, suc, ◌+◌, ◌-◌, Bool, true, false, ◌&&◌, ◌||◌, not, List, [], ◌∷◌, ◌++◌, map, Option,
  none, some, ltb, leb, ◌==◌, if◌then◌else◌, length, take, drop, replicate,
}
use sysmonitor.Base.Text.{Bytes, strncmp_eq}

-- The two loops of `strstr_s`: `s` is what is left of the text, at offset `at`; `c` and `find`
-- are the word's first byte and the rest.
search_loop : ℕ → Bytes → ℕ → Bytes → ℕ → Option ℕ
search_loop c find slen [] at = none
search_loop c find slen (sc ∷ s) at =
    let next = search_loop c find (slen - 1) s (at + 1) in
    if ltb slen 1 || sc == 0
    then none
    else if sc == c
    then if ltb (slen - 1) (length find)
      then none
      else if strncmp_eq s find (length find)
      then some at
      else next
    else next

unfoldable pub strstr_s : Bytes → ℕ → Bytes → Option ℕ
unfolding search_loop
strstr_s s slen [] = some 0
strstr_s s slen (c ∷ find) = search_loop c find slen s 0

-- The loop of `strchr_s` and the test after it: `left` is `slen - idx`.
chr_loop : Bytes → ℕ → ℕ → ℕ → Option ℕ
chr_loop [] left ch at = if ch == 0 then some at else none
chr_loop (c ∷ s) left ch at =
    let next = chr_loop s (left - 1) ch (at + 1) in
    if not (c == 0) && not (c == ch) && ltb 0 left then next else if c == ch then some at else none

unfoldable pub strchr_s : Bytes → ℕ → ℕ → Option ℕ
unfolding chr_loop
strchr_s s slen ch = chr_loop s slen ch 0

-- A write of bytes over the front of a buffer; `none` is a write past its end.
unfoldable pub write : List ℕ → Bytes → Option (List ℕ)
write dst src = if ltb (length dst) (length src) then none else some (src ++ drop (length src) dst)

-- `strncpy(dst, src, n)` writes `n` bytes: the text, cut or padded with NULs.
abbrev pub padded : Bytes → ℕ → Bytes
padded src n = take n src ++ replicate (n - length src) 0

-- `dst[i] = 0`
unfoldable pub put_nul : ℕ → Option (List ℕ) → Option (List ℕ)
put_nul i none = none
put_nul i (some dst) =
    if ltb i (length dst) then some (take i dst ++ 0 ∷ drop (suc i) dst) else none

-- `dlen - 1` wraps at 0, and the copy then runs past every buffer.
unfoldable pub strncpy_s : List ℕ → ℕ → Bytes → ℕ → Option (List ℕ)
unfolding put_nul write
strncpy_s dst dlen src slen =
    if leb dlen slen
    then if dlen == 0 then none else put_nul (dlen - 1) (write dst (padded src (dlen - 1)))
    else put_nul slen (write dst (padded src slen))

unfoldable pub lower : ℕ → ℕ
lower c = if leb b'A' c && leb c b'Z' then c + 32 else c

unfoldable pub strlwr : Bytes → Bytes
strlwr = map lower

-- ===== src/Config/Os.antt =====
-- `get_sys_os_info` of `CLoadConfig`: the name and the version of the system, from the line that
-- the command systeminfo prints with commas.
use sysmonitor.Base.{
  ℕ, zero, suc, ◌+◌, ◌<◌, ◌≡◌, refl, sym, ap, ◌∙◌, Bool, true, false, [], ◌∷◌, ◌++◌, Option, none,
  some, arith, ltb, ◌==◌, if◌then◌else◌, length, take, drop, take-append_at, drop-append_at,
  length-append, append_assoc,
}
use sysmonitor.Base.Fallible.{◌>>=◌}
use sysmonitor.Base.Text.{Bytes, Lacks, strchr, strchr-append}
use sysmonitor.Base.Stdio.{fgets}

pub record OsInfo : Type 0 where
  pub os_name : Bytes
  pub os_version : Bytes

-- `strcpy_s` into a member of 100 bytes, which ends the program if the text does not fit.
unfoldable pub put_text : Bytes → Option Bytes
put_text s = if ltb (length s) 100 then some s else none

-- What the second and the third value are stored in.
unfoldable pub store_value : ℕ → Bytes → OsInfo → Option OsInfo
unfolding put_text
store_value n s o =
    if n == 1
    then (do t ← put_text s; some (record o { os_name = t }))
    else if n == 2
    then (do t ← put_text s; some (record o { os_version = t }))
    else some o

-- One round: a value up to the next comma, and what is behind the comma.
unfoldable pub os_value : ℕ → Bytes → OsInfo → Option (Bytes × OsInfo)
unfolding store_value
os_value n line o = elim (strchr line 44) [
  | none ↦ some (line, o)
  | some len ↦ do o' ← store_value n (take len line) o; some (drop (len + 1) line, o')
]

-- The loop from the round `n` on, `k` times.
unfoldable pub os_values : ℕ → ℕ → Bytes → OsInfo → Option OsInfo
unfolding os_value
os_values n zero line o = some o
os_values n (suc k) line o = do (line', o') ← os_value n line o; os_values (suc n) k line' o'

-- `output` is what the command prints; if it prints nothing, a buffer is read that nothing was
-- written to.
unfoldable pub get_sys_os_info : Bool → Bytes → OsInfo → Option OsInfo
unfolding os_values
get_sys_os_info false output o = some o
get_sys_os_info true [] o = none
get_sys_os_info true (x ∷ output) o = os_values 0 3 (fgets 999 (x ∷ output)).0 o

pub get_os_name : OsInfo → Bytes
get_os_name o = o.os_name

pub get_os_version : OsInfo → Bytes
get_os_version o = o.os_version

os_value-comma :
    (n : ℕ) (s rest : Bytes) (o o' : OsInfo)
    → Lacks 44 s
    → store_value n s o ≡ some o'
    → os_value n (s ++ 44 ∷ rest) o ≡ some (rest, o')
unfolding os_value
os_value-comma n s rest o o' h e =
    let front : take (length s) (s ++ 44 ∷ rest) ≡ s =
      take-append_at s (44 ∷ rest) (length s) refl in
    let behind : drop (length s + 1) (s ++ 44 ∷ rest) ≡ rest =
      ap (drop (length s + 1)) (sym (append_assoc s (44 ∷ []) rest))
      ∙ drop-append_at (s ++ 44 ∷ []) rest (length s + 1) (length-append s (44 ∷ [])) in
    rw (os_value, strchr-append s rest 44 h, front, e, behind) refl

put_text-some : (s : Bytes) → length s < 100 → put_text s ≡ some s
unfolding put_text
put_text-some s h = let t : ltb (length s) 100 ≡ true = ground (arith, h) in rw t refl

-- A line without a newline is read whole, with the newline behind it.
fgets-line :
    (n : ℕ) (line rest : Bytes)
    → Lacks 10 line
    → length line < n
    → (fgets n (line ++ 10 ∷ rest)).0 ≡ line ++ 10 ∷ []
unfolding fgets
fgets-line zero line rest h l = absurd (omega (arith, l))
fgets-line (suc n) [] rest h l = refl
fgets-line (suc n) (x ∷ line) rest h l =
    let other : (x == 10) ≡ false = ground (arith, h.0) in
    rw other (ap (◌∷◌ x) (fgets-line n line rest h.1 (omega (arith, l))))

os_values-three :
    (host name version rest : Bytes) (o : OsInfo)
    → Lacks 44 host
    → Lacks 44 name
    → Lacks 44 version
    → length name < 100
    → length version < 100
    → os_values 0 3 (host ++ 44 ∷ (name ++ 44 ∷ (version ++ 44 ∷ rest))) o
      ≡ some (record { os_name = name; os_version = version })
unfolding os_values store_value
os_values-three host name version rest o h k v a b =
    let o1 = record o { os_name = name } in
    let first = os_value-comma 0 host (name ++ 44 ∷ (version ++ 44 ∷ rest)) o o h refl in
    let second =
      os_value-comma 1 name (version ++ 44 ∷ rest) o o1 k (rw (put_text-some name a) refl) in
    let third =
      os_value-comma 2 version rest o1 (record o1 { os_version = version }) v
        (rw (put_text-some version b) refl) in
    rw (first, second, third) refl

get_sys_os_info-line :
    (s : Bytes) (o : OsInfo)
    → 0 < length s
    → get_sys_os_info true s o ≡ os_values 0 3 (fgets 999 s).0 o
unfolding get_sys_os_info
get_sys_os_info-line [] o h = absurd (omega (arith, h))
get_sys_os_info-line (x ∷ s) o h = refl

-- The line of the values, and its end.
values_end :
    (host name version rest : Bytes)
    → (host ++ 44 ∷ (name ++ 44 ∷ (version ++ 44 ∷ rest))) ++ 10 ∷ []
      ≡ host ++ 44 ∷ (name ++ 44 ∷ (version ++ 44 ∷ (rest ++ 10 ∷ [])))
values_end host name version rest =
    append_assoc host (44 ∷ (name ++ 44 ∷ (version ++ 44 ∷ rest))) (10 ∷ [])
    ∙ ap (λ t. host ++ 44 ∷ t) (append_assoc name (44 ∷ (version ++ 44 ∷ rest)) (10 ∷ []))
    ∙ ap (λ t. host ++ 44 ∷ (name ++ 44 ∷ t)) (append_assoc version (44 ∷ rest) (10 ∷ []))

-- With WIN32, if the command's first line has fewer than 999 bytes and begins with three values
-- that end at commas, the second and the third of at most 99 bytes, then the second becomes the
-- name of the system and the third its version, whatever the line has behind them, the output
-- behind the line, and the two members before.
pub get_sys_os_info-values :
    (host name version rest more : Bytes) (o : OsInfo)
    → Lacks 44 host
    → Lacks 44 name
    → Lacks 44 version
    → length name < 100
    → length version < 100
    → Lacks 10 (host ++ 44 ∷ (name ++ 44 ∷ (version ++ 44 ∷ rest)))
    → length (host ++ 44 ∷ (name ++ 44 ∷ (version ++ 44 ∷ rest))) < 999
    → get_sys_os_info true ((host ++ 44 ∷ (name ++ 44 ∷ (version ++ 44 ∷ rest))) ++ 10 ∷ more) o
      ≡ some (record { os_name = name; os_version = version })
get_sys_os_info-values host name version rest more o h k v a b n size =
    let line = host ++ 44 ∷ (name ++ 44 ∷ (version ++ 44 ∷ rest)) in
    let read : (fgets 999 (line ++ 10 ∷ more)).0
        ≡ host ++ 44 ∷ (name ++ 44 ∷ (version ++ 44 ∷ (rest ++ 10 ∷ []))) =
      fgets-line 999 line more n size ∙ values_end host name version rest in
    let len = length-append line (10 ∷ more) in
    get_sys_os_info-line (line ++ 10 ∷ more) o (omega (arith, len))
    ∙ ap (λ t. os_values 0 3 t o) read
    ∙ os_values-three host name version (rest ++ 10 ∷ []) o h k v a b

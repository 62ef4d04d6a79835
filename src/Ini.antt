-- ===== src/Ini.antt =====
-- SysMonitor/func.cpp: `GetIniKeyString` and `GetIniKeyInt`, a byte loop over an ini file.
pub mod Lines
pub mod Section
pub mod Lookup
pub mod Tests
use sysmonitor.Base.{
  ℕ, ◌+◌, Bool, true, false, not, ◌||◌, ◌&&◌, List, [], ◌∷◌, ◌++◌, Option, none, some, leb, ◌==◌,
  if◌then◌else◌, length, take, drop, get_or,
}
use sysmonitor.Base.Int.{ℤ}
use sysmonitor.Base.Text.{Bytes, text, strchr, strncmp_eq, contains, atoi}
use sysmonitor.Port.{write}

-- `sizeof(szLine)`
abbrev pub line_size : ℕ
line_size = 1024

-- `flag`, and the static buffer `tmpstr`.
pub record Scan : Type 0 where
  pub flag : Bool
  pub tmp : List ℕ

-- A write past a buffer, the end of the file, or `tmpstr` with the value.
pub data Search : Type 0 where
  overrun : Search
  missing : List ℕ → Search
  value : List ℕ → Search

pub data Step : Type 0 where
  stop : Search → Step
  more : Scan → Step

-- The copy of what stands behind the `=`. Without WIN32, `strncpy(tmpstr, tmp + 1, strlen(tmp) - 2)`
-- leaves out the last byte and writes no NUL; for an empty value the count wraps.
unfoldable pub copy_value : Bool → Bytes → List ℕ → Option (List ℕ)
unfolding write
copy_value true v tmp = write tmp (v ++ 0 ∷ [])
copy_value false [] tmp = none
copy_value false (x ∷ v) tmp = write tmp (take (length v) (x ∷ v))

unfoldable pub tag : Bytes → Bytes
tag title = b'[' ∷ title ++ b']' ∷ []

unfoldable pub commented : Bytes → Bool
commented s = get_or s 0 0 == b'#' || (get_or s 0 0 == b'/' && get_or s 1 0 == b'/')

unfoldable pub on_value : Option (List ℕ) → Step
on_value none = stop overrun
on_value (some tmp) = stop (value tmp)

-- The `else` branch: a line that may open the section.
unfoldable pub on_header : Bytes → Bytes → Scan → Option (List ℕ) → Step
unfolding tag
on_header title s st none = stop overrun
on_header title s st (some tmp) =
    more (record { flag = st.flag || strncmp_eq (tag title) s (length (tag title)); tmp = tmp })

unfoldable pub on_entry : Bool → Bytes → Bytes → Scan → ℕ → Step
unfolding on_value copy_value commented
on_entry win32 key s st at =
    if contains s key && not (commented s)
    then on_value (copy_value win32 (drop (at + 1) s) st.tmp)
    else more st

-- A line, without its newline.
unfoldable pub on_line : Bool → Bytes → Bytes → Bytes → Scan → Step
unfolding on_header on_entry tag write
on_line win32 title key s st =
    let header = on_header title s st (write st.tmp (tag title ++ 0 ∷ [])) in
    elim (strchr s b'=') [
      | none ↦ header
      | some at ↦ if st.flag then on_entry win32 key s st at else header
    ]

-- The loop: the bytes that are left of the file, and those of `szLine`.
unfoldable pub scan : Bool → Bytes → Bytes → Bytes → Bytes → Scan → Search
unfolding on_line text
scan win32 title key [] line st = missing st.tmp
scan win32 title key (c ∷ file) line st = elim (leb line_size (length line)) [
  | true ↦ overrun
  | false ↦ elim (c == 10) [
    | true ↦ elim (on_line win32 title key (text line) st) [
      | stop r ↦ r
      | more st' ↦ scan win32 title key file [] st'
    ]
    | false ↦ scan win32 title key file (line ++ c ∷ []) st
  ]
]

-- The text that is returned and `tmpstr`; none is a write past a buffer.
unfoldable pub returned : Search → Option (Bytes × List ℕ)
unfolding text
returned overrun = none
returned (missing tmp) = some ([], tmp)
returned (value tmp) = some (text tmp, tmp)

-- `file` is none where it cannot be opened, `tmp` is `tmpstr` as the last call left it.
unfoldable pub get_ini_key_string :
    Bool → Bytes → Bytes → Option Bytes → List ℕ → Option (Bytes × List ℕ)
unfolding scan
get_ini_key_string win32 title key none tmp = some ([], tmp)
get_ini_key_string win32 title key (some file) tmp =
    returned (scan win32 title key file [] (record { flag = false; tmp = tmp }))

unfoldable pub get_ini_key_int : Bool → Bytes → Bytes → Option Bytes → List ℕ → Option (ℤ × List ℕ)
unfolding get_ini_key_string atoi
get_ini_key_int win32 title key file tmp = elim (get_ini_key_string win32 title key file tmp) [
  | none ↦ none
  | some (s, tmp') ↦ some (atoi s, tmp')
]

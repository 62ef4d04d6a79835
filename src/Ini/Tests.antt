-- ===== src/Ini/Tests.antt =====
-- A configuration file of one section.
use sysmonitor.Base.{ℕ, ◌≡◌, refl, true, false, List, arith, ◌∷◌, [], ◌++◌, some, replicate}
use sysmonitor.Base.Text.{Bytes, codes, text, text-IsText, strchr, strchr-Lacks, strstr}
use sysmonitor.Ini.{Scan, scan, tag, commented, get_ini_key_string}
use sysmonitor.Ini.Lines.{AllLines, unlines, search_lines, scan-search_lines}
use sysmonitor.Ini.Section.{section_of}
use sysmonitor.Ini.Lookup.{get_ini_key_string-finds, get_ini_key_string-garbled}

abbrev title : Bytes
title = codes "db"

abbrev key : Bytes
key = codes "name"

abbrev cr : Bytes
cr = 13 ∷ []

abbrev host : Bytes
host = codes "h" ++ cr

abbrev file_lines : List Bytes
file_lines = section_of title cr key host (codes "port=1" ∷ []) []

file_lines-AllLines : AllLines file_lines
unfolding text strchr tag
file_lines-AllLines = (
  (text-IsText (tag title ++ cr), strchr-Lacks 10 (tag title ++ cr) refl, omega arith),
  (
    (text-IsText (codes "port=1"), strchr-Lacks 10 (codes "port=1") refl, omega arith),
    (
      (text-IsText (key ++ b'=' ∷ host), strchr-Lacks 10 (key ++ b'=' ∷ host) refl, omega arith),
      tt,
    ),
  ),
)

abbrev start : Scan
start = record { flag = false; tmp = replicate 1024 0 }

scan-search_lines_example :
    scan true title key (unlines file_lines ++ []) [] start
    ≡ search_lines true title key file_lines start
scan-search_lines_example =
    scan-search_lines true title key file_lines [] start file_lines-AllLines tt (omega arith)

get_ini_key_string-finds_example :
    (tmp' : List ℕ) × (get_ini_key_string true title key
        (some (unlines file_lines ++ []))
        (replicate 1024 0)
      ≡ some (host, tmp'))
unfolding strstr strchr commented
get_ini_key_string-finds_example =
    get_ini_key_string-finds title key cr key host [] (codes "port=1" ∷ []) [] (replicate 1024 0)
      file_lines-AllLines tt (omega arith) (refl, tt) (strchr-Lacks b'=' key refl) refl refl refl

-- The host's name comes back with a piece of the section's tag behind it.
get_ini_key_string-garbled_example :
    (tmp' : List ℕ) × (get_ini_key_string false title key
        (some (unlines file_lines ++ []))
        (replicate 1024 0)
      ≡ some (codes "hdb]", tmp'))
unfolding strstr strchr commented tag
get_ini_key_string-garbled_example =
    get_ini_key_string-garbled title key cr key cr [] b'h' (codes "port=1" ∷ []) []
      (replicate 1024 0) file_lines-AllLines tt (omega arith) (refl, tt)
      (strchr-Lacks b'=' key refl) refl refl refl (omega arith)

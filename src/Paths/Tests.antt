-- ===== src/Paths/Tests.antt =====
-- A program in /opt, and a time.
use sysmonitor.Base.{
  ℕ, ◌≡◌, refl, arith, false, List, ◌∷◌, ◌++◌, some, replicate, length-replicate, none, true,
}
use sysmonitor.Base.Text.{Bytes, codes, c_string, text, text-IsText, strchr, strchr-Lacks}
use sysmonitor.Base.Stdio.{digits}
use sysmonitor.Paths.{get_current_path, separator, get_format_system_time}
use sysmonitor.Paths.Beside.{get_current_path-beside}

-- Months are counted from 0 and years from 1900.
time_test :
    get_format_system_time false
      (record {
        year = 115;
        month = 3;
        day = 7;
        hour = 9;
        minute = 5;
        second = 0;
        milliseconds = 0;
      })
      128
    ≡ (codes "11537 9:5:0", 12)
unfolding get_format_system_time digits
time_test = refl

abbrev dir : Bytes
dir = codes "C:\\app"

abbrev memory : List ℕ
memory = replicate 256 7

get_current_path-beside_example :
    ((out : List ℕ) × (get_current_path true
          (dir ++ separator true ∷ codes "sysmonitor")
          memory
          (codes "config.ini")
        ≡ some out)
      × (c_string out ≡ some (dir ++ separator true ∷ codes "config.ini")))
    × (get_current_path false (codes "/opt/sysmonitor") memory (codes "config.ini") ≡ none)
unfolding separator text strchr
get_current_path-beside_example =
    get_current_path-beside dir (codes "sysmonitor") (codes "config.ini") (codes "/opt/sysmonitor")
      memory (text-IsText (dir ++ 92 ∷ codes "sysmonitor"))
      (text-IsText (dir ++ 92 ∷ codes "config.ini")) (strchr-Lacks 92 (codes "sysmonitor") refl)
      (omega arith) (omega arith) (length-replicate {A = ℕ} 256 7)

-- ===== src/Log/Tests.antt =====
-- One line of a log, with a program in C:\app.
use sysmonitor.Base.{◌≡◌, refl, arith, true, false, [], ◌∷◌, ◌++◌, some, none}
use sysmonitor.Base.Int.{pos}
use sysmonitor.Base.Stdio.{digits}
use sysmonitor.Base.Text.{Bytes, codes, strchr, strchr-Lacks}
use sysmonitor.Paths.{Time}
use sysmonitor.Log.{write_log, dated, stamp}
use sysmonitor.Log.Writes.{write_log_lem}

abbrev pub now : Time
now = record {
  year = 2015;
  month = 4;
  day = 7;
  hour = 9;
  minute = 5;
  second = 0;
  milliseconds = 12;
}

dated_test : dated (codes "DB") now ≡ codes "DB20150407.log"
unfolding dated digits
dated_test = refl

pub stamp_test : stamp true now 48879 ≡ codes "2015-04-07/09:05:00.012[0000BEEF]--"
unfolding stamp digits
stamp_test = refl

pub named_test : dated (codes "sysmonitor") now ≡ codes "sysmonitor20150407.log"
unfolding dated digits
named_test = refl

abbrev file : Bytes
file = (codes "C:\\app" ++ codes "\\log") ++ codes "\\" ++ dated (codes "DB") now

write_log_lem_example :
    (write_log true
        (λ f. true)
        (pos 1)
        (codes "DB")
        (codes "up")
        now
        48879
        (codes "C:\\app" ++ 92 ∷ codes "m.exe")
      ≡ some (some (file, (stamp true now 48879 ++ codes "up") ++ 13 ∷ 10 ∷ [])))
    × (write_log false (λ f. true) (pos 1) (codes "DB") (codes "up") now 48879 (codes "/app/m")
        ≡ none)
unfolding strchr
write_log_lem_example =
    write_log_lem (λ f. true) 0 68 (codes "B") (codes "up") now 48879 (codes "C:\\app")
      (codes "m.exe") (codes "/app/m") (strchr-Lacks 92 (codes "m.exe") refl) (omega arith)
      (omega arith) (omega arith) (rw dated_test (omega arith)) refl (rw stamp_test (omega arith))

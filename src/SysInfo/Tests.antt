-- ===== src/SysInfo/Tests.antt =====
-- Two counters, two drives, and a list of processes.
use sysmonitor.Base.{ℕ, ◌≡◌, refl, sym, true, false, List, [], ◌∷◌, Option, some, arith, ltb, ◌==◌}
use sysmonitor.Base.Count.{count, remove}
use sysmonitor.Base.Fallible.{some-inj}
use sysmonitor.Base.Text.{Bytes, codes, c_string, strchr}
use sysmonitor.Monitor.Number.{add_json_key_value, cut_decimals, trim_point, rfind_point}
use sysmonitor.Monitor.Process.{Entry}
use sysmonitor.SysInfo.{
  Pdh, Held, Machine, write_counter_vaule, add_counters, cleanup, disk_data, drive_rows, add_texts,
}
use sysmonitor.SysInfo.Counters.{Readable, Released, write_counter_vaule-Released}
use sysmonitor.SysInfo.Drives.{AreLetters, roots}
use sysmonitor.SysInfo.Web.{WebItem, write, Reported, write-Reported}

-- Every call succeeds, but that the first `n` counters alone can be added.
abbrev pdh : ℕ → Pdh
pdh n = record {
  opens = true;
  adds = λ i name. ltb i n;
  collects = true;
  value = λ j. some (codes "1.5");
}

abbrev counter_names : List Bytes
counter_names = codes "a" ∷ codes "b" ∷ []

abbrev nothing_held : Held
nothing_held = record { blocks = []; next = 0; counters = []; query = false }

readable : (n : ℕ) → Readable (pdh n)
unfolding Readable
readable n j t e = let eq = some-inj e in rw (sym eq) (omega arith)

-- The block of the counter that could not be added is not freed.
leak_test :
    write_counter_vaule (pdh 1) 2 counter_names nothing_held
    ≡ some ([], record { blocks = 1 ∷ []; next = 2; counters = []; query = false })
unfolding write_counter_vaule add_counters cleanup count remove
leak_test = refl

write_counter_vaule-Released_example :
    (out : List Bytes × Held) × (write_counter_vaule (pdh 2) 2 counter_names nothing_held
      ≡ some out)
    × Released (pdh 2) 2 nothing_held out
write_counter_vaule-Released_example =
    write_counter_vaule-Released (pdh 2) 2 counter_names nothing_held (omega arith) (readable 2)
      refl

abbrev processes : Option (List Entry)
processes = some (
    record { exe = codes "w3wp.exe"; pid = 4; opens = false }
    ∷ record { exe = codes "w3wp.exe"; pid = 5; opens = true }
    ∷ [])

write-Reported_example :
    (out : List WebItem × Held) × (write true (pdh 2) processes 2 counter_names nothing_held
      ≡ some out)
    × Reported (pdh 2) processes 2 nothing_held out
write-Reported_example =
    write-Reported (pdh 2) processes 2 counter_names nothing_held (omega arith) (readable 2) refl

-- Drive A is not fixed.
abbrev machine : Machine
machine = record {
  drive_strings = roots (65 ∷ 67 ∷ []);
  is_fixed = λ d. elim d [ [] ↦ false | l ∷ d' ↦ l == 67 ];
  disk_space = λ d. some (codes "100.", codes "12.345");
  memory = [];
}

drives_test : disk_data machine 0 2 ≡ some ((codes "C" ∷ codes "100" ∷ codes "12.34" ∷ []) ∷ [])
unfolding disk_data drive_rows c_string add_texts add_json_key_value cut_decimals trim_point
    rfind_point strchr
drives_test = refl

letters : AreLetters (65 ∷ 67 ∷ [])
unfolding AreLetters
letters = (omega arith, (omega arith, tt))

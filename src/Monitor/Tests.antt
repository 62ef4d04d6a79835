-- ===== src/Monitor/Tests.antt =====
-- Seven configured types, numbers, and two processes.
use sysmonitor.Base.{
  arith, ◌≡◌, ap, ◌↔◌, refl, true, false, List, [], ◌∷◌, ◌++◌, map, none, some, get_elem?,
}
use sysmonitor.Base.Int.{ℤ, pos}
use sysmonitor.Base.Stdio.{next_word, skip_space, word, next_int, read_lines, fgets}
use sysmonitor.Base.Text.{Bytes, codes, text, strcmp_eq, digits_value}
use sysmonitor.Monitor.Message.{print_error, line_end, cut_end, goes_on, is_cut}
use sysmonitor.Monitor.{build_monitor, delete_slots}
use sysmonitor.Monitor.Slots.{monitor_of}
use sysmonitor.Monitor.Destroy.{Repeats, delete_slots-build_monitor}
use sysmonitor.Monitor.Process.{
  Pids, Entry, Row, find_pids, push_pid, match_names, get_process_list, scan_line, counted,
  count_lines, count_pids, process_row, process_rows, opened, write,
}
use sysmonitor.Monitor.Counts.{AllNumbered, write-counts}

abbrev types : List ℤ
types = pos 7 ∷ pos 2 ∷ pos 7 ∷ pos 0 ∷ pos 0 ∷ pos 0 ∷ pos 9 ∷ []

delete_slots-build_monitor_example :
    (build_monitor false types ≡ map (monitor_of false) types)
    × ((delete_slots (build_monitor false types) [] ≡ none)
        ↔ Repeats (map (monitor_of false) types))
delete_slots-build_monitor_example = delete_slots-build_monitor false types refl

abbrev configured : List Bytes
configured = codes "a" ∷ codes "b" ∷ []

abbrev entries : List Entry
entries =
    record { exe = codes "b"; pid = 5; opens = true }
    ∷ record { exe = codes "a"; pid = 4; opens = true }
    ∷ []

abbrev line : Bytes
line = codes "TCP 0:1 0:2 ESTABLISHED 5" ++ 10 ∷ []

abbrev netstat : Bytes
netstat = 10 ∷ 10 ∷ 10 ∷ 10 ∷ line

abbrev known : Pids
known = (codes "b", 5 ∷ []) ∷ []

result : List Row × Pids
result = elim (write configured (some entries) (some netstat) known) [
  | none ↦ ([], [])
  | some r ↦ r
]

known-result : write configured (some entries) (some netstat) known ≡ some (result.0, result.1)
unfolding result write get_process_list match_names push_pid strcmp_eq process_rows process_row
    find_pids count_pids count_lines opened read_lines fgets scan_line counted next_word skip_space
    word next_int text digits_value
known-result = refl

abbrev row_a : Row
row_a = record { process_name = codes "a"; tcpnum = 0; process_status = 1 }

abbrev row_b : Row
row_b = record { process_name = codes "b"; tcpnum = 0; process_status = 1 }

result-rows : result.0 ≡ row_a ∷ row_b ∷ []
unfolding result write get_process_list match_names push_pid strcmp_eq process_rows process_row
    find_pids count_pids count_lines opened read_lines fgets scan_line counted next_word skip_space
    word next_int text digits_value
result-rows = refl

write-counts_example : (row_b.tcpnum ≡ 0) × AllNumbered result.1
write-counts_example =
    write-counts configured entries netstat known result.1 result.0 0 1 row_a row_b
      (omega arith, tt) known-result (omega arith) (ap (λ rows. get_elem? rows 0) result-rows)
      (ap (λ rows. get_elem? rows 1) result-rows) refl

-- The point and the end of the line are cut.
print_error_test :
    print_error (codes "No file.\r\n" ++ 0 ∷ 7 ∷ [])
    ≡ some (codes "No file" ++ 0 ∷ 0 ∷ 10 ∷ 0 ∷ 7 ∷ [])
unfolding print_error line_end cut_end goes_on is_cut
print_error_test = refl

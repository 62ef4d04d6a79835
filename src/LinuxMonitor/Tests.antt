-- ===== src/LinuxMonitor/Tests.antt =====
-- Texts as the kernel gives them.
use sysmonitor.Base.{
  ◌≡◌, refl, [], ◌∷◌, ◌++◌, List, Option, some, none, replicate, map, arith, ◌<◌, ◌+◌, ◌^◌,
}
use sysmonitor.Base.Int.{ℤ, pos}
use sysmonitor.Base.Text.{Bytes, codes, c_string, strstr, digits_value, atoi}
use sysmonitor.Base.Stdio.{words, next_word, skip_space, word, next_int, after_digits}
use sysmonitor.LinuxMonitor.{
  get_kernel_version, get_os_name, read_80, get_loadavg, store, get_diskinfo, get_tcp_connections,
  get_cpu_time, int_value, ints, sum_ints, Casts, Mem, get_meminfo, mem_line, on_key, stored_last,
}
use sysmonitor.Base.Scan.{IsField, NoSpace, IsNumber, AreDigits, AreFields}
use sysmonitor.LinuxMonitor.Disks.{Partition, ArePartitions, table, disks, get_diskinfo-table}
use sysmonitor.LinuxMonitor.Rates.{
  get_disk_io, on_word, on_int, skip_words, DiskIo, get_network_transfers, net_line,
}
use sysmonitor.LinuxMonitor.DiskStats.{Stat, AreStats, io_sum, line_of, get_disk_io-io_sum}

-- Without its last byte, the newline.
os_name_test : get_os_name (codes "Linux" ++ 10 ∷ []) ≡ some (codes "Linux")
unfolding get_os_name read_80 c_string
os_name_test = refl

-- An empty file.
kernel_version_test : get_kernel_version [] ≡ none
unfolding get_kernel_version read_80 c_string
kernel_version_test = refl

-- A file of 80 bytes leaves no NUL.
full_test : read_80 (replicate 80 65) ≡ none
unfolding read_80 c_string
full_test = refl

loadavg_test : get_loadavg (codes "0.10 0.20 0.30 1/99 1234") ≡ some (codes "0.10")
unfolding get_loadavg read_80 c_string words next_word skip_space word store
loadavg_test = refl

-- A fourth word of ten bytes is longer than its buffer.
loadavg_overflow : get_loadavg (codes "0.10 0.20 0.30 100/123456 1234") ≡ none
unfolding get_loadavg read_80 c_string words next_word skip_space word store
loadavg_overflow = refl

tcp_test :
    get_tcp_connections (codes "sockets: used 9" ∷ codes "TCP: inuse 5 orphan 0" ∷ [])
    ≡ some (pos 5)
unfolding get_tcp_connections strstr next_word skip_space word store next_int digits_value
tcp_test = refl

cpu_test : get_cpu_time (codes "cpu  1 2 3 40 5 6 7 0") ≡ some (pos 64, pos 40)
unfolding get_cpu_time ints sum_ints store next_word skip_space word next_int digits_value
    after_digits
cpu_test = refl

-- The sum is more than an int holds.
cpu_overflow : get_cpu_time (codes "cpu  2000000000 0 0 2000000000 0 0 0") ≡ none
unfolding get_cpu_time ints sum_ints store next_word skip_space word next_int digits_value
    after_digits
cpu_overflow = refl

abbrev whole : Casts
whole = record { to_int = λ s. some (atoi s); to_int64 = λ s. some (atoi s) }

abbrev start : Mem
start = record { content = []; vmalloctotal_kb = none; appended = [] }

abbrev appended_of : Option Mem → List ℤ
appended_of none = []
appended_of (some m) = m.appended

abbrev meminfo : List Bytes
meminfo =
    (codes "MemTotal: 16 kB" ++ 10 ∷ [])
    ∷ (codes "Cached: 1 kB" ++ 10 ∷ [])
    ∷ (codes "VmallocTotal: 9 kB" ++ 10 ∷ [])
    ∷ (codes "VmallocUsed: 2 kB" ++ 10 ∷ [])
    ∷ []

meminfo_test : appended_of (get_meminfo whole meminfo start) ≡ pos 16 ∷ pos 9 ∷ pos 7 ∷ []
unfolding get_meminfo mem_line on_key stored_last words next_word skip_space word strstr
    digits_value atoi
meminfo_test = refl

abbrev sda : Partition
sda = record {
  major = codes "8";
  minor = codes "0";
  blocks = codes "48";
  name = codes "sda";
  major_in = 3;
  minor_in = 8;
  blocks_in = 2;
}

abbrev ram : Partition
ram = record sda { name = codes "ram"; blocks = codes "4"; blocks_in = 9 }

two_partitions : ArePartitions (sda ∷ ram ∷ [])
unfolding ArePartitions IsField NoSpace
two_partitions = (
  (refl, tt, omega arith),
  (refl, tt, omega arith),
  (refl, (refl, tt), omega arith),
  (refl, (refl, (refl, tt)), omega arith),
  (
    (refl, tt, omega arith),
    (refl, tt, omega arith),
    (refl, tt, omega arith),
    (refl, (refl, (refl, tt)), omega arith),
    tt,
  ),
)

get_diskinfo-table_example :
    get_diskinfo ([] ∷ [] ∷ [] ∷ [] ∷ []) (table (sda ∷ ram ∷ [])) ≡ some (disks (sda ∷ ram ∷ []))
get_diskinfo-table_example = get_diskinfo-table (sda ∷ ram ∷ []) [] [] [] [] two_partitions

-- Two interfaces, of which one is a network card: its second number is that of the multicast
-- packets, 5, and not that of the bytes that were sent, 30.
net_test :
    get_network_transfers
      (codes "    lo: 9 1 0 0 0 0 0 0 9 1 0" ∷ codes "  eth0: 120 2 0 0 0 0 0 5 30 1 0" ∷ [])
      (record { receive_bytes = 0; transmit_bytes = 0 })
      0
    ≡ some 125
unfolding get_network_transfers net_line strstr skip_words on_word on_int next_word skip_space word
    next_int digits_value after_digits int_value
net_test = refl

-- A card that has received two gigabytes.
net_overflow :
    get_network_transfers
      (codes "  eth0: 2147483648 2 0 0 0 0 0 0 30 1 0" ∷ [])
      (record { receive_bytes = 0; transmit_bytes = 0 })
      0
    ≡ none
unfolding get_network_transfers net_line strstr skip_words on_word on_int next_word skip_space word
    next_int digits_value after_digits int_value
net_overflow = refl

abbrev stat_sda : Stat
stat_sda = record {
  major = codes "8";
  major_in = 3;
  minor = codes "0";
  minor_in = 7;
  name = codes "sda";
  reads = codes "12";
  of_reads = codes "0" ∷ codes "0" ∷ codes "0" ∷ [];
  writes = codes "7";
  of_writes = codes "0" ∷ codes "0" ∷ codes "0" ∷ codes "0" ∷ codes "0" ∷ codes "0" ∷ [];
  behind = 10 ∷ [];
}

zero-IsField : IsField (codes "0")
unfolding IsField NoSpace
zero-IsField = (refl, tt, omega arith)

stats : AreStats (stat_sda ∷ [])
unfolding AreStats IsField NoSpace IsNumber AreDigits AreFields digits_value
stats =
    let z = zero-IsField in
    (
      (
        ((refl, tt, omega arith), omega arith),
        ((refl, tt, omega arith), omega arith),
        (refl, (refl, (refl, tt)), omega arith),
        ((refl, (refl, tt)), omega arith),
        ((z, (z, (z, tt))), refl),
        ((refl, tt), omega arith),
        ((z, (z, (z, (z, (z, (z, tt)))))), refl),
      ),
      tt,
    )

abbrev unread : DiskIo
unread = record { name = none; read_num = pos 0; write_num = pos 0 }

small : 0 + io_sum (stat_sda ∷ []) < 2 ^ 31
unfolding io_sum strstr digits_value
small = omega arith

get_disk_io-io_sum_example :
    get_disk_io (map line_of (stat_sda ∷ [])) unread (pos 0)
    ≡ some (pos (0 + io_sum (stat_sda ∷ [])))
get_disk_io-io_sum_example = get_disk_io-io_sum (stat_sda ∷ []) unread 0 stats small

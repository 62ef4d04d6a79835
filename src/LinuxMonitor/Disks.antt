-- ===== src/LinuxMonitor/Disks.antt =====
-- `CLinuxSysinfo::get_diskinfo` on the partitions that the kernel lists.
use sysmonitor.Base.{
  ℕ, suc, ◌≡◌, refl, ap, ◌∙◌, true, List, [], ◌∷◌, ◌++◌, some, length, map, arith, if◌then◌else◌,
  ltb,
}
use sysmonitor.Base.Text.{Bytes, codes, contains, strstr, is_space}
use sysmonitor.Base.Stdio.{words, next_word, skip_space, word}
use sysmonitor.Base.Scan.{IsField, field_of, next_word-IsField}
use sysmonitor.LinuxMonitor.{Disk, get_diskinfo, store}

-- A line of the table: four columns, the first three set in by spaces.
pub record Partition : Type 0 where
  pub major : Bytes
  pub minor : Bytes
  pub blocks : Bytes
  pub name : Bytes
  pub major_in : ℕ
  pub minor_in : ℕ
  pub blocks_in : ℕ

unfoldable pub ArePartitions : List Partition → Type 0
ArePartitions [] = Unit {0}
ArePartitions (p ∷ ps) =
    IsField p.major × IsField p.minor × IsField p.blocks × IsField p.name × ArePartitions ps

abbrev pub line_of : Partition → Bytes
line_of p = field_of p.major_in p.major (
    32
    ∷ field_of p.minor_in p.minor (32 ∷ field_of p.blocks_in p.blocks (32 ∷ (p.name ++ 10 ∷ []))))

-- The table with its two lines in front.
abbrev pub table : List Partition → List Bytes
table ps = (codes "major minor  #blocks  name" ++ 10 ∷ []) ∷ (10 ∷ []) ∷ map line_of ps

-- The partitions of disks, by their name.
pub disks : List Partition → List Disk
disks [] = []
disks (p ∷ ps) =
    let rest = disks ps in
    if contains p.name (codes "da")
    then record { name = p.name; blocks = p.blocks } ∷ rest
    else rest

words-IsField :
    (k n : ℕ) (w : Bytes) (c : ℕ) (rest : Bytes)
    → IsField w
    → is_space c ≡ true
    → words (suc k) (field_of n w (c ∷ rest)) ≡ w ∷ words k (c ∷ rest)
unfolding words
words-IsField k n w c rest h sp = rw (words, next_word-IsField n w c rest h sp) refl

words-line_of :
    (p : Partition)
    → IsField p.major
    → IsField p.minor
    → IsField p.blocks
    → IsField p.name
    → words 4 (line_of p) ≡ p.major ∷ p.minor ∷ p.blocks ∷ p.name ∷ []
unfolding words
words-line_of p a b c d =
    words-IsField 3 p.major_in p.major 32 _ a refl
    ∙ ap (◌∷◌ p.major) (
        words-IsField 2 (suc p.minor_in) p.minor 32 _ b refl
        ∙ ap (◌∷◌ p.minor) (
            words-IsField 1 (suc p.blocks_in) p.blocks 32 _ c refl
            ∙ ap (◌∷◌ p.blocks) (words-IsField 0 1 p.name 10 [] d refl)))

store-IsField :
    (w : Bytes) (ws buf r : List Bytes) (b : Bytes)
    → IsField w
    → store 32 ws buf ≡ some r
    → store 32 (w ∷ ws) (b ∷ buf) ≡ some (w ∷ r)
unfolding store IsField
store-IsField [] ws buf r b h e = absurd h
store-IsField (x ∷ w) ws buf r b h e =
    let short : ltb (suc (length w)) 32 ≡ true = ground (arith, h.2) in rw (short, e) refl

-- `sscanf` on a line of the table.
store-line_of :
    (p : Partition) (b0 b1 b2 b3 : Bytes)
    → IsField p.major
    → IsField p.minor
    → IsField p.blocks
    → IsField p.name
    → store 32 (words 4 (line_of p)) (b0 ∷ b1 ∷ b2 ∷ b3 ∷ [])
      ≡ some (p.major ∷ p.minor ∷ p.blocks ∷ p.name ∷ [])
unfolding store
store-line_of p b0 b1 b2 b3 a b c d =
    ap (λ ws. store 32 ws (b0 ∷ b1 ∷ b2 ∷ b3 ∷ [])) (words-line_of p a b c d)
    ∙ store-IsField p.major (p.minor ∷ p.blocks ∷ p.name ∷ []) (b1 ∷ b2 ∷ b3 ∷ []) _ b0 a (
        store-IsField p.minor (p.blocks ∷ p.name ∷ []) (b2 ∷ b3 ∷ []) _ b1 b (
          store-IsField p.blocks (p.name ∷ []) (b3 ∷ []) _ b2 c
            (store-IsField p.name [] [] [] b3 d refl)))

get_diskinfo-lines :
    (ps : List Partition) (b0 b1 b2 b3 : Bytes)
    → ArePartitions ps
    → get_diskinfo (b0 ∷ b1 ∷ b2 ∷ b3 ∷ []) (map line_of ps) ≡ some (disks ps)
unfolding get_diskinfo disks ArePartitions
get_diskinfo-lines [] b0 b1 b2 b3 h = refl
get_diskinfo-lines (p ∷ ps) b0 b1 b2 b3 (a, b, c, d, h) =
    rw
      (
        get_diskinfo,
        store-line_of p b0 b1 b2 b3 a b c d,
        get_diskinfo-lines ps p.major p.minor p.blocks p.name h,
      )
      refl

-- On a table of partitions, each of whose four columns has 1 to 31 bytes without a space among
-- them and is set in by any number of spaces, the name by none, the disks that are appended are
-- the partitions with `da` in their name, in the order of the table, whatever the buffers held.
pub get_diskinfo-table :
    (ps : List Partition) (b0 b1 b2 b3 : Bytes)
    → ArePartitions ps
    → get_diskinfo (b0 ∷ b1 ∷ b2 ∷ b3 ∷ []) (table ps) ≡ some (disks ps)
unfolding get_diskinfo store words next_word skip_space word strstr
get_diskinfo-table ps b0 b1 b2 b3 h =
    rw (get_diskinfo-lines ps (codes "major") (codes "minor") (codes "#blocks") (codes "name") h)
      refl

-- ===== src/LinuxMonitor/DiskStats.antt =====
-- `CLinuxSysinfo::get_disk_io` on the statistics that the kernel prints.
use sysmonitor.Base.{
  ℕ, zero, suc, ◌+◌, ◌^◌, ◌≤◌, ◌<◌, ◌≡◌, refl, sym, ap, ◌∙◌, true, List, [], ◌∷◌, ◌++◌, Option,
  some, length, map, arith, if◌then◌else◌, if_true, if_false, ltb, Bool-cases, inl, inr,
}
use sysmonitor.Base.Int.{ℤ, pos}
use sysmonitor.Base.Text.{Bytes, codes, contains, digits_value}
use sysmonitor.Base.Stdio.{skip_space}
use sysmonitor.Base.Scan.{
  NoSpace, IsField, IsNumber, Spaced, field_of, row, row-Spaced, AreFields, IsField-short,
  next_word-Spaced, next_int-IsNumber, skip_space-replicate,
}
use sysmonitor.LinuxMonitor.{int_value, add_int}
use sysmonitor.LinuxMonitor.Rates.{
  word_upto, next_upto, on_word, on_int, skip_words, DiskIo, disk_line, get_disk_io,
}

-- A line: the device's numbers and name, the reads, three counts, the writes, six counts, and what
-- the kernel prints behind them.
pub record Stat : Type 0 where
  pub major : Bytes
  pub major_in : ℕ
  pub minor : Bytes
  pub minor_in : ℕ
  pub name : Bytes
  pub reads : Bytes
  pub of_reads : List Bytes
  pub writes : Bytes
  pub of_writes : List Bytes
  pub behind : Bytes

abbrev pub line_of : Stat → Bytes
line_of s = field_of s.major_in s.major (
    32
    ∷ field_of s.minor_in s.minor (
        row (s.name ∷ s.reads ∷ [])
          (row s.of_reads (row (s.writes ∷ []) (row s.of_writes (32 ∷ s.behind))))))

-- An int that is printed.
abbrev pub IsCount : Bytes → Type 0
IsCount ds = IsNumber ds × (digits_value 0 ds < 2 ^ 31)

abbrev pub IsStat : Stat → Type 0
IsStat s =
    (IsField s.major × (length s.major ≤ 4))
    × (IsField s.minor × (length s.minor ≤ 8))
    × IsField s.name
    × IsCount s.reads
    × (AreFields s.of_reads × (length s.of_reads ≡ 3))
    × IsCount s.writes
    × (AreFields s.of_writes × (length s.of_writes ≡ 6))

word_upto-NoSpace :
    (n : ℕ) (w t : Bytes) → NoSpace w → length w ≤ n → Spaced t → word_upto n (w ++ t) ≡ (w, t)
unfolding word_upto NoSpace Spaced
word_upto-NoSpace n [] [] h le sp = absurd sp
word_upto-NoSpace zero [] (c ∷ t) h le sp = refl
word_upto-NoSpace (suc n) [] (c ∷ t) h le sp = rw sp refl
word_upto-NoSpace zero (x ∷ w) t h le sp = absurd (omega (arith, le))
word_upto-NoSpace (suc n) (x ∷ w) t h le sp =
    rw (h.0, word_upto-NoSpace n w t h.1 (omega (arith, le)) sp) refl

next_upto-Spaced :
    (n k : ℕ) (w t : Bytes)
    → IsField w
    → length w ≤ n
    → Spaced t
    → next_upto n (field_of k w t) ≡ some (w, t)
unfolding next_upto IsField NoSpace skip_space
next_upto-Spaced n k [] t h le sp = absurd h
next_upto-Spaced n k (x ∷ w) t h le sp =
    let skipped : skip_space (field_of k (x ∷ w) t) ≡ x ∷ (w ++ t) =
      skip_space-replicate k (x ∷ (w ++ t)) ∙ rw h.0 refl in
    rw (next_upto, skipped) (ap some (word_upto-NoSpace n (x ∷ w) t (h.0, h.1) le sp))

module _ {A : Type 0} where
  on_word-IsField :
      (o : Option (Bytes × Bytes)) (w t : Bytes) (st : A) (k : Bytes → Bytes → Option A)
      → o ≡ some (w, t)
      → IsField w
      → on_word o st k ≡ k w t
  unfolding on_word
  on_word-IsField o w t st k e h =
      let short : ltb (length w) 32 ≡ true = ground (arith, IsField-short w h) in
      rw e (rw short refl)

  on_int-IsCount :
      (o : Option (ℤ × Bytes)) (ds t : Bytes) (st : A) (k : ℤ → Bytes → Option A)
      → o ≡ some (pos (digits_value 0 ds), t)
      → digits_value 0 ds < 2 ^ 31
      → on_int o st k ≡ k (pos (digits_value 0 ds)) t
  unfolding on_int int_value
  on_int-IsCount o ds t st k e lt = rw e (
      let ok : int_value (pos (digits_value 0 ds)) ≡ some (pos (digits_value 0 ds)) =
        ground (arith, lt) in
      rw ok refl)

  skip_words-row :
      (ws : List Bytes) (t : Bytes) (st : A) (k : Bytes → Option A)
      → AreFields ws
      → Spaced t
      → skip_words (length ws) (row ws t) st k ≡ k t
  unfolding skip_words row AreFields
  skip_words-row [] t st k h sp = refl
  skip_words-row (w ∷ ws) t st k h sp =
      on_word-IsField _ w (row ws t) st _ (next_word-Spaced 1 w (row ws t) h.0 (row-Spaced ws t sp))
        h.0
      ∙ skip_words-row ws t st k h.1 sp

  skip_words-length :
      (n : ℕ) (ws : List Bytes) (t : Bytes) (st : A) (k : Bytes → Option A)
      → AreFields ws
      → Spaced t
      → length ws ≡ n
      → skip_words n (row ws t) st k ≡ k t
  skip_words-length n ws t st k h sp e =
      ap (λ m. skip_words m (row ws t) st k) (sym e) ∙ skip_words-row ws t st k h sp

abbrev reads_of : Stat → ℤ
reads_of s = pos (digits_value 0 s.reads)

abbrev writes_of : Stat → ℤ
writes_of s = pos (digits_value 0 s.writes)

-- `sscanf` on a line, whatever the variables held.
disk_line-IsStat :
    (s : Stat) (st : DiskIo)
    → IsStat s
    → disk_line (line_of s) st
      ≡ some (record { name = some s.name; read_num = reads_of s; write_num = writes_of s })
unfolding disk_line row Spaced
disk_line-IsStat s st ((a, a4), (b, b8), c, (r, r31), (f, f3), (w, w31), (g, g6)) =
    let t4 : Bytes = 32 ∷ s.behind in
    let t3 : Bytes = row s.of_writes t4 in
    let s3 : Spaced t3 = row-Spaced s.of_writes t4 refl in
    let t2 : Bytes = row (s.writes ∷ []) t3 in
    let t1 : Bytes = row s.of_reads t2 in
    let s1 : Spaced t1 = row-Spaced s.of_reads t2 refl in
    on_word-IsField _ s.major _ st _ (next_upto-Spaced 4 s.major_in s.major _ a a4 refl) a
    ∙ on_word-IsField _ s.minor _ st _ (next_upto-Spaced 8 (suc s.minor_in) s.minor _ b b8 refl) b
    ∙ on_word-IsField _ s.name _ st _ (next_word-Spaced 1 s.name _ c refl) c
    ∙ on_int-IsCount _ s.reads t1 _ _ (next_int-IsNumber 1 s.reads t1 r s1) r31
    ∙ skip_words-length 3 s.of_reads t2 _ _ f refl f3
    ∙ on_int-IsCount _ s.writes t3 _ _ (next_int-IsNumber 1 s.writes t3 w s3) w31
    ∙ skip_words-length 6 s.of_writes t4 _ _ g refl g6

-- The reads and writes of the disks, by their name.
unfoldable pub io_sum : List Stat → ℕ
io_sum [] = 0
io_sum (s ∷ ss) =
    let rest = io_sum ss in
    if contains s.name (codes "da")
    then digits_value 0 s.reads + digits_value 0 s.writes + rest
    else rest

unfoldable pub AreStats : List Stat → Type 0
AreStats [] = Unit {0}
AreStats (s ∷ ss) = IsStat s × AreStats ss

add_int-pos : (a b : ℕ) → a + b < 2 ^ 31 → add_int (pos a) (pos b) ≡ some (pos (a + b))
unfolding add_int int_value
add_int-pos a b lt = ground (arith, lt)

-- On lines that are each made of the device's numbers, of at most 4 and 8 bytes, its name, and
-- eleven counts, of which the reads and the writes are ints, `get_disk_io` adds the reads and the
-- writes of the devices with `da` in their name to its argument, if the sum is an int.
pub get_disk_io-io_sum :
    (ss : List Stat) (st : DiskIo) (io_num : ℕ)
    → AreStats ss
    → io_num + io_sum ss < 2 ^ 31
    → get_disk_io (map line_of ss) st (pos io_num) ≡ some (pos (io_num + io_sum ss))
unfolding get_disk_io io_sum AreStats
get_disk_io-io_sum [] st io_num h lt = ap (λ n. some (pos n)) (omega arith)
get_disk_io-io_sum (s ∷ ss) st io_num h lt =
    let st' : DiskIo = record {
      name = some s.name;
      read_num = reads_of s;
      write_num = writes_of s;
    } in
    let line : disk_line (line_of s) st ≡ some st' = disk_line-IsStat s st h.0 in
    elim (Bool-cases (contains s.name (codes "da"))) [
      | inl e ↦
          let r : ℕ = digits_value 0 s.reads in
          let w : ℕ = digits_value 0 s.writes in
          let total : io_sum (s ∷ ss) ≡ r + w + io_sum ss = if_true _ _ e in
          let fits : io_num + (r + w) + io_sum ss < 2 ^ 31 = omega (arith, lt, total) in
          let both = add_int-pos r w (omega (arith, fits)) in
          let more = add_int-pos io_num (r + w) (omega (arith, fits)) in
          rw line (
            if_true _ _ e
            ∙ rw both (
                rw more (
                  get_disk_io-io_sum ss st' (io_num + (r + w)) h.1 fits
                  ∙ ap (λ n. some (pos n)) (omega (arith, total)))))
      | inr e ↦
          let total : io_sum (s ∷ ss) ≡ io_sum ss = if_false _ _ e in
          rw line (
            if_false _ _ e
            ∙ get_disk_io-io_sum ss st' io_num h.1 (omega (arith, lt, total))
            ∙ ap (λ n. some (pos (io_num + n))) (sym total))
    ]

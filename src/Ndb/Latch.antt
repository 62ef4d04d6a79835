-- ===== src/Ndb/Latch.antt =====
-- What scanning a log does to its status and its position.
use sysmonitor.Base.{
  ℕ, zero, suc, ◌+◌, ◌-◌, ◌≤◌, ◌≡◌, refl, sym, ap, ◌∙◌, false, [], ◌∷◌, none, some, arith,
  Option-cases, inl, inr, length, drop, length-drop,
}
use mathlib.Core.Path.{subst}
use sysmonitor.Base.Text.{Bytes, text}
use sysmonitor.Base.Stdio.{fgets}
use sysmonitor.Ndb.{
  LogState, log_error, log_warning, fields, alarm, raise, strupr, scan_line, line_bytes, scan_lines,
  scan_log, read_line_num,
}

-- No request to reset is pending, and the status is one of the three and not below the other.
Latched : LogState → LogState → Type 0
Latched st st' =
    (st'.b_reset_status ≡ false) × (st.log_status ≤ st'.log_status) × (st'.log_status ≤ 2)

alarm-le :
    (tag : Bytes) (status s : ℕ) → status ≤ 2 → alarm tag status ≡ some s → (status ≤ s) × (s ≤ 2)
unfolding alarm log_error log_warning
alarm-le tag status s b e = (ground arith, ground arith)

Latched-refl : (st : LogState) → st.b_reset_status ≡ false → st.log_status ≤ 2 → Latched st st
unfolding Latched
Latched-refl st r b = (r, omega arith, b)

Latched-trans : (s t u : LogState) → Latched s t → Latched t u → Latched s u
unfolding Latched
Latched-trans s t u (r, a, b) (r', a', b') = (r', omega arith, b')

scan_line-Latched :
    (buf : Bytes) (st st' : LogState)
    → st.b_reset_status ≡ false
    → st.log_status ≤ 2
    → scan_line buf st ≡ some st'
    → Latched st st'
unfolding scan_line Latched raise
scan_line-Latched buf st st' r b e = elim (Option-cases (fields buf)) [
  | inl n ↦ ground (arith, n, e)
  | inr ((before, tag), f) ↦ elim (Option-cases (alarm (strupr tag) st.log_status)) [
    | inl n ↦
        let same : st ≡ st' = ground (arith, f, n, e) in
        subst (Latched st) same (Latched-refl st r b)
    | inr (s, a) ↦
        let (low, high) = alarm-le (strupr tag) st.log_status s b a in
        ground (arith, f, a, e, r, low, high)
  ]
]

length-fgets : (n : ℕ) (s : Bytes) → length (fgets n s).1 ≤ length s
unfolding fgets
length-fgets zero s = omega arith
length-fgets (suc n) [] = omega arith
length-fgets (suc n) (x ∷ s) = ground (arith, length-fgets n s)

le_trans : {a b c : ℕ} → a ≤ b → b ≤ c → a ≤ c
le_trans h k = omega arith

scan_lines-some :
    (n x : ℕ) (s : Bytes) (st t : LogState)
    → scan_line (text (fgets line_bytes (x ∷ s)).0) st ≡ some t
    → scan_lines (suc n) (x ∷ s) st ≡ scan_lines n (fgets line_bytes (x ∷ s)).1 t
unfolding scan_lines
scan_lines-some n x s st t f = rw (f, scan_lines) refl

scan_lines-none :
    (n x : ℕ) (s : Bytes) (st : LogState)
    → scan_line (text (fgets line_bytes (x ∷ s)).0) st ≡ none
    → scan_lines (suc n) (x ∷ s) st ≡ none
unfolding scan_lines
scan_lines-none n x s st f = rw (f, scan_lines) refl

Latched-ends : (s t : LogState) → Latched s t → (t.b_reset_status ≡ false) × (t.log_status ≤ 2)
unfolding Latched
Latched-ends s t (r, low, high) = (r, high)

scan_lines-Latched :
    (n : ℕ) (s rest : Bytes) (st st' : LogState)
    → st.b_reset_status ≡ false
    → st.log_status ≤ 2
    → scan_lines n s st ≡ some (st', rest)
    → Latched st st' × (length rest ≤ length s)
unfolding scan_lines
scan_lines-Latched zero s rest st st' r b e =
    let same : st ≡ st' = ground arith in
    let left : s ≡ rest = ground arith in
    (subst (Latched st) same (Latched-refl st r b), omega (arith, ap length left))
scan_lines-Latched (suc n) [] rest st st' r b e =
    let same : st ≡ st' = ground arith in
    let left : [] ≡ rest = ground arith in
    (subst (Latched st) same (Latched-refl st r b), omega (arith, ap length left))
scan_lines-Latched (suc n) (x ∷ s) rest st st' r b e =
    elim (Option-cases (scan_line (text (fgets line_bytes (x ∷ s)).0) st)) [
      | inl f ↦ let stuck = sym e ∙ scan_lines-none n x s st f in cc stuck
      | inr (t, f) ↦
          let first = scan_line-Latched (text (fgets line_bytes (x ∷ s)).0) st t r b f in
          let next = sym (scan_lines-some n x s st t f) ∙ e in
          let (r', high) = Latched-ends st t first in
          let (later, size) =
            scan_lines-Latched n (fgets line_bytes (x ∷ s)).1 rest t st' r' high next in
          (Latched-trans st t st' first later, le_trans size (length-fgets line_bytes (x ∷ s)))
    ]

-- While no reset is pending, a scan of a log that reads and writes nothing but what its buffers hold
-- (each line it looks at has four words of fewer than 500 bytes, and goes on behind the fourth where
-- that raises the alarm) never lowers the log's status: an error stays one until it is reset. The position moves forward, and not past the end of the file.
pub scan_log-latches :
    (file : Bytes) (st st' : LogState)
    → st.b_reset_status ≡ false
    → st.log_status ≤ 2
    → st.file_pos ≤ length file
    → scan_log (some file) st ≡ some st'
    → (st'.b_reset_status ≡ false)
      × (st.log_status ≤ st'.log_status)
      × (st'.log_status ≤ 2)
      × (st.file_pos ≤ st'.file_pos)
      × (st'.file_pos ≤ length file)
unfolding scan_log Latched
scan_log-latches file st st' r b p e =
    elim (Option-cases (scan_lines read_line_num (drop st.file_pos file) st)) [
      | inl n ↦ ground (arith, n, e)
      | inr ((t, rest), f) ↦
          let ((r', low, high), size) =
            scan_lines-Latched read_line_num (drop st.file_pos file) rest st t r b f in
          let at_end : st' ≡ record t {
            file_pos = st.file_pos + (length (drop st.file_pos file) - length rest);
          } =
            ground (arith, f, e) in
          rw at_end
            (r', low, high, omega arith, omega (arith, size, p, length-drop st.file_pos file))
    ]

-- ===== src/Monitor/Pipe.antt =====
-- The pipe of the process monitor: what is counted once it is empty.
use sysmonitor.Base.{
  ℕ, zero, suc, ◌+◌, ◌<◌, ◌≡◌, sym, ap, ◌∙◌, List, [], ◌∷◌, Option, none, some, arith, length, ltb,
  get_elem?, if◌then◌else◌,
}
use mathlib.Core.Path.{subst}
use sysmonitor.Base.Fallible.{bind-elim, some-inj}
use sysmonitor.Base.Text.{Bytes, text}
use sysmonitor.Monitor.Process.{
  Pids, Reading, Row, find_pids, scan_line, counted, count_lines, count_pids, process_row,
  process_rows,
}

count_lines-ends :
    (pid : ℕ) (lines : List Bytes) (r r' : Reading) (n : ℕ)
    → count_lines pid lines r ≡ some (n, r')
    → r'.lines ≡ []
unfolding count_lines
count_lines-ends pid [] r r' n e = sym (ap (λ p. p.1.lines) (some-inj e))
count_lines-ends pid (line ∷ lines) r r' n e =
    bind-elim (if ltb 3 r.nread_line then scan_line (text line) r else some r) _ (n, r') e
      λ r1 e0 e1.
        bind-elim (if ltb 3 r.nread_line then counted pid r1 else some 0) _ (n, r') e1
          λ k e2 e3.
            bind-elim (count_lines pid lines (record r1 { nread_line = r1.nread_line + 1 })) _
              (n, r') e3
              λ (more, r2) e4 e5.
                let same : r2 ≡ r' = ap (λ p. p.1) (some-inj e5) in
                ap (λ x. x.lines) (sym same) ∙ count_lines-ends pid lines _ r2 more e4

-- Once the pipe is empty nothing is counted.
count_pids-empty :
    (pids : List ℕ) (r r' : Reading) (n : ℕ)
    → r.lines ≡ []
    → count_pids pids r ≡ some (n, r')
    → (n ≡ 0) × (r'.lines ≡ [])
unfolding count_pids count_lines
count_pids-empty [] r r' n h e =
    (ap (λ p. p.0) (sym (some-inj e)), ap (λ p. p.1.lines) (sym (some-inj e)) ∙ h)
count_pids-empty (pid ∷ pids) r r' n h e =
    bind-elim (count_lines pid r.lines r) _ (n, r') e
      λ (k, r1) e0 e1.
        bind-elim (count_pids pids r1) _ (n, r') e1
          λ (more, r2) e2 e3.
            let none_here : count_lines pid [] r ≡ some (k, r1) =
              subst (λ ls. count_lines pid ls r ≡ some (k, r1)) h e0 in
            let zero_here : 0 ≡ k = ap (λ p. p.0) (some-inj none_here) in
            let (later, ends) =
              count_pids-empty pids r1 r2 more (count_lines-ends pid r.lines r r1 k e0) e2 in
            let total : k + more ≡ n = ap (λ p. p.0) (some-inj e3) in
            (omega (arith, later, zero_here, total), ap (λ p. p.1.lines) (sym (some-inj e3)) ∙ ends)

pub count_pids-ends :
    (pids : List ℕ) (r r' : Reading) (n : ℕ)
    → 0 < length pids
    → count_pids pids r ≡ some (n, r')
    → r'.lines ≡ []
unfolding count_pids
count_pids-ends [] r r' n h e = absurd (omega arith)
count_pids-ends (pid ∷ pids) r r' n h e =
    bind-elim (count_lines pid r.lines r) _ (n, r') e
      λ (k, r1) e0 e1.
        bind-elim (count_pids pids r1) _ (n, r') e1
          λ (more, r2) e2 e3.
            let ends = count_lines-ends pid r.lines r r1 k e0 in
            ap (λ p. p.1.lines) (sym (some-inj e3)) ∙ (count_pids-empty pids r1 r2 more ends e2).1

process_row-empty :
    (name : Bytes) (o : Option (List ℕ)) (r r' : Reading) (row : Row)
    → r.lines ≡ []
    → process_row name o r ≡ some (row, r')
    → (row.tcpnum ≡ 0) × (r'.lines ≡ [])
unfolding process_row
process_row-empty name none r r' row h e =
    (ap (λ p. p.0.tcpnum) (sym (some-inj e)), ap (λ p. p.1.lines) (sym (some-inj e)) ∙ h)
process_row-empty name (some pids) r r' row h e =
    bind-elim (count_pids pids r) _ (row, r') e
      λ (n, r1) e0 e1.
        let (zero_n, ends) = count_pids-empty pids r r1 n h e0 in
        (
          ap (λ p. p.0.tcpnum) (sym (some-inj e1)) ∙ zero_n,
          ap (λ p. p.1.lines) (sym (some-inj e1)) ∙ ends,
        )

pub process_rows-empty :
    (m : Pids) (names : List Bytes) (r r' : Reading) (rows : List Row) (j : ℕ) (b : Row)
    → r.lines ≡ []
    → process_rows m names r ≡ some (rows, r')
    → get_elem? rows j ≡ some b
    → b.tcpnum ≡ 0
unfolding process_rows
process_rows-empty m [] r r' rows j b h e at =
    let no_rows : [] ≡ rows = ap (λ p. p.0) (some-inj e) in
    let stuck = ap (λ xs. get_elem? xs j) no_rows ∙ at in cc stuck
process_rows-empty m (name ∷ names) r r' rows j b h e at =
    bind-elim (process_row name (find_pids name m) r) _ (rows, r') e
      λ (row, r1) e0 e1.
        bind-elim (process_rows m names r1) _ (rows, r') e1
          λ (rest, r2) e2 e3.
            let (zero_n, ends) = process_row-empty name (find_pids name m) r r1 row h e0 in
            let all : row ∷ rest ≡ rows = ap (λ p. p.0) (some-inj e3) in
            split j row rest zero_n (ap (λ xs. get_elem? xs j) all ∙ at)
              (λ i here. process_rows-empty m names r1 r2 rest i b ends e2 here)
  where
    split :
        (j : ℕ) (row : Row) (rest : List Row)
        → row.tcpnum ≡ 0
        → get_elem? (row ∷ rest) j ≡ some b
        → ((i : ℕ) → get_elem? rest i ≡ some b → b.tcpnum ≡ 0)
        → b.tcpnum ≡ 0
    split zero row rest z here k = ap (λ x. x.tcpnum) (sym (some-inj here)) ∙ z
    split (suc i) row rest z here k = k i here

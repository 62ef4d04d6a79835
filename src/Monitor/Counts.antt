-- ===== src/Monitor/Counts.antt =====
-- What the process monitor reports, and what its map keeps.
use sysmonitor.Base.{
  ℕ, zero, suc, ◌<◌, ◌≡◌, refl, sym, ap, ◌∙◌, Bool, true, false, List, [], ◌∷◌, ◌++◌, Option, none,
  some, arith, length, get_elem?, if◌then◌else◌, Bool-cases, inl, inr, if_true, if_false,
  append-nil, append_assoc, length-append,
}
use mathlib.Core.Path.{subst}
use sysmonitor.Base.Fallible.{bind-elim, some-inj}
use sysmonitor.Base.Text.{Bytes, strcmp_eq}
use sysmonitor.Monitor.Process.{
  Pids, Entry, Reading, Row, find_pids, push_pid, match_names, get_process_list, count_pids,
  process_row, process_rows, opened, write,
}
use sysmonitor.Monitor.Pipe.{count_pids-ends, process_rows-empty}

-- Each name of the map has a number.
abbrev pub AllNumbered : Pids → Type 0
AllNumbered [] = Unit {0}
AllNumbered ((k, pids) ∷ m) = (0 < length pids) × AllNumbered m

find_pids-numbered :
    (name : Bytes) (m : Pids) (pids : List ℕ)
    → AllNumbered m
    → find_pids name m ≡ some pids
    → 0 < length pids
unfolding find_pids
find_pids-numbered name [] pids h e = absurd cc
find_pids-numbered name ((k, ps) ∷ m) pids (h, hs) e = elim (Bool-cases (strcmp_eq k name)) [
  | inl t ↦ omega (arith, h, ap length (some-inj (sym (if_true (some ps) _ t) ∙ e)))
  | inr t ↦ find_pids-numbered name m pids hs (sym (if_false (some ps) _ t) ∙ e)
]

-- What a step does to the map: the names keep their numbers, more may come behind them.
Keeps : Pids → Pids → Type 0
Keeps m m' =
    (AllNumbered m → AllNumbered m')
    × ((name : Bytes) (pids : List ℕ)
        → find_pids name m ≡ some pids
        → (more : List ℕ) × (find_pids name m' ≡ some (pids ++ more)))

Keeps-refl : (m : Pids) → Keeps m m
unfolding Keeps
Keeps-refl m = (λ h. h, λ name pids e. ([], e ∙ ap some (sym (append-nil pids))))

Keeps-trans : (a b c : Pids) → Keeps a b → Keeps b c → Keeps a c
unfolding Keeps
Keeps-trans a b c (n, k) (n', k') = (
  λ h. n' (n h),
  λ name pids e.
      let (more, e1) = k name pids e in
      let (more', e2) = k' name (pids ++ more) e1 in
      (more ++ more', e2 ∙ ap some (append_assoc pids more more')),
)

push_pid-numbered :
    (x : Bytes) (pid : ℕ) (m : Pids) → AllNumbered m → AllNumbered (push_pid x pid m)
unfolding push_pid
push_pid-numbered x pid [] h = (omega arith, tt)
push_pid-numbered x pid ((k, ps) ∷ m) (h, hs) = elim (Bool-cases (strcmp_eq k x)) [
  | inl t ↦ rw t (omega (arith, length-append ps (pid ∷ [])), hs)
  | inr t ↦ rw t (h, push_pid-numbered x pid m hs)
]

push_pid-finds :
    (x name : Bytes) (pid : ℕ) (m : Pids) (pids : List ℕ)
    → find_pids name m ≡ some pids
    → (more : List ℕ) × (find_pids name (push_pid x pid m) ≡ some (pids ++ more))
unfolding find_pids push_pid
push_pid-finds x name pid [] pids e = absurd cc
push_pid-finds x name pid ((k, ps) ∷ m) pids e = elim (Bool-cases (strcmp_eq k name)) [
  | inl t ↦
      let same : ps ≡ pids = some-inj (sym (if_true (some ps) _ t) ∙ e) in
      elim (Bool-cases (strcmp_eq k x)) [
        | inl u ↦ (pid ∷ [], rw (u, t, same) refl)
        | inr u ↦ ([], rw (u, t, same, append-nil pids) refl)
      ]
  | inr t ↦
      let below = sym (if_false (some ps) _ t) ∙ e in
      elim (Bool-cases (strcmp_eq k x)) [
        | inl u ↦ ([], rw (u, t, append-nil pids) below)
        | inr u ↦ let (more, f) = push_pid-finds x name pid m pids below in (more, rw (u, t) f)
      ]
]

push_pid-Keeps : (x : Bytes) (pid : ℕ) (m : Pids) → Keeps m (push_pid x pid m)
unfolding Keeps
push_pid-Keeps x pid m =
    (push_pid-numbered x pid m, λ name pids e. push_pid-finds x name pid m pids e)

if-Keeps : (b : Bool) (m m' : Pids) → Keeps m m' → Keeps m (if b then m' else m)
if-Keeps true m m' k = k
if-Keeps false m m' k = Keeps-refl m

match_names-Keeps : (names : List Bytes) (e : Entry) (m : Pids) → Keeps m (match_names names e m)
unfolding match_names
match_names-Keeps [] e m = Keeps-refl m
match_names-Keeps (name ∷ names) e m =
    let b = strcmp_eq name e.exe in
    let m1 = (if b then push_pid e.exe e.pid m else m) in
    Keeps-trans m m1 _ (if-Keeps b m _ (push_pid-Keeps e.exe e.pid m))
      (match_names-Keeps names e m1)

get_process_list-Keeps :
    (names : List Bytes) (es : List Entry) (m : Pids) → Keeps m (get_process_list names es m)
unfolding get_process_list
get_process_list-Keeps names [] m = Keeps-refl m
get_process_list-Keeps names (e ∷ es) m =
    let m1 = (if e.opens then match_names names e m else m) in
    Keeps-trans m m1 _ (if-Keeps e.opens m _ (match_names-Keeps names e m))
      (get_process_list-Keeps names es m1)

process_row-running :
    (name : Bytes) (o : Option (List ℕ)) (r r' : Reading) (row : Row)
    → ((pids : List ℕ) → o ≡ some pids → 0 < length pids)
    → process_row name o r ≡ some (row, r')
    → row.process_status ≡ 1
    → r'.lines ≡ []
unfolding process_row
process_row-running name none r r' row h e s =
    let idle : 0 ≡ 1 = ap (λ p. p.0.process_status) (some-inj e) ∙ s in absurd (omega (arith, idle))
process_row-running name (some pids) r r' row h e s =
    bind-elim (count_pids pids r) _ (row, r') e
      λ (n, r1) e0 e1.
        ap (λ p. p.1.lines) (sym (some-inj e1)) ∙ count_pids-ends pids r r1 n (h pids refl) e0

get-cons :
    (i : ℕ) (row a : Row) (rest rows : List Row)
    → row ∷ rest ≡ rows
    → get_elem? rows i ≡ some a
    → get_elem? (row ∷ rest) i ≡ some a
get-cons i row a rest rows e at = ap (λ xs. get_elem? xs i) e ∙ at

process_rows-first :
    (m : Pids) (names : List Bytes) (r r' : Reading) (rows : List Row) (i j : ℕ) (a b : Row)
    → AllNumbered m
    → process_rows m names r ≡ some (rows, r')
    → i < j
    → get_elem? rows i ≡ some a
    → get_elem? rows j ≡ some b
    → a.process_status ≡ 1
    → b.tcpnum ≡ 0
unfolding process_rows
process_rows-first m [] r r' rows i j a b num e h at_i at_j s =
    let no_rows : [] ≡ rows = ap (λ p. p.0) (some-inj e) in
    let stuck = ap (λ xs. get_elem? xs i) no_rows ∙ at_i in cc stuck
process_rows-first m (name ∷ names) r r' rows i zero a b num e h at_i at_j s = absurd (omega arith)
process_rows-first m (name ∷ names) r r' rows zero (suc j) a b num e h at_i at_j s =
    bind-elim (process_row name (find_pids name m) r) _ (rows, r') e
      λ (row, r1) e0 e1.
        bind-elim (process_rows m names r1) _ (rows, r') e1
          λ (rest, r2) e2 e3.
            let all : row ∷ rest ≡ rows = ap (λ p. p.0) (some-inj e3) in
            let same : row ≡ a = some-inj (get-cons 0 row a rest rows all at_i) in
            let running : row.process_status ≡ 1 = ap (λ x. x.process_status) same ∙ s in
            let ends =
              process_row-running name (find_pids name m) r r1 row
                (λ pids f. find_pids-numbered name m pids num f) e0 running in
            process_rows-empty m names r1 r2 rest j b ends e2
              (get-cons (suc j) row b rest rows all at_j)
process_rows-first m (name ∷ names) r r' rows (suc i) (suc j) a b num e h at_i at_j s =
    bind-elim (process_row name (find_pids name m) r) _ (rows, r') e
      λ (row, r1) e0 e1.
        bind-elim (process_rows m names r1) _ (rows, r') e1
          λ (rest, r2) e2 e3.
            let all : row ∷ rest ≡ rows = ap (λ p. p.0) (some-inj e3) in
            process_rows-first m names r1 r2 rest i j a b num e2 (omega arith)
              (get-cons (suc i) row a rest rows all at_i)
              (get-cons (suc j) row b rest rows all at_j) s

-- Of the processes that run, only the first in the order of the configuration is reported with the
-- number of its connections: each row behind it says 0, whatever netstat has printed, since
-- the first process number reads the pipe to its end. The map has to hold a number for each name, as it
-- does from the start, and as it does again after the call.
pub write-counts :
    (names : List Bytes) (es : List Entry) (netstat : Bytes) (m m' : Pids) (rows : List Row)
    (i j : ℕ) (a b : Row)
    → AllNumbered m
    → write names (some es) (some netstat) m ≡ some (rows, m')
    → i < j
    → get_elem? rows i ≡ some a
    → get_elem? rows j ≡ some b
    → a.process_status ≡ 1
    → (b.tcpnum ≡ 0) × AllNumbered m'
unfolding write Keeps
write-counts names es netstat m m' rows i j a b num e h at_i at_j s =
    let m1 = get_process_list names es m in
    let num1 = (get_process_list-Keeps names es m).0 num in
    bind-elim (process_rows m1 names (opened netstat)) _ (rows, m') e
      λ (all, r) e0 e1.
        let same : all ≡ rows = ap (λ p. p.0) (some-inj e1) in
        let here : (k : ℕ) (x : Row) → get_elem? rows k ≡ some x → get_elem? all k ≡ some x =
          λ k x at. ap (λ xs. get_elem? xs k) same ∙ at in
        (
          process_rows-first m1 names (opened netstat) r all i j a b num1 e0 h (here i a at_i)
              (here j b at_j) s,
          subst AllNumbered (ap (λ p. p.1) (some-inj e1)) num1,
        )

-- Whatever the process list says later, a process that was found once keeps its numbers in the map,
-- those of processes that have ended too.
write-keeps :
    (names : List Bytes) (es : List Entry) (netstat : Bytes) (m m' : Pids) (rows : List Row)
    (name : Bytes) (pids : List ℕ)
    → write names (some es) (some netstat) m ≡ some (rows, m')
    → find_pids name m ≡ some pids
    → (more : List ℕ) × (find_pids name m' ≡ some (pids ++ more))
unfolding write Keeps
write-keeps names es netstat m m' rows name pids e f =
    let m1 = get_process_list names es m in
    bind-elim (process_rows m1 names (opened netstat)) _ (rows, m') e
      λ (all, r) e0 e1.
        let same : m1 ≡ m' = ap (λ p. p.1) (some-inj e1) in
        let (more, g) = (get_process_list-Keeps names es m).1 name pids f in
        (more, ap (find_pids name) (sym same) ∙ g)

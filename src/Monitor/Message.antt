-- ===== src/Monitor/Message.antt =====
-- `printError` of `CProcessMonitor`: how the system's text for an error is cut before it is printed.
-- A TCHAR is a signed byte: those from 128 on are below 0.
use sysmonitor.Base.{
  ℕ, zero, suc, ◌+◌, ◌≡◌, refl, sym, ap, ◌∙◌, Bool, true, false, ◌&&◌, ◌||◌, List, [], ◌∷◌, ◌++◌,
  Option, none, some, arith, ltb, leb, ◌==◌, if◌then◌else◌, if_true, if_false, length, set, get_or,
  replicate, length-append, append_assoc, set-append_at, snoc_cases, replicate-last,
  get_or-append_at,
}
use mathlib.Core.Option
use mathlib.Core.Path.{subst}

-- `*p > 31 || *p == 9`
unfoldable pub goes_on : ℕ → Bool
goes_on x = (ltb 31 x && ltb x 128) || x == 9

-- `*p == '.' || *p < 33`
unfoldable pub is_cut : ℕ → Bool
is_cut x = x == 46 || ltb x 33 || leb 128 x

-- The first loop: the offset where it stops; none if it leaves the buffer.
unfoldable pub line_end : List ℕ → Option ℕ
unfolding goes_on
line_end [] = none
line_end (x ∷ s) = let rest = line_end s in if goes_on x then Option.map suc rest else some 0

-- The second loop, at `p`.
unfoldable pub cut_end : ℕ → List ℕ → List ℕ
unfolding is_cut
cut_end zero buf = set buf 0 0
cut_end (suc p) buf =
    let buf' = set buf (suc p) 0 in
    let rest = cut_end p buf' in if is_cut (get_or buf' p 0) then rest else buf'

-- What `sysMsg` holds when it is printed.
unfoldable pub print_error : List ℕ → Option (List ℕ)
print_error sys_msg = Option.map (λ p. cut_end p sys_msg) (line_end sys_msg)

abbrev pub AllOf : (ℕ → Bool) → List ℕ → Type 0
AllOf test [] = Unit {0}
AllOf test (x ∷ s) = (test x ≡ true) × AllOf test s

line_end-stops :
    (s : List ℕ) (x : ℕ) (rest : List ℕ)
    → AllOf goes_on s
    → goes_on x ≡ false
    → line_end (s ++ x ∷ rest) ≡ some (length s)
unfolding line_end
line_end-stops [] x rest h e = if_false _ _ e
line_end-stops (y ∷ s) x rest (a, h) e =
    if_true _ _ a ∙ ap (Option.map suc) (line_end-stops s x rest h e)

AllOf-last :
    (test : ℕ → Bool) (v : List ℕ) (y : ℕ)
    → AllOf test (v ++ y ∷ [])
    → AllOf test v × (test y ≡ true)
AllOf-last test [] y h = (tt, h.0)
AllOf-last test (x ∷ v) y h = let (a, b) = AllOf-last test v y h.1 in ((h.0, a), b)

-- One turn of the second loop behind `front ++ y`.
cut_end-turn :
    (front : List ℕ) (y x : ℕ) (rest : List ℕ)
    → set ((front ++ y ∷ []) ++ x ∷ rest) (suc (length front)) 0 ≡ front ++ y ∷ (0 ∷ rest)
cut_end-turn front y x rest =
    set-append_at (front ++ y ∷ []) rest x 0 (suc (length front))
      (length-append front (y ∷ []) ∙ omega arith)
    ∙ append_assoc front (y ∷ []) (0 ∷ rest)

-- The loop clears what is to be cut behind a byte that is not.
cut_end-cuts :
    (n : ℕ) (front tail : List ℕ) (y x : ℕ) (rest : List ℕ)
    → length tail ≡ n
    → is_cut y ≡ false
    → AllOf is_cut tail
    → cut_end (suc (length front + n)) ((front ++ y ∷ tail) ++ x ∷ rest)
      ≡ front ++ y ∷ (replicate (suc n) 0 ++ rest)
unfolding cut_end
cut_end-cuts zero front (z ∷ tail) y x rest len k h = absurd (omega (arith, len))
cut_end-cuts zero front [] y x rest len k h =
    let B' = front ++ y ∷ (0 ∷ rest) in
    let i : length front + 0 ≡ length front = omega arith in
    let at = get_or-append_at front (0 ∷ rest) y 0 (length front) refl in
    ap (λ m. cut_end (suc m) ((front ++ y ∷ []) ++ x ∷ rest)) i
    ∙ ap (λ b. if is_cut (get_or b (length front) 0) then cut_end (length front) b else b)
        (cut_end-turn front y x rest)
    ∙ if_false _ _ (ap is_cut at ∙ k)
cut_end-cuts (suc n) front tail y x rest len k h =
    let (v, z, e, size) = snoc_cases n tail len in
    let (h', c) = AllOf-last is_cut v z (subst (AllOf is_cut) e h) in
    let whole = front ++ y ∷ v in
    let split : (front ++ y ∷ tail) ++ x ∷ rest ≡ (whole ++ z ∷ []) ++ x ∷ rest =
      ap (λ u. (front ++ y ∷ u) ++ x ∷ rest) e
      ∙ ap (λ u. u ++ x ∷ rest) (sym (append_assoc front (y ∷ v) (z ∷ []))) in
    let i : length front + suc n ≡ length whole =
      let l = length-append front (y ∷ v) in omega (arith, l, size) in
    let j : length whole ≡ suc (length front + n) =
      let l = length-append front (y ∷ v) in omega (arith, l, size) in
    let at = get_or-append_at whole (0 ∷ rest) z 0 (length whole) refl in
    ap (λ m. cut_end (suc m) ((front ++ y ∷ tail) ++ x ∷ rest)) i
    ∙ ap (cut_end (suc (length whole))) split
    ∙ ap (λ b. if is_cut (get_or b (length whole) 0) then cut_end (length whole) b else b)
        (cut_end-turn whole z x rest)
    ∙ if_true _ _ (ap is_cut at ∙ c)
    ∙ ap (λ m. cut_end m (whole ++ z ∷ (0 ∷ rest))) j
    ∙ cut_end-cuts n front v y z (0 ∷ rest) size k h'
    ∙ ap (λ r. front ++ y ∷ r) (replicate-last 0 (suc n) rest)

-- A text that is not empty and ends behind `y`, but for points and spaces, keeps all up to `y`; what
-- is behind it up to the byte where the line ends becomes NULs.
pub print_error-cuts :
    (front tail : List ℕ) (y x : ℕ) (rest : List ℕ)
    → AllOf goes_on (front ++ y ∷ tail)
    → goes_on x ≡ false
    → is_cut y ≡ false
    → AllOf is_cut tail
    → print_error ((front ++ y ∷ tail) ++ x ∷ rest)
      ≡ some (front ++ y ∷ (replicate (suc (length tail)) 0 ++ rest))
unfolding print_error
print_error-cuts front tail y x rest g stop k h =
    let at : length (front ++ y ∷ tail) ≡ suc (length front + length tail) =
      let l = length-append front (y ∷ tail) in omega (arith, l) in
    let buf = (front ++ y ∷ tail) ++ x ∷ rest in
    ap (Option.map (λ p. cut_end p buf)) (line_end-stops (front ++ y ∷ tail) x rest g stop)
    ∙ ap (λ p. some (cut_end p buf)) at
    ∙ ap some (cut_end-cuts (length tail) front tail y x rest refl k h)

-- ===== src/Paths/Beside.antt =====
-- `GetCurrentPath`: the name of a file in the directory of the program.
use sysmonitor.Base.{
  ℕ, zero, suc, ◌+◌, ◌-◌, ◌≤◌, ◌≡◌, refl, sym, ap, ◌∙◌, true, false, List, [], ◌∷◌, ◌++◌, none,
  some, arith, ◌==◌, if◌then◌else◌, if_true, if_false, length, take, drop, set, get_or, replicate,
  length-append, length-replicate, append_assoc, set-append_at, get_or-append_at, drop-append_at,
  take-append_at, snoc_cases, replicate-last, take-all, ltb, Bool-cases, inl, inr,
}
use mathlib.Core.Path.{subst}
use sysmonitor.Base.Text.{Bytes, Lacks, IsText, c_string}
use sysmonitor.Port
use sysmonitor.Port.{put_nul}
use sysmonitor.Port.Write.{write-fits, length-written}
use sysmonitor.Paths.{max_path, separator, read_path, cut_back, put_at, get_current_path}

Lacks-last : (c : ℕ) (v : Bytes) (y : ℕ) → Lacks c (v ++ y ∷ []) → Lacks c v × ((y == c) ≡ false)
Lacks-last c [] y h = (tt, ground (arith, h.0))
Lacks-last c (x ∷ v) y h = let (a, b) = Lacks-last c v y h.1 in ((h.0, a), b)

-- The loop clears the word behind the last separator, and ends behind it.
cut_back-finds :
    (sep n : ℕ) (front w : Bytes) (x : ℕ) (rest : List ℕ)
    → length w ≡ n
    → Lacks sep w
    → cut_back sep (suc (length front + n)) ((front ++ sep ∷ w) ++ x ∷ rest)
      ≡ some (suc (length front), front ++ sep ∷ (replicate (suc n) 0 ++ rest))
unfolding cut_back
cut_back-finds sep zero front (y ∷ w) x rest len h = absurd (omega (arith, len))
cut_back-finds sep zero front [] x rest len h =
    let k : ℕ = length front + 0 in
    let B : List ℕ = (front ++ sep ∷ []) ++ x ∷ rest in
    let B' : List ℕ = front ++ sep ∷ (0 ∷ rest) in
    let size = length-append front (sep ∷ []) in
    let cleared : set B (suc k) 0 ≡ B' =
      set-append_at (front ++ sep ∷ []) rest x 0 (suc k) (omega (arith, size))
      ∙ append_assoc front (sep ∷ []) (0 ∷ rest) in
    let there : (get_or B' k 0 == sep) ≡ true =
      let at = get_or-append_at front (0 ∷ rest) sep 0 k (omega arith) in ground (arith, at) in
    ap (λ b. if get_or b k 0 == sep then some (suc k, b) else cut_back sep k b) cleared
    ∙ if_true _ _ there
    ∙ ap (λ m. some (suc m, B')) (omega arith)
cut_back-finds sep (suc n) front w x rest len h =
    let (v, y, e, size_v) = snoc_cases n w len in
    let k : ℕ = length front + suc n in
    let (h', other) = Lacks-last sep v y (subst (Lacks sep) e h) in
    let A : List ℕ = front ++ sep ∷ w in
    let B' : List ℕ = (front ++ sep ∷ v) ++ y ∷ (0 ∷ rest) in
    let size = length-append front (sep ∷ w) in
    let split : A ++ 0 ∷ rest ≡ B' =
      ap (λ u. (front ++ sep ∷ u) ++ 0 ∷ rest) e
      ∙ ap (λ u. u ++ 0 ∷ rest) (sym (append_assoc front (sep ∷ v) (y ∷ [])))
      ∙ append_assoc (front ++ sep ∷ v) (y ∷ []) (0 ∷ rest) in
    let cleared : set (A ++ x ∷ rest) (suc k) 0 ≡ B' =
      set-append_at A rest x 0 (suc k) (omega (arith, size, len)) ∙ split in
    let size' = length-append front (sep ∷ v) in
    let there : (get_or B' k 0 == sep) ≡ false =
      let at =
        get_or-append_at (front ++ sep ∷ v) (0 ∷ rest) y 0 k (omega (arith, size', size_v)) in
      rw at other in
    let next : k ≡ suc (length front + n) = omega arith in
    ap (λ b. if get_or b k 0 == sep then some (suc k, b) else cut_back sep k b) cleared
    ∙ if_false _ _ there
    ∙ ap (λ m. cut_back sep m B') next
    ∙ cut_back-finds sep n front v y (0 ∷ rest) size_v h'
    ∙ ap (λ r. some (suc (length front), front ++ sep ∷ r)) (replicate-last 0 (suc n) rest)

put_nul-behind : (dst src : List ℕ) (i : ℕ) → length dst ≤ i → put_nul i (Port.write dst src) ≡ none
unfolding put_nul Port.write
put_nul-behind dst src i h = elim (Bool-cases (ltb (length dst) (length src))) [
  | inl t ↦ rw t refl
  | inr t ↦
      let size = length-written dst src (ground (arith, t)) in
      let full : ltb i (length (src ++ drop (length src) dst)) ≡ false = ground (arith, size, h) in
      rw t (rw full refl)
]

-- The path of the program and its NUL, with WIN32.
read_path-win32 :
    (path : Bytes) (buf : List ℕ)
    → length path ≤ 255
    → length buf ≡ 256
    → read_path true path buf ≡ some (path ++ 0 ∷ drop (length (path ++ 0 ∷ [])) buf)
unfolding read_path max_path
read_path-win32 path buf h size =
    let all : take 259 path ≡ path = take-all path 259 (omega (arith, h)) in
    let len = length-append path (0 ∷ []) in
    ap (λ t. Port.write buf (t ++ 0 ∷ [])) all
    ∙ write-fits buf (path ++ 0 ∷ []) (omega (arith, len, h, size))
    ∙ ap some (append_assoc path (0 ∷ []) (drop (length (path ++ 0 ∷ [])) buf))

c_string-IsText : (s : Bytes) (rest : List ℕ) → IsText s → c_string (s ++ 0 ∷ rest) ≡ some s
unfolding c_string
c_string-IsText [] rest h = refl
c_string-IsText (x ∷ s) rest h =
    let byte : (x == 0) ≡ false = ground (arith, h.0) in rw (byte, c_string-IsText s rest h.1) refl

drop-zeros :
    (k n : ℕ) (rest : List ℕ)
    → k ≤ n
    → drop k (replicate (suc n) 0 ++ rest) ≡ 0 ∷ (replicate (n - k) 0 ++ rest)
drop-zeros zero n rest h = ap (λ m. 0 ∷ (replicate m 0 ++ rest)) (omega arith)
drop-zeros (suc k) zero rest h = absurd (omega (arith, h))
drop-zeros (suc k) (suc n) rest h =
    drop-zeros k n rest (omega (arith, h)) ∙ ap (λ m. 0 ∷ (replicate m 0 ++ rest)) (omega arith)

-- The name is copied behind the separator, with a NUL behind it.
put_at-beside :
    (sep n : ℕ) (dir name : Bytes) (rest : List ℕ)
    → length name ≤ n
    → put_at (suc (length dir)) name (dir ++ sep ∷ (replicate (suc n) 0 ++ rest))
      ≡ some ((dir ++ sep ∷ name) ++ 0 ∷ (replicate (n - length name) 0 ++ rest))
unfolding put_at
put_at-beside sep n dir name rest h =
    let Z : List ℕ = replicate (suc n) 0 ++ rest in
    let Z' : List ℕ = replicate (n - length name) 0 ++ rest in
    let B : List ℕ = dir ++ sep ∷ Z in
    let size = length-append dir (sep ∷ []) in
    let at : length (dir ++ sep ∷ []) ≡ suc (length dir) = omega (arith, size) in
    let group : B ≡ (dir ++ sep ∷ []) ++ Z = sym (append_assoc dir (sep ∷ []) Z) in
    let tail : drop (suc (length dir)) B ≡ Z =
      ap (drop (suc (length dir))) group
      ∙ drop-append_at (dir ++ sep ∷ []) Z (suc (length dir)) at in
    let head : take (suc (length dir)) B ≡ dir ++ sep ∷ [] =
      ap (take (suc (length dir))) group
      ∙ take-append_at (dir ++ sep ∷ []) Z (suc (length dir)) at in
    let long : length Z ≡ suc n + length rest =
      omega (arith, length-append (replicate (suc n) 0) rest, length-replicate {A = ℕ} (suc n) 0) in
    let written : Port.write Z name ≡ some (name ++ 0 ∷ Z') =
      write-fits Z name (omega (arith, h, long))
      ∙ ap (λ t. some (name ++ t)) (drop-zeros (length name) n rest h) in
    let whole : (dir ++ sep ∷ []) ++ (name ++ 0 ∷ Z') ≡ (dir ++ sep ∷ name) ++ 0 ∷ Z' =
      append_assoc dir (sep ∷ []) (name ++ 0 ∷ Z') ∙ sym (append_assoc dir (sep ∷ name) (0 ∷ Z')) in
    rw (tail, written, head) (ap some whole)

-- Without WIN32 no buffer of at most 260 bytes will do, though the callers' buffers have 256.
pub get_current_path-over :
    (path file_name : Bytes) (buf : List ℕ)
    → length buf ≤ 260
    → get_current_path false path buf file_name ≡ none
unfolding get_current_path read_path max_path
get_current_path-over path file_name buf h = rw (put_nul-behind buf (take 256 path) 260 h) refl

-- On a buffer of 256 bytes, the size that both callers give, whatever it held. With WIN32, if the
-- program's path is a directory, the separator and a name without one, of 255 bytes at most, and the
-- file's name is no longer than the program's: the buffer then holds the directory, the separator
-- and the file's name, and a NUL behind them, and nothing is read or written outside it. Without
-- WIN32 each call writes outside it, whatever the paths are.
pub get_current_path-beside :
    (dir prog file_name elsewhere : Bytes) (buf : List ℕ)
    → IsText (dir ++ separator true ∷ prog)
    → IsText (dir ++ separator true ∷ file_name)
    → Lacks (separator true) prog
    → length (dir ++ separator true ∷ prog) ≤ 255
    → length file_name ≤ length prog
    → length buf ≡ 256
    → ((out : List ℕ) × (get_current_path true (dir ++ separator true ∷ prog) buf file_name
          ≡ some out)
        × (c_string out ≡ some (dir ++ separator true ∷ file_name)))
      × (get_current_path false elsewhere buf file_name ≡ none)
unfolding get_current_path
get_current_path-beside dir prog file_name elsewhere buf h k l short le size =
    let sep : ℕ = separator true in
    let path : Bytes = dir ++ sep ∷ prog in
    let n : ℕ = length prog in
    let rest : List ℕ = drop (length (path ++ 0 ∷ [])) buf in
    let filled = read_path-win32 path buf short size in
    let text = c_string-IsText path rest h in
    let at : length path ≡ suc (length dir + n) = omega (arith, length-append dir (sep ∷ prog)) in
    let cut : cut_back sep (length path) (path ++ 0 ∷ rest)
        ≡ some (suc (length dir), dir ++ sep ∷ (replicate (suc n) 0 ++ rest)) =
      ap (λ i. cut_back sep i (path ++ 0 ∷ rest)) at
      ∙ cut_back-finds sep n dir prog 0 rest refl l in
    (
      (
        (dir ++ sep ∷ file_name) ++ 0 ∷ (replicate (n - length file_name) 0 ++ rest),
        rw filled (rw text (rw cut (put_at-beside sep n dir file_name rest le))),
        c_string-IsText (dir ++ sep ∷ file_name) (replicate (n - length file_name) 0 ++ rest) k,
      ),
      get_current_path-over elsewhere file_name buf (omega (arith, size)),
    )

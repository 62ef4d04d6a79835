-- ===== src/Base/Stdio.antt =====
-- `fgets`, and the conversions of `sscanf` that the program uses, on texts.
use Prim.Native.Nat.{ℕ, zero, suc, ◌+◌, ◌/◌, ◌%◌}
use mathlib.Core.List.{List, [], ◌∷◌, ◌++◌}
use mathlib.Core.Option.{Option, none, some}
use sysmonitor.Base.Tests.{ltb, ◌==◌, if◌then◌else◌}
use sysmonitor.Base.Int.{ℤ, pos, negsuc, sub_ℕ}
use sysmonitor.Base.Text.{Bytes, is_space, is_digit, digits_value}

unfoldable pub skip_space : Bytes → Bytes
skip_space [] = []
skip_space (x ∷ s) = let rest = skip_space s in if is_space x then rest else x ∷ s

-- The bytes up to the next space, and those from it on.
unfoldable pub word : Bytes → Bytes × Bytes
word [] = ([], [])
word (x ∷ s) = let (w, rest) = word s in if is_space x then ([], x ∷ s) else (x ∷ w, rest)

-- One `%s` of `sscanf`.
unfoldable pub next_word : Bytes → Option (Bytes × Bytes)
unfolding skip_space word
next_word s = elim (skip_space s) [ [] ↦ none | x ∷ t ↦ some (word (x ∷ t)) ]

-- Up to so many words.
unfoldable pub words : ℕ → Bytes → List Bytes
unfolding next_word
words zero s = []
words (suc n) s = elim (next_word s) [ none ↦ [] | some (w, rest) ↦ w ∷ words n rest ]

unfoldable pub after_digits : Bytes → Bytes
after_digits [] = []
after_digits (x ∷ s) = let rest = after_digits s in if is_digit x then rest else x ∷ s

number : Bytes → Option (ℕ × Bytes)
number [] = none
number (x ∷ s) = if is_digit x then some (digits_value 0 (x ∷ s), after_digits (x ∷ s)) else none

signed : Bytes → Option (ℤ × Bytes)
unfolding number
signed [] = none
signed (x ∷ s) =
    if x == b'-'
    then elim (number s) [ none ↦ none | some (n, rest) ↦ some (sub_ℕ 0 n, rest) ]
    else elim (number (if x == b'+' then s else x ∷ s)) [
      | none ↦ none
      | some (n, rest) ↦ some (pos n, rest)
    ]

-- One `%d`, for a value that an `int` holds.
unfoldable pub next_int : Bytes → Option (ℤ × Bytes)
unfolding signed skip_space
next_int s = signed (skip_space s)

-- Bytes of the format that stand for themselves.
unfoldable pub literally : Bytes → Bytes → Option Bytes
literally [] s = some s
literally (c ∷ cs) [] = none
literally (c ∷ cs) (x ∷ s) = let rest = literally cs s in if x == c then rest else none

-- `fgets`: a line with its newline, or the bytes that fit, and what is left.
unfoldable pub fgets : ℕ → Bytes → Bytes × Bytes
fgets zero s = ([], s)
fgets (suc n) [] = ([], [])
fgets (suc n) (x ∷ s) = let (l, rest) = fgets n s in if x == 10 then (x ∷ [], s) else (x ∷ l, rest)

-- `%d` of a count, so many digits at most: ten for an `int`.
unfoldable pub digits : ℕ → ℕ → Bytes
digits zero n = []
digits (suc fuel) n =
    let front = digits fuel (n / 10) in
    if ltb n 10 then (b'0' + n) ∷ [] else front ++ (b'0' + n % 10) ∷ []

-- `sprintf("%d")` of an `int`.
unfoldable pub show_int : ℤ → Bytes
unfolding digits
show_int (pos n) = digits 10 n
show_int (negsuc n) = b'-' ∷ digits 10 (suc n)

-- All lines of a stream that `fgets` reads into a buffer of `n + 1` bytes.
unfoldable pub read_lines : ℕ → ℕ → Bytes → List Bytes
unfolding fgets
read_lines zero n s = []
read_lines (suc fuel) n [] = []
read_lines (suc fuel) n (x ∷ s) = (fgets n (x ∷ s)).0 ∷ read_lines fuel n (fgets n (x ∷ s)).1

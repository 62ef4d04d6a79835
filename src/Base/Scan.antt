-- ===== src/Base/Scan.antt =====
-- What `sscanf` reads of a line that was printed: words and numbers set in by spaces.
use Prim.Native.Nat.{ℕ, zero, suc, ◌+◌, ◌-◌, ◌*◌, ◌<◌}
use mathlib.Core.Path.{◌≡◌, refl, ap, ◌∙◌}
use mathlib.Core.Bool.{true, false}
use mathlib.Core.List.{List, [], ◌∷◌, ◌++◌}
use mathlib.Core.Option.{some}
use native.Mathlib.Omega.{arith}
use sysmonitor.Base.Tests.{◌==◌}
use sysmonitor.Base.Lists.{length, replicate}
use sysmonitor.Base.Int.{pos}
use sysmonitor.Base.Text.{Bytes, is_space, is_digit, digits_value}
use sysmonitor.Base.Stdio.{next_word, skip_space, word, next_int, after_digits}

-- A word of at least a byte, none of them a space.
unfoldable pub NoSpace : Bytes → Type 0
NoSpace [] = Unit {0}
NoSpace (x ∷ s) = (is_space x ≡ false) × NoSpace s

-- A word that `%s` reads into 32 bytes.
unfoldable pub IsField : Bytes → Type 0
IsField [] = ⊥
IsField (x ∷ s) = (is_space x ≡ false) × NoSpace s × (length s < 31)

-- A word set in by spaces.
abbrev pub field_of : ℕ → Bytes → Bytes → Bytes
field_of n w rest = replicate n 32 ++ (w ++ rest)

-- A text whose first byte is a space.
unfoldable pub Spaced : Bytes → Type 0
Spaced [] = ⊥
Spaced (c ∷ s) = is_space c ≡ true

word-NoSpace :
    (w : Bytes) (c : ℕ) (rest : Bytes)
    → NoSpace w
    → is_space c ≡ true
    → word (w ++ c ∷ rest) ≡ (w, c ∷ rest)
unfolding word NoSpace
word-NoSpace [] c rest h sp = rw sp refl
word-NoSpace (x ∷ w) c rest h sp = rw (h.0, word-NoSpace w c rest h.1 sp) refl

pub skip_space-replicate : (n : ℕ) (s : Bytes) → skip_space (replicate n 32 ++ s) ≡ skip_space s
unfolding skip_space
skip_space-replicate zero s = refl
skip_space-replicate (suc n) s = skip_space-replicate n s

pub next_word-IsField :
    (n : ℕ) (w : Bytes) (c : ℕ) (rest : Bytes)
    → IsField w
    → is_space c ≡ true
    → next_word (field_of n w (c ∷ rest)) ≡ some (w, c ∷ rest)
unfolding next_word IsField NoSpace skip_space
next_word-IsField n [] c rest h sp = absurd h
next_word-IsField n (x ∷ w) c rest h sp =
    let skipped : skip_space (field_of n (x ∷ w) (c ∷ rest)) ≡ x ∷ (w ++ c ∷ rest) =
      skip_space-replicate n (x ∷ (w ++ c ∷ rest)) ∙ rw h.0 refl in
    rw (next_word, skipped) (ap some (word-NoSpace (x ∷ w) c rest (h.0, h.1) sp))

-- The digits of a number.
unfoldable pub AreDigits : Bytes → Type 0
AreDigits [] = Unit {0}
AreDigits (x ∷ s) = (is_digit x ≡ true) × AreDigits s

unfoldable pub IsNumber : Bytes → Type 0
IsNumber [] = ⊥
IsNumber (x ∷ s) = AreDigits (x ∷ s)

digits_value-Spaced :
    (acc : ℕ) (ds t : Bytes)
    → AreDigits ds
    → Spaced t
    → digits_value acc (ds ++ t) ≡ digits_value acc ds
unfolding digits_value AreDigits Spaced
digits_value-Spaced acc [] [] h sp = absurd sp
digits_value-Spaced acc [] (c ∷ t) h sp = ground (arith, sp)
digits_value-Spaced acc (x ∷ ds) t h sp =
    let ih = digits_value-Spaced (acc * 10 + (x - b'0')) ds t h.1 sp in rw (h.0, ih) refl

after_digits-Spaced : (ds t : Bytes) → AreDigits ds → Spaced t → after_digits (ds ++ t) ≡ t
unfolding after_digits AreDigits Spaced
after_digits-Spaced [] [] h sp = absurd sp
after_digits-Spaced [] (c ∷ t) h sp = ground (arith, sp)
after_digits-Spaced (x ∷ ds) t h sp = rw (h.0, after_digits-Spaced ds t h.1 sp) refl

-- `%d` of a number that was printed behind spaces.
pub next_int-IsNumber :
    (n : ℕ) (ds t : Bytes)
    → IsNumber ds
    → Spaced t
    → next_int (field_of n ds t) ≡ some (pos (digits_value 0 ds), t)
unfolding next_int IsNumber AreDigits skip_space digits_value
next_int-IsNumber n [] t h sp = absurd h
next_int-IsNumber n (x ∷ ds) t h sp =
    let no_space : is_space x ≡ false = ground (arith, h.0) in
    let skipped : skip_space (field_of n (x ∷ ds) t) ≡ x ∷ (ds ++ t) =
      skip_space-replicate n (x ∷ (ds ++ t)) ∙ rw no_space refl in
    let no_minus : (x == b'-') ≡ false = ground (arith, h.0) in
    let no_plus : (x == b'+') ≡ false = ground (arith, h.0) in
    let value = digits_value-Spaced (0 + (x - b'0')) ds t h.1 sp in
    let after = after_digits-Spaced (x ∷ ds) t h sp in
    rw (next_int, skipped, no_minus, no_plus, h.0) (rw (value, after) refl)

-- A word that is printed behind spaces, up to the next space.
pub next_word-Spaced :
    (n : ℕ) (w t : Bytes) → IsField w → Spaced t → next_word (field_of n w t) ≡ some (w, t)
unfolding Spaced
next_word-Spaced n w [] h sp = absurd sp
next_word-Spaced n w (c ∷ t) h sp = next_word-IsField n w c t h sp

-- Words and numbers, each behind one space, and the text behind them.
unfoldable pub row : List Bytes → Bytes → Bytes
row [] t = t
row (w ∷ ws) t = 32 ∷ (w ++ row ws t)

pub row-Spaced : (ws : List Bytes) (t : Bytes) → Spaced t → Spaced (row ws t)
unfolding row Spaced
row-Spaced [] t sp = sp
row-Spaced (w ∷ ws) t sp = refl

unfoldable pub AreFields : List Bytes → Type 0
AreFields [] = Unit {0}
AreFields (w ∷ ws) = IsField w × AreFields ws

pub IsField-short : (w : Bytes) → IsField w → length w < 32
unfolding IsField
IsField-short [] h = absurd h
IsField-short (x ∷ w) h = omega (arith, h.2)

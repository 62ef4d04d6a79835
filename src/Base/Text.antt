-- ===== src/Base/Text.antt =====
-- C strings. A text is the list of its bytes in front of the terminating NUL; a pointer into it
-- is an offset. The functions are those of string.h, stdlib.h and stdio.h that the program calls.
use Prim.Native.Char.{code}
use Prim.Native.String.{String}
use Prim.Native.Nat.{ℕ, zero, suc, ◌+◌, ◌-◌, ◌*◌, ◌≤◌, ◌<◌}
use mathlib.Core.Logic.{◌≢◌}
use mathlib.Core.Path.{◌≡◌, refl}
use mathlib.Core.Bool.{Bool, true, false, ◌&&◌, ◌||◌}
use mathlib.Core.List.{List, [], ◌∷◌, ◌++◌}
use mathlib.Core.Option
use mathlib.Core.Option.{Option, none, some}
use native.Mathlib.Omega.{arith}
use sysmonitor.Base.Tests.{leb, ◌==◌, if◌then◌else◌, Option-cases}
use sysmonitor.Base.Lists.{length, get_or}
use sysmonitor.Base.Int.{ℤ, pos, sub_ℕ}

abbrev pub Bytes : Type 0
Bytes = List ℕ

-- The code points of a literal: its bytes, if it is ASCII.
abbrev pub codes : String → Bytes
codes String.[] = []
codes (String.◌∷◌ c s) = code c ∷ codes s

-- The text that a buffer holds: its bytes up to the first NUL, or all.
unfoldable pub text : List ℕ → Bytes
text [] = []
text (x ∷ s) = if x == 0 then [] else x ∷ text s

-- The C string at the start of a buffer; none if no NUL ends it.
unfoldable pub c_string : Bytes → Option Bytes
c_string [] = none
c_string (x ∷ s) = if x == 0 then some [] else Option.map (λ t. x ∷ t) (c_string s)

-- No NUL among the bytes.
abbrev pub IsText : Bytes → Type 0
IsText [] = Unit {0}
IsText (x ∷ s) = (x ≢ 0) × IsText s

-- `strncmp(s, t, n) == 0`
unfoldable pub strncmp_eq : Bytes → Bytes → ℕ → Bool
strncmp_eq s t zero = true
strncmp_eq [] [] (suc n) = true
strncmp_eq [] (y ∷ t) (suc n) = y == 0
strncmp_eq (x ∷ s) [] (suc n) = x == 0
strncmp_eq (x ∷ s) (y ∷ t) (suc n) = x == y && (x == 0 || strncmp_eq s t n)

-- `strcmp(s, t) == 0`
unfoldable pub strcmp_eq : Bytes → Bytes → Bool
strcmp_eq [] [] = true
strcmp_eq [] (y ∷ t) = false
strcmp_eq (x ∷ s) [] = false
strcmp_eq (x ∷ s) (y ∷ t) = x == y && strcmp_eq s t

-- Does the text begin with the word?
unfoldable pub starts : Bytes → Bytes → Bool
starts s [] = true
starts [] (y ∷ t) = false
starts (x ∷ s) (y ∷ t) = x == y && starts s t

-- `strchr(s, c)` for a byte other than NUL: the offset of its first occurrence.
unfoldable pub strchr : Bytes → ℕ → Option ℕ
strchr [] c = none
strchr (x ∷ s) c = if x == c then some 0 else Option.map suc (strchr s c)

-- `strstr(s, t)`: the offset of the first occurrence of the word.
unfoldable pub strstr : Bytes → Bytes → Option ℕ
unfolding starts
strstr [] t = if starts [] t then some 0 else none
strstr (x ∷ s) t = if starts (x ∷ s) t then some 0 else Option.map suc (strstr s t)

abbrev pub is_some {ℓ} : {A : Type ℓ} → Option A → Bool
is_some none = false
is_some (some a) = true

-- `strstr(s, t) != NULL`
abbrev pub contains : Bytes → Bytes → Bool
contains s t = is_some (strstr s t)

abbrev pub is_digit : ℕ → Bool
is_digit c = leb b'0' c && leb c b'9'

abbrev pub is_space : ℕ → Bool
is_space c = c == 32 || (leb 9 c && leb c 13)

-- The digits at the front, in base ten.
unfoldable pub digits_value : ℕ → Bytes → ℕ
digits_value acc [] = acc
digits_value acc (c ∷ s) =
    let rest = digits_value (acc * 10 + (c - b'0')) s in if is_digit c then rest else acc

unfoldable pub atoi_sign : Bytes → ℤ
unfolding digits_value
atoi_sign [] = pos 0
atoi_sign (c ∷ s) =
    if c == b'-'
    then sub_ℕ 0 (digits_value 0 s)
    else if c == b'+'
    then pos (digits_value 0 s)
    else pos (digits_value 0 (c ∷ s))

-- `atoi`, for a value that an `int` holds.
unfoldable pub atoi : Bytes → ℤ
unfolding atoi_sign
atoi [] = pos 0
atoi (c ∷ s) = let rest = atoi s in if is_space c then rest else atoi_sign (c ∷ s)

atoi_test : atoi (codes " -42x") ≡ sub_ℕ 0 42
unfolding atoi
atoi_test = refl

pub strcmp_eq_refl : (s : Bytes) → strcmp_eq s s ≡ true
unfolding strcmp_eq
strcmp_eq_refl [] = refl
strcmp_eq_refl (x ∷ s) = ground (arith, strcmp_eq_refl s)

pub eq_of_strcmp_eq : (s t : Bytes) → strcmp_eq s t ≡ true → s ≡ t
unfolding strcmp_eq
eq_of_strcmp_eq [] [] h = refl
eq_of_strcmp_eq [] (y ∷ t) h = cc
eq_of_strcmp_eq (x ∷ s) [] h = cc
eq_of_strcmp_eq (x ∷ s) (y ∷ t) h = ground (arith, eq_of_strcmp_eq s t)

pub text-append : (s : Bytes) (rest : List ℕ) → IsText s → text (s ++ rest) ≡ s ++ text rest
unfolding text
text-append [] rest h = refl
text-append (x ∷ s) rest h = ground (arith, text-append s rest h.1)

pub text-nul : (s : Bytes) (rest : List ℕ) → text (s ++ 0 ∷ rest) ≡ text s
unfolding text
text-nul [] rest = refl
text-nul (x ∷ s) rest = ground (arith, text-nul s rest)

pub length-text : (s : List ℕ) → length (text s) ≤ length s
unfolding text
length-text [] = omega arith
length-text (x ∷ s) = ground (arith, length-text s)

pub text-IsText : (s : List ℕ) → IsText (text s)
unfolding text
text-IsText [] = tt
text-IsText (x ∷ s) = ground (arith, text-IsText s)

-- The byte `c` is not in the text.
abbrev pub Lacks : ℕ → Bytes → Type 0
Lacks c [] = Unit {0}
Lacks c (x ∷ s) = (x ≢ c) × Lacks c s

pub strchr-append :
    (s rest : Bytes) (c : ℕ) → Lacks c s → strchr (s ++ c ∷ rest) c ≡ some (length s)
unfolding strchr
strchr-append [] rest c h = ground arith
strchr-append (x ∷ s) rest c h = ground (arith, strchr-append s rest c h.1)

pub strchr-bound : (s : Bytes) (c i : ℕ) → strchr s c ≡ some i → (i < length s) × (get_or s i 0 ≡ c)
unfolding strchr
strchr-bound [] c i h = cc
strchr-bound (x ∷ s) c zero h = ground (arith, Option-cases (strchr s c))
strchr-bound (x ∷ s) c (suc i) h = ground (arith, Option-cases (strchr s c), strchr-bound s c i)

pub strchr-Lacks : (c : ℕ) (s : Bytes) → strchr s c ≡ none → Lacks c s
unfolding strchr
strchr-Lacks c [] h = tt
strchr-Lacks c (x ∷ s) h = ground (arith, strchr-Lacks c s, Option-cases (strchr s c))

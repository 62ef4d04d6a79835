-- ===== src/Port/Copy.antt =====
-- The bounded copy of SysMonitor/port.cpp, and its lower case.
use sysmonitor.Base.{
  ℕ, zero, suc, ◌+◌, ◌-◌, ◌≤◌, ◌<◌, ◌≡◌, ◌≢◌, refl, ap, true, false, List, [], ◌∷◌, ◌++◌, none,
  some, arith, ltb, leb, ◌==◌, length, drop, take, replicate, Bool-cases, inl, inr, ◌⊎◌, min,
  lt→ltb, get_elem?, length-append, length-take, length-drop, length-replicate,
}
use sysmonitor.Base.Text.{Bytes, text, IsText}
use sysmonitor.Port.{write, padded, put_nul, strncpy_s, lower, strlwr}

length-padded : (src : Bytes) (n : ℕ) → length (padded src n) ≡ n
length-padded src n = omega (
  arith,
  length-append (take n src) (replicate (n - length src) 0),
  length-take n src,
  length-replicate {A = ℕ} (n - length src) 0,
)

take-append : (xs ys : List ℕ) (n : ℕ) → length xs ≡ n → take n (xs ++ ys) ≡ xs
take-append [] ys zero h = refl
take-append [] ys (suc n) h = absurd (omega arith)
take-append (x ∷ xs) ys zero h = absurd (omega arith)
take-append (x ∷ xs) ys (suc n) h = ap (◌∷◌ x) (take-append xs ys n (omega arith))

drop-append : (xs ys : List ℕ) (n : ℕ) → length xs ≡ n → drop (suc n) (xs ++ ys) ≡ drop 1 ys
drop-append [] ys zero h = refl
drop-append [] ys (suc n) h = absurd (omega arith)
drop-append (x ∷ xs) ys zero h = absurd (omega arith)
drop-append (x ∷ xs) ys (suc n) h = drop-append xs ys n (omega arith)

drop-drop : (n : ℕ) (xs : List ℕ) → drop 1 (drop n xs) ≡ drop (suc n) xs
drop-drop zero [] = refl
drop-drop zero (x ∷ xs) = refl
drop-drop (suc n) [] = refl
drop-drop (suc n) (x ∷ xs) = drop-drop n xs

-- The copy of `n` bytes with a NUL behind them, in a buffer that holds both.
put_nul-write :
    (dst src : Bytes) (n : ℕ)
    → n < length dst
    → put_nul n (write dst (padded src n)) ≡ some (padded src n ++ 0 ∷ drop (suc n) dst)
unfolding put_nul write
put_nul-write dst src n h =
    let len = length-padded src n in
    let rest = length-drop n dst in
    let all = length-append (padded src n) (drop n dst) in
    let room : ltb (length dst) n ≡ false = ground arith in
    let fits : ltb n (length (padded src n ++ drop n dst)) ≡ true =
      lt→ltb _ _ (omega (arith, len, rest, all)) in
    rw (len, room)
      (rw (
        fits,
        take-append (padded src n) (drop n dst) n len,
        drop-append (padded src n) (drop n dst) n len,
        drop-drop n dst,
      ))

text-nuls : (k : ℕ) (rest : List ℕ) → text (replicate k 0 ++ 0 ∷ rest) ≡ []
unfolding text
text-nuls zero rest = refl
text-nuls (suc k) rest = refl

text-padded :
    (src : Bytes) (n : ℕ) (rest : List ℕ)
    → IsText src
    → text (padded src n ++ 0 ∷ rest) ≡ take n src
unfolding text
text-padded src zero rest h = text-nuls (0 - length src) rest
text-padded [] (suc n) rest h = text-nuls (suc n - 0) rest
text-padded (x ∷ src) (suc n) rest h =
    let e : suc n - suc (length src) ≡ n - length src = omega arith in
    rw e (ground (arith, text-padded src n rest h.1))

-- What a bounded copy promises: the buffer holds a text, the first `n` bytes of the source, its
-- length stays, and what lies beyond byte `n` is not written.
abbrev pub Copied : List ℕ → Bytes → ℕ → List ℕ → Type 0
Copied dst src n r =
    (text r ≡ take n src) × (length r ≡ length dst) × (drop (suc n) r ≡ drop (suc n) dst)

put_nul-Copied :
    (dst src : Bytes) (n : ℕ)
    → n < length dst
    → IsText src
    → (r : List ℕ) × (put_nul n (write dst (padded src n)) ≡ some r) × Copied dst src n r
put_nul-Copied dst src n h t =
    let r = padded src n ++ 0 ∷ drop (suc n) dst in
    let len = length-padded src n in
    (
      r,
      put_nul-write dst src n h,
      (
        text-padded src n (drop (suc n) dst) t,
        omega (
          arith,
          len,
          length-append (padded src n) (0 ∷ drop (suc n) dst),
          length-drop (suc n) dst,
        ),
        drop-append (padded src n) (0 ∷ drop (suc n) dst) n len,
      ),
    )

-- `strncpy_s_` into a buffer of at least `dlen` bytes, `dlen` not 0: the buffer then holds the
-- first `min(slen, dlen - 1)` bytes of the source as a text that ends within `dlen` bytes; its
-- length and the bytes behind the NUL stay.
strncpy_s-Copied :
    (dst : List ℕ) (dlen : ℕ) (src : Bytes) (slen : ℕ)
    → 0 < dlen
    → dlen ≤ length dst
    → IsText src
    → (r : List ℕ) × (strncpy_s dst dlen src slen ≡ some r) × Copied dst src (min slen (dlen - 1)) r
unfolding strncpy_s
strncpy_s-Copied dst dlen src slen p h t = elim (Bool-cases (leb dlen slen)) [
  | inl cut ↦
      let m : min slen (dlen - 1) ≡ dlen - 1 = ground arith in
      let nz : (dlen == 0) ≡ false = ground arith in
      rw (m, cut, nz) (put_nul-Copied dst src (dlen - 1) (omega arith) t)
  | inr fits ↦
      let m : min slen (dlen - 1) ≡ slen = ground arith in
      rw (m, fits) (put_nul-Copied dst src slen (ground arith) t)
]

-- A `dlen` of 0 is not refused: the copy's length wraps, and it runs past any buffer.
pub strncpy_s_zero : (dst : List ℕ) (src : Bytes) (slen : ℕ) → strncpy_s dst 0 src slen ≡ none
unfolding strncpy_s
strncpy_s_zero dst src slen = ground arith

lower_idem : (c : ℕ) → lower (lower c) ≡ lower c
unfolding lower
lower_idem c = ground arith

lower-ne-zero : (c : ℕ) → c ≢ 0 → lower c ≢ 0
unfolding lower
lower-ne-zero c h = ground arith

-- What a byte becomes: a letter A to Z its small letter, any other byte itself.
abbrev pub IsLowerOf : ℕ → ℕ → Type 0
IsLowerOf c d = ((b'A' ≤ c) × (c ≤ b'Z') × (d ≡ c + 32)) ⊎ (((c < b'A') ⊎ (b'Z' < c)) × (d ≡ c))

lower-IsLowerOf : (c : ℕ) → IsLowerOf c (lower c)
unfolding lower
lower-IsLowerOf c = ground arith

get_elem?-strlwr :
    (s : Bytes) (j c : ℕ)
    → get_elem? s j ≡ some c
    → (d : ℕ) × (get_elem? (strlwr s) j ≡ some d) × IsLowerOf c d
unfolding strlwr
get_elem?-strlwr [] j c e = cc
get_elem?-strlwr (x ∷ s) zero c e =
    let e' : x ≡ c = ground arith in (lower x, refl, rw (← e') (lower-IsLowerOf x))
get_elem?-strlwr (x ∷ s) (suc j) c e = get_elem?-strlwr s j c e

pub strlwr-IsText : (s : Bytes) → IsText s → IsText (strlwr s)
unfolding strlwr
strlwr-IsText [] h = tt
strlwr-IsText (x ∷ s) h = (lower-ne-zero x h.0, strlwr-IsText s h.1)

pub length-strlwr : (s : Bytes) → length (strlwr s) ≡ length s
unfolding strlwr
length-strlwr [] = refl
length-strlwr (x ∷ s) = ap suc (length-strlwr s)

pub strlwr_idem : (s : Bytes) → strlwr (strlwr s) ≡ strlwr s
unfolding strlwr
strlwr_idem [] = refl
strlwr_idem (x ∷ s) = cc (lower_idem x, strlwr_idem s)

-- `strlwr` of a text is a text of the same length, and the byte at a position is the small letter
-- of a letter A to Z that stood there, and any other byte itself.
strlwr_lem :
    (s : Bytes) (j c : ℕ)
    → IsText s
    → get_elem? s j ≡ some c
    → IsText (strlwr s)
      × (length (strlwr s) ≡ length s)
      × ((d : ℕ) × (get_elem? (strlwr s) j ≡ some d) × IsLowerOf c d)
strlwr_lem s j c h e = (strlwr-IsText s h, length-strlwr s, get_elem?-strlwr s j c e)

-- ===== src/Port/Write.antt =====
-- A write of bytes over the front of a buffer.
use sysmonitor.Base.{
  ℕ, suc, ◌≤◌, ◌<◌, ◌≡◌, refl, true, false, List, ◌∷◌, ◌++◌, none, some, arith, length, ltb,
  length-append, length-drop, drop, drop-append_at, take-append_at, lt→ltb, Bool-cases, inl, inr,
}
use sysmonitor.Base.Text.{Bytes}
use sysmonitor.Port.{write, put_nul}

pub write-front : (s old : Bytes) → write (s ++ old) s ≡ some (s ++ old)
unfolding write
write-front s old =
    let fits : ltb (length (s ++ old)) (length s) ≡ false = ground (arith, length-append s old) in
    rw (fits, drop-append_at s old (length s) refl) refl

pub write-fits :
    (dst src : List ℕ)
    → length src ≤ length dst
    → write dst src ≡ some (src ++ drop (length src) dst)
unfolding write
write-fits dst src h =
    let fits : ltb (length dst) (length src) ≡ false = ground arith in rw fits refl

pub write-over : (dst src : List ℕ) → length dst < length src → write dst src ≡ none
unfolding write
write-over dst src h = rw (lt→ltb _ _ h) refl

pub length-written :
    (dst src : List ℕ)
    → length src ≤ length dst
    → length (src ++ drop (length src) dst) ≡ length dst
length-written dst src h =
    omega (arith, length-append src (drop (length src) dst), length-drop (length src) dst)

-- Bytes and a NUL behind them.
pub put_nul-fits :
    (dst src : List ℕ)
    → length src < length dst
    → put_nul (length src) (write dst src)
      ≡ some (src ++ 0 ∷ drop (suc (length src)) (src ++ drop (length src) dst))
unfolding put_nul
put_nul-fits dst src h =
    let size = length-written dst src (omega arith) in
    let fits : ltb (length src) (length (src ++ drop (length src) dst)) ≡ true =
      lt→ltb _ _ (omega (arith, size)) in
    rw (write-fits dst src (omega arith))
      (rw (fits, take-append_at src (drop (length src) dst) (length src) refl) refl)

pub put_nul-over :
    (dst src : List ℕ) → length dst ≤ length src → put_nul (length src) (write dst src) ≡ none
unfolding put_nul write
put_nul-over dst src h = elim (Bool-cases (ltb (length dst) (length src))) [
  | inl t ↦ rw t refl
  | inr t ↦
      let size = length-written dst src (ground arith) in
      let full : ltb (length src) (length (src ++ drop (length src) dst)) ≡ false =
        ground (arith, size) in
      rw t (rw full refl)
]

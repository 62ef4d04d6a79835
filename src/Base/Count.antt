-- ===== src/Base/Count.antt =====
-- Lists of numbers as multisets: how often a list names a number, and one mention less.
use Prim.Native.Nat.{ℕ, suc, ◌+◌, ◌<◌}
use mathlib.Core.Path.{◌≡◌, refl, sym}
use mathlib.Core.Logic.{◌≢◌, inl, inr}
use mathlib.Core.List.{List, [], ◌∷◌, ◌++◌}
use native.Mathlib.Omega.{arith}
use sysmonitor.Base.Tests.{◌==◌, if◌then◌else◌, Bool-cases}

unfoldable pub count : ℕ → List ℕ → ℕ
count i [] = 0
count i (j ∷ js) = if j == i then suc (count i js) else count i js

unfoldable pub remove : ℕ → List ℕ → List ℕ
remove i [] = []
remove i (j ∷ js) = let rest = remove i js in if j == i then js else j ∷ rest

pub count-remove_self :
    (i : ℕ) (js : List ℕ) → 0 < count i js → count i js ≡ suc (count i (remove i js))
unfolding count remove
count-remove_self i [] h = absurd (omega arith)
count-remove_self i (j ∷ js) h = ground (arith, count-remove_self i js)

pub count-remove_ne : (i k : ℕ) (js : List ℕ) → i ≢ k → count k (remove i js) ≡ count k js
unfolding count remove
count-remove_ne i k [] h = refl
count-remove_ne i k (j ∷ js) h = ground (arith, count-remove_ne i k js h)

pub count-append : (i : ℕ) (js ks : List ℕ) → count i (js ++ ks) ≡ count i js + count i ks
unfolding count
count-append i [] ks = omega arith
count-append i (j ∷ js) ks = ground (arith, count-append i js ks)

pub count-remove :
    (b i : ℕ) (js : List ℕ)
    → 0 < count b js
    → count i (remove b js) + (if b == i then 1 else 0) ≡ count i js
count-remove b i js h = elim (Bool-cases (b == i)) [
  | inl e ↦
      let eq : b ≡ i = ground (arith, e) in
      rw (e, sym eq) (ground (arith, count-remove_self b js h))
  | inr e ↦ let ne : b ≢ i = ground (arith, e) in rw e (ground (arith, count-remove_ne b i js ne))
]

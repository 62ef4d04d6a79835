-- ===== src/SysInfo/Drives.antt =====
-- The loop over the drives of `CSysInfo::write`: it visits each root once, in order.
use sysmonitor.Base.{
  ℕ, suc, ◌+◌, ◌*◌, ◌/◌, ◌≡◌, ◌≢◌, refl, false, sym, ap, ◌∙◌, List, [], ◌∷◌, ◌++◌, Option, some,
  arith, length, length-append, drop, drop-append_at, append_assoc, ◌==◌,
}
use sysmonitor.Base.Fallible.{◌>>=◌}
use sysmonitor.Base.Text.{Bytes, c_string}
use sysmonitor.SysInfo.{Machine, drive_rows, disk_data}

-- `C:\\` for the letter C.
abbrev pub root : ℕ → Bytes
root letter = letter ∷ 58 ∷ 92 ∷ []

-- The buffer that Windows fills: each root with its NUL, and a NUL behind the last.
abbrev pub roots : List ℕ → Bytes
roots [] = 0 ∷ []
roots (l ∷ ls) = root l ++ 0 ∷ roots ls

unfoldable pub AreLetters : List ℕ → Type 0
AreLetters [] = Unit {0}
AreLetters (l ∷ ls) = (l ≢ 0) × AreLetters ls

module _ (M : Machine) where
  -- The rows of the roots, in their order.
  pub rows_of : List ℕ → Option (List (List Bytes))
  rows_of [] = some []
  rows_of (l ∷ ls) = do rows ← drive_rows M (root l); rest ← rows_of ls; some (rows ++ rest)

  disk_data-from :
      (front : Bytes) (i : ℕ) (ls : List ℕ)
      → AreLetters ls
      → length front ≡ i * 4
      → M.drive_strings ≡ front ++ roots ls
      → disk_data M i (length ls) ≡ rows_of ls
  unfolding disk_data rows_of AreLetters c_string
  disk_data-from front i [] a len e = refl
  disk_data-from front i (l ∷ ls) a len e =
      let at : drop (i * 4) M.drive_strings ≡ roots (l ∷ ls) =
        rw e (drop-append_at front (roots (l ∷ ls)) (i * 4) len) in
      let str : c_string (roots (l ∷ ls)) ≡ some (root l) =
        let ne : (l == 0) ≡ false = ground (arith, a.0) in rw (c_string, ne) refl in
      let rest : disk_data M (suc i) (length ls) ≡ rows_of ls =
        disk_data-from (front ++ (root l ++ 0 ∷ [])) (suc i) ls a.1
          (let z = length-append front (root l ++ 0 ∷ []) in omega (arith, z, len))
          (e ∙ sym (append_assoc front (root l ++ 0 ∷ []) (roots ls))) in
      rw (disk_data, at, str, rest) refl

  length-roots : (ls : List ℕ) → length (roots ls) ≡ length ls * 4 + 1
  length-roots [] = omega arith
  length-roots (l ∷ ls) = omega (arith, length-roots ls)

  -- When the system's buffer holds the roots of the drives, each with its NUL, and a NUL behind
  -- the last, the loop of `write` gives the rows of the drives in their order, each root
  -- visited once, and faults only where a drive's row does.
  disk_data-roots :
      (ls : List ℕ)
      → AreLetters ls
      → M.drive_strings ≡ roots ls
      → disk_data M 0 (length M.drive_strings / 4) ≡ rows_of ls
  unfolding AreLetters
  disk_data-roots ls a e =
      let len = ap length e ∙ length-roots ls in
      let n : length M.drive_strings / 4 ≡ length ls = omega (arith, len) in
      ap (disk_data M 0) n ∙ disk_data-from [] 0 ls a (omega arith) e

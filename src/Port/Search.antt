-- ===== src/Port/Search.antt =====
-- The two searches of SysMonitor/port.cpp against what a first occurrence is.
use sysmonitor.Base.{
  ℕ, zero, suc, ◌+◌, ◌-◌, ◌≤◌, ◌<◌, ◌≡◌, ◌≢◌, refl, ap, ◌∙◌, true, false, [], ◌∷◌, Option, none,
  some, arith, ltb, ◌==◌, length, drop, get_or, Bool-cases, inl, inr, ltb→lt, ==_iff, if◌then◌else◌,
}
use sysmonitor.Base.Text.{Bytes, IsText, strncmp_eq, starts}
use sysmonitor.Port.{search_loop, strstr_s, chr_loop, strchr_s}

-- The word stands at offset `i`, within the first `slen` bytes.
abbrev pub OccursAt : Bytes → ℕ → Bytes → ℕ → Type 0
OccursAt s slen word i = (i + length word ≤ slen) × (starts (drop i s) word ≡ true)

abbrev Found : Bytes → ℕ → Bytes → ℕ → Option ℕ → Type 0
Found s slen word at none = (j : ℕ) → ¬ OccursAt s slen word j
Found s slen word at (some i) =
    (k : ℕ) × (i ≡ at + k) × OccursAt s slen word k × ((j : ℕ) → j < k → ¬ OccursAt s slen word j)

-- What a search says: the first such offset, or that there is none.
abbrev pub IsFirst : Bytes → ℕ → Bytes → Option ℕ → Type 0
IsFirst s slen word (some i) = OccursAt s slen word i × ((j : ℕ) → j < i → ¬ OccursAt s slen word j)
IsFirst s slen word none = (j : ℕ) → ¬ OccursAt s slen word j

strncmp_eq-starts : (s t : Bytes) → IsText t → strncmp_eq s t (length t) ≡ starts s t
unfolding strncmp_eq starts
strncmp_eq-starts s [] h = refl
strncmp_eq-starts [] (y ∷ t) h = ground arith
strncmp_eq-starts (x ∷ s) (y ∷ t) h = ground (arith, strncmp_eq-starts s t h.1)

drop-nil : (n : ℕ) → drop {A = ℕ} n [] ≡ []
drop-nil zero = refl
drop-nil (suc n) = refl

not-OccursAt-nil : (slen c : ℕ) (find : Bytes) (j : ℕ) → ¬ OccursAt [] slen (c ∷ find) j
unfolding starts
not-OccursAt-nil slen c find j (_, h) = let h' = rw (drop-nil j) at h in cc

Found-cons :
    (x : ℕ) (s : Bytes) (slen : ℕ) (word : Bytes) (at : ℕ) (r : Option ℕ)
    → ¬ OccursAt (x ∷ s) slen word 0
    → 0 < slen
    → Found s (slen - 1) word (at + 1) r
    → Found (x ∷ s) slen word at r
Found-cons x s slen word at none h p f = later
  where
    later : (j : ℕ) → ¬ OccursAt (x ∷ s) slen word j
    later zero o = h o
    later (suc j) o = f j (omega arith, o.1)
Found-cons x s slen word at (some i) h p (k, e, o, least) =
    (suc k, omega arith, (omega arith, o.1), earlier)
  where
    earlier : (j : ℕ) → j < suc k → ¬ OccursAt (x ∷ s) slen word j
    earlier zero _ o' = h o'
    earlier (suc j) l o' = least j (omega arith) (omega arith, o'.1)

starts-nil : (s : Bytes) → starts s [] ≡ true
unfolding starts
starts-nil [] = refl
starts-nil (x ∷ s) = refl

module _ (c : ℕ) (find : Bytes) (hc : c ≢ 0) (hf : IsText find) where
  -- The inner test, where the first byte fits.
  at_head-Found :
      (x : ℕ) (s : Bytes) (slen at : ℕ) (next : Option ℕ)
      → x ≡ c
      → 0 < slen
      → Found s (slen - 1) (c ∷ find) (at + 1) next
      → Found (x ∷ s) slen (c ∷ find) at (
          if ltb (slen - 1) (length find)
          then none
          else if strncmp_eq s find (length find)
          then some at
          else next)
  unfolding starts
  at_head-Found x s slen at next e p f = elim (Bool-cases (ltb (slen - 1) (length find))) [
    | inl long ↦ rw long (λ j o. omega (arith, ltb→lt _ _ long))
    | inr fits ↦
        rw (fits, strncmp_eq-starts s find hf)
          (elim (Bool-cases (starts s find)) [
            | inl hit ↦
                rw hit (0, omega arith, (ground arith, ground arith), λ j l. absurd (omega arith))
            | inr miss ↦ rw miss (Found-cons x s slen (c ∷ find) at next (λ o. ground arith) p f)
          ])
  ]

  search_loop-Found :
      (s : Bytes) (slen at : ℕ)
      → IsText s
      → Found s slen (c ∷ find) at (search_loop c find slen s at)
  unfolding search_loop starts
  search_loop-Found [] slen at h = not-OccursAt-nil slen c find
  search_loop-Found (x ∷ s) slen at h = elim (Bool-cases (ltb slen 1)) [
    | inl e ↦ rw e (λ j o. omega (arith, ltb→lt _ _ e))
    | inr e ↦
        let rest = search_loop-Found s (slen - 1) (at + 1) h.1 in
        let nul : (x == 0) ≡ false = ground arith in
        rw (e, nul)
          (elim (Bool-cases (x == c)) [
            | inl hit ↦
                rw hit (at_head-Found x s slen at _ ((==_iff x c).0 hit) (ground arith) rest)
            | inr miss ↦
                rw miss
                  (Found-cons x s slen (c ∷ find) at _ (λ o. ground arith) (ground arith) rest)
          ])
  ]

Found-IsFirst :
    (s : Bytes) (slen : ℕ) (word : Bytes) (r : Option ℕ)
    → Found s slen word 0 r
    → IsFirst s slen word r
Found-IsFirst s slen word none f = f
Found-IsFirst s slen word (some i) (k, e, o, least) =
    let e' : i ≡ k = omega arith in rw e' (o, least)

-- `strstr_s` finds the first occurrence of the word within the first `slen` bytes, and says
-- NULL exactly where there is none.
pub strstr_s-IsFirst :
    (s : Bytes) (slen : ℕ) (word : Bytes)
    → IsText s
    → IsText word
    → IsFirst s slen word (strstr_s s slen word)
unfolding strstr_s starts
strstr_s-IsFirst s slen [] hs hw = ((omega arith, starts-nil s), λ j l. absurd (omega arith))
strstr_s-IsFirst s slen (c ∷ find) hs hw =
    Found-IsFirst s slen (c ∷ find) _ (search_loop-Found c find hw.0 hw.1 s slen 0 hs)

-- Bytes `[0, n)` of the text hold neither `ch` nor its end.
abbrev pub Skips : Bytes → ℕ → ℕ → Type 0
Skips s ch n = (j : ℕ) → j < n → (get_or s j 0 ≢ 0) × (get_or s j 0 ≢ ch)

chr_loop-Skips :
    (s : Bytes) (left ch at n : ℕ)
    → n ≤ left
    → Skips s ch n
    → get_or s n 0 ≡ ch
    → chr_loop s left ch at ≡ some (at + n)
unfolding chr_loop
chr_loop-Skips [] left ch at zero h k e = ground arith
chr_loop-Skips [] left ch at (suc n) h k e = absurd ((k 0 (omega arith)).0 refl)
chr_loop-Skips (c ∷ s) left ch at zero h k e = ground arith
chr_loop-Skips (c ∷ s) left ch at (suc n) h k e = ground (
  arith,
  k 0 (omega arith),
  chr_loop-Skips s (left - 1) ch (at + 1) n (omega arith) (λ j l. k (suc j) (omega arith)) e,
)

-- `strchr_s` tests one byte more than the `slen` that bound it: where the first `slen` bytes hold
-- neither `ch` nor the end of the text, and byte `slen` is `ch`, it returns that byte.
strchr_s_past_bound :
    (s : Bytes) (slen ch : ℕ)
    → Skips s ch slen
    → get_or s slen 0 ≡ ch
    → strchr_s s slen ch ≡ some slen
unfolding strchr_s
strchr_s_past_bound s slen ch k e =
    chr_loop-Skips s slen ch 0 slen (omega arith) k e ∙ ap some (omega arith)

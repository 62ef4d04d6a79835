-- ===== src/Monitor/Number.antt =====
-- `CMonitorSystem::AddJsonKeyValue`: the text of a number, to two decimals.
use sysmonitor.Base.{
  ℕ, suc, ◌+◌, ◌-◌, ◌≤◌, ◌<◌, ◌≡◌, refl, ap, ◌∙◌, sym, Bool, true, false, ◌&&◌, [], ◌∷◌, ◌++◌,
  Option, none, some, arith, ltb, ◌==◌, if◌then◌else◌, length, take, length-append, take-append_at,
  Bool-cases, inl, inr, append-nil,
}
use sysmonitor.Base.Text.{Bytes, strchr, strchr-append, Lacks}

abbrev point : ℕ
point = 46

-- `rfind('.')`
unfoldable pub rfind_point : Bytes → Option ℕ
rfind_point [] = none
rfind_point (x ∷ s) = elim (rfind_point s) [
  | none ↦ if x == point then some 0 else none
  | some i ↦ some (suc i)
]

is_last : Option ℕ → ℕ → Bool
is_last none n = false
is_last (some i) n = i == n

-- A point at the end is taken away.
unfoldable pub trim_point : Bytes → Bytes
unfolding is_last
trim_point s = if is_last (rfind_point s) (length s - 1) then take (length s - 1) s else s

-- All but two decimals are cut.
unfoldable pub cut_decimals : Bytes → Bytes
cut_decimals s = elim (strchr s point) [
  | none ↦ s
  | some point_pos ↦
      if ltb 0 point_pos && ltb 2 (length s - 1 - point_pos) then take (point_pos + 3) s else s
]

-- The text that is appended. On an empty text `rfind` gives `npos`, which is what `length() - 1`
-- wraps to, and `replace` throws: `none`.
unfoldable pub add_json_key_value : Bytes → Option Bytes
add_json_key_value [] = none
add_json_key_value (x ∷ s) = some (cut_decimals (trim_point (x ∷ s)))

-- The decimals that are kept.
abbrev pub decimals : Bytes → Bytes
decimals [] = []
decimals (y ∷ b) = point ∷ take 2 (y ∷ b)

strchr-none : (s : Bytes) (c : ℕ) → Lacks c s → strchr s c ≡ none
unfolding strchr
strchr-none [] c h = refl
strchr-none (x ∷ s) c h = ground (arith, strchr-none s c h.1)

rfind_point-none : (s : Bytes) → Lacks point s → rfind_point s ≡ none
unfolding rfind_point
rfind_point-none [] h = refl
rfind_point-none (x ∷ s) h = ground (arith, rfind_point-none s h.1)

rfind_point-append : (a b : Bytes) → Lacks point b → rfind_point (a ++ point ∷ b) ≡ some (length a)
unfolding rfind_point
rfind_point-append [] b h = rw (rfind_point-none b h) refl
rfind_point-append (x ∷ a) b h = rw (rfind_point-append a b h) refl

take-decimals : (a b : Bytes) → take (length a + 3) (a ++ point ∷ b) ≡ a ++ point ∷ take 2 b
take-decimals [] b = refl
take-decimals (x ∷ a) b =
    let e : suc (length a) + 3 ≡ suc (length a + 3) = omega arith in
    rw e (ap (◌∷◌ x) (take-decimals a b))

take-short : (b : Bytes) → length b ≤ 2 → take 2 b ≡ b
take-short [] h = refl
take-short (x ∷ []) h = refl
take-short (x ∷ y ∷ []) h = refl
take-short (x ∷ y ∷ z ∷ b) h = absurd (omega arith)

trim_point-last : (w : Bytes) → trim_point (w ++ point ∷ []) ≡ w
unfolding trim_point is_last
trim_point-last w =
    let size : length (w ++ point ∷ []) - 1 ≡ length w =
      omega (arith, length-append w (point ∷ [])) in
    let same : (length w == length w) ≡ true = ground arith in
    rw (rfind_point-append w [] tt, size, same) (take-append_at w (point ∷ []) (length w) refl)

trim_point-inner :
    (w b : Bytes) (y : ℕ)
    → Lacks point (y ∷ b)
    → trim_point (w ++ point ∷ y ∷ b) ≡ w ++ point ∷ y ∷ b
unfolding trim_point is_last
trim_point-inner w b y k =
    let size : length (w ++ point ∷ y ∷ b) - 1 ≡ length w + suc (length b) =
      omega (arith, length-append w (point ∷ y ∷ b)) in
    let other : (length w == length w + suc (length b)) ≡ false = ground arith in
    rw (rfind_point-append w (y ∷ b) k, size, other) refl

cut_decimals-take :
    (w b : Bytes)
    → Lacks point w
    → 0 < length w
    → cut_decimals (w ++ point ∷ b) ≡ w ++ point ∷ take 2 b
unfolding cut_decimals
cut_decimals-take w b h p =
    let at = strchr-append w b point h in
    let some_front : ltb 0 (length w) ≡ true = ground (arith, p) in
    let size : length (w ++ point ∷ b) - 1 - length w ≡ length b =
      omega (arith, length-append w (point ∷ b)) in
    elim (Bool-cases (ltb 2 (length b))) [
      | inl t ↦ rw (cut_decimals, at, size, some_front, t) (take-decimals w b)
      | inr t ↦
          let whole = take-short b (ground (arith, t)) in
          rw (cut_decimals, at, size, some_front, t) (ap (λ d. w ++ point ∷ d) (sym whole))
    ]

cut_decimals-none : (w : Bytes) → Lacks point w → cut_decimals w ≡ w
unfolding cut_decimals
cut_decimals-none w h = rw (cut_decimals, strchr-none w point h) refl

-- A number with a point in it, digits in front of the point and no further point, is appended with
-- two decimals at most, and without the point if there are none.
add_json_key_value-decimals :
    (x : ℕ) (a b : Bytes)
    → Lacks point (x ∷ a)
    → Lacks point b
    → add_json_key_value ((x ∷ a) ++ point ∷ b) ≡ some ((x ∷ a) ++ decimals b)
unfolding add_json_key_value
add_json_key_value-decimals x a [] h k =
    let w = x ∷ a in
    ap some (ap cut_decimals (trim_point-last w) ∙ cut_decimals-none w h ∙ sym (append-nil w))
add_json_key_value-decimals x a (y ∷ b) h k =
    let w = x ∷ a in
    ap some
      (ap cut_decimals (trim_point-inner w b y k) ∙ cut_decimals-take w (y ∷ b) h (omega arith))

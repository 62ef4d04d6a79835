-- ===== src/ConnString/Param.antt =====
-- Looking up one parameter of a connection string.
use sysmonitor.Base.{
  ℕ, suc, ◌+◌, ◌-◌, ◌<◌, ◌≡◌, refl, ◌∙◌, List, [], ◌∷◌, ◌++◌, Option, none, some, arith, length,
  drop, set, get_or, Option-cases, inl, inr, length-append, length-drop, drop-append_at,
  get_or-append_at, drop-set, set-append_at, append_assoc, append-nil,
}
use sysmonitor.Base.Text.{
  Bytes, text, strstr, strchr, IsText, Lacks, text-append, length-text, strchr-append, strchr-bound,
}
use sysmonitor.ConnString.{found, get_param_value, param_at, value_at}

param_at_bounds :
    (str : List ℕ) (param : Bytes) (o : Option ℕ) (p len : ℕ)
    → param_at str param o ≡ some (found p len)
    → (p + len < length str) × (strchr (text (drop p str)) b'"' ≡ some len)
unfolding param_at
param_at_bounds str param none p len h = cc
param_at_bounds str param (some i) p len h =
    elim (Option-cases (strchr (text (drop (i + 1 + length param + 1) str)) b'"')) [
      | inl e ↦ ground arith
      | inr (k, e) ↦ ground (
        arith,
        strchr-bound (text (drop (i + 1 + length param + 1) str)) b'"' k e,
        length-text (drop (i + 1 + length param + 1) str),
        length-drop (i + 1 + length param + 1) str,
      )
    ]

-- A value that `get_param_value` reports lies in the buffer, its closing quote included, and
-- that quote is the first one behind its start.
pub get_param_value_bounds :
    (str : List ℕ) (param : Bytes) (p len : ℕ)
    → get_param_value str param ≡ some (found p len)
    → (p + len < length str) × (strchr (text (drop p str)) b'"' ≡ some len)
unfolding get_param_value
get_param_value_bounds str param p len h =
    param_at_bounds str param (strstr (text str) param) p len h

-- The bytes in front of a value: any, a space, the name, `="`.
abbrev pub front : Bytes → Bytes → Bytes
front pre param = pre ++ 32 ∷ (param ++ b'=' ∷ b'"' ∷ [])

length-front :
    (pre param : Bytes) → length (front pre param) ≡ suc (length pre) + 1 + length param + 1
length-front pre param = omega (
  arith,
  length-append pre (32 ∷ (param ++ b'=' ∷ b'"' ∷ [])),
  length-append param (b'=' ∷ b'"' ∷ []),
)

value_text : (value behind : List ℕ) → IsText value → text (value ++ 0 ∷ behind) ≡ value
value_text value behind t = text-append value (0 ∷ behind) t ∙ nul
  where
    nul : value ++ text (0 ∷ behind) ≡ value
    nul = unfold text in append-nil value

module _ (pre param value : Bytes) (behind : List ℕ) (t : IsText value) (q : Lacks b'"' value) where
  abbrev whole : List ℕ
  whole = front pre param ++ (value ++ b'"' ∷ behind)

  abbrev start : ℕ
  start = suc (length pre) + 1 + length param + 1

  drop-whole : drop start whole ≡ value ++ b'"' ∷ behind
  drop-whole = drop-append_at (front pre param) _ start (length-front pre param)

  strchr-whole : strchr (text (drop start whole)) b'"' ≡ some (length value)
  strchr-whole =
      rw (drop-whole, text-append value (b'"' ∷ behind) t)
        (unfold text in strchr-append value (text behind) b'"' q)

  space-whole : get_or whole (suc (length pre) - 1) 0 ≡ 32
  space-whole =
      let e : suc (length pre) - 1 ≡ length pre = omega arith in
      rw (e, append_assoc pre (32 ∷ (param ++ b'=' ∷ b'"' ∷ [])) (value ++ b'"' ∷ behind))
        (get_or-append_at pre _ 32 0 (length pre) refl)

  start-lt-whole : start < length whole
  start-lt-whole = omega (
    arith,
    length-append (front pre param) (value ++ b'"' ∷ behind),
    length-append value (b'"' ∷ behind),
    length-front pre param,
  )

  -- Where the first occurrence of the name in a buffer stands behind a space and in front of
  -- `="value"`, the lookup gives the place of that value; and once the parser has written a NUL
  -- over the closing quote, the text at that place is the value.
  pub get_param_value_finds :
      strstr (text whole) param ≡ some (suc (length pre))
      → (get_param_value whole param ≡ some (found start (length value)))
        × (text (drop start (set whole (start + length value) 0)) ≡ value)
  unfolding get_param_value param_at value_at
  get_param_value_finds e = (
    rw e (ground (arith, space-whole, start-lt-whole, strchr-whole)),
    rw
        (
          drop-set whole start (length value) 0,
          drop-whole,
          set-append_at value behind b'"' 0 (length value) refl,
        )
        (value_text value behind t),
  )

-- ===== src/Ndb/Blocking.antt =====
-- When the table's `write` returns.
use sysmonitor.Base.{
  ℕ, zero, suc, ◌+◌, ◌≤◌, none, arith, ◌≡◌, ◌⊎◌, ◌↔◌, inl, inr, refl, sym, ap, ◌∙◌, Bool, true,
  false, List, [], ◌∷◌, map, some, Option-cases, get_elem?, if_false,
}
use mathlib.Core.Path.{subst}
use sysmonitor.Base.Fallible.{some-inj}
use sysmonitor.Base.Text.{Bytes}
use sysmonitor.Log.{Logger, past}
use sysmonitor.Log.Fits.{log-over}
use sysmonitor.Ndb.{LogState}
use sysmonitor.Ndb.Table.{
  returns, faults, Table, lock, unlock, Attempts, cur_file_size, sizes_line, compare_log,
  compare_logs, compare_file_state, open_again, log_row, write,
}

-- A log whose file is opened by one of the first eleven attempts.
abbrev pub Opens : (Bytes → Attempts) → LogState → Type 0
Opens files st = (k size : ℕ) × (k ≤ 10) × (files st.file_name k ≡ some size)

-- The attempts from `j` on, of which there are `n` and one.
open_again-some :
    (attempt : Attempts) (n j size : ℕ)
    → open_again n j attempt ≡ some size
    → (k s : ℕ) × (k ≤ n) × (attempt (j + k) ≡ some s)
unfolding open_again
open_again-some attempt zero j size e =
    let here : j + 0 ≡ j = omega arith in (0, size, omega arith, ap attempt here ∙ e)
open_again-some attempt (suc n) j size e = elim (Option-cases (attempt j)) [
  | inr (s, at) ↦ let here : j + 0 ≡ j = omega arith in (0, s, omega arith, ap attempt here ∙ at)
  | inl shut ↦
      let rest : open_again n (suc j) attempt ≡ some size = ground (arith, shut, e) in
      let (k, s, few, at) = open_again-some attempt n (suc j) size rest in
      let there : j + suc k ≡ suc j + k = omega arith in
      (suc k, s, omega (arith, few), ap attempt there ∙ at)
]

open_again-none :
    (attempt : Attempts) (n j k size : ℕ)
    → open_again n j attempt ≡ none
    → k ≤ n
    → ¬ (attempt (j + k) ≡ some size)
unfolding open_again
open_again-none attempt zero j k size e few at =
    let here : j ≡ j + k = omega (arith, few) in
    let stuck = sym e ∙ (ap attempt here ∙ at) in cc stuck
open_again-none attempt (suc n) j zero size e few at =
    let here : j ≡ j + 0 = omega arith in
    let opened : attempt j ≡ some size = ap attempt here ∙ at in absurd (ground (arith, opened, e))
open_again-none attempt (suc n) j (suc k) size e few at = elim (Option-cases (attempt j)) [
  | inr (s, opened) ↦ absurd (ground (arith, opened, e))
  | inl shut ↦
      let rest : open_again n (suc j) attempt ≡ none = ground (arith, shut, e) in
      let there : suc j + k ≡ j + suc k = omega arith in
      open_again-none attempt n (suc j) k size rest (omega (arith, few)) (ap attempt there ∙ at)
]

abbrev pub AnyOpens : (Bytes → Attempts) → List (ℕ × LogState) → Type 0
AnyOpens files m = (i tid : ℕ) × (st : LogState) × (get_elem? m i ≡ some (tid, st)) × Opens files st

module _ (files : Bytes → Attempts) where
  Compared : Logger → List (ℕ × LogState) → Table → Type 0
  Compared l m t =
      ((compare_logs l files m t ≡ faults) × AnyOpens files m)
      ⊎ ((compare_logs l files m t ≡ returns t)
          × ((i tid : ℕ) (st : LogState) → get_elem? m i ≡ some (tid, st) → ¬ Opens files st))

  opened_by :
      (st : LogState) (size : ℕ) → cur_file_size (files st.file_name) ≡ some size → Opens files st
  unfolding cur_file_size
  opened_by st size e =
      let (k, s, few, at) = open_again-some (files st.file_name) 10 0 size e in
      let here : k ≡ 0 + k = omega arith in (k, s, few, ap (files st.file_name) here ∙ at)

  closed : (st : LogState) → cur_file_size (files st.file_name) ≡ none → ¬ Opens files st
  unfolding cur_file_size
  closed st e (k, s, few, at) =
      let here : 0 + k ≡ k = omega arith in
      open_again-none (files st.file_name) 10 0 k s e few (ap (files st.file_name) here ∙ at)

  compare_log-same :
      (l : Logger) (tid : ℕ) (st : LogState) (t : Table)
      → l.win32 ≡ false
      → ((compare_log l files tid st t ≡ faults) × Opens files st)
        ⊎ ((compare_log l files tid st t ≡ returns t) × ¬ Opens files st)
  unfolding compare_log
  compare_log-same l tid st t w = elim (Option-cases (cur_file_size (files st.file_name))) [
    | inl e ↦ inr (rw (compare_log, e) refl, closed st e)
    | inr (size, e) ↦
        inl (rw (compare_log, e, log-over l 0 0 (sizes_line size st) w) refl, opened_by st size e)
  ]

  outside :
      (tid : ℕ) (st : LogState) (m : List (ℕ × LogState))
      → ¬ Opens files st
      → ((i k : ℕ) (st' : LogState) → get_elem? m i ≡ some (k, st') → ¬ Opens files st')
      → (i k : ℕ) (st' : LogState) → get_elem? ((tid, st) ∷ m) i ≡ some (k, st')
      → ¬ Opens files st'
  outside tid st m h hs zero k st' e s =
      let same : st ≡ st' = ap (λ p. p.1) (some-inj e) in h (subst (Opens files) (sym same) s)
  outside tid st m h hs (suc i) k st' e s = hs i k st' e s

  compare_logs-Compared :
      (l : Logger) (m : List (ℕ × LogState)) (t : Table) → l.win32 ≡ false → Compared l m t
  unfolding Compared compare_logs past
  compare_logs-Compared l [] t w = inr (refl, λ i tid st e s. cc e)
  compare_logs-Compared l ((tid, st) ∷ m) t w = elim (compare_log-same l tid st t w) [
    | inl (e, s) ↦ inl (rw e refl, (0, tid, st, refl, s))
    | inr (e, stays) ↦ elim (compare_logs-Compared (past 1 l) m t w) [
      | inl (e', (i, j, st', at, s)) ↦ inl (rw (e, e') refl, (suc i, j, st', at, s))
      | inr (e', none_of) ↦ inr (rw (e, e') refl, outside tid st m stays none_of)
    ]
  ]

  -- Without WIN32, where alone logs are scanned, and with the lock free: `write` writes outside a
  -- buffer, by its line of the log, if and only if one of the log files is opened by one of the first
  -- eleven attempts. Otherwise it returns, gives one row for each log, and leaves the table as it was.
  pub write-faults :
      (l : Logger) (t : Table)
      → l.win32 ≡ false
      → t.held ≡ false
      → ((write l files t ≡ faults) ↔ AnyOpens files t.m_map_log_state)
        × ((write l files t ≡ faults)
            ⊎ (write l files t ≡ returns (map log_row t.m_map_log_state, t)))
  unfolding write lock unlock compare_file_state Compared
  write-faults l t w h =
      let m = t.m_map_log_state in
      let shut : Table = record { held = true; m_map_log_state = m } in
      let taken : lock t ≡ returns shut = if_false _ _ h in
      elim (compare_logs-Compared l m shut w) [
        | inl (e, s) ↦
            let stuck : write l files t ≡ faults = rw (write, taken, e) refl in
            ((λ _. s, λ _. stuck), inl stuck)
        | inr (e, none_of) ↦
            let as_held : Bool → Table = λ b. record { held = b; m_map_log_state = m } in
            let back : returns (map log_row m, as_held false)
                ≡ returns (map log_row m, as_held t.held) =
              ap (λ b. returns (map log_row m, as_held b)) (sym h) in
            let done : write l files t ≡ returns (map log_row m, t) = rw (write, taken, e) back in
            (
              (
                λ b. let wrong : faults ≡ returns (map log_row m, t) = sym b ∙ done in cc wrong,
                λ (s : AnyOpens files m). absurd (none_of s.0 s.1 s.2 s.3 s.4),
              ),
              inr done,
            )
      ]

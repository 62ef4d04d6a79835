-- ===== src/SysInfo/Counters.antt =====
-- `CSysInfo::WriteCounterVaule`: what it gives back of what it takes.
use sysmonitor.Base.{
  ℕ, suc, ◌+◌, ◌≤◌, ◌<◌, ◌≡◌, refl, ap, ◌∙◌, Bool, true, false, ◌&&◌, List, [], ◌∷◌, none, some,
  arith, if_true, if_false, length, Bool-cases, Option-cases, inl, inr, ◌⊎◌,
}
use sysmonitor.Base.Count.{count}
use sysmonitor.Base.Text.{Bytes}
use sysmonitor.Monitor.Number.{add_json_key_value}
use sysmonitor.SysInfo.{
  Pdh, Held, cleanup, add_counters, append_values, sampled, write_counter_vaule,
}
use sysmonitor.SysInfo.Adds.{cleanup-Tracks, Refused, add_counters-Adds}

module _ (P : Pdh) where
  -- A counter's value cannot be had.
  abbrev pub Unread : Type 0
  Unread = (i : ℕ) × (P.value i ≡ none)

  -- Some call of the library fails.
  abbrev pub Failed : Type 0
  Failed = (P.opens ≡ false) ⊎ ((P.collects ≡ false) ⊎ (Refused P ⊎ Unread))

  -- Every text of a value has a byte.
  unfoldable pub Readable : Type 0
  Readable = (j : ℕ) (t : Bytes) → P.value j ≡ some t → 0 < length t

  add_json_key_value-some :
      (t : Bytes) → 0 < length t → (t' : Bytes) × (add_json_key_value t ≡ some t')
  unfolding add_json_key_value
  add_json_key_value-some [] h = absurd (omega (arith, h))
  add_json_key_value-some (x ∷ s) h = (_, refl)

  append_values-length :
      (j : ℕ) (vt : List ℕ)
      → Readable
      → (ts : List Bytes) × (append_values P j vt ≡ some ts)
        × (length ts ≤ length vt)
        × ((length ts ≡ length vt) ⊎ Unread)
  unfolding append_values Readable
  append_values-length j [] r = ([], refl, omega arith, inl refl)
  append_values-length j (b ∷ vt) r = elim (Option-cases (P.value j)) [
    | inl e ↦ ([], rw (append_values, e) refl, omega arith, inr (j, e))
    | inr (t, e) ↦
        let (t', e1) = add_json_key_value-some t (r j t e) in
        let (ts, e2, le, whole) = append_values-length (suc j) vt r in
        (
          t' ∷ ts,
          rw (append_values, e, e1, e2) refl,
          omega (arith, le),
          elim whole [ inl m ↦ inl (ap suc m) | inr x ↦ inr x ],
        )
  ]

  sampled-length :
      (added : Bool) (vt : List ℕ)
      → Readable
      → (ts : List Bytes) × (sampled P added vt ≡ some ts)
        × (length ts ≤ length vt)
        × ((length ts ≡ length vt) ⊎ (((added && P.collects) ≡ false) ⊎ Unread))
  unfolding sampled
  sampled-length added vt r = elim (Bool-cases (added && P.collects)) [
    | inl e ↦
        let (ts, e1, le, whole) = append_values-length 0 vt r in
        (ts, rw (sampled, e) e1, le, elim whole [ inl m ↦ inl m | inr x ↦ inr (inr x) ])
    | inr e ↦ ([], rw (sampled, e) refl, omega arith, inr (inl e))
  ]

  write_counter_vaule-opens :
      (n : ℕ) (names : List Bytes) (h : Held) (ok : Bool) (vt : List ℕ) (h1 h2 : Held)
      (ts : List Bytes)
      → P.opens ≡ true
      → add_counters P names 0 n [] (record h { query = true }) ≡ some (ok, vt, h1)
      → sampled P ok vt ≡ some ts
      → cleanup vt h1 ≡ some h2
      → write_counter_vaule P n names h ≡ some (ts, record h2 { query = false })
  unfolding write_counter_vaule
  write_counter_vaule-opens n names h ok vt h1 h2 ts o e1 e2 e3 =
      if_true _ _ o ∙ rw e1 (rw (sampled, e2) (rw e3 refl))

  -- What holds behind a call that began with `h`: no counter is left in a query, the query is
  -- closed, at most one block stays allocated, none unless a counter cannot be added, and at
  -- most `n` texts are appended, all `n` unless a call fails.
  pub Released : ℕ → Held → List Bytes × Held → Type 0
  Released n h (texts, h') =
      ((b : ℕ) → count b h'.counters ≡ count b h.counters)
      × (h'.query ≡ false)
      × ((leak : List ℕ) × ((b : ℕ) → count b h'.blocks ≡ count b h.blocks + count b leak)
          × (length leak ≤ 1)
          × ((leak ≡ []) ⊎ Refused P))
      × (length texts ≤ n)
      × ((length texts ≡ n) ⊎ Failed)

  all_texts :
      (n : ℕ) (ok : Bool) (ts : List Bytes) (vt leak : List ℕ)
      → (((leak ≡ []) × (ok ≡ true) × (length vt ≡ n)) ⊎ Refused P)
      → (length ts ≡ length vt) ⊎ (((ok && P.collects) ≡ false) ⊎ Unread)
      → (length ts ≡ n) ⊎ Failed
  all_texts n ok ts vt leak (inr x) texts = inr (inr (inr (inl x)))
  all_texts n ok ts vt leak (inl (l, o, m)) (inl k) = inl (k ∙ m)
  all_texts n ok ts vt leak (inl (l, o, m)) (inr (inl e)) = inr (inr (inl (ground (arith, e, o))))
  all_texts n ok ts vt leak (inl (l, o, m)) (inr (inr x)) = inr (inr (inr (inr x)))

  -- Whatever the library answers, a call for at most as many counters as there are names returns,
  -- if every value's text has a byte and no query was open. Behind it no counter is left in a
  -- query, the query is closed, and at most one block stays allocated, none unless a counter cannot
  -- be added; at most one text for each counter is appended, and one for each unless a call of the
  -- library fails.
  pub write_counter_vaule-Released :
      (counter_num : ℕ) (names : List Bytes) (h : Held)
      → counter_num ≤ length names
      → Readable
      → h.query ≡ false
      → (out : List Bytes × Held) × (write_counter_vaule P counter_num names h ≡ some out)
        × Released counter_num h out
  unfolding write_counter_vaule Released count
  write_counter_vaule-Released n names h le r q = elim (Bool-cases P.opens) [
    | inr e ↦ (
      ([], h),
      if_false _ _ e,
      (λ b. refl, q, ([], λ b. omega arith, omega arith, inl refl), omega arith, inr (inl e)),
    )
    | inl e ↦
        let h0 : Held = record h { query = true } in
        let ((ok, vt, h1), e1, (leak, t, one, short, whole)) =
          add_counters-Adds P names h h0 0 n [] (omega (arith, le))
            (λ b. (omega arith, omega arith)) in
        let whole0 : ((leak ≡ []) × (ok ≡ true) × (length vt ≡ n)) ⊎ Refused P = elim whole [
          | inl (l, o, m) ↦ inl (l, o, omega (arith, m))
          | inr x ↦ inr x
        ] in
        let (ts, e2, few, all_of) = sampled-length ok vt r in
        let (h2, e3, t2) = cleanup-Tracks h h1 vt leak t in
        (
          (ts, record h2 { query = false }),
          write_counter_vaule-opens n names h ok vt h1 h2 ts e e1 e2 e3,
          (
            λ b. let z = (t2 b).0 in omega (arith, z),
            refl,
            (
              leak,
              λ b. let z = (t2 b).1 in omega (arith, z),
              one,
              elim whole [ inl (l, o, m) ↦ inl l | inr x ↦ inr x ],
            ),
            omega (arith, few, short),
            all_texts n ok ts vt leak whole0 all_of,
          ),
        )
  ]

-- ===== src/SysInfo/Adds.antt =====
-- The blocks and the counters that `CSysInfo::WriteCounterVaule` holds while it adds counters, and
-- what its cleanup gives back.
use sysmonitor.Base.{
  ℕ, zero, suc, ◌+◌, ◌≤◌, ◌<◌, ◌≡◌, refl, ◌∙◌, Bool, true, false, List, [], ◌∷◌, ◌++◌, some, arith,
  length, get_elem?-some, Bool-cases, inl, inr, ◌⊎◌, length-append,
}
use sysmonitor.Base.Count.{count, remove, count-remove, count-append}
use sysmonitor.Base.Text.{Bytes}
use sysmonitor.SysInfo.{Pdh, Held, alloc, release, cleanup, add_counters}

-- Against what was held at the start: the blocks of `vt_hcounter`, each with its counter in the
-- query, and those of `leak`, which have none.
abbrev pub Tracks : Held → List ℕ → List ℕ → Held → Type 0
Tracks h0 vt leak h =
    (b : ℕ)
    → (count b h.counters ≡ count b h0.counters + count b vt)
      × (count b h.blocks ≡ count b h0.blocks + count b vt + count b leak)

release-Tracks :
    (h0 h : Held) (b : ℕ) (vt leak : List ℕ)
    → Tracks h0 (b ∷ vt) leak h
    → (h' : Held) × (release b h ≡ some h') × Tracks h0 vt leak h' × (h'.query ≡ h.query)
unfolding release count
release-Tracks h0 h b vt leak t =
    let (c, k) = t b in
    let in_query : 0 < count b h.counters = ground (arith, c) in
    let allocated : 0 < count b h.blocks = ground (arith, k) in
    let h' : Held = record h { counters = remove b h.counters; blocks = remove b h.blocks } in
    (
      h',
      ground (arith, in_query, allocated),
      (λ i.
          let at = t i in
          let c' = count-remove b i h.counters in_query in
          let k' = count-remove b i h.blocks allocated in
          (ground (arith, at.0, c'), ground (arith, at.1, k'))),
      refl,
    )

pub cleanup-Tracks :
    (h0 h : Held) (vt leak : List ℕ)
    → Tracks h0 vt leak h
    → (h' : Held) × (cleanup vt h ≡ some h') × Tracks h0 [] leak h'
unfolding cleanup
cleanup-Tracks h0 h [] leak t = (h, refl, t)
cleanup-Tracks h0 h (b ∷ vt) leak t =
    let (h1, e1, t1, q) = release-Tracks h0 h b vt leak t in
    let (h2, e2, t2) = cleanup-Tracks h0 h1 vt leak t1 in (h2, rw (e1, e2) refl, t2)

module _ (P : Pdh) where
  -- A counter cannot be added.
  abbrev pub Refused : Type 0
  Refused = (i : ℕ) × (name : Bytes) × (P.adds i name ≡ false)

  -- The loop that adds, from a state that holds what `vt` names.
  abbrev pub Adds : Held → ℕ → List ℕ → Bool × List ℕ × Held → Type 0
  Adds h0 n vt (ok, vt', h') =
      (leak : List ℕ) × Tracks h0 vt' leak h'
      × (length leak ≤ 1)
      × (length vt' ≤ length vt + n)
      × (((leak ≡ []) × (ok ≡ true) × (length vt' ≡ length vt + n)) ⊎ Refused)

  Adds-longer :
      (h0 : Held) (n : ℕ) (vt : List ℕ) (b : ℕ) (out : Bool × List ℕ × Held)
      → Adds h0 n (vt ++ b ∷ []) out
      → Adds h0 (suc n) vt out
  Adds-longer h0 n vt b (ok, vt', h') (leak, t, one, le, whole) =
      let len = length-append vt (b ∷ []) in
      (
        leak,
        t,
        one,
        omega (arith, le, len),
        elim whole [ inl (l, o, m) ↦ inl (l, o, omega (arith, m, len)) | inr x ↦ inr x ],
      )

  pub add_counters-Adds :
      (names : List Bytes) (h0 h : Held) (i n : ℕ) (vt : List ℕ)
      → i + n ≤ length names
      → Tracks h0 vt [] h
      → (out : Bool × List ℕ × Held) × (add_counters P names i n vt h ≡ some out) × Adds h0 n vt out
  unfolding add_counters alloc count
  add_counters-Adds names h0 h i zero vt le t =
      ((true, vt, h), refl, ([], t, omega arith, omega arith, inl (refl, refl, omega arith)))
  add_counters-Adds names h0 h i (suc n) vt le t =
      let (name, e) = get_elem?-some names i (omega (arith, le)) in
      elim (Bool-cases (P.adds i name)) [
        | inl a ↦
            let h1 : Held = record (alloc h) { counters = h.next ∷ h.counters } in
            let t1 : Tracks h0 (vt ++ h.next ∷ []) [] h1 = λ b.
              let at = t b in
              let both = count-append b vt (h.next ∷ []) in
              (ground (arith, at.0, both), ground (arith, at.1, both)) in
            let (out, e1, adds) =
              add_counters-Adds names h0 h1 (suc i) n (vt ++ h.next ∷ []) (omega (arith, le)) t1 in
            let step : add_counters P names i (suc n) vt h
                ≡ add_counters P names (suc i) n (vt ++ h.next ∷ []) h1 =
              rw (add_counters, e, a) refl in
            (out, step ∙ e1, Adds-longer h0 n vt h.next out adds)
        | inr a ↦ (
          (false, vt, alloc h),
          rw (add_counters, e, a) refl,
          (
            h.next ∷ [],
            λ b. let at = t b in (at.0, ground (arith, at.1)),
            omega arith,
            omega arith,
            inr (i, name, a),
          ),
        )
      ]

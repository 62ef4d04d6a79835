-- ===== src/LinkManager/Acquire.antt =====
-- What `GetLink` returns, and what it leaves of the pool.
use sysmonitor.Base.{
  ℕ, zero, suc, ◌+◌, ◌≡◌, refl, sym, ap, ◌∙◌, Bool, true, false, not, ◌&&◌, List, [], ◌∷◌, Option,
  none, some, arith, Bool-cases, inl, inr, ◌==◌, leb, if◌then◌else◌, get_elem?, set, map,
}
use sysmonitor.LinkManager.Database.{Ado}
use sysmonitor.LinkManager.{
  OpLink, LinkManager, select_link, max_dbcount, connect_default, connect2, finish_primary,
  finish_other, get_reserved, on_selected, get_link, give_up, update_link, succeeded,
}
use sysmonitor.LinkManager.Select.{Selects, select_link-Selects}

-- A result of `get_link`: what a link that is handed out is like before and after, and that a
-- refusal leaves every link as busy as it was.
unfoldable pub Outcome : {A : Ado} → LinkManager A → ℕ → Bool → Option ℕ × LinkManager A → Type 0
Outcome m now primary (none, m') = map (λ l. l.is_busy) m'.links ≡ map (λ l. l.is_busy) m.links
Outcome {A} m now primary (some j, m') =
    (l l' : OpLink A) × (get_elem? m.links j ≡ some l)
    × (l.is_busy ≡ false)
    × (m'.links ≡ set m.links j l')
    × (l'.is_busy ≡ true)
    × (l'.is_connected ≡ true)
    × (l'.busy_time ≡ now)
    × (primary && not (l'.cur_sel == m.default_sel) ≡ false)

module _ {A : Ado} where
  connect_default_lem :
      (m : LinkManager A) (l : OpLink A)
      → ((connect_default m l).0.is_busy ≡ l.is_busy)
        × ((connect_default m l).0.is_connected
              && not ((connect_default m l).0.cur_sel == m.default_sel)
            ≡ false)
  unfolding connect_default
  connect_default_lem m l = ground arith

  connect2_lem :
      (m : LinkManager A) (now dbsel : ℕ) (l : OpLink A)
      → ((connect2 m now dbsel l).0.is_busy ≡ l.is_busy)
        × ((connect2 m now dbsel l).1 && not (connect2 m now dbsel l).0.is_connected ≡ false)
        × ((connect2 m now dbsel l).1 && not ((connect2 m now dbsel l).0.busy_time == now) ≡ false)
  unfolding connect2
  connect2_lem m now dbsel l = ground arith

  pub map_busy-set :
      (ls : List (OpLink A)) (i : ℕ) (l l' : OpLink A)
      → get_elem? ls i ≡ some l
      → l'.is_busy ≡ l.is_busy
      → map (λ x. x.is_busy) (set ls i l') ≡ map (λ x. x.is_busy) ls
  map_busy-set [] i l l' g b = refl
  map_busy-set (x ∷ ls) zero l l' g b = ground arith
  map_busy-set (x ∷ ls) (suc i) l l' g b = ap (◌∷◌ x.is_busy) (map_busy-set ls i l l' g b)

  finish_primary-Outcome :
      (m : LinkManager A) (now i : ℕ) (x l : OpLink A) (fresh : Bool)
      → get_elem? m.links i ≡ some x
      → x.is_busy ≡ false
      → l.is_busy ≡ true
      → l.is_connected && not (l.cur_sel == m.default_sel) ≡ false
      → Outcome m now true (finish_primary m now i (l, fresh))
  unfolding Outcome finish_primary give_up update_link succeeded
  finish_primary-Outcome m now i x l fresh g f b c =
      let back : OpLink A = record l { is_busy = false } in
      let out : OpLink A = record l { busy_time = now } in
      let m' : LinkManager A = if fresh then succeeded m else m in
      let same : map (λ z. z.is_busy) (set m.links i back) ≡ map (λ z. z.is_busy) m.links =
        map_busy-set m.links i x back g (sym f) in
      let links : m'.links ≡ m.links = elim (Bool-cases fresh) [
        | inl t ↦ ground (arith, t)
        | inr t ↦ ground (arith, t)
      ] in
      elim (Bool-cases l.is_connected) [
        | inl t ↦
            let e : finish_primary m now i (l, fresh) ≡ (some i, update_link m' i out) =
              ground (arith, t) in
            rw e (x, out, g, f, rw links refl, b, t, refl, ground (arith, c, t))
        | inr t ↦
            let e : finish_primary m now i (l, fresh)
                ≡ (none, record (update_link m' i back) { fail_count = m'.fail_count + 1 }) =
              ground (arith, t) in
            rw e (rw links same)
      ]

  finish_other-Outcome :
      (m : LinkManager A) (now dbsel i : ℕ) (x l : OpLink A)
      → get_elem? m.links i ≡ some x
      → x.is_busy ≡ false
      → l.is_busy ≡ true
      → Outcome m now false (finish_other m now i l (connect2 m now dbsel l))
  unfolding Outcome finish_other give_up update_link succeeded connect2
  finish_other-Outcome m now dbsel i x l g f b =
      let (b', c, n) = connect2_lem m now dbsel l in
      let y = (connect2 m now dbsel l).0 in
      let out : OpLink A = record l { busy_time = now } in
      let back : OpLink A = record l { is_busy = false } in
      let p : connect2 m now dbsel l ≡ (y, (connect2 m now dbsel l).1) = refl in
      elim (Bool-cases l.is_connected) [
        | inl t ↦
            let e : finish_other m now i l (connect2 m now dbsel l)
                ≡ (some i, update_link m i out) =
              ground (arith, t) in
            rw e (x, out, g, f, refl, b, t, refl, refl)
        | inr t ↦ elim (Bool-cases (connect2 m now dbsel l).1) [
          | inl o ↦
              let e : finish_other m now i l (connect2 m now dbsel l)
                  ≡ (some i, update_link (succeeded m) i y) =
                ground (arith, t, o) in
              rw e (x, y, g, f, refl, b' ∙ b, ground (arith, c, o), ground (arith, n, o), refl)
          | inr o ↦
              let e : finish_other m now i l (connect2 m now dbsel l) ≡ give_up m i y =
                ground (arith, t, o) in
              rw e (map_busy-set m.links i x (record y { is_busy = false }) g (sym f))
        ]
      ]

  on_selected-Outcome :
      (m : LinkManager A) (now dbsel : ℕ) (primary : Bool) (r : Option ℕ)
      → Selects m.links 0 r
      → Outcome m now primary (on_selected m now dbsel primary r)
  unfolding Outcome on_selected get_reserved
  on_selected-Outcome m now dbsel primary none h = refl
  on_selected-Outcome m now dbsel false (some j) (i, e, x, g, f) =
      let g' : get_elem? m.links j ≡ some x = let z : j ≡ i = omega (arith, e) in rw (z, g) refl in
      let l : OpLink A = record x { is_busy = true } in
      let q : on_selected m now dbsel false (some j)
          ≡ finish_other m now j l (connect2 m now dbsel l) =
        ground (arith, g') in
      rw q (finish_other-Outcome m now dbsel j x l g' f refl)
  on_selected-Outcome m now dbsel true (some j) (i, e, x, g, f) =
      let g' : get_elem? m.links j ≡ some x = let z : j ≡ i = omega (arith, e) in rw (z, g) refl in
      let l : OpLink A = record x { is_busy = true } in
      let (b, c) = connect_default_lem m l in
      let q : on_selected m now dbsel true (some j) ≡ finish_primary m now j (connect_default m l) =
        ground (arith, g') in
      rw q
        (finish_primary-Outcome m now j x (connect_default m l).0 (connect_default m l).1 g' f b c)

  get_link-Outcome :
      (m : LinkManager A) (now dbsel : ℕ) (primary : Bool)
      → Outcome m now primary (get_link m now dbsel primary)
  unfolding Outcome get_link
  get_link-Outcome m now dbsel primary = elim (Bool-cases (leb max_dbcount dbsel)) [
    | inl t ↦ let e : get_link m now dbsel primary ≡ (none, m) = ground (arith, t) in rw e refl
    | inr t ↦
        let r = select_link primary m.default_sel m.links 0 none in
        let e : get_link m now dbsel primary ≡ on_selected m now dbsel primary r =
          ground (arith, t) in
        rw e (
          on_selected-Outcome m now dbsel primary r
            (select_link-Selects primary m.default_sel m.links 0))
  ]

  -- A link that `get_link` hands out was free, and is now busy and connected; no other link has
  -- changed. For a request for the primary database it is connected to the default one.
  pub get_link-Grants :
      (m m' : LinkManager A) (now dbsel j : ℕ) (primary : Bool)
      → get_link m now dbsel primary ≡ (some j, m')
      → Outcome m now primary (some j, m')
  get_link-Grants m m' now dbsel j primary e = rw (sym e) (get_link-Outcome m now dbsel primary)

  refused-Outcome :
      (m m' : LinkManager A) (now dbsel : ℕ) (primary : Bool)
      → get_link m now dbsel primary ≡ (none, m')
      → Outcome m now primary (none, m')
  refused-Outcome m m' now dbsel primary e = rw (sym e) (get_link-Outcome m now dbsel primary)

  -- Where `get_link` returns no link, each link is busy exactly if it was: the link on which a
  -- connection failed has been given back.
  pub get_link-refuses :
      (m m' : LinkManager A) (now dbsel : ℕ) (primary : Bool)
      → get_link m now dbsel primary ≡ (none, m')
      → map (λ l. l.is_busy) m'.links ≡ map (λ l. l.is_busy) m.links
  unfolding Outcome
  get_link-refuses m m' now dbsel primary e = refused-Outcome m m' now dbsel primary e

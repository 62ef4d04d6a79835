-- ===== src/LinkManager/Select.antt =====
-- Which link the search of `GetLink` picks.
use sysmonitor.Base.{
  ℕ, zero, suc, ◌+◌, ◌≡◌, refl, Bool, true, false, not, ◌||◌, List, [], ◌∷◌, Option, none, some,
  arith, Bool-cases, inl, inr, ◌==◌, ◌⊎◌, get_elem?,
}
use sysmonitor.LinkManager.Database.{Ado}
use sysmonitor.LinkManager.{OpLink, select_link}

-- What the search says of a list of links: it picks a free one, or there is none.
abbrev pub Selects : {A : Ado} → List (OpLink A) → ℕ → Option ℕ → Type 0
Selects ls at none = (i : ℕ) (l : OpLink _) → get_elem? ls i ≡ some l → l.is_busy ≡ true
Selects {A} ls at (some j) =
    (i : ℕ) × (j ≡ at + i) × (l : OpLink A) × (get_elem? ls i ≡ some l) × (l.is_busy ≡ false)

module _ {A : Ado} where
  -- With a link found earlier, the search returns that or a later free one.
  abbrev pub SelectsFrom : List (OpLink A) → ℕ → ℕ → Option ℕ → Type 0
  SelectsFrom ls at i none = ⊥
  SelectsFrom ls at i (some j) = (j ≡ i) ⊎ Selects ls at (some j)

  Selects-cons :
      (x : OpLink A) (ls : List (OpLink A)) (at j : ℕ)
      → Selects ls (at + 1) (some j)
      → Selects (x ∷ ls) at (some j)
  Selects-cons x ls at j (i, e, l, g, b) = (suc i, omega arith, l, g, b)

  none_of_cons :
      (x : OpLink A) (ls : List (OpLink A)) (at : ℕ)
      → x.is_busy ≡ true
      → Selects ls (at + 1) none
      → Selects (x ∷ ls) at none
  none_of_cons x ls at b h = all
    where
      all : (i : ℕ) (l : OpLink A) → get_elem? (x ∷ ls) i ≡ some l → l.is_busy ≡ true
      all zero l e = ground arith
      all (suc i) l e = h i l e

  Selects-busy :
      (x : OpLink A) (ls : List (OpLink A)) (at : ℕ) (r : Option ℕ)
      → x.is_busy ≡ true
      → Selects ls (at + 1) r
      → Selects (x ∷ ls) at r
  Selects-busy x ls at none b h = none_of_cons x ls at b h
  Selects-busy x ls at (some j) b h = Selects-cons x ls at j h

  SelectsFrom-cons :
      (x : OpLink A) (ls : List (OpLink A)) (at i : ℕ) (r : Option ℕ)
      → SelectsFrom ls (at + 1) i r
      → SelectsFrom (x ∷ ls) at i r
  SelectsFrom-cons x ls at i none h = h
  SelectsFrom-cons x ls at i (some j) (inl e) = inl e
  SelectsFrom-cons x ls at i (some j) (inr h) = inr (Selects-cons x ls at j h)

  Selects-here :
      (x : OpLink A) (ls : List (OpLink A)) (at : ℕ)
      → x.is_busy ≡ false
      → Selects (x ∷ ls) at (some at)
  Selects-here x ls at f = (0, omega arith, x, refl, f)

  select_link-from :
      (primary : Bool) (sel : ℕ) (ls : List (OpLink A)) (at i : ℕ)
      → SelectsFrom ls at i (select_link primary sel ls at (some i))
  unfolding select_link
  select_link-from primary sel [] at i = inl refl
  select_link-from primary sel (x ∷ ls) at i =
      let rest = SelectsFrom-cons x ls at i _ (select_link-from primary sel ls (at + 1) i) in
      elim (Bool-cases x.is_busy) [
        | inl b ↦
            let e : select_link primary sel (x ∷ ls) at (some i)
                ≡ select_link primary sel ls (at + 1) (some i) =
              ground (arith, b) in
            rw e rest
        | inr f ↦ elim (Bool-cases (not primary || x.cur_sel == sel)) [
          | inl t ↦
              let e : select_link primary sel (x ∷ ls) at (some i) ≡ some at =
                ground (arith, f, t) in
              rw e (inr (Selects-here x ls at f))
          | inr t ↦
              let e : select_link primary sel (x ∷ ls) at (some i)
                  ≡ select_link primary sel ls (at + 1) (some i) =
                ground (arith, f, t) in
              rw e rest
        ]
      ]

  SelectsFrom-Selects :
      (x : OpLink A) (ls : List (OpLink A)) (at : ℕ) (r : Option ℕ)
      → x.is_busy ≡ false
      → SelectsFrom ls (at + 1) at r
      → Selects (x ∷ ls) at r
  SelectsFrom-Selects x ls at none f h = absurd h
  SelectsFrom-Selects x ls at (some j) f (inl e) = rw e (Selects-here x ls at f)
  SelectsFrom-Selects x ls at (some j) f (inr h) = Selects-cons x ls at j h

  pub select_link-Selects :
      (primary : Bool) (sel : ℕ) (ls : List (OpLink A)) (at : ℕ)
      → Selects ls at (select_link primary sel ls at none)
  unfolding select_link
  select_link-Selects primary sel [] at = λ i l e. cc
  select_link-Selects primary sel (x ∷ ls) at = elim (Bool-cases x.is_busy) [
    | inl b ↦
        let e : select_link primary sel (x ∷ ls) at none
            ≡ select_link primary sel ls (at + 1) none =
          ground (arith, b) in
        rw e (Selects-busy x ls at _ b (select_link-Selects primary sel ls (at + 1)))
    | inr f ↦ elim (Bool-cases (not primary || x.cur_sel == sel)) [
      | inl t ↦
          let e : select_link primary sel (x ∷ ls) at none ≡ some at = ground (arith, f, t) in
          rw e (Selects-here x ls at f)
      | inr t ↦
          let e : select_link primary sel (x ∷ ls) at none
              ≡ select_link primary sel ls (at + 1) (some at) =
            ground (arith, f, t) in
          rw e (SelectsFrom-Selects x ls at _ f (select_link-from primary sel ls (at + 1) at))
    ]
  ]

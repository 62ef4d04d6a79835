-- ===== src/LinkManager/Secondary.antt =====
-- `GetLink` for a database other than the primary one.
use sysmonitor.Base.{
  ℕ, ◌<◌, ◌≡◌, sym, ap, ◌∙◌, true, false, Option, none, some, arith, Option-cases, inl, inr,
  get_elem?,
}
use sysmonitor.LinkManager.Database.{Ado}
use sysmonitor.LinkManager.{
  OpLink, LinkManager, select_link, max_dbcount, finish_other, get_reserved, on_selected, get_link,
  give_up, update_link, succeeded,
}

module _ {A : Ado} where
  select_link-index :
      (m : LinkManager A) (now dbsel i j : ℕ) (m' : LinkManager A)
      → on_selected m now dbsel false (some i) ≡ (some j, m')
      → i ≡ j
  unfolding on_selected get_reserved finish_other give_up update_link succeeded
  select_link-index m now dbsel i j m' e = elim (Option-cases (get_elem? m.links i)) [
    | inl n ↦ ground (arith, n)
    | inr (x, g) ↦ ground (arith, g)
  ]

  on_selected-ignores_dbsel :
      (m : LinkManager A) (now a b j : ℕ) (l : OpLink A)
      → get_elem? m.links j ≡ some l
      → l.is_connected ≡ true
      → on_selected m now a false (some j) ≡ on_selected m now b false (some j)
  unfolding on_selected get_reserved finish_other
  on_selected-ignores_dbsel m now a b j l g c = ground (arith, g, c)

  same_request :
      (m m' : LinkManager A) (now a b j : ℕ) (l : OpLink A)
      → get_elem? m.links j ≡ some l
      → l.is_connected ≡ true
      → (r : Option ℕ) → on_selected m now a false r ≡ (some j, m')
      → on_selected m now b false r ≡ (some j, m')
  unfolding on_selected
  same_request m m' now a b j l g c none h = cc
  same_request m m' now a b j l g c (some i) h =
      let i_eq : i ≡ j = select_link-index m now a i j m' h in
      let swap = on_selected-ignores_dbsel m now a b j l g c in
      let at_j = ap (λ k. on_selected m now a false (some k)) (sym i_eq) in
      let back = ap (λ k. on_selected m now b false (some k)) i_eq in back ∙ sym swap ∙ at_j ∙ h

  -- A request for another database that is given a connected link gets it as it is: the answer is
  -- the same for each database asked for, whichever one the link is connected to.
  get_link-ignores_dbsel :
      (m m' : LinkManager A) (now a b j : ℕ) (l : OpLink A)
      → get_link m now a false ≡ (some j, m')
      → get_elem? m.links j ≡ some l
      → l.is_connected ≡ true
      → b < max_dbcount
      → get_link m now b false ≡ (some j, m')
  unfolding get_link
  get_link-ignores_dbsel m m' now a b j l e g c lt =
      let r = select_link false m.default_sel m.links 0 none in
      let ea : on_selected m now a false r ≡ (some j, m') = ground (arith, e) in
      let eb : get_link m now b false ≡ on_selected m now b false r = ground (arith, lt) in
      eb ∙ same_request m m' now a b j l g c r ea

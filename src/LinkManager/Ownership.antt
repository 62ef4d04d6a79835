-- ===== src/LinkManager/Ownership.antt =====
-- Who holds which link, over every history of `GetLink`, `FreeLink`, `DisConnect` and
-- `CheckConnect`.
use sysmonitor.Base.{
  ℕ, zero, suc, ◌≤◌, ◌<◌, ◌≡◌, ◌≢◌, refl, sym, ap, ◌∙◌, Bool, true, false, List, [], ◌∷◌, Option,
  none, some, arith, Bool-cases, Option-cases, inl, inr, ◌==◌, if◌then◌else◌, get_elem?, set,
  length, map, get_elem?-set_self, get_elem?-set_ne, get_elem?-lt, ◌++◌, take, drop,
}
use sysmonitor.Base.Count.{count, remove, count-remove_self, count-remove_ne}
use sysmonitor.Base.Int.{ℤ}
use sysmonitor.LinkManager.Database.{Ado, DbConfig}
use sysmonitor.LinkManager.{
  OpLink, LinkManager, init, init_link, default_of, get_link, on_link, free_link, disconnect_link,
  check_connect, close_ado,
}
use sysmonitor.LinkManager.Acquire.{Outcome, map_busy-set, get_link-Grants, get_link-refuses}

pub busy_count : Option Bool → ℕ
busy_count none = 0
busy_count (some b) = if b then 1 else 0

-- The links that the clients hold are the busy ones, and each is held once.
abbrev pub HeldOnce : {A : Ado} → LinkManager A → List ℕ → Type 0
HeldOnce m held = (i : ℕ) → count i held ≡ busy_count (get_elem? (map (λ l. l.is_busy) m.links) i)

-- The pool after its initialisation and any history of calls, with the links that the clients
-- hold. A client gives back only a link that it holds.
pub data Reachable (A : Ado) : LinkManager A → List ℕ → Type 1 where
  start :
      (m m' : LinkManager A) (n : ℕ) (sel : ℤ) (configs : List DbConfig)
      → init n sel configs m ≡ some m'
      → Reachable A m' []
  granted :
      (m m' : LinkManager A) (held : List ℕ) (now dbsel j : ℕ) (primary : Bool)
      → Reachable A m held
      → get_link m now dbsel primary ≡ (some j, m')
      → Reachable A m' (j ∷ held)
  refused :
      (m m' : LinkManager A) (held : List ℕ) (now dbsel : ℕ) (primary : Bool)
      → Reachable A m held
      → get_link m now dbsel primary ≡ (none, m')
      → Reachable A m' held
  freed :
      (m : LinkManager A) (held : List ℕ) (i : ℕ)
      → Reachable A m held
      → 0 < count i held
      → Reachable A (free_link m i) (remove i held)
  disconnected :
      (m : LinkManager A) (held : List ℕ) (i : ℕ)
      → Reachable A m held
      → 0 < count i held
      → Reachable A (disconnect_link m i) (remove i held)
  checked :
      (m : LinkManager A) (held : List ℕ) (i : ℕ)
      → Reachable A m held
      → Reachable A (check_connect m i) held

busy_count-le : (b : Option Bool) → busy_count b ≤ 1
unfolding busy_count
busy_count-le none = omega arith
busy_count-le (some b) = ground arith

module _ {A : Ado} where
  abbrev flags : List (OpLink A) → List Bool
  flags ls = map (λ l. l.is_busy) ls

  flags-set :
      (ls : List (OpLink A)) (i : ℕ) (l : OpLink A)
      → flags (set ls i l) ≡ set (flags ls) i l.is_busy
  flags-set [] i l = refl
  flags-set (x ∷ ls) zero l = refl
  flags-set (x ∷ ls) (suc i) l = ap (◌∷◌ x.is_busy) (flags-set ls i l)

  flags-get :
      (ls : List (OpLink A)) (i : ℕ) (l : OpLink A)
      → get_elem? ls i ≡ some l
      → get_elem? (flags ls) i ≡ some l.is_busy
  flags-get [] i l h = cc
  flags-get (x ∷ ls) zero l h = ground arith
  flags-get (x ∷ ls) (suc i) l h = flags-get ls i l h

  flags-none :
      (ls : List (OpLink A)) (i : ℕ) → get_elem? ls i ≡ none → get_elem? (flags ls) i ≡ none
  flags-none [] i h = refl
  flags-none (x ∷ ls) zero h = cc
  flags-none (x ∷ ls) (suc i) h = flags-none ls i h

  flags-init :
      (ls : List (OpLink A)) (sel i : ℕ)
      → busy_count (get_elem? (flags (map (init_link sel) ls)) i) ≡ 0
  unfolding busy_count init_link
  flags-init [] sel i = refl
  flags-init (x ∷ ls) sel zero = refl
  flags-init (x ∷ ls) sel (suc i) = flags-init ls sel i

  -- The flags after a link has been written.
  Marks : List (OpLink A) → List (OpLink A) → ℕ → Bool → Type 0
  Marks ls' ls i b = (flags ls' ≡ set (flags ls) i b) × (i < length (flags ls))

  HeldOnce-grant :
      (m m' : LinkManager A) (held : List ℕ) (j : ℕ)
      → HeldOnce m held
      → busy_count (get_elem? (flags m.links) j) ≡ 0
      → Marks m'.links m.links j true
      → HeldOnce m' (j ∷ held)
  unfolding count busy_count Marks
  HeldOnce-grant m m' held j h free (e, lt) i = elim (Bool-cases (j == i)) [
    | inl t ↦
        let eq : j ≡ i = ground (arith, t) in
        rw (sym eq, e, get_elem?-set_self (flags m.links) j true lt) (ground (arith, h j))
    | inr t ↦
        let ne : j ≢ i = ground (arith, t) in
        rw (e, get_elem?-set_ne (flags m.links) true ne) (ground (arith, t, h i))
  ]

  HeldOnce-release :
      (m m' : LinkManager A) (held : List ℕ) (j : ℕ)
      → HeldOnce m held
      → 0 < count j held
      → Marks m'.links m.links j false
      → HeldOnce m' (remove j held)
  unfolding busy_count Marks
  HeldOnce-release m m' held j h some_j (e, lt) i = elim (Bool-cases (j == i)) [
    | inl t ↦
        let eq : j ≡ i = ground (arith, t) in
        rw (sym eq, e, get_elem?-set_self (flags m.links) j false lt)
          (ground (
            arith,
            h j,
            count-remove_self j held some_j,
            busy_count-le (get_elem? (flags m.links) j),
          ))
    | inr t ↦
        let ne : j ≢ i = ground (arith, t) in
        rw (e, get_elem?-set_ne (flags m.links) false ne) (count-remove_ne j i held ne ∙ h i)
  ]

  -- A call on a link that the client holds and that leaves it free.
  HeldOnce-on_link :
      (m : LinkManager A) (held : List ℕ) (j : ℕ) (f : OpLink A → OpLink A)
      → HeldOnce m held
      → 0 < count j held
      → ((l : OpLink A) → (f l).is_busy ≡ false)
      → HeldOnce (on_link m j f) (remove j held)
  unfolding on_link Marks busy_count
  HeldOnce-on_link m held j f h some_j clear = elim (Option-cases (get_elem? m.links j)) [
    | inl n ↦ absurd (let z = flags-none m.links j n in ground (arith, h j, z))
    | inr (l, g) ↦
        let m' : LinkManager A = record m { links = set m.links j (f l) } in
        let e : on_link m j f ≡ m' = ground (arith, g) in
        let set_flags : flags m'.links ≡ set (flags m.links) j false =
          rw (flags-set m.links j (f l), clear l) refl in
        rw e (
          HeldOnce-release m m' held j h some_j
            (set_flags, get_elem?-lt (flags m.links) j (flags-get m.links j l g)))
  ]

  HeldOnce-check_connect :
      (m : LinkManager A) (held : List ℕ) (j : ℕ)
      → HeldOnce m held
      → HeldOnce (check_connect m j) held
  unfolding check_connect on_link
  HeldOnce-check_connect m held j h = elim (Option-cases (get_elem? m.links j)) [
    | inl n ↦ let e : check_connect m j ≡ m = ground (arith, n) in rw e h
    | inr (l, g) ↦
        let l' : OpLink A = record l { ado_db = close_ado A l.ado_db; is_connected = false } in
        let e : check_connect m j ≡ record m { links = set m.links j l' } = ground (arith, g) in
        rw e (λ i.
          h i ∙ ap (λ fs. busy_count (get_elem? fs i)) (sym (map_busy-set m.links j l l' g refl)))
  ]

  HeldOnce-init :
      (m m' : LinkManager A) (n : ℕ) (sel : ℤ) (configs : List DbConfig)
      → init n sel configs m ≡ some m'
      → HeldOnce m' []
  unfolding init count
  HeldOnce-init m m' n sel configs e i =
      let d = default_of sel n in
      let out : LinkManager A = record m {
        db_count = n;
        default_sel = d;
        db_config = take n configs ++ drop n m.db_config;
        links = map (init_link d) m.links;
      } in
      let eq : m' ≡ out = ground (arith, e) in rw (eq, flags-init m.links d i) refl

  HeldOnce-granted :
      (m m' : LinkManager A) (held : List ℕ) (now dbsel j : ℕ) (primary : Bool)
      → HeldOnce m held
      → Outcome m now primary (some j, m')
      → HeldOnce m' (j ∷ held)
  unfolding Outcome Marks busy_count
  HeldOnce-granted m m' held now dbsel j primary h (l, l', g, f, e, b, c, n, p) =
      let set_flags : flags m'.links ≡ set (flags m.links) j true =
        rw (e, flags-set m.links j l', b) refl in
      let was = flags-get m.links j l g in
      HeldOnce-grant m m' held j h (rw (was, f) refl)
        (set_flags, get_elem?-lt (flags m.links) j was)

  -- In every history the links that the clients hold are exactly the busy ones of the pool, and
  -- each is held once: a link is never handed to two clients, and none is lost.
  pub Reachable-HeldOnce :
      (m : LinkManager A) (held : List ℕ) → Reachable A m held → HeldOnce m held
  unfolding free_link disconnect_link
  Reachable-HeldOnce m held (start m0 _ n sel configs e) = HeldOnce-init m0 m n sel configs e
  Reachable-HeldOnce m _ (granted m0 _ held now dbsel j primary r e) =
      HeldOnce-granted m0 m held now dbsel j primary (Reachable-HeldOnce m0 held r)
        (get_link-Grants m0 m now dbsel j primary e)
  Reachable-HeldOnce m _ (refused m0 _ held now dbsel primary r e) = λ i.
      Reachable-HeldOnce m0 held r i
      ∙ ap (λ fs. busy_count (get_elem? fs i)) (sym (get_link-refuses m0 m now dbsel primary e))
  Reachable-HeldOnce _ _ (freed m held i r some_i) =
      HeldOnce-on_link m held i _ (Reachable-HeldOnce m held r) some_i (λ l. refl)
  Reachable-HeldOnce _ _ (disconnected m held i r some_i) =
      HeldOnce-on_link m held i _ (Reachable-HeldOnce m held r) some_i (λ l. refl)
  Reachable-HeldOnce _ _ (checked m held i r) =
      HeldOnce-check_connect m held i (Reachable-HeldOnce m held r)

  -- A client that holds one link, and gives it back, holds none.
  pub Reachable-returned :
      (m : LinkManager A) (i : ℕ) → Reachable A m (i ∷ []) → Reachable A (free_link m i) []
  unfolding count remove
  Reachable-returned m i r =
      let none_left : remove i (i ∷ []) ≡ [] = ground arith in
      let one : 0 < count i (i ∷ []) = ground arith in rw (sym none_left) (freed m (i ∷ []) i r one)

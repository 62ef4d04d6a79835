-- ===== src/Config/Lists.antt =====
-- The lists of names and of database configurations that `LoadConfig` reads.
use mathlib.Core.Path.{subst}
use sysmonitor.Base.{
  ℕ, zero, suc, ◌+◌, ◌≤◌, ◌<◌, ◌≡◌, refl, sym, ap, ◌∙◌, List, [], ◌∷◌, Option, none, some, arith,
  Bool-cases, inl, inr, ltb, length, take, set, length-set, if◌then◌else◌,
}
use sysmonitor.Base.Int.{ℤ, pos, negsuc}
use sysmonitor.Base.Text.{Bytes}
use sysmonitor.LinkManager.Database.{DbConfig}
use sysmonitor.Config.{Source, return, fault, read_names, names, fit, read_db, read_dbs}
use sysmonitor.Config.Ensures.{Ensures, bind-Ensures, return-Ensures, any-Ensures}

-- Each field is a text that its buffer of 32 bytes holds with the NUL.
abbrev pub Fits : DbConfig → Type 0
Fits c =
    (length c.data_source < 32)
    × (length c.data_base < 32)
    × (length c.user_name < 32)
    × (length c.password < 32)

abbrev pub AllFit : List DbConfig → Type 0
AllFit [] = Unit {0}
AllFit (c ∷ cs) = Fits c × AllFit cs

read_names-length :
    (f : Source) (title prefix : Bytes) (i n : ℕ) (tmp : List ℕ)
    → Ensures (λ ns. length ns ≡ n) (read_names f title prefix i n tmp)
unfolding read_names
read_names-length f title prefix i zero tmp = unfold Ensures return in refl
read_names-length f title prefix i (suc n) tmp =
    bind-Ensures _ (λ ns. length ns ≡ suc n) _ _ _ (any-Ensures _)
      (λ s t x.
        bind-Ensures _ (λ ns. length ns ≡ suc n) _ _ _
          (read_names-length f title prefix (i + 1) n t)
          (λ ns u e. return-Ensures (λ ns. length ns ≡ suc n) (s ∷ ns) u (ap suc e)))

pub names-length :
    (f : Source) (title prefix : Bytes) (z : ℤ) (tmp : List ℕ)
    → Ensures (λ ns. z ≡ pos (length ns)) (names f title prefix z tmp)
unfolding names
names-length f title prefix (pos n) tmp =
    weaken (read_names f title prefix 0 n tmp) (read_names-length f title prefix 0 n tmp)
  where
    weaken :
        (o : Option (List Bytes × List ℕ))
        → Ensures (λ ns. length ns ≡ n) o
        → Ensures (λ ns. pos n ≡ pos (length ns)) o
    weaken none h = unfold Ensures in tt
    weaken (some (ns, t)) h = unfold Ensures in ap pos (sym h)
names-length f title prefix (negsuc n) tmp = unfold Ensures fault in tt

fit-lt : (s : Bytes) (tmp : List ℕ) → Ensures (λ r. length r < 32) (fit s tmp)
unfolding fit Ensures
fit-lt s tmp = elim (Bool-cases (ltb (length s) 32)) [
  | inl t ↦ rw t (ground arith)
  | inr t ↦ rw t tt
]

read_db-Fits : (f : Source) (n : ℕ) (tmp : List ℕ) → Ensures Fits (read_db f n tmp)
unfolding read_db
read_db-Fits f n tmp = bind-Ensures _ Fits _ _ _ (any-Ensures _) λ a t1 x1.
    bind-Ensures _ Fits _ _ _ (fit-lt a t1) λ source t2 b1.
      bind-Ensures _ Fits _ _ _ (any-Ensures _) λ b t3 x2.
        bind-Ensures _ Fits _ _ _ (fit-lt b t3) λ base t4 b2.
          bind-Ensures _ Fits _ _ _ (any-Ensures _) λ c t5 x3.
            bind-Ensures _ Fits _ _ _ (fit-lt c t5) λ user t6 b3.
              bind-Ensures _ Fits _ _ _ (any-Ensures _) λ d t7 x4.
                bind-Ensures _ Fits _ _ _ (fit-lt d t7) λ password t8 b4.
                  return-Ensures Fits
                    (record {
                      data_source = source;
                      data_base = base;
                      user_name = user;
                      password = password;
                    })
                    t8 (b1, b2, b3, b4)

-- The entry that is set is the next of those that fit.
AllFit-set :
    (dbs : List DbConfig) (i : ℕ) (c : DbConfig)
    → i < length dbs
    → AllFit (take i dbs)
    → Fits c
    → AllFit (take (suc i) (set dbs i c))
AllFit-set [] i c l h k = absurd (omega (arith, l))
AllFit-set (x ∷ dbs) zero c l h k = (k, tt)
AllFit-set (x ∷ dbs) (suc i) c l h k = (h.0, AllFit-set dbs i c (omega (arith, l)) h.1 k)

-- The array after a loop that has written up to `e`.
abbrev pub Filled : ℕ → ℕ → List DbConfig → Type 0
Filled size e dbs = AllFit (take e dbs) × (length dbs ≡ size) × (e ≤ size)

put-Filled :
    (dbs : List DbConfig) (i size : ℕ) (c : DbConfig) (tmp : List ℕ)
    → Filled size i dbs
    → Fits c
    → Ensures
        (Filled size (i + 1))
        ((if ltb i (length dbs) then return (set dbs i c) else fault) tmp)
unfolding Ensures return fault
put-Filled dbs i size c tmp (a, l, b) k = elim (Bool-cases (ltb i (length dbs))) [
  | inl t ↦
      let e : i + 1 ≡ suc i = omega arith in
      rw (t, e)
        (AllFit-set dbs i c (ground (arith, t)) a k, length-set dbs i c ∙ l, ground (arith, t, l))
  | inr t ↦ rw t tt
]

read_dbs-Filled :
    (f : Source) (dbs : List DbConfig) (i n size : ℕ) (tmp : List ℕ)
    → Filled size i dbs
    → Ensures (Filled size (i + n)) (read_dbs f dbs i n tmp)
unfolding read_dbs
read_dbs-Filled f dbs i zero size tmp h =
    let e : i + 0 ≡ i = omega arith in unfold Ensures return in rw e h
read_dbs-Filled f dbs i (suc n) size tmp h =
    let e : i + suc n ≡ i + 1 + n = omega arith in
    rw e (
      bind-Ensures _ (Filled size (i + 1 + n)) _ _ _ (read_db-Fits f (i + 1) tmp) λ c t1 k.
        bind-Ensures _ (Filled size (i + 1 + n)) _ _ _ (put-Filled dbs i size c t1 h k)
          λ dbs' t2 h'. read_dbs-Filled f dbs' (i + 1) n size t2 h')

pub read_dbs-all :
    (f : Source) (dbs : List DbConfig) (n : ℕ) (tmp : List ℕ)
    → Ensures (Filled (length dbs) n) (read_dbs f dbs 0 n tmp)
read_dbs-all f dbs n tmp =
    let e : n ≡ 0 + n = omega arith in
    subst (λ k. Ensures (Filled (length dbs) k) (read_dbs f dbs 0 n tmp)) (sym e)
      (read_dbs-Filled f dbs 0 n (length dbs) tmp (tt, refl, omega arith))

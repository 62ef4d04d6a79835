-- ===== src/MssqlMonitor/Pool.antt =====
-- SysMonitor/mssql_monitor.cpp: what `write` leaves in the pool, and the arrays that it appends.
use sysmonitor.Base.{
  ℕ, zero, suc, ◌≡◌, refl, sym, ap, List, [], ◌∷◌, ◌++◌, some, false, length, get_elem?, ◌+◌,
}
use sysmonitor.Base.Fallible.{bind-elim, some-inj}
use sysmonitor.Base.Int.{ℤ, pos_part}
use sysmonitor.LinkManager.Database.{Ado, DbConfig}
use sysmonitor.LinkManager.{LinkManager, get_link}
use sysmonitor.LinkManager.Ownership.{Reachable, granted, Reachable-returned}
use sysmonitor.MssqlMonitor.{
  Records, Item, counters, get_counter_value, sample_twice, sample_all, write,
}

-- Each array begins with the one before it.
pub Grows : List Item → List (List Item) → Type 0
Grows temp [] = Unit {0}
Grows temp (row ∷ rows) = ((items : List Item) × (row ≡ temp ++ items)) × Grows row rows

module _ {A : Ado} (R : Records A) where
  get_counter_value-returns :
      (db_config : List DbConfig) (now sel : ℕ) (m m' : LinkManager A) (out : ℤ × List ℤ)
      → Reachable A m []
      → get_counter_value R db_config now sel m ≡ some (out, m')
      → Reachable A m' []
  unfolding get_counter_value
  get_counter_value-returns db_config now sel m m' out r e =
      let got = get_link m now sel false in
      bind-elim got.0 _ _ e λ i e0 e1. bind-elim (get_elem? got.1.links i) _ _ e1 λ link e2 e3.
        bind-elim (get_elem? db_config sel) _ _ e3 λ config e4 e5.
          rw (sym (ap (λ p. p.1) (some-inj e5))) (
            Reachable-returned got.1 i
              (granted m got.1 [] now sel i false r (ap (λ o. (o, got.1)) e0)))

  sample_twice-returns :
      (db_config : List DbConfig) (now i : ℕ) (m m' : LinkManager A) (items : List Item)
      → Reachable A m []
      → sample_twice R db_config now i m ≡ some (items, m')
      → Reachable A m' []
  unfolding sample_twice
  sample_twice-returns db_config now i m m' items r e =
      bind-elim (get_counter_value R db_config now i m) _ _ e λ first e0 e1.
        bind-elim (get_counter_value R db_config (now + 1) i first.1) _ _ e1 λ second e2 e3.
          bind-elim (counters 0 (pos_part second.0.0) first.0.1 second.0.1) _ _ e3 λ c e4 e5.
            let back = get_counter_value-returns db_config now i m first.1 first.0 r e0 in
            let again =
              get_counter_value-returns db_config (now + 1) i first.1 second.1 second.0 back e2 in
            rw (sym (ap (λ p. p.1) (some-inj e5))) again

  -- What the loop over the databases leaves: `n` arrays from `temp` on, and no link held.
  pub Sampled : ℕ → List Item → List (List Item) × LinkManager A → Type 1
  Sampled n temp (rows, m) = (length rows ≡ n) × Grows temp rows × Reachable A m []

  sample_all-Sampled :
      (db_config : List DbConfig) (now i n : ℕ) (temp : List Item) (m : LinkManager A)
      (out : List (List Item) × LinkManager A)
      → Reachable A m []
      → sample_all R db_config now i n temp m ≡ some out
      → Sampled n temp out
  unfolding sample_all Sampled Grows
  sample_all-Sampled db_config now i zero temp m out r e = rw (sym (some-inj e)) (refl, tt, r)
  sample_all-Sampled db_config now i (suc n) temp m out r e =
      bind-elim (sample_twice R db_config now i m) _ _ e λ first e0 e1.
        bind-elim (sample_all R db_config (now + 1) (suc i) n (temp ++ first.0) first.1) _ _ e1
          λ rest e2 e3.
            let back = sample_twice-returns db_config now i m first.1 first.0 r e0 in
            let (count, grows, free) =
              sample_all-Sampled db_config (now + 1) (suc i) n (temp ++ first.0) first.1 rest back
                e2 in
            rw (sym (some-inj e3)) (ap suc count, ((first.0, refl), grows), free)

  -- When `write` starts with no link held and returns, it has appended one array for each
  -- database, each of which begins with the one before it, and no link of the pool is held.
  pub write-Sampled :
      (db_config : List DbConfig) (now : ℕ) (datanum : ℤ) (m : LinkManager A)
      (out : List (List Item) × LinkManager A)
      → Reachable A m []
      → write R db_config now datanum m ≡ some out
      → Sampled (pos_part datanum) [] out
  unfolding write
  write-Sampled db_config now datanum m out r e =
      sample_all-Sampled db_config now 0 (pos_part datanum) [] m out r e

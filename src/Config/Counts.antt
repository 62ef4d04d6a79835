-- ===== src/Config/Counts.antt =====
-- What `LoadConfig` leaves of the sections that it reads: counts that are the lengths of their lists,
-- and configurations that fit.
use mathlib.Core.Path.{subst}
use sysmonitor.Base.{
  ℕ, ◌<◌, ◌≡◌, refl, sym, ap, ◌∙◌, List, Option, none, some, arith, length, get_elem?,
  get_elem?-some, Option-cases, inl, inr,
}
use sysmonitor.Base.Int.{ℤ, pos}
use sysmonitor.Base.Text.{Bytes}
use sysmonitor.Config.Getters.{get_mysql_dbcount, get_mysql_connection_string}
use sysmonitor.Config.{
  MonitorConfig, Source, Files, to_i16, load_objects, load_keys, source_of, config_name,
  load_config,
}
use sysmonitor.Config.Ensures.{Ensures, bind-Ensures, any-Ensures}
use sysmonitor.Config.Loaded.{
  Section, mysql, type_of, Counted, Placed, Kept, load_objects-own, load_objects-Placed,
}

-- A section is right, if the type at `i` asks for it.
Asked : ℕ → Section → MonitorConfig → Type 0
Asked i s m = get_elem? m.object_type i ≡ some (type_of s) → Counted s m

Kept-Asked :
    (ts : List ℤ) (i : ℕ) (s : Section) (o : Option (MonitorConfig × List ℕ))
    → Ensures (Placed ts) o
    → (get_elem? ts i ≡ some (type_of s) → Ensures (Kept ts s) o)
    → Ensures (Asked i s) o
unfolding Ensures Asked Kept
Kept-Asked ts i s none h k = tt
Kept-Asked ts i s (some (m, t)) h k = λ e. (k (ap (λ us. get_elem? us i) (sym h.0) ∙ e)).0

load_keys-Asked :
    (f : Source) (m : MonitorConfig) (tmp : List ℕ) (i : ℕ) (s : Section)
    → length m.db_config ≡ 5
    → Ensures (Asked i s) (load_keys f m tmp)
unfolding load_keys
load_keys-Asked f m tmp i s size = bind-Ensures _ (Asked i s) _ _ _ (any-Ensures _) λ port t1 x1.
    bind-Ensures _ (Asked i s) _ _ _ (any-Ensures _) λ flag t2 x2.
      bind-Ensures _ (Asked i s) _ _ _ (any-Ensures _) λ types t3 x3.
        let m0 : MonitorConfig = record m {
          listen_port = to_i16 port;
          log_flag = flag;
          object_type = types;
        } in
        Kept-Asked types i s (load_objects f types m0 t3)
          (load_objects-Placed types f types m0 t3 (refl, size))
          (λ e. load_objects-own types s f types i m0 t3 e (refl, size))

-- A load that does not fault has named its file.
pub load_config-named :
    (fs : Files) (m : MonitorConfig) (tmp : List ℕ) (r : MonitorConfig × List ℕ)
    → load_config fs m tmp ≡ some r
    → (name : Bytes) × (config_name fs ≡ some name) × (load_keys (source_of fs name) m tmp ≡ some r)
unfolding load_config
load_config-named fs m tmp r e = elim (Option-cases (config_name fs)) [
  | inl k ↦ let stuck : none ≡ some r = sym (rw (load_config, k) refl) ∙ e in cc
  | inr (name, k) ↦ (name, k, sym (rw (load_config, k) refl) ∙ e)
]

pub Ensures-some :
    (P : MonitorConfig → Type 0) (o : Option (MonitorConfig × List ℕ)) (m : MonitorConfig)
    (tmp : List ℕ)
    → o ≡ some (m, tmp)
    → Ensures P o
    → P m
unfolding Ensures
Ensures-some P o m tmp e h = subst (Ensures P) e h

-- Where `LoadConfig` ends without a fault, whatever the object held before in its five places for
-- databases and elsewhere, each section that one of the types asks for is right: its count is the
-- number of names read for it; there are at most five database configurations, and each of the
-- texts of those that were read fits its buffer.
pub load_config-Counted :
    (fs : Files) (m m' : MonitorConfig) (tmp tmp' : List ℕ) (i : ℕ) (s : Section)
    → length m.db_config ≡ 5
    → load_config fs m tmp ≡ some (m', tmp')
    → get_elem? m'.object_type i ≡ some (type_of s)
    → Counted s m'
unfolding Asked
load_config-Counted fs m m' tmp tmp' i s size e asked =
    let (name, k, read) = load_config-named fs m tmp (m', tmp') e in
    Ensures-some (Asked i s) _ m' tmp' read (load_keys-Asked (source_of fs name) m tmp i s size)
      asked

-- The connection strings that the count promises are there, each at its index, after a load that
-- was asked for them.
get_mysql_connection_string-load_config :
    (fs : Files) (m m' : MonitorConfig) (tmp tmp' : List ℕ) (k i n : ℕ)
    → length m.db_config ≡ 5
    → load_config fs m tmp ≡ some (m', tmp')
    → get_elem? m'.object_type k ≡ some (pos 2)
    → get_mysql_dbcount m' ≡ pos n
    → i < n
    → (s : Bytes) × (get_mysql_connection_string m' (pos i) ≡ some s)
unfolding get_mysql_connection_string get_mysql_dbcount Counted type_of
get_mysql_connection_string-load_config fs m m' tmp tmp' k i n size e asked c lt =
    let held = load_config-Counted fs m m' tmp tmp' k mysql size e asked in
    get_elem?-some m'.mysql_connstr i (ground (arith, held, c, lt))

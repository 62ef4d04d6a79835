-- ===== src/Config/Loaded.antt =====
-- The sections of the configuration, through the chain of tests on the types.
use mathlib.Core.Path.{subst}
use sysmonitor.Base.{
  ℕ, zero, suc, ◌≤◌, ◌≡◌, sym, ◌∙◌, List, [], ◌∷◌, some, arith, length, take, get_elem?,
}
use sysmonitor.Base.Fallible.{some-inj}
use sysmonitor.Base.Int.{ℤ, pos, pos_part}
use sysmonitor.LinkManager.Database.{DbConfig}
use sysmonitor.Config.{MonitorConfig, Source, load_object, load_objects}
use sysmonitor.Config.Ensures.{Ensures, bind-Ensures, return-Ensures}
use sysmonitor.Config.Sections.{
  load_object-Ensures, load_system-Ensures, load_mysql-Ensures, load_web-Ensures,
  load_process-Ensures, load_mssql-Ensures, load_ndb-Ensures,
}
use sysmonitor.Config.Lists.{AllFit, Filled}

-- The sections that a type asks for.
pub data Section : Type 0 where
  system mysql mssql web process ndb : Section

-- The type that asks for a section.
unfoldable pub type_of : Section → ℤ
type_of system = pos 1
type_of mysql = pos 2
type_of mssql = pos 3
type_of web = pos 5
type_of process = pos 6
type_of ndb = pos 9

-- The count of a section is the length of its list of names; of the database configurations there
-- are five at most, and their texts fit.
unfoldable pub Counted : Section → MonitorConfig → Type 0
Counted system m = m.counter_num ≡ pos (length m.counter_name)
Counted mysql m = m.mysql_database_num ≡ pos (length m.mysql_connstr)
Counted mssql m = (pos_part m.db_count ≤ 5) × AllFit (take (pos_part m.db_count) m.db_config)
Counted web m = m.web_counter_num ≡ pos (length m.web_counter_name)
Counted process m = m.process_num ≡ pos (length m.process_name)
Counted ndb m = m.ndb_file_num ≡ pos (length m.ndb_log_file_name)

-- The types, and the five places for databases.
abbrev pub Placed : List ℤ → MonitorConfig → Type 0
Placed ts m = (m.object_type ≡ ts) × (length m.db_config ≡ 5)

unfoldable pub Kept : List ℤ → Section → MonitorConfig → Type 0
Kept ts s m = Counted s m × Placed ts m

own_mssql :
    (ts : List ℤ) (m : MonitorConfig) (n sel : ℤ) (dbs : List DbConfig)
    → Placed ts m
    → Filled (length m.db_config) (pos_part n) dbs
    → Kept ts mssql (record m { db_count = n; db_default_sel = sel; db_config = dbs })
unfolding Kept Counted
own_mssql ts m n sel dbs (t, l) (fits, size, few) = ((omega (arith, few, l), fits), (t, size ∙ l))

-- What is right of a section stays so, whatever type comes next.
load_object-Kept :
    (ts : List ℤ) (s : Section) (f : Source) (t : ℤ) (m : MonitorConfig) (tmp : List ℕ)
    → Kept ts s m
    → Ensures (Kept ts s) (load_object f t m tmp)
unfolding Kept Counted
load_object-Kept ts system f t m tmp k =
    load_object-Ensures (Kept ts system) f t m tmp k
      (load_system-Ensures _ f m tmp (λ n ns e. (e, k.1)))
      (load_mysql-Ensures _ f m tmp (λ j n ns e. k)) (load_web-Ensures _ f m tmp (λ n ns e. k))
      (load_process-Ensures _ f m tmp (λ n ns e. k))
      (load_mssql-Ensures _ f m tmp (λ n sel dbs d. (k.0, (k.1.0, d.1 ∙ k.1.1))))
      (load_ndb-Ensures _ f m tmp (λ n ns e. k))
load_object-Kept ts mysql f t m tmp k =
    load_object-Ensures (Kept ts mysql) f t m tmp k (load_system-Ensures _ f m tmp (λ n ns e. k))
      (load_mysql-Ensures _ f m tmp (λ j n ns e. (e, k.1)))
      (load_web-Ensures _ f m tmp (λ n ns e. k)) (load_process-Ensures _ f m tmp (λ n ns e. k))
      (load_mssql-Ensures _ f m tmp (λ n sel dbs d. (k.0, (k.1.0, d.1 ∙ k.1.1))))
      (load_ndb-Ensures _ f m tmp (λ n ns e. k))
load_object-Kept ts mssql f t m tmp k =
    load_object-Ensures (Kept ts mssql) f t m tmp k (load_system-Ensures _ f m tmp (λ n ns e. k))
      (load_mysql-Ensures _ f m tmp (λ j n ns e. k)) (load_web-Ensures _ f m tmp (λ n ns e. k))
      (load_process-Ensures _ f m tmp (λ n ns e. k))
      (load_mssql-Ensures _ f m tmp (λ n sel dbs d. own_mssql ts m n sel dbs k.1 d))
      (load_ndb-Ensures _ f m tmp (λ n ns e. k))
load_object-Kept ts web f t m tmp k =
    load_object-Ensures (Kept ts web) f t m tmp k (load_system-Ensures _ f m tmp (λ n ns e. k))
      (load_mysql-Ensures _ f m tmp (λ j n ns e. k))
      (load_web-Ensures _ f m tmp (λ n ns e. (e, k.1)))
      (load_process-Ensures _ f m tmp (λ n ns e. k))
      (load_mssql-Ensures _ f m tmp (λ n sel dbs d. (k.0, (k.1.0, d.1 ∙ k.1.1))))
      (load_ndb-Ensures _ f m tmp (λ n ns e. k))
load_object-Kept ts process f t m tmp k =
    load_object-Ensures (Kept ts process) f t m tmp k (load_system-Ensures _ f m tmp (λ n ns e. k))
      (load_mysql-Ensures _ f m tmp (λ j n ns e. k)) (load_web-Ensures _ f m tmp (λ n ns e. k))
      (load_process-Ensures _ f m tmp (λ n ns e. (e, k.1)))
      (load_mssql-Ensures _ f m tmp (λ n sel dbs d. (k.0, (k.1.0, d.1 ∙ k.1.1))))
      (load_ndb-Ensures _ f m tmp (λ n ns e. k))
load_object-Kept ts ndb f t m tmp k =
    load_object-Ensures (Kept ts ndb) f t m tmp k (load_system-Ensures _ f m tmp (λ n ns e. k))
      (load_mysql-Ensures _ f m tmp (λ j n ns e. k)) (load_web-Ensures _ f m tmp (λ n ns e. k))
      (load_process-Ensures _ f m tmp (λ n ns e. k))
      (load_mssql-Ensures _ f m tmp (λ n sel dbs d. (k.0, (k.1.0, d.1 ∙ k.1.1))))
      (load_ndb-Ensures _ f m tmp (λ n ns e. (e, k.1)))

-- The type of a section makes it right.
load_object-own :
    (ts : List ℤ) (s : Section) (f : Source) (m : MonitorConfig) (tmp : List ℕ)
    → Placed ts m
    → Ensures (Kept ts s) (load_object f (type_of s) m tmp)
unfolding Kept Counted load_object type_of
load_object-own ts system f m tmp k =
    load_system-Ensures (Kept ts system) f m tmp (λ n ns e. (e, k))
load_object-own ts mysql f m tmp k = load_mysql-Ensures (Kept ts mysql) f m tmp (λ j n ns e. (e, k))
load_object-own ts mssql f m tmp k =
    load_mssql-Ensures (Kept ts mssql) f m tmp (λ n sel dbs d. own_mssql ts m n sel dbs k d)
load_object-own ts web f m tmp k = load_web-Ensures (Kept ts web) f m tmp (λ n ns e. (e, k))
load_object-own ts process f m tmp k =
    load_process-Ensures (Kept ts process) f m tmp (λ n ns e. (e, k))
load_object-own ts ndb f m tmp k = load_ndb-Ensures (Kept ts ndb) f m tmp (λ n ns e. (e, k))

-- The types and the places alone.
load_object-Placed :
    (ts : List ℤ) (f : Source) (t : ℤ) (m : MonitorConfig) (tmp : List ℕ)
    → Placed ts m
    → Ensures (Placed ts) (load_object f t m tmp)
load_object-Placed ts f t m tmp k =
    load_object-Ensures _ f t m tmp k (load_system-Ensures _ f m tmp (λ n ns e. k))
      (load_mysql-Ensures _ f m tmp (λ j n ns e. k)) (load_web-Ensures _ f m tmp (λ n ns e. k))
      (load_process-Ensures _ f m tmp (λ n ns e. k))
      (load_mssql-Ensures _ f m tmp (λ n sel dbs d. (k.0, d.1 ∙ k.1)))
      (load_ndb-Ensures _ f m tmp (λ n ns e. k))

load_objects-Kept :
    (ts : List ℤ) (s : Section) (f : Source) (us : List ℤ) (m : MonitorConfig) (tmp : List ℕ)
    → Kept ts s m
    → Ensures (Kept ts s) (load_objects f us m tmp)
unfolding load_objects
load_objects-Kept ts s f [] m tmp k = return-Ensures (Kept ts s) m tmp k
load_objects-Kept ts s f (u ∷ us) m tmp k =
    bind-Ensures _ (Kept ts s) _ _ _ (load_object-Kept ts s f u m tmp k)
      λ m' t k'. load_objects-Kept ts s f us m' t k'

pub load_objects-own :
    (ts : List ℤ) (s : Section) (f : Source) (us : List ℤ) (i : ℕ) (m : MonitorConfig)
    (tmp : List ℕ)
    → get_elem? us i ≡ some (type_of s)
    → Placed ts m
    → Ensures (Kept ts s) (load_objects f us m tmp)
unfolding load_objects
load_objects-own ts s f [] i m tmp e k = cc
load_objects-own ts s f (u ∷ us) zero m tmp e k =
    let same : u ≡ type_of s = some-inj e in
    bind-Ensures _ (Kept ts s) _ _ _
      (subst (λ t. Ensures (Kept ts s) (load_object f t m tmp)) (sym same)
        (load_object-own ts s f m tmp k))
      λ m' t k'. load_objects-Kept ts s f us m' t k'
load_objects-own ts s f (u ∷ us) (suc i) m tmp e k =
    bind-Ensures _ (Kept ts s) _ _ _ (load_object-Placed ts f u m tmp k)
      λ m' t k'. load_objects-own ts s f us i m' t e k'

pub load_objects-Placed :
    (ts : List ℤ) (f : Source) (us : List ℤ) (m : MonitorConfig) (tmp : List ℕ)
    → Placed ts m
    → Ensures (Placed ts) (load_objects f us m tmp)
unfolding load_objects
load_objects-Placed ts f [] m tmp k = return-Ensures (Placed ts) m tmp k
load_objects-Placed ts f (u ∷ us) m tmp k =
    bind-Ensures _ (Placed ts) _ _ _ (load_object-Placed ts f u m tmp k)
      λ m' t k'. load_objects-Placed ts f us m' t k'

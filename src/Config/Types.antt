-- ===== src/Config/Types.antt =====
-- The list of types that `LoadConfig` leaves.
use sysmonitor.Base.{ℕ, zero, suc, ◌+◌, ◌≡◌, refl, ap, List, [], ◌∷◌, some, length}
use sysmonitor.Base.Int.{ℤ}
use sysmonitor.Config.{
  MonitorConfig, Source, Files, source_of, load_keys, object_num, to_i16, read_types, load_object,
  load_objects, load_config,
}
use sysmonitor.Config.Ensures.{Ensures, bind-Ensures, return-Ensures, any-Ensures}
use sysmonitor.Config.Sections.{
  load_object-Ensures, load_system-Ensures, load_mysql-Ensures, load_web-Ensures,
  load_process-Ensures, load_mssql-Ensures, load_ndb-Ensures,
}
use sysmonitor.Config.Counts.{load_config-named, Ensures-some}

-- The seven types are in the list.
abbrev Typed : MonitorConfig → Type 0
Typed m = length m.object_type ≡ 7

load_object-Typed :
    (f : Source) (t : ℤ) (m : MonitorConfig) (tmp : List ℕ)
    → Typed m
    → Ensures Typed (load_object f t m tmp)
load_object-Typed f t m tmp h =
    load_object-Ensures Typed f t m tmp h (load_system-Ensures Typed f m tmp (λ n ns e. h))
      (load_mysql-Ensures Typed f m tmp (λ j n ns e. h))
      (load_web-Ensures Typed f m tmp (λ n ns e. h))
      (load_process-Ensures Typed f m tmp (λ n ns e. h))
      (load_mssql-Ensures Typed f m tmp (λ n sel dbs d. h))
      (load_ndb-Ensures Typed f m tmp (λ n ns e. h))

load_objects-Typed :
    (f : Source) (ts : List ℤ) (m : MonitorConfig) (tmp : List ℕ)
    → Typed m
    → Ensures Typed (load_objects f ts m tmp)
unfolding load_objects
load_objects-Typed f [] m tmp h = return-Ensures Typed m tmp h
load_objects-Typed f (t ∷ ts) m tmp h =
    bind-Ensures _ Typed _ _ _ (load_object-Typed f t m tmp h)
      λ m' u h'. load_objects-Typed f ts m' u h'

read_types-length :
    (f : Source) (i n : ℕ) (tmp : List ℕ) → Ensures (λ ts. length ts ≡ n) (read_types f i n tmp)
unfolding read_types
read_types-length f i zero tmp = return-Ensures _ [] tmp refl
read_types-length f i (suc n) tmp = bind-Ensures _ _ _ _ _ (any-Ensures _) λ t t1 x1.
    bind-Ensures _ _ _ _ _ (read_types-length f (i + 1) n t1)
      λ rest t2 e. return-Ensures _ (to_i16 t ∷ rest) t2 (ap suc e)

load_keys-Typed :
    (f : Source) (m : MonitorConfig) (tmp : List ℕ) → Ensures Typed (load_keys f m tmp)
unfolding load_keys object_num
load_keys-Typed f m tmp = bind-Ensures _ Typed _ _ _ (any-Ensures _) λ port t1 x1.
    bind-Ensures _ Typed _ _ _ (any-Ensures _) λ flag t2 x2.
      bind-Ensures _ Typed _ _ _ (read_types-length f 0 7 t2) λ types t3 e.
        load_objects-Typed f types
          (record m { listen_port = to_i16 port; log_flag = flag; object_type = types }) t3 e

-- A load that does not fault leaves seven types.
pub load_config-length :
    (fs : Files) (m m' : MonitorConfig) (tmp tmp' : List ℕ)
    → load_config fs m tmp ≡ some (m', tmp')
    → length m'.object_type ≡ 7
load_config-length fs m m' tmp tmp' e =
    let (name, k, read) = load_config-named fs m tmp (m', tmp') e in
    Ensures-some Typed _ m' tmp' read (load_keys-Typed (source_of fs name) m tmp)

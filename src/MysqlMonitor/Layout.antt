-- ===== src/MysqlMonitor/Layout.antt =====
-- The positions of what `write` appends.
use sysmonitor.Base.{
  ℕ, suc, ◌-◌, ◌≡◌, refl, sym, ap, ◌∙◌, Bool, true, false, List, [], ◌∷◌, ◌++◌, map, Option, none,
  some, length, get_elem?, ◌==◌, if◌then◌else◌, Bool-cases, inl, inr, append_assoc, replicate,
  if_true, if_false,
}
use mathlib.Core.List.{map-append}
use sysmonitor.Base.Fallible.{◌>>=◌, bind-elim, some-inj}
use sysmonitor.Base.Int.{ℤ, pos, negsuc}
use sysmonitor.Base.Text.{Bytes}
use sysmonitor.ConnString.{ConnStr}
use sysmonitor.Mysql.Api.{MysqlApi}
use sysmonitor.Mysql.Record.{Got, code, value, get_data_text, get_record}
use sysmonitor.Mysql.Connection.{Conn}
use sysmonitor.MysqlMonitor.{
  Item, text_item, rows_item, Setting, mysql_ndb, cluster_items, proc_cell, proc_items, query_set,
  run_proc, run_status, read_set, status_column, default_proc, show_status, slaves, asked, write,
}
use sysmonitor.MysqlMonitor.Cluster.{
  cluster_state, show_lines, usage_lines, usage_items, lines_of, new_show,
}

cluster_state-4 :
    (show memory : Option Bytes) (arrays : List (List (List Bytes)))
    → cluster_state show memory ≡ some arrays
    → length arrays ≡ 4
unfolding cluster_state
cluster_state-4 show memory arrays e = bind-elim show _ arrays e λ out e0 e1.
    bind-elim (show_lines (lines_of out) new_show) _ arrays e1 λ st e2 e3.
      bind-elim memory _ arrays e3 λ out' e4 e5.
        bind-elim (usage_lines (lines_of out') []) _ arrays e5 λ usage e6 e7.
          bind-elim (usage_items st.map_id_ip usage) _ arrays e7
            λ items e8 e9. sym (ap length (some-inj e9))

-- How many arrays stand in front of the cluster's items: 4 on Windows and for a cluster.
unfoldable pub cluster_arrays : Setting → ℕ
cluster_arrays t =
    if t.win32
    then 4
    else elim t.mysql_type [ pos n ↦ if n == mysql_ndb then 4 else 0 | negsuc n ↦ 0 ]

Arrays : ℕ → List Item → Type 0
Arrays n items =
    (arrays : List (List (List Bytes))) × (items ≡ map rows_item arrays) × (length arrays ≡ n)

ndb-Arrays :
    (show memory : Option Bytes) (items : List Item)
    → (cluster_state show memory >>= λ arrays. some (map rows_item arrays)) ≡ some items
    → Arrays 4 items
unfolding Arrays
ndb-Arrays show memory items e =
    bind-elim (cluster_state show memory) _ items e
      λ arrays e0 e1. (arrays, sym (some-inj e1), cluster_state-4 show memory arrays e0)

none-Arrays : (items : List Item) → some [] ≡ some items → Arrays 0 items
unfolding Arrays
none-Arrays items e = ([], sym (some-inj e), refl)

cluster_items-of :
    (win32 : Bool) (ty n : ℤ) (show memory : Option Bytes) (items : List Item)
    → let t : Setting = record {
      win32 = win32;
      mysql_type = ty;
      mysql_dbcount = n;
      show = show;
      memoryusage = memory;
    } in
      cluster_items t ≡ some items → Arrays (cluster_arrays t) items
unfolding cluster_items cluster_arrays Arrays
cluster_items-of true ty n show memory items e = (replicate 4 [], sym (some-inj e), refl)
cluster_items-of false (negsuc k) n show memory items e = none-Arrays items e
cluster_items-of false (pos k) n show memory items e = elim (Bool-cases (k == mysql_ndb)) [
  | inl c ↦ rw c (ndb-Arrays show memory items (sym (if_true _ _ c) ∙ e))
  | inr c ↦ rw c (none-Arrays items (sym (if_false _ _ c) ∙ e))
]

cluster_items-Arrays :
    (t : Setting) (items : List Item)
    → cluster_items t ≡ some items
    → Arrays (cluster_arrays t) items
cluster_items-Arrays t items e =
    cluster_items-of t.win32 t.mysql_type t.mysql_dbcount t.show t.memoryusage items e

abbrev Texts : List Item → Type 0
Texts items = (texts : List Bytes) × (items ≡ map text_item texts)

-- How many arrays come first.
abbrev pub leading {ℓ} : {A : Type ℓ} → Setting → List A → ℕ
leading t [] = 5
leading t (c ∷ cs) = suc (cluster_arrays t)

proc_cell-Texts :
    (o : Option (Got Bytes)) (items : List Item) → proc_cell o ≡ some items → Texts items
unfolding proc_cell
proc_cell-Texts none items e = absurd cc
proc_cell-Texts (some (code c)) items e = ([], sym (some-inj e))
proc_cell-Texts (some (value s)) items e = (s ∷ [], sym (some-inj e))

laid_out :
    (n : ℕ) (ms : List (List Bytes)) (cluster proc status : List Item)
    → Arrays n cluster
    → Texts proc
    → Texts status
    → (arrays : List (List (List Bytes))) × (texts : List Bytes) × (rows_item ms ∷ cluster
          ++ proc
          ++ status
        ≡ map rows_item arrays ++ map text_item texts)
      × (length arrays ≡ suc n)
unfolding Arrays
laid_out n ms cluster proc status (arrays, e, k) (texts, e1) (more, e2) =
    let head = map rows_item (ms ∷ arrays) in
    let first = map text_item texts in
    (
      ms ∷ arrays,
      texts ++ more,
      rw (e, e1, e2, map-append text_item texts more)
          (append_assoc head first (map text_item more)),
      ap suc k,
    )

module _ {M : MysqlApi} where
  proc_items-Texts :
      (r : Bool × Conn M) (items : List Item) (c' : Conn M)
      → proc_items r ≡ some (items, c')
      → Texts items
  unfolding proc_items
  proc_items-Texts (false, c) items c' e = ([] ∷ [], ap (λ p. p.0) (sym (some-inj e)))
  proc_items-Texts (true, c) items c' e =
      bind-elim (get_record c.record_set) _ (items, c') e
        λ (rec, s) e0 e1.
          bind-elim rec _ (items, c') e1
            λ r e2 e3.
              bind-elim (proc_cell (get_data_text r 0)) _ (items, c') e3
                λ all e4 e5.
                  proc_cell-Texts (get_data_text r 0) items
                    (e4 ∙ ap some (ap (λ p. p.0) (some-inj e5)))

  run_proc-Texts :
      (raw : ConnStr) (c c' : Conn M) (items : List Item)
      → run_proc raw c ≡ some (items, c')
      → Texts items
  unfolding run_proc
  run_proc-Texts raw c c' items e =
      bind-elim (query_set raw default_proc c) _ (items, c') e
        λ r e0 e1. proc_items-Texts r items c' e1

  run_status-Texts :
      (raw : ConnStr) (c c' : Conn M) (items : List Item)
      → run_status raw c ≡ some (items, c')
      → Texts items
  unfolding run_status
  run_status-Texts raw c c' items e =
      bind-elim (query_set raw show_status c) _ (items, c') e
        λ r e0 e1.
          bind-elim (read_set status_column (replicate 21 []) r) _ (items, c') e1
            λ (texts, c2) e2 e3. (texts, ap (λ p. p.0) (sym (some-inj e3)))

  -- Whatever the server answers, what the monitor appends is arrays and then texts, and where the
  -- texts start does not depend on the answers: behind five arrays if there is no connection or
  -- if the platform is Windows or the type is a cluster, and else behind one.
  pub write-layout :
      (raw : ConnStr) (t : Setting) (cs cs' : List (Conn M)) (items : List Item)
      → write raw t cs ≡ some (items, cs')
      → (arrays : List (List (List Bytes))) × (texts : List Bytes) × (items
          ≡ map rows_item arrays ++ map text_item texts)
        × (length arrays ≡ leading t cs)
  unfolding write
  write-layout raw t [] cs' items e =
      (replicate 5 [], replicate 22 [], ap (λ p. p.0) (sym (some-inj e)), refl)
  write-layout raw t (c ∷ cs) cs' items e =
      bind-elim (slaves raw 0 (asked t) (c ∷ cs)) _ (items, cs') e
        λ (ms, cs1) e0 e1.
          bind-elim (cluster_items t) _ (items, cs') e1
            λ cluster e2 e3.
              bind-elim (get_elem? cs1 (asked t - 1)) _ (items, cs') e3
                λ conn e4 e5.
                  bind-elim (run_proc raw conn) _ (items, cs') e5
                    λ (proc, conn1) e6 e7.
                      bind-elim (run_status raw conn1) _ (items, cs') e7
                        λ (status, conn2) e8 e9.
                          let all : rows_item ms ∷ cluster ++ proc ++ status ≡ items =
                            ap (λ p. p.0) (some-inj e9) in
                          rw (sym all) (
                            laid_out (cluster_arrays t) ms cluster proc status
                              (cluster_items-Arrays t cluster e2)
                              (run_proc-Texts raw conn conn1 proc e6)
                              (run_status-Texts raw conn1 conn2 status e8))

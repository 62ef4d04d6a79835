-- ===== src/Config/Release.antt =====
-- The destructor of `CLoadConfig`, which deletes the names by their counts.
use mathlib.Core.List.{map}
use sysmonitor.Base.{
  ℕ, zero, suc, ◌+◌, ◌≡◌, refl, sym, ap, ◌∙◌, List, [], ◌∷◌, ◌++◌, Option, none, some, arith, ltb,
  if◌then◌else◌, true, length, set, get_elem?, replicate, length-append, append_assoc,
  set-append_at,
}
use sysmonitor.Base.Fallible.{◌>>=◌}
use sysmonitor.Base.Int.{ℤ, pos, pos_part}
use sysmonitor.Base.Text.{Bytes}
use sysmonitor.Config.{MonitorConfig, Files, load_config}
use sysmonitor.Config.Loaded.{Counted, type_of, system, mysql, web, process, ndb}
use sysmonitor.Config.Counts.{load_config-Counted}

-- The loop over `i` from `i` on, `n` times: the text that a pointer stands for is deleted, and the
-- pointer set to NULL. `none` is a pointer read behind the array.
unfoldable pub delete_names : ℕ → ℕ → List (Option Bytes) → Option (List (Option Bytes))
delete_names i zero names = some names
delete_names i (suc n) names =
    let rest = delete_names (suc i) n (set names i none) in
    if ltb i (length names) then rest else none

unfoldable pub delete_list : ℤ → List Bytes → Option (List (Option Bytes))
unfolding delete_names
delete_list num names = delete_names 0 (pos_part num) (map some names)

-- What the five arrays hold when they are deleted themselves.
unfoldable pub destroy : MonitorConfig → Option (List (Option Bytes))
unfolding delete_list
destroy m = do
  counters ← delete_list m.counter_num m.counter_name
  webs ← delete_list m.web_counter_num m.web_counter_name
  processes ← delete_list m.process_num m.process_name
  databases ← delete_list m.mysql_database_num m.mysql_connstr
  logs ← delete_list m.ndb_file_num m.ndb_log_file_name
  some (counters ++ webs ++ processes ++ databases ++ logs)

delete_names-all :
    (front names : List (Option Bytes))
    → delete_names (length front) (length names) (front ++ names)
      ≡ some (front ++ replicate (length names) none)
unfolding delete_names
delete_names-all front [] = ap some refl
delete_names-all front (x ∷ names) =
    let inside : ltb (length front) (length (front ++ x ∷ names)) ≡ true =
      let len = length-append front (x ∷ names) in ground (arith, len) in
    let step : length (front ++ none ∷ []) ≡ suc (length front) =
      omega (arith, length-append front (none ∷ [])) in
    rw inside (
      ap (delete_names (suc (length front)) (length names)) (
        set-append_at front names x none (length front) refl
        ∙ sym (append_assoc front (none ∷ []) names))
      ∙ ap (λ i. delete_names i (length names) ((front ++ none ∷ []) ++ names)) (sym step)
      ∙ delete_names-all (front ++ none ∷ []) names
      ∙ ap some (append_assoc front (none ∷ []) (replicate (length names) none)))

length-map : (names : List Bytes) → length (map some names) ≡ length names
length-map [] = refl
length-map (x ∷ names) = ap suc (length-map names)

delete_list-all :
    (num : ℤ) (names : List Bytes)
    → num ≡ pos (length names)
    → delete_list num names ≡ some (replicate (length names) none)
unfolding delete_list
delete_list-all num names e =
    ap (λ z. delete_names 0 (pos_part z) (map some names)) e
    ∙ ap (λ n. delete_names 0 n (map some names)) (sym (length-map names))
    ∙ delete_names-all [] (map some names)
    ∙ ap (λ n. some (replicate n none)) (length-map names)

replicate-append {ℓ} :
    {A : Type ℓ} (x : A) (m n : ℕ) → replicate m x ++ replicate n x ≡ replicate (m + n) x
replicate-append x zero n = ap (λ k. replicate k x) (omega arith)
replicate-append x (suc m) n =
    let e : suc (m + n) ≡ suc m + n = omega arith in
    ap (◌∷◌ x) (replicate-append x m n) ∙ ap (λ k. replicate k x) e

joined :
    (a b c d e : ℕ)
    → replicate {A = Option Bytes} a none
        ++ replicate b none
        ++ replicate c none
        ++ replicate d none
        ++ replicate e none
      ≡ replicate (a + b + c + d + e) none
joined a b c d e =
    rw
      (
        replicate-append {A = Option Bytes} none a b,
        replicate-append {A = Option Bytes} none (a + b) c,
        replicate-append {A = Option Bytes} none (a + b + c) d,
      )
      (replicate-append none (a + b + c + d) e)

-- The number of texts that a configuration holds.
unfoldable pub held : MonitorConfig → ℕ
held m =
    length m.counter_name
    + length m.web_counter_name
    + length m.process_name
    + length m.mysql_connstr
    + length m.ndb_log_file_name

-- After a load that ends without a fault, whatever the object held before, with a type for each of
-- the five sections that hold names: the destructor reads no pointer behind an array and deletes
-- every text that the object holds. The arrays hold nothing but NULL when they are deleted
-- themselves.
pub destroy-load_config :
    (fs : Files) (m m' : MonitorConfig) (tmp tmp' : List ℕ) (i j k l n : ℕ)
    → length m.db_config ≡ 5
    → load_config fs m tmp ≡ some (m', tmp')
    → get_elem? m'.object_type i ≡ some (type_of system)
    → get_elem? m'.object_type j ≡ some (type_of mysql)
    → get_elem? m'.object_type k ≡ some (type_of web)
    → get_elem? m'.object_type l ≡ some (type_of process)
    → get_elem? m'.object_type n ≡ some (type_of ndb)
    → destroy m' ≡ some (replicate (held m') none)
unfolding destroy held Counted
destroy-load_config fs m m' tmp tmp' i j k l n size e a b c d g =
    rw
      (
        delete_list-all m'.counter_num m'.counter_name
            (load_config-Counted fs m m' tmp tmp' i system size e a),
        delete_list-all m'.web_counter_num m'.web_counter_name
            (load_config-Counted fs m m' tmp tmp' k web size e c),
        delete_list-all m'.process_num m'.process_name
            (load_config-Counted fs m m' tmp tmp' l process size e d),
        delete_list-all m'.mysql_database_num m'.mysql_connstr
            (load_config-Counted fs m m' tmp tmp' j mysql size e b),
        delete_list-all m'.ndb_file_num m'.ndb_log_file_name
            (load_config-Counted fs m m' tmp tmp' n ndb size e g),
      )
      (ap some (
        joined (length m'.counter_name) (length m'.web_counter_name) (length m'.process_name)
          (length m'.mysql_connstr) (length m'.ndb_log_file_name)))

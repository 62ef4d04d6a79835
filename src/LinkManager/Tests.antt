-- ===== src/LinkManager/Tests.antt =====
-- A pool over databases that open, or do not.
use sysmonitor.Base.{◌≡◌, refl, Bool, true, false, ◌∷◌, [], none, some, replicate, map, arith}
use sysmonitor.Base.Count.{count, remove}
use sysmonitor.Base.Int.{pos}
use sysmonitor.LinkManager.Database.{Ado, blank_config}
use sysmonitor.LinkManager.{OpLink, LinkManager, zeroed, init, get_link, free_link}
use sysmonitor.LinkManager.Acquire.{Outcome, get_link-Grants, get_link-refuses}
use sysmonitor.LinkManager.Ownership.{
  HeldOnce, Reachable, start, granted, freed, Reachable-HeldOnce,
}

-- A database object is whether it is open; `up` is whether an open succeeds.
abbrev pub databases : Bool → Ado
databases up = record {
  Db = Bool;
  new_db = false;
  close_db = λ d. false;
  open_db = λ c d. up;
  is_open = λ d. d;
}

abbrev pub pool : (up : Bool) → LinkManager (databases up)
pool up = record {
  default_sel = 0;
  db_count = 0;
  db_config = replicate 5 blank_config;
  fail_count = 0;
  links = replicate 2 zeroed;
}

unfoldable pub ready : (up : Bool) → LinkManager (databases up)
unfolding init
ready up = elim (init 2 (pos 1) (blank_config ∷ blank_config ∷ []) (pool up)) [
  | none ↦ pool up
  | some m ↦ m
]

pub pool-ready :
    (up : Bool) → init 2 (pos 1) (blank_config ∷ blank_config ∷ []) (pool up) ≡ some (ready up)
unfolding ready
pool-ready up = refl

-- The first client's link, for the primary database.
taken : LinkManager (databases true)
unfolding get_link
taken = (get_link (ready true) 7 0 true).1

ready-taken : get_link (ready true) 7 0 true ≡ (some 0, taken)
unfolding taken ready
ready-taken = refl

get_link-Grants_example : Outcome (ready true) 7 true (some 0, taken)
get_link-Grants_example = get_link-Grants (ready true) taken 7 0 0 true ready-taken

-- The server is down.
refused_pool : LinkManager (databases false)
unfolding get_link
refused_pool = (get_link (ready false) 7 0 true).1

ready-refused : get_link (ready false) 7 0 true ≡ (none, refused_pool)
unfolding refused_pool ready
ready-refused = refl

get_link-refuses_example :
    map (λ l. l.is_busy) refused_pool.links ≡ map (λ l. l.is_busy) (ready false).links
get_link-refuses_example = get_link-refuses (ready false) refused_pool 7 0 true ready-refused

history : Reachable (databases true) (free_link taken 0) (remove 0 (0 ∷ []))
unfolding count
history =
    freed taken (0 ∷ []) 0
      (granted (ready true) taken [] 7 0 0 true
        (start (pool true) (ready true) 2 (pos 1) (blank_config ∷ blank_config ∷ [])
          (pool-ready true))
        ready-taken)
      (omega arith)

Reachable-HeldOnce_example : HeldOnce (free_link taken 0) (remove 0 (0 ∷ []))
Reachable-HeldOnce_example = Reachable-HeldOnce (free_link taken 0) (remove 0 (0 ∷ [])) history

-- A link of the default database, given back, and asked for again for another one.
abbrev link_of_taken : OpLink (databases true)
link_of_taken = record {
  is_busy = false;
  cur_sel = 1;
  is_connected = true;
  busy_time = 0;
  ado_db = some true;
}

again : LinkManager (databases true)
unfolding get_link
again = (get_link (free_link taken 0) 9 0 false).1

freed-again : get_link (free_link taken 0) 9 0 false ≡ (some 0, again)
unfolding again free_link taken ready
freed-again = refl

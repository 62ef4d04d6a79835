-- ===== src/MssqlMonitor/Tests.antt =====
-- Two databases whose four counters stay at 7.
use sysmonitor.Base.{◌≡◌, refl, Bool, true, List, [], ◌∷◌, Option, some, none, ◌++◌}
use sysmonitor.Base.Int.{pos}
use sysmonitor.LinkManager.Database.{DbConfig, blank_config}
use sysmonitor.LinkManager.{LinkManager, get_link, free_link}
use sysmonitor.LinkManager.Ownership.{start}
use sysmonitor.LinkManager.Tests.{databases, pool, ready, pool-ready}
use sysmonitor.MssqlMonitor.{
  Records, Item, number, percentage, get_counter_value, sample, read_values, counter, counters,
  sample_twice, sample_all, write,
}
use sysmonitor.MssqlMonitor.Pool.{Sampled, write-Sampled}

abbrev sevens : (up : Bool) → Records (databases up)
sevens up = record {
  Rs = Bool;
  open_rs = λ query db. db;
  is_open_rs = λ rs. rs;
  record_count = λ rs. pos 4;
  value = λ rs i. some (pos 7);
}

abbrev configs : List DbConfig
configs = blank_config ∷ blank_config ∷ []

written : Option (List (List Item) × LinkManager (databases true))
unfolding write
written = write (sevens true) configs 7 (pos 2) (ready true)

after : LinkManager (databases true)
unfolding written write sample_all sample_twice get_counter_value get_link free_link ready
after = elim written [ none ↦ ready true | some out ↦ out.1 ]

abbrev first_items : List Item
first_items = number (pos 0) ∷ percentage (pos 7) (pos 7) ∷ number (pos 7) ∷ []

written-after :
    write (sevens true) configs 7 (pos 2) (ready true)
    ≡ some (first_items ∷ (first_items ++ first_items) ∷ [], after)
unfolding after written write sample_all sample_twice get_counter_value get_link free_link ready
    sample read_values counter counters
written-after = refl

write-Sampled_example :
    Sampled (sevens true) 2 [] (first_items ∷ (first_items ++ first_items) ∷ [], after)
write-Sampled_example =
    write-Sampled (sevens true) configs 7 (pos 2) (ready true)
      (first_items ∷ (first_items ++ first_items) ∷ [], after)
      (start (pool true) (ready true) 2 (pos 1) (blank_config ∷ blank_config ∷ [])
        (pool-ready true))
      written-after

-- ===== src/Monitor/Destroy.antt =====
-- The destruction of the table.
use sysmonitor.Base.{
  ℕ, zero, suc, ◌<◌, ◌≡◌, ◌⊎◌, ◌↔◌, inl, inr, refl, sym, ap, ◌∙◌, Bool, true, List, [], ◌∷◌, Option,
  none, some, arith, length, ◌==◌, Bool-cases, get_elem?, replicate, map, if_true, if_false,
}
use mathlib.Core.Path.{subst}
use sysmonitor.Base.Fallible.{some-inj}
use sysmonitor.Base.Int.{ℤ}
use sysmonitor.Monitor.{
  Monitor, sys_info, mysql, mssql, web, process, linux_sysinfo, ndb, type_number, Slots,
  concrete_from, build_monitor, is_deleted, delete_slots,
}
use sysmonitor.Monitor.Slots.{of_number, monitor_of, concrete_from-map}

-- Two slots hold the one object of a class.
abbrev pub Repeats : Slots → Type 0
Repeats slots =
    (i j : ℕ) × (m : Monitor) × (i < j)
    × (get_elem? slots i ≡ some (some m))
    × (get_elem? slots j ≡ some (some m))

-- One slot holds an object that is deleted already.
Deleted : Slots → List Monitor → Type 0
Deleted slots deleted =
    (j : ℕ) × (m : Monitor) × (get_elem? slots j ≡ some (some m)) × (is_deleted m deleted ≡ true)

type_number-inj : (a b : Monitor) → type_number a ≡ type_number b → a ≡ b
unfolding of_number type_number
type_number-inj a b e = some-inj (sym (back a) ∙ ap (of_number true) e ∙ back b)
  where
    back : (m : Monitor) → of_number true (type_number m) ≡ some m
    back sys_info = refl
    back mysql = refl
    back mssql = refl
    back web = refl
    back process = refl
    back linux_sysinfo = refl
    back ndb = refl

shift-Repeats : (o : Option Monitor) (slots : Slots) → Repeats slots → Repeats (o ∷ slots)
shift-Repeats o slots (i, j, m, h, a, b) = (suc i, suc j, m, omega (arith, h), a, b)

is_deleted-cons :
    (m d : Monitor) (ds : List Monitor)
    → is_deleted m (d ∷ ds) ≡ true
    → (m ≡ d) ⊎ (is_deleted m ds ≡ true)
unfolding is_deleted
is_deleted-cons m d ds h = elim (Bool-cases (type_number m == type_number d)) [
  | inl e ↦ inl (type_number-inj m d (ground (arith, e)))
  | inr e ↦ inr (sym (if_false _ _ e) ∙ h)
]

is_deleted-back :
    (m d : Monitor) (ds : List Monitor) → is_deleted m ds ≡ true → is_deleted m (d ∷ ds) ≡ true
unfolding is_deleted
is_deleted-back m d ds h = ground (arith, h)

is_deleted-same : (m : Monitor) (ds : List Monitor) → is_deleted m (m ∷ ds) ≡ true
unfolding is_deleted
is_deleted-same m ds = ground arith

why :
    (slots : Slots) (deleted : List Monitor)
    → delete_slots slots deleted ≡ none
    → Deleted slots deleted ⊎ Repeats slots
unfolding delete_slots Deleted
why [] deleted e = absurd cc
why (none ∷ slots) deleted e = elim (why slots deleted e) [
  | inl (j, m, at, d) ↦ inl (suc j, m, at, d)
  | inr r ↦ inr (shift-Repeats none slots r)
]
why (some m ∷ slots) deleted e = elim (Bool-cases (is_deleted m deleted)) [
  | inl d ↦ inl (0, m, refl, d)
  | inr d ↦ elim (why slots (m ∷ deleted) (sym (if_false _ _ d) ∙ e)) [
    | inl (j, k, at, d') ↦ elim (is_deleted-cons k m deleted d') [
      | inl same ↦
          inr (0, suc j, m, omega arith, refl, at ∙ ap (λ (x : Monitor). some (some x)) same)
      | inr d'' ↦ inl (suc j, k, at, d'')
    ]
    | inr r ↦ inr (shift-Repeats (some m) slots r)
  ]
]

Deleted-none :
    (slots : Slots) (deleted : List Monitor) (j : ℕ) (k : Monitor)
    → get_elem? slots j ≡ some (some k)
    → is_deleted k deleted ≡ true
    → delete_slots slots deleted ≡ none
unfolding delete_slots
Deleted-none [] deleted j k at d = absurd cc
Deleted-none (none ∷ slots) deleted zero k at d = absurd cc
Deleted-none (none ∷ slots) deleted (suc j) k at d = Deleted-none slots deleted j k at d
Deleted-none (some m ∷ slots) deleted zero k at d =
    let same : k ≡ m = some-inj (some-inj (sym at)) in
    if_true _ _ (subst (λ x. is_deleted x deleted ≡ true) same d)
Deleted-none (some m ∷ slots) deleted (suc j) k at d = elim (Bool-cases (is_deleted m deleted)) [
  | inl d' ↦ if_true _ _ d'
  | inr d' ↦
      if_false _ _ d' ∙ Deleted-none slots (m ∷ deleted) j k at (is_deleted-back k m deleted d)
]

Repeats-none :
    (slots : Slots) (deleted : List Monitor) (i j : ℕ) (k : Monitor)
    → i < j
    → get_elem? slots i ≡ some (some k)
    → get_elem? slots j ≡ some (some k)
    → delete_slots slots deleted ≡ none
unfolding delete_slots
Repeats-none [] deleted i j k h a b = absurd cc
Repeats-none (o ∷ slots) deleted i zero k h a b = absurd (omega arith)
Repeats-none (none ∷ slots) deleted zero (suc j) k h a b = absurd cc
Repeats-none (none ∷ slots) deleted (suc i) (suc j) k h a b =
    Repeats-none slots deleted i j k (omega arith) a b
Repeats-none (some m ∷ slots) deleted zero (suc j) k h a b =
    let same : m ≡ k = some-inj (some-inj a) in
    let found = subst (λ x. is_deleted x (m ∷ deleted) ≡ true) same (is_deleted-same m deleted) in
    elim (Bool-cases (is_deleted m deleted)) [
      | inl d ↦ if_true _ _ d
      | inr d ↦ if_false _ _ d ∙ Deleted-none slots (m ∷ deleted) j k b found
    ]
Repeats-none (some m ∷ slots) deleted (suc i) (suc j) k h a b =
    elim (Bool-cases (is_deleted m deleted)) [
      | inl d ↦ if_true _ _ d
      | inr d ↦ if_false _ _ d ∙ Repeats-none slots (m ∷ deleted) i j k (omega arith) a b
    ]

-- The table for the seven configured types holds in each slot the monitor of its type, or none
-- where the platform has no such monitor. The destructor deletes one object twice if and only
-- if two slots hold the same monitor, that is, if a type is configured twice.
pub delete_slots-build_monitor :
    (win32 : Bool) (types : List ℤ)
    → length types ≡ 7
    → (build_monitor win32 types ≡ map (monitor_of win32) types)
      × ((delete_slots (build_monitor win32 types) [] ≡ none)
          ↔ Repeats (map (monitor_of win32) types))
unfolding build_monitor Deleted is_deleted
delete_slots-build_monitor win32 types h =
    let built : build_monitor win32 types ≡ map (monitor_of win32) types =
      ap (λ n. concrete_from win32 0 types (replicate n none)) (sym h)
      ∙ concrete_from-map win32 types [] in
    (
      built,
      rw built (
        λ e. elim (why (map (monitor_of win32) types) [] e) [
          | inl (j, m, at, d) ↦ absurd cc
          | inr r ↦ r
        ],
        λ (i, j, m, l, a, b). Repeats-none (map (monitor_of win32) types) [] i j m l a b,
      ),
    )

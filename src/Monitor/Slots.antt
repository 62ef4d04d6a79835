-- ===== src/Monitor/Slots.antt =====
-- The table after it is built.
use sysmonitor.Base.{
  ℕ, suc, ◌≡◌, ◌⊎◌, inl, inr, refl, sym, ◌∙◌, Bool, true, false, List, [], ◌∷◌, ◌++◌, Option, none,
  some, arith, length, ◌==◌, if◌then◌else◌, Bool-cases, set, replicate, append_assoc, map,
  set-append_at, length-append,
}
use mathlib.Core.Path.{subst}
use sysmonitor.Base.Int.{ℤ, pos, negsuc}
use sysmonitor.Monitor.{
  Monitor, sys_info, mysql, mssql, web, process, linux_sysinfo, ndb, type_number, Slots,
  concrete_if, windows_monitors, concrete_monitor, concrete_from,
}

-- The monitor of a type, where the platform has one.
unfoldable pub of_number : Bool → ℕ → Option Monitor
of_number win32 t =
    if t == 1
    then (if win32 then some sys_info else none)
    else if t == 2
    then some mysql
    else if t == 3
    then (if win32 then some mssql else none)
    else if t == 5
    then some web
    else if t == 6
    then (if win32 then some process else none)
    else if t == 7
    then some linux_sysinfo
    else if t == 9
    then some ndb
    else none

unfoldable pub monitor_of : Bool → ℤ → Option Monitor
unfolding of_number
monitor_of win32 (negsuc t) = none
monitor_of win32 (pos t) = of_number win32 t

of_number-other :
    (win32 : Bool) (t : ℕ)
    → ((m : Monitor) → (t == type_number m) ≡ false)
    → of_number win32 t ≡ none
unfolding of_number type_number
of_number-other win32 t h =
    rw (h sys_info, h mysql, h mssql, h web, h process, h linux_sysinfo, h ndb) refl

-- What is put where a slot was empty.
put_slot : Option Monitor → ℕ → Slots → Slots
put_slot none index slots = slots
put_slot (some m) index slots = set slots index (some m)

-- A type that is tested for is a number among these.
Puts : Bool → ℕ → Slots → ℕ → Type 0
Puts win32 index slots t =
    concrete_monitor win32 index (pos t) slots ≡ put_slot (monitor_of win32 (pos t)) index slots

concrete_if-other :
    (t index : ℕ) (m : Monitor) (slots : Slots)
    → (t == type_number m) ≡ false
    → concrete_if (pos t) m index slots ≡ slots
unfolding concrete_if
concrete_if-other t index m slots h = rw h refl

Puts-known :
    (win32 : Bool) (index : ℕ) (slots : Slots) (m : Monitor)
    → Puts win32 index slots (type_number m)
unfolding Puts concrete_monitor windows_monitors concrete_if type_number monitor_of put_slot
Puts-known true index slots sys_info = refl
Puts-known true index slots mysql = refl
Puts-known true index slots mssql = refl
Puts-known true index slots web = refl
Puts-known true index slots process = refl
Puts-known true index slots linux_sysinfo = refl
Puts-known true index slots ndb = refl
Puts-known false index slots sys_info = refl
Puts-known false index slots mysql = refl
Puts-known false index slots mssql = refl
Puts-known false index slots web = refl
Puts-known false index slots process = refl
Puts-known false index slots linux_sysinfo = refl
Puts-known false index slots ndb = refl

Puts-other :
    (win32 : Bool) (index : ℕ) (slots : Slots) (t : ℕ)
    → ((m : Monitor) → (t == type_number m) ≡ false)
    → Puts win32 index slots t
unfolding Puts concrete_monitor windows_monitors monitor_of put_slot
Puts-other win32 index slots t h =
    let skips : (m : Monitor) → concrete_if (pos t) m index slots ≡ slots =
      λ m. concrete_if-other t index m slots (h m) in
    let unknown : monitor_of win32 (pos t) ≡ none = of_number-other win32 t h in
    rw (unknown, put_slot)
      (elim (Bool-cases win32) [
        | inl w ↦
            rw
              (
                w,
                skips sys_info,
                skips process,
                skips mssql,
                skips mysql,
                skips linux_sysinfo,
                skips web,
                skips ndb,
              )
              refl
        | inr w ↦ rw (w, skips mysql, skips linux_sysinfo, skips web, skips ndb) refl
      ])

number_cases :
    (t : ℕ) → ((m : Monitor) × (t ≡ type_number m)) ⊎ ((m : Monitor) → (t == type_number m) ≡ false)
unfolding type_number
number_cases t = elim (Bool-cases (t == type_number sys_info)) [
  | inl e ↦ inl (sys_info, ground (arith, e))
  | inr e0 ↦ elim (Bool-cases (t == type_number mysql)) [
    | inl e ↦ inl (mysql, ground (arith, e))
    | inr e1 ↦ elim (Bool-cases (t == type_number mssql)) [
      | inl e ↦ inl (mssql, ground (arith, e))
      | inr e2 ↦ elim (Bool-cases (t == type_number web)) [
        | inl e ↦ inl (web, ground (arith, e))
        | inr e3 ↦ elim (Bool-cases (t == type_number process)) [
          | inl e ↦ inl (process, ground (arith, e))
          | inr e4 ↦ elim (Bool-cases (t == type_number linux_sysinfo)) [
            | inl e ↦ inl (linux_sysinfo, ground (arith, e))
            | inr e5 ↦ elim (Bool-cases (t == type_number ndb)) [
              | inl e ↦ inl (ndb, ground (arith, e))
              | inr e6 ↦ inr (λ m. elim m as (λ k. (t == type_number k) ≡ false) [
                | sys_info ↦ e0
                | mysql ↦ e1
                | mssql ↦ e2
                | web ↦ e3
                | process ↦ e4
                | linux_sysinfo ↦ e5
                | ndb ↦ e6
              ])
            ]
          ]
        ]
      ]
    ]
  ]
]

concrete_monitor-put :
    (win32 : Bool) (index : ℕ) (t : ℤ) (slots : Slots)
    → concrete_monitor win32 index t slots ≡ put_slot (monitor_of win32 t) index slots
unfolding concrete_monitor windows_monitors concrete_if monitor_of put_slot Puts
concrete_monitor-put true index (negsuc t) slots = refl
concrete_monitor-put false index (negsuc t) slots = refl
concrete_monitor-put win32 index (pos t) slots = elim (number_cases t) [
  | inl (m, e) ↦ subst (Puts win32 index slots) (sym e) (Puts-known win32 index slots m)
  | inr h ↦ Puts-other win32 index slots t h
]

put_slot-at :
    (o : Option Monitor) (xs rest : Slots)
    → put_slot o (length xs) (xs ++ none ∷ rest) ≡ xs ++ o ∷ rest
unfolding put_slot
put_slot-at none xs rest = refl
put_slot-at (some m) xs rest = set-append_at xs rest none (some m) (length xs) refl

pub concrete_from-map :
    (win32 : Bool) (ts : List ℤ) (xs : Slots)
    → concrete_from win32 (length xs) ts (xs ++ replicate (length ts) none)
      ≡ xs ++ map (monitor_of win32) ts
unfolding concrete_from
concrete_from-map win32 [] xs = refl
concrete_from-map win32 (t ∷ ts) xs =
    let m = monitor_of win32 t in
    let here =
      concrete_monitor-put win32 (length xs) t (xs ++ none ∷ replicate (length ts) none)
      ∙ put_slot-at m xs (replicate (length ts) none)
      ∙ sym (append_assoc xs (m ∷ []) (replicate (length ts) none)) in
    let size : suc (length xs) ≡ length (xs ++ m ∷ []) = omega (arith, length-append xs (m ∷ [])) in
    rw (here, size)
      (concrete_from-map win32 ts (xs ++ m ∷ [])
        ∙ append_assoc xs (m ∷ []) (map (monitor_of win32) ts))

-- ===== src/SysInfo/Web.antt =====
-- SysMonitor/web_monitor.h and web_monitor.cpp: whether the web server's process runs, and its
-- counters.
use sysmonitor.Base.{
  ℕ, ◌≡◌, refl, sym, ◌∙◌, Bool, true, false, ◌&&◌, List, [], ◌∷◌, ◌++◌, Option, none, some,
  if◌then◌else◌, ◌⊎◌, inl, inr, Bool-cases, arith, ◌≤◌, length, if_true, if_false,
}
use sysmonitor.Base.Fallible.{◌>>=◌}
use sysmonitor.Base.Text.{Bytes, codes, strcmp_eq, strcmp_eq_refl, eq_of_strcmp_eq}
use sysmonitor.Monitor.Process.{Entry}
use sysmonitor.SysInfo.{Pdh, Held, write_counter_vaule}
use sysmonitor.SysInfo.Counters.{Readable, Released, write_counter_vaule-Released}

-- A value that is appended.
pub data WebItem : Type 0 where
  counter_text : Bytes → WebItem
  flags : List ℕ → WebItem

-- The loop over the processes, which ends at the first that is found.
unfoldable pub find_w3wp : List Entry → Bool
find_w3wp [] = false
find_w3wp (e ∷ es) =
    let rest = find_w3wp es in if e.opens && strcmp_eq e.exe (codes "w3wp.exe") then true else rest

-- `IsW3wpRun`; none is a snapshot that fails, or has no process.
unfoldable pub is_w3wp_run : Option (List Entry) → Bool
is_w3wp_run none = false
is_w3wp_run (some es) = find_w3wp es

counters : List Bytes → List WebItem
counters [] = []
counters (t ∷ ts) = counter_text t ∷ counters ts

-- `write`: what it appends. Without WIN32 that is nothing.
unfoldable pub write :
    Bool → Pdh → Option (List Entry) → ℕ → List Bytes → Held → Option (List WebItem × Held)
unfolding counters
write win32 P snapshot web_counter_num web_counter_name h =
    if win32
    then (if is_w3wp_run snapshot
        then (do
          (texts, h') ← write_counter_vaule P web_counter_num web_counter_name h
          some (counters texts ++ flags (1 ∷ []) ∷ [], h'))
        else some (flags (0 ∷ 0 ∷ []) ∷ [], h))
    else some ([], h)

-- A process of that name, which can be opened, is in the list.
pub data Runs : List Entry → Type 0 where
  here : (e : Entry) (es : List Entry) → e.opens ≡ true → e.exe ≡ codes "w3wp.exe" → Runs (e ∷ es)
  there : (e : Entry) (es : List Entry) → Runs es → Runs (e ∷ es)

abbrev pub listed : Option (List Entry) → List Entry
listed none = []
listed (some es) = es

find_w3wp-Runs : (es : List Entry) → find_w3wp es ≡ true → Runs es
unfolding find_w3wp
find_w3wp-Runs [] e = cc
find_w3wp-Runs (x ∷ es) e = elim (Bool-cases x.opens) [
  | inl o ↦ elim (Bool-cases (strcmp_eq x.exe (codes "w3wp.exe"))) [
    | inl s ↦ here x es o (eq_of_strcmp_eq x.exe (codes "w3wp.exe") s)
    | inr s ↦ there x es (find_w3wp-Runs es (ground (arith, e, s)))
  ]
  | inr o ↦ there x es (find_w3wp-Runs es (ground (arith, e, o)))
]

Runs-find_w3wp : (es : List Entry) → Runs es → find_w3wp es ≡ true
unfolding find_w3wp
Runs-find_w3wp [] r = elim r [ ]
Runs-find_w3wp (x ∷ es) (here _ _ o n) =
    let s : strcmp_eq x.exe (codes "w3wp.exe") ≡ true = rw n (strcmp_eq_refl (codes "w3wp.exe")) in
    ground (arith, o, s)
Runs-find_w3wp (x ∷ es) (there _ _ r) = ground (arith, Runs-find_w3wp es r)

is_w3wp_run-listed :
    (snapshot : Option (List Entry)) → is_w3wp_run snapshot ≡ find_w3wp (listed snapshot)
unfolding is_w3wp_run find_w3wp
is_w3wp_run-listed none = refl
is_w3wp_run-listed (some es) = refl

-- What `write` appends and leaves: the counters and the flag of a server that runs, or two zeros.
pub Reported : Pdh → Option (List Entry) → ℕ → Held → List WebItem × Held → Type 0
Reported P snapshot n h (items, h') =
    (Runs (listed snapshot)
      × ((texts : List Bytes) × (items ≡ counters texts ++ flags (1 ∷ []) ∷ [])
          × Released P n h (texts, h')))
    ⊎ (¬ Runs (listed snapshot) × (items ≡ flags (0 ∷ 0 ∷ []) ∷ []) × (h' ≡ h))

-- With WIN32 `write` returns, for at most as many counters as there are names, when every value's
-- text has a byte and no query was open. If a process that can be opened has the name of the web
-- server, it appends the texts of the counters and the flag 1, and what is held is released as
-- behind any call for the counters; if none has, it appends two zeros and takes nothing.
pub write-Reported :
    (P : Pdh) (snapshot : Option (List Entry)) (n : ℕ) (names : List Bytes) (h : Held)
    → n ≤ length names
    → Readable P
    → h.query ≡ false
    → (out : List WebItem × Held) × (write true P snapshot n names h ≡ some out)
      × Reported P snapshot n h out
unfolding write Reported
write-Reported P snapshot n names h le r q = elim (Bool-cases (is_w3wp_run snapshot)) [
  | inl e ↦
      let ((texts, h'), e1, released) = write_counter_vaule-Released P n names h le r q in
      (
        (counters texts ++ flags (1 ∷ []) ∷ [], h'),
        if_true _ _ e ∙ rw e1 refl,
        inl (
          find_w3wp-Runs (listed snapshot) (sym (is_w3wp_run-listed snapshot) ∙ e),
          (texts, refl, released),
        ),
      )
  | inr e ↦ (
    (flags (0 ∷ 0 ∷ []) ∷ [], h),
    if_false _ _ e,
    inr (
      λ runs. let t = is_w3wp_run-listed snapshot ∙ Runs-find_w3wp (listed snapshot) runs in cc,
      refl,
      refl,
    ),
  )
]

-- ===== src/Protocol/Threads/Tests.antt =====
-- Ten turns of the timer, and a client that has come to its iterator.
use sysmonitor.Base.{ℕ, zero, suc, ◌≤◌, ◌<◌, ◌≡◌, refl, [], ◌∷◌, ◌++◌, arith, length, length-append}
use sysmonitor.Base.Text.{codes}
use sysmonitor.Protocol.Threads.{
  node, begun, rests, Threads, finds_some, begins, is_short, pushes, Crashes, fresh, Reach, at_once,
  later,
}
use sysmonitor.Protocol.Threads.Safe.{Reach-crash}

abbrev turn : Threads → Threads
turn t = record t {
  writer = rests;
  list_buf = t.list_buf ++ node (length t.made) (codes "s") ∷ [];
  made = t.made ++ codes "s" ∷ [];
}

abbrev turns : ℕ → Threads
turns zero = fresh
turns (suc n) = turn (turns n)

turns-rests : (n : ℕ) → (turns n).writer ≡ rests
turns-rests zero = refl
turns-rests (suc n) = refl

turns-length : (n : ℕ) → length (turns n).list_buf ≡ n
turns-length zero = refl
turns-length (suc n) =
    let len = length-append (turns n).list_buf (node (length (turns n).made) (codes "s") ∷ []) in
    omega (arith, len, turns-length n)

Reach-turns : (n : ℕ) → n ≤ 10 → Reach fresh (turns n)
Reach-turns zero h = at_once
Reach-turns (suc n) h =
    let r = Reach-turns n (omega (arith, h)) in
    let short : length (turns n).list_buf < 10 = omega (arith, h, turns-length n) in
    later (later r (is_short (turns-rests n) short)) (pushes (codes "s") refl)

abbrev reading : Threads
reading = record (turns 10) { reader = begun 0 }

Reach-reading : Reach fresh reading
Reach-reading =
    later (later (Reach-turns 10 (omega arith)) (finds_some refl (omega arith)))
      (begins (node 0 (codes "s")) _ refl refl)

Reach-crash_example : (u : Threads) × Reach reading u × Crashes u
Reach-crash_example = Reach-crash 0 Reach-reading refl refl (omega arith)

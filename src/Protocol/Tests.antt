-- ===== src/Protocol/Tests.antt =====
-- A client and the monitoring thread, with numbers for JSON values.
use sysmonitor.Base.{
  ℕ, zero, suc, arith, ◌≤◌, ◌≡◌, refl, false, List, ◌∷◌, [], ◌++◌, Option, none, some, replicate,
  length, ◌+◌,
}
use sysmonitor.Base.Text.{Bytes, codes, Lacks}
use sysmonitor.Protocol.{new_protocol, read, write, check_word, collect}
use sysmonitor.Protocol.Writer.{Json, FastWriterLaw}
use sysmonitor.Protocol.Queue.{Sublist, Call, ask, tick, run, start, run-InOrder, read-write}

abbrev pub unary : Json
unary = record {
  Value = ℕ;
  null = 0;
  empty_array = 1;
  append = λ v w. v + w;
  write = λ v. replicate v b'1' ++ 10 ∷ [];
}

ones-Lacks : (n : ℕ) → Lacks 10 (replicate n b'1')
ones-Lacks zero = tt
ones-Lacks (suc n) = (omega arith, ones-Lacks n)

unary-FastWriterLaw : FastWriterLaw unary
unfolding FastWriterLaw
unary-FastWriterLaw = λ v. (replicate v b'1', refl, ones-Lacks v)

abbrev pub monitors : List (Option (ℕ → ℕ))
monitors = none ∷ some (λ v. v + 2) ∷ []

abbrev calls : List (Call unary)
calls = tick monitors ∷ tick (none ∷ []) ∷ ask (codes "sysmonitor") ∷ ask (codes "hello") ∷ []

run-InOrder_example :
    Sublist
      ((run false calls start).given ++ (run false calls start).object.list_buf)
      (run false calls start).made
    × (length (run false calls start).object.list_buf ≤ 10)
run-InOrder_example = run-InOrder false calls

read-write_example :
    (s : Bytes) × (replicate 4 b'1' ++ 10 ∷ [] ≡ s ++ 10 ∷ [])
    × ((read false check_word (write unary monitors new_protocol).1).0
        ≡ record { count = (write unary monitors new_protocol).0; buf = s; resets = false })
    × ((read false check_word (write unary monitors new_protocol).1).1.list_buf ≡ [])
unfolding new_protocol collect
read-write_example = read-write unary unary-FastWriterLaw monitors new_protocol false refl

-- ===== src/Mysql/Connection/Drain.antt =====
-- The loop of `clear_all_result_set`: the rounds allowed are enough.
use sysmonitor.Base.{ℕ, zero, suc, ◌≤◌, ◌<◌, ◌≡◌, refl, false, arith, Bool-cases, inl, inr}
use sysmonitor.Mysql.Api.{MysqlApi, DrainLaw}
use sysmonitor.Mysql.Connection.{Conn, drain_round, drain, free_myres, clear_all_result_set}

module _ {M : MysqlApi} (L : DrainLaw M) where
  -- With more fuel than results to read, the loop that drains them has ended by its test.
  drain_fuel : (f g : ℕ) (s : Conn M) → M.pending s.mysql < f → f ≤ g → drain f s ≡ drain g s
  unfolding drain drain_round
  drain_fuel zero g s h l = absurd (omega arith)
  drain_fuel (suc f) zero s h l = absurd (omega arith)
  drain_fuel (suc f) (suc g) s h l =
      let h1 = (M.store_result s.mysql).0 in
      let s1 = record (drain_round s) { mysql = (M.next_result h1).0 } in
      elim (Bool-cases (M.next_result h1).1) [
        | inl e ↦ rw e (
            drain_fuel f g s1 (omega (arith, L.next_uses h1 e, L.store_keeps s.mysql))
              (omega arith))
        | inr e ↦ rw e
      ]

  drain-ends :
      (f : ℕ) (s : Conn M)
      → M.pending s.mysql < f
      → (h : M.Handle) × ((M.next_result h).1 ≡ false) × ((drain f s).mysql ≡ (M.next_result h).0)
  unfolding drain drain_round
  drain-ends zero s l = absurd (omega arith)
  drain-ends (suc f) s l =
      let h1 = (M.store_result s.mysql).0 in
      let s1 = record (drain_round s) { mysql = (M.next_result h1).0 } in
      elim (Bool-cases (M.next_result h1).1) [
        | inl e ↦ rw e (drain-ends f s1 (omega (arith, L.next_uses h1 e, L.store_keeps s.mysql)))
        | inr e ↦ (h1, e, rw e refl)
      ]

  -- With a library in which each further result uses one up, the loop of `clear_all_result_set`
  -- ends by its own test: the last question for a further result was answered no, and the
  -- handle is as that answer left it. More rounds allowed would come to the same connection.
  pub clear_all_result_set-ends :
      (s : Conn M) (fuel : ℕ)
      → M.pending s.mysql < fuel
      → ((h : M.Handle) × ((M.next_result h).1 ≡ false)
          × ((clear_all_result_set s).1.mysql ≡ (M.next_result h).0))
        × ((clear_all_result_set s).1 ≡ drain fuel (free_myres s))
  unfolding clear_all_result_set
  clear_all_result_set-ends s fuel h =
      let enough : M.pending (free_myres s).mysql < suc (M.pending s.mysql) =
        unfold free_myres in omega arith in
      (
        drain-ends (suc (M.pending s.mysql)) (free_myres s) enough,
        drain_fuel (suc (M.pending s.mysql)) fuel (free_myres s) enough (omega arith),
      )

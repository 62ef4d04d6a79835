-- ===== src/Mysql/Connection/Ledger.antt =====
-- Every result that the library hands out is freed once.
use sysmonitor.Base.{
  ℕ, zero, suc, ◌≡◌, refl, sym, ap, ◌∙◌, Bool, true, false, List, [], ◌∷◌, ◌++◌, Option, none, some,
  arith, Bool-cases, Option-cases, inl, inr,
}
use mathlib.Core.Option
use sysmonitor.Base.Text.{Bytes}
use sysmonitor.ConnString.{ConnStr, db_parse_cs}
use sysmonitor.Mysql.Api.{MysqlApi}
use sysmonitor.Mysql.Connection.{
  Conn, new_conn, log_stored, drain_round, drain, free_myres, clear_all_result_set, finish_connect,
  connect_to, connect, disconnect, connect_again, reconnect, ping_code, check_connect, run_query,
  end_execute, retry, execute, end_transaction, commit, rollback, Result, open_result, next_open,
  get_record_set,
}

abbrev pub held {ℓ} : {A : Type ℓ} → Option A → List A
held none = []
held (some r) = r ∷ []

-- What was stored is what the connection holds and what was freed, in the order of storing: no
-- result is lost, and none is freed twice.
abbrev pub Balanced : {M : MysqlApi} → Conn M → Type 0
Balanced s = s.stored ≡ held s.myres ++ s.freed

-- The calls of a client.
pub data Call : Type 0 where
  connects : Bytes → Call
  executes : Bytes → Bool → Call
  checks : Bool → Bool → Call
  reconnects gets_record_set commits rolls_back disconnects : Call

-- The connection after a call; `raw` is the memory that the parser fills.
unfoldable pub step : {M : MysqlApi} → ConnStr → Call → Conn M → Option (Conn M)
step raw (connects str) s = Option.map (λ r. r.1) (connect raw str s)
step raw (executes sql need) s = Option.map (λ r. r.1) (execute raw sql need s)
step raw (checks keep fix) s = Option.map (λ r. r.1) (check_connect raw keep fix s)
step raw reconnects s = Option.map (λ r. r.1) (reconnect raw s)
step raw gets_record_set s = some (get_record_set s).1
step raw commits s = some (commit s).1
step raw rolls_back s = some (rollback s).1
step raw disconnects s = some (disconnect s).1

unfoldable pub run : {M : MysqlApi} → ConnStr → List Call → Conn M → Option (Conn M)
run raw [] s = some s
run raw (c ∷ cs) s = elim (step raw c s) [ none ↦ none | some t ↦ run raw cs t ]

abbrev pub BalancedResult : {M : MysqlApi} → Result M → Type 0
BalancedResult none = Unit
BalancedResult (some (c, s)) = Balanced s

log_stored-held {ℓ} : {A : Type ℓ} (o : Option A) (l : List A) → log_stored o l ≡ held o ++ l
unfolding log_stored
log_stored-held none l = refl
log_stored-held (some r) l = refl

module _ {M : MysqlApi} where
  -- All is freed.
  abbrev pub Settled : Conn M → Type 0
  Settled s = (s.myres ≡ none) × (s.stored ≡ s.freed)

  pub Settled-Balanced : (s : Conn M) → Settled s → Balanced s
  Settled-Balanced s (e, b) = rw e b

  drain_round-Settled : (s : Conn M) → Settled s → Settled (drain_round s)
  unfolding drain_round
  drain_round-Settled s (e, b) = (e, ap (log_stored (M.store_result s.mysql).1) b)

  drain-Settled : (fuel : ℕ) (s : Conn M) → Settled s → Settled (drain fuel s)
  unfolding drain
  drain-Settled zero s h = h
  drain-Settled (suc fuel) s h =
      let r = drain_round-Settled s h in
      let h' = (M.next_result (drain_round s).mysql).0 in
      elim (Bool-cases (M.next_result (drain_round s).mysql).1) [
        | inl e ↦ rw e (drain-Settled fuel (record (drain_round s) { mysql = h' }) r)
        | inr e ↦ rw e r
      ]

  free_myres-Settled : (s : Conn M) → Balanced s → Settled (free_myres s)
  unfolding free_myres
  free_myres-Settled s b = (refl, b ∙ sym (log_stored-held s.myres s.freed))

  clear-Settled : (s : Conn M) → Balanced s → Settled (clear_all_result_set s).1
  unfolding clear_all_result_set
  clear-Settled s b =
      drain-Settled (suc (M.pending s.mysql)) (free_myres s) (free_myres-Settled s b)

  clear-Balanced : (s : Conn M) → Balanced s → Balanced (clear_all_result_set s).1
  clear-Balanced s b = Settled-Balanced (clear_all_result_set s).1 (clear-Settled s b)

  connect_to-Balanced : (o : Option ConnStr) (s : Conn M) → Balanced s → Balanced (connect_to o s).1
  unfolding connect_to finish_connect
  connect_to-Balanced none s b = b
  connect_to-Balanced (some cs) s b = ground arith

  connect-Balanced :
      (raw : ConnStr) (str : Bytes) (s : Conn M) → Balanced s → BalancedResult (connect raw str s)
  unfolding connect
  connect-Balanced raw str s b = elim (Option-cases (db_parse_cs raw str)) [
    | inl e ↦ rw e (ground arith)
    | inr ((rc, cs), e) ↦
        rw e (ground (arith, connect_to-Balanced (some cs) (record s { str_db = some str }) b))
  ]

  connect_again-Balanced :
      (raw : ConnStr) (str : Option Bytes) (con : Option ConnStr) (s : Conn M)
      → Balanced s
      → BalancedResult (connect_again raw str con s)
  unfolding connect_again
  connect_again-Balanced raw (some str) con s b = connect-Balanced raw str s b
  connect_again-Balanced raw none (some cs) s b = connect_to-Balanced (some cs) s b
  connect_again-Balanced raw none none s b = b

  reconnect-Balanced : (raw : ConnStr) (s : Conn M) → Balanced s → BalancedResult (reconnect raw s)
  unfolding reconnect
  reconnect-Balanced raw s b =
      let c = clear-Balanced s b in
      let s' = (clear_all_result_set s).1 in
      ground (arith, c, connect_again-Balanced raw s'.str_db s'.db_con s' c)

  check_connect-Balanced :
      (raw : ConnStr) (keep fix : Bool) (s : Conn M)
      → Balanced s
      → BalancedResult (check_connect raw keep fix s)
  unfolding check_connect
  check_connect-Balanced raw keep fix s b =
      let c = clear-Balanced s b in
      ground (arith, c, reconnect-Balanced raw (ping_code (clear_all_result_set s).1).1 c)

  end_execute-Balanced : (need : Bool) (s : Conn M) → Balanced s → Balanced (end_execute need s).1
  unfolding end_execute
  end_execute-Balanced true s b = b
  end_execute-Balanced false s b = clear-Balanced s b

  retry-Balanced :
      (raw : ConnStr) (sql : Bytes) (need : Bool) (error : ℕ) (s : Conn M)
      → Balanced s
      → BalancedResult (retry raw sql need error s)
  unfolding retry
  retry-Balanced raw sql need error s b = elim (Option-cases (reconnect raw s)) [
    | inl e ↦ rw e tt
    | inr ((rc, s'), e) ↦
        let b' : Balanced s' = rw e at (reconnect-Balanced raw s b) in
        rw e (ground (arith, b', end_execute-Balanced need (run_query sql s').1 b'))
  ]

  execute-Balanced :
      (raw : ConnStr) (sql : Bytes) (need : Bool) (s : Conn M)
      → Balanced s
      → BalancedResult (execute raw sql need s)
  unfolding execute
  execute-Balanced raw sql need s b = elim (Option-cases (reconnect raw s)) [
    | inl e ↦ rw e (ground arith)
    | inr ((rc, s1), e) ↦
        let b1 : Balanced s1 = rw e at (reconnect-Balanced raw s b) in
        let c = clear-Balanced s1 b1 in
        let s2 = (run_query sql (clear_all_result_set s1).1).1 in
        let error = (run_query sql (clear_all_result_set s1).1).0 in
        rw e (
          ground
            (arith, b1, c, end_execute-Balanced need s2 c, retry-Balanced raw sql need error s2 c))
  ]

  open_result-Balanced : (s : Conn M) → Settled s → Balanced (open_result s).1
  unfolding open_result
  open_result-Balanced s (e, b) =
      let r = (M.store_result s.mysql).1 in
      let kept = log_stored-held r s.stored ∙ ap (◌++◌ (held r)) b in
      elim (Option-cases r) [
        | inl n ↦ rw (n, open_result) kept
        | inr (x, n) ↦ rw (n, open_result) kept
      ]

  get_record_set-Balanced : (s : Conn M) → Balanced s → Balanced (get_record_set s).1
  unfolding get_record_set next_open
  get_record_set-Balanced s b = elim (Option-cases s.myres) [
    | inl n ↦ let d : Settled s = (n, rw n at b) in ground (arith, n, open_result-Balanced s d)
    | inr (r, n) ↦
        let h = (M.next_result s.mysql).0 in
        let f = free_myres-Settled s b in
        let o = open_result-Balanced (record (free_myres s) { mysql = h }) f in
        ground (arith, n, o, Settled-Balanced (free_myres s) f)
  ]

  end_transaction-Balanced :
      (call : M.Handle → M.Handle × Bool) (s : Conn M)
      → Balanced s
      → Balanced (end_transaction call s).1
  unfolding end_transaction
  end_transaction-Balanced call s b = ground (arith, clear-Balanced s b)

  pub disconnect-Settled : (s : Conn M) → Balanced s → Settled (disconnect s).1
  unfolding disconnect
  disconnect-Settled s b = clear-Settled s b

  map-Balanced :
      (o : Result M) (s' : Conn M)
      → BalancedResult o
      → Option.map (λ r. r.1) o ≡ some s'
      → Balanced s'
  map-Balanced none s' b e = cc
  map-Balanced (some (c, s)) s' b e = let e' : s ≡ s' = ground arith in rw (← e') b

  pub step-Balanced :
      (raw : ConnStr) (c : Call) (s s' : Conn M) → Balanced s → step raw c s ≡ some s' → Balanced s'
  unfolding step commit rollback
  step-Balanced raw (connects str) s s' b e = map-Balanced _ s' (connect-Balanced raw str s b) e
  step-Balanced raw (executes sql need) s s' b e =
      map-Balanced _ s' (execute-Balanced raw sql need s b) e
  step-Balanced raw (checks keep fix) s s' b e =
      map-Balanced _ s' (check_connect-Balanced raw keep fix s b) e
  step-Balanced raw reconnects s s' b e = map-Balanced _ s' (reconnect-Balanced raw s b) e
  step-Balanced raw gets_record_set s s' b e =
      map-Balanced (some (0, (get_record_set s).1)) s' (get_record_set-Balanced s b) e
  step-Balanced raw commits s s' b e =
      map-Balanced (some (commit s)) s' (end_transaction-Balanced M.commit_fails s b) e
  step-Balanced raw rolls_back s s' b e =
      map-Balanced (some (rollback s)) s' (end_transaction-Balanced M.rollback_fails s b) e
  step-Balanced raw disconnects s s' b e =
      map-Balanced (some (disconnect s)) s'
        (Settled-Balanced (disconnect s).1 (disconnect-Settled s b)) e

  pub run-Balanced :
      (raw : ConnStr) (cs : List Call) (s s' : Conn M)
      → Balanced s
      → run raw cs s ≡ some s'
      → Balanced s'
  unfolding run
  run-Balanced raw [] s s' b e = let e' : s ≡ s' = ground arith in rw (← e') b
  run-Balanced raw (c ∷ cs) s s' b e = elim (Option-cases (step raw c s)) [
    | inl n ↦ ground arith
    | inr (t, n) ↦ run-Balanced raw cs t s' (step-Balanced raw c s t b n) (ground arith)
  ]

  -- Whatever calls a client makes on a new connection, every result that the library handed out
  -- has been freed once, but for the one that the connection holds; and after `disconnect` all
  -- have been.
  run-new_conn-Balanced :
      (raw : ConnStr) (h : M.Handle) (cs : List Call) (s : Conn M)
      → run raw cs (new_conn h) ≡ some s
      → Balanced s
        × ((disconnect s).1.myres ≡ none)
        × ((disconnect s).1.stored ≡ (disconnect s).1.freed)
  run-new_conn-Balanced raw h cs s e =
      let b = run-Balanced raw cs (new_conn h) s (unfold new_conn in refl) e in
      (b, (disconnect-Settled s b).0, (disconnect-Settled s b).1)

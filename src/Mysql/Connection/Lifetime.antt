-- ===== src/Mysql/Connection/Lifetime.antt =====
-- A connection from its constructor to its destructor.
use sysmonitor.Base.{
  ◌≡◌, refl, false, List, [], ◌∷◌, none, some, arith, ◌==◌, Bool-cases, Option-cases, inl, inr, ◌⊎◌,
}
use mathlib.Core.Option
use sysmonitor.Base.Text.{Bytes}
use sysmonitor.ConnString.{ConnStr}
use sysmonitor.Rc.{rc_s_open, rc_s_unknown}
use sysmonitor.Mysql.Api.{MysqlApi}
use sysmonitor.Mysql.Connection.{
  Conn, new_conn, connect, disconnect, destroy, reconnect, check_connect, execute, end_transaction,
  commit, rollback, Result, get_record_set,
}
use sysmonitor.Mysql.Connection.Status.{connect-Connects}
use sysmonitor.Mysql.Connection.Ledger.{
  Balanced, Call, step, run, connects, executes, checks, reconnects, gets_record_set, commits,
  rolls_back, disconnects, Settled, disconnect-Settled, run-Balanced, step-Balanced,
  Settled-Balanced,
}
use sysmonitor.Mysql.Connection.Opened.{
  Opened, OpenedResult, connect-Opened, reconnect-Opened, check_connect-Opened, execute-Opened,
  get_record_set-Opened, commit-Opened, rollback-Opened,
}

module _ {M : MysqlApi} where
  -- An open connection, or one that holds no result.
  Alive : Conn M → Type 0
  Alive s = Opened s ⊎ Settled s

  map-Opened :
      (o : Result M) (s' : Conn M) → OpenedResult o → Option.map (λ r. r.1) o ≡ some s' → Alive s'
  unfolding Alive
  map-Opened none s' b e = cc
  map-Opened (some (c, s)) s' b e = let e' : s ≡ s' = ground arith in inl (rw (← e') b)

  same-Alive : (s s' : Conn M) → Settled s → some s ≡ some s' → Alive s'
  unfolding Alive
  same-Alive s s' d e = let e' : s ≡ s' = ground (arith, e) in rw (← e') (inr d)

  disconnect-Alive : (s s' : Conn M) → Balanced s → some (disconnect s).1 ≡ some s' → Alive s'
  disconnect-Alive s s' b e = same-Alive (disconnect s).1 s' (disconnect-Settled s b) e

  step-Opened :
      (raw : ConnStr) (c : Call) (s s' : Conn M)
      → Balanced s
      → Opened s
      → step raw c s ≡ some s'
      → Alive s'
  unfolding step commit rollback
  step-Opened raw (connects str) s s' b o e = map-Opened _ s' (connect-Opened raw str s o) e
  step-Opened raw (executes sql need) s s' b o e =
      map-Opened _ s' (execute-Opened raw sql need s o) e
  step-Opened raw (checks keep fix) s s' b o e =
      map-Opened _ s' (check_connect-Opened raw keep fix s o) e
  step-Opened raw reconnects s s' b o e = map-Opened _ s' (reconnect-Opened raw s o) e
  step-Opened raw gets_record_set s s' b o e =
      map-Opened (some (0, (get_record_set s).1)) s' (get_record_set-Opened s o) e
  step-Opened raw commits s s' b o e = map-Opened (some (commit s)) s' (commit-Opened s o) e
  step-Opened raw rolls_back s s' b o e = map-Opened (some (rollback s)) s' (rollback-Opened s o) e
  step-Opened raw disconnects s s' b o e = disconnect-Alive s s' b e

  connect-Alive :
      (raw : ConnStr) (str : Bytes) (s s' : Conn M)
      → Settled s
      → Option.map (λ r. r.1) (connect raw str s) ≡ some s'
      → Alive s'
  unfolding Alive
  connect-Alive raw str s s' d e = elim (Option-cases (connect raw str s)) [
    | inl n ↦ absurd (ground (arith, n, e))
    | inr ((c, t), n) ↦
        let e' : t ≡ s' = ground (arith, n, e) in
        let alive : Alive t = elim (connect-Connects raw str s t c n) [
          | inl (x, y, same) ↦ rw same (inr d)
          | inr (inl (x, y, z, same)) ↦ rw same (inr d)
          | inr (inr (x, y, z, opened)) ↦ inl opened
        ] in
        rw (← e') alive
  ]

  -- A connection that is not open stays as it is, but for `connect` and `disconnect`.
  step-closed :
      (raw : ConnStr) (c : Call) (s s' : Conn M)
      → Settled s
      → (s.status == rc_s_open) ≡ false
      → step raw c s ≡ some s'
      → Alive s'
  unfolding step execute check_connect reconnect get_record_set commit rollback end_transaction
  step-closed raw (connects str) s s' d k e = connect-Alive raw str s s' d e
  step-closed raw disconnects s s' d k e = disconnect-Alive s s' (Settled-Balanced s d) e
  step-closed raw (executes sql need) s s' d k e = same-Alive s s' d (ground (arith, k, e))
  step-closed raw (checks keep fix) s s' d k e = same-Alive s s' d (ground (arith, k, e))
  step-closed raw reconnects s s' d k e = same-Alive s s' d (ground (arith, k, e))
  step-closed raw gets_record_set s s' d k e = same-Alive s s' d (ground (arith, k, e))
  step-closed raw commits s s' d k e = same-Alive s s' d (ground (arith, k, e))
  step-closed raw rolls_back s s' d k e = same-Alive s s' d (ground (arith, k, e))

  step-Alive :
      (raw : ConnStr) (c : Call) (s s' : Conn M)
      → Balanced s
      → Alive s
      → step raw c s ≡ some s'
      → Alive s'
  unfolding Alive
  step-Alive raw c s s' b (inl o) e = step-Opened raw c s s' b o e
  step-Alive raw c s s' b (inr d) e = elim (Bool-cases (s.status == rc_s_open)) [
    | inl o ↦ step-Opened raw c s s' b (ground (arith, o)) e
    | inr k ↦ step-closed raw c s s' d k e
  ]

  run-Alive :
      (raw : ConnStr) (cs : List Call) (s s' : Conn M)
      → Balanced s
      → Alive s
      → run raw cs s ≡ some s'
      → Alive s'
  unfolding run
  run-Alive raw [] s s' b a e = let e' : s ≡ s' = ground arith in rw (← e') a
  run-Alive raw (c ∷ cs) s s' b a e = elim (Option-cases (step raw c s)) [
    | inl n ↦ ground arith
    | inr (t, n) ↦
        run-Alive raw cs t s' (step-Balanced raw c s t b n) (step-Alive raw c s t b a n)
          (ground arith)
  ]

  destroy-Settled : (s : Conn M) → Balanced s → Alive s → Settled (destroy s)
  unfolding destroy Alive
  destroy-Settled s b a = elim (Bool-cases (s.status == rc_s_unknown)) [
    | inr k ↦ rw k (disconnect-Settled s b)
    | inl u ↦ elim a [ inl o ↦ absurd (ground (arith, u, o)) | inr d ↦ rw u d ]
  ]

  -- Whatever calls a client makes on a new connection, every result that the library handed out
  -- has been freed once, but for the one that the connection holds; and after the destructor it
  -- holds none, and all have been, also where the connection was never opened, has been
  -- disconnected before, or has lost its server.
  pub run-destroy :
      (raw : ConnStr) (h : M.Handle) (cs : List Call) (s : Conn M)
      → run raw cs (new_conn h) ≡ some s
      → Balanced s × ((destroy s).myres ≡ none) × ((destroy s).stored ≡ (destroy s).freed)
  unfolding Alive
  run-destroy raw h cs s e =
      let fresh : Settled (new_conn {M = M} h) = unfold new_conn in (refl, refl) in
      let b = run-Balanced raw cs (new_conn h) s (Settled-Balanced (new_conn h) fresh) e in
      let a = run-Alive raw cs (new_conn h) s (Settled-Balanced (new_conn h) fresh) (inr fresh) e in
      let (none_held, all_freed) = destroy-Settled s b a in (b, none_held, all_freed)

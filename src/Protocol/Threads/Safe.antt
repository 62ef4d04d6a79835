-- ===== src/Protocol/Threads/Safe.antt =====
-- A use of a deleted node, in a run of the two threads.
use mathlib.Core.Path.{subst}
use sysmonitor.Base.{ℕ, suc, ◌-◌, ◌≤◌, ◌≡◌, ap, arith, length, inl, inr}
use sysmonitor.Protocol.Threads.{
  node, begun, rests, trimming, Threads, is_long, trims_one, Crashes, deleted, fresh, Reach,
  at_once, later,
}
use sysmonitor.Protocol.Threads.Order.{
  FirstOrDeleted, Holds, Ascends, stands, Reach-Kept, find_node-Above,
}

-- A turn of the timer that begins while a client's read has its iterator and not yet its copy, and
-- finds ten snapshots or more, can delete the node that the read copies next.
pub Reach-crash :
    {t : Threads} (n : ℕ)
    → Reach fresh t
    → t.reader ≡ begun n
    → t.writer ≡ rests
    → 10 ≤ length t.list_buf
    → (u : Threads) × Reach t u × Crashes u
unfolding Holds FirstOrDeleted Ascends
Reach-crash {t} n r b w l = elim (stands t (begun n) (Reach-Kept r) b).1 [
  | inr above ↦ (t, at_once, deleted n b (find_node-Above n t.list_buf above))
  | inl (s, q, e) ↦
      let k : length t.list_buf - 5 ≡ suc (length t.list_buf - 6) = omega (arith, l) in
      let (above, rest) = subst Ascends e (Reach-Kept r).ascends in
      let counted = is_long w l in
      let gone = trims_one (length t.list_buf - 6) (node n s) q (ap trimming k) e in
      (_, later (later at_once counted) gone, deleted n b (find_node-Above n q above))
]

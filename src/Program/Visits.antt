-- ===== src/Program/Visits.antt =====
-- A client's visit: it connects, turns are made, and it asks as often.
use mathlib.Core.Path.{subst}
use sysmonitor.Base.{
  ℕ, zero, suc, ◌<◌, ◌≡◌, refl, sym, ap, ◌∙◌, Bool, true, List, [], ◌∷◌, ◌++◌, Option, some,
  append-nil, append_assoc, length-append, replicate, ◌+◌, ◌≤◌, map, length, arith, if_true,
}
use sysmonitor.Base.Int.{ℤ, pos}
use sysmonitor.Base.Text.{Bytes, codes}
use sysmonitor.Log.Fits.{LogFits, log-fits, past-LogFits}
use sysmonitor.Monitor.{Monitor, Slots}
use sysmonitor.Monitor.Slots.{monitor_of}
use sysmonitor.Protocol
use sysmonitor.Protocol.{snapshot, new_protocol, rset_list_buf}
use sysmonitor.Protocol.Writer.{Json}
use sysmonitor.Server.{
  Server, Host, later, Event, accepts, comes, turn, new_server, new_client, on_accept, serve,
  handle,
}
use sysmonitor.Server.Clients.{serve-some}
use sysmonitor.Server.Order.{moderate-short}
use sysmonitor.Server.Delivery.{Sendable, AllSendable}
use sysmonitor.Program.{Program, connects, sends, ticks, Happens, fills, events, run}

-- The snapshot of the monitors of a list of types, each by what its class makes of its array.
unfoldable pub snapshot_of : (J : Json) → Bool → (Monitor → J.Value → J.Value) → List ℤ → Bytes
snapshot_of J win32 env types = snapshot J (fills J env (map (monitor_of win32) types))

-- What the callbacks find `n` events later.
unfoldable pub later_by : ℕ → Host → Host
later_by zero h = h
later_by (suc n) h = later_by n (later h)

pub later_by-LogFits :
    (n : ℕ) (host : Host) → LogFits host.logger → LogFits (later_by n host).logger
unfolding later_by later
later_by-LogFits zero host logs = logs
later_by-LogFits (suc n) host logs =
    later_by-LogFits n (later host) (past-LogFits 2 host.logger logs)

module _ (J : Json) where
  abbrev pub Fillers : Type 0
  Fillers = List (Option (J.Value → J.Value))

  turns : List Fillers → List (Event J)
  turns [] = []
  turns (ms ∷ mss) = turn ms ∷ turns mss

  rset_list_buf-short : (q : List Bytes) → length q < 10 → rset_list_buf 10 q ≡ q
  unfolding rset_list_buf
  rset_list_buf-short q h = ground (arith, h)

  abbrev pub queued : Server → List Bytes → Server
  queued s q = record s { proto_manage = record { checked = s.proto_manage.checked; list_buf = q } }

  handle-turn :
      (host : Host) (ms : Fillers) (s : Server)
      → LogFits host.logger
      → Sendable (snapshot J ms)
      → handle {J = J} host (turn ms) s
        ≡ some (queued s (rset_list_buf 10 s.proto_manage.list_buf ++ snapshot J ms ∷ []))
  unfolding handle Protocol.write
  handle-turn host ms s logs short =
      let (w, line) =
        log-fits host.logger 0 host.logger.log_flag (codes "write:" ++ snapshot J ms) logs
          (moderate-short (codes "write:") (snapshot J ms) (omega arith) short.2) in
      rw (handle, line) refl

  -- Turns that leave the queue at ten snapshots or fewer put theirs behind it.
  serve-turns :
      (host : Host) (mss : List Fillers) (es : List (Event J)) (s : Server)
      → LogFits host.logger
      → AllSendable (map (snapshot J) mss)
      → length s.proto_manage.list_buf + length mss ≤ 10
      → serve host (turns mss ++ es) s
        ≡ serve
            (later_by (length mss) host)
            es
            (queued s (s.proto_manage.list_buf ++ map (snapshot J) mss))
  unfolding turns later_by later
  serve-turns host [] es s logs ok h =
      ap (λ q. serve host es (queued s q)) (sym (append-nil s.proto_manage.list_buf))
  serve-turns host (ms ∷ mss) es s logs (short, oks) h =
      let q = s.proto_manage.list_buf in
      let keep = rset_list_buf-short q (omega (arith, h)) in
      let q' : List Bytes = q ++ snapshot J ms ∷ [] in
      let len = length-append q (snapshot J ms ∷ []) in
      let rest = later_by (length mss) (later host) in
      serve-some host (turn ms) (turns mss ++ es) s _ (handle-turn host ms s logs short)
      ∙ ap (λ r. serve (later host) (turns mss ++ es) (queued s (r ++ snapshot J ms ∷ []))) keep
      ∙ serve-turns (later host) mss es (queued s q') (past-LogFits 2 host.logger logs) oks
          (omega (arith, h, len))
      ∙ ap (λ r. serve rest es (queued s r))
          (append_assoc q (snapshot J ms ∷ []) (map (snapshot J) mss))

  pub fills_of : List (Monitor → J.Value → J.Value) → Slots → List Fillers
  fills_of [] slots = []
  fills_of (env ∷ envs) slots = fills J env slots ∷ fills_of envs slots

  events-ticks :
      (p : Program) (envs : List (Monitor → J.Value → J.Value)) (hs : List (Happens J))
      → p.has_timer ≡ true
      → events J p (map ticks envs ++ hs) ≡ turns (fills_of envs p.slots) ++ events J p hs
  unfolding events turns fills_of
  events-ticks p [] hs t = refl
  events-ticks p (env ∷ envs) hs t =
      if_true _ _ t ∙ ap (◌∷◌ (turn (fills J env p.slots))) (events-ticks p envs hs t)

  events-sends :
      (p : Program) (n fd : ℕ) (input : Bytes)
      → events J p (replicate n (sends fd input)) ≡ replicate n (comes fd input)
  unfolding events
  events-sends p zero fd input = refl
  events-sends p (suc n) fd input = ap (◌∷◌ (comes fd input)) (events-sends p n fd input)

  pub length-fills_of :
      (envs : List (Monitor → J.Value → J.Value)) (slots : Slots)
      → length (fills_of envs slots) ≡ length envs
  unfolding fills_of
  length-fills_of [] slots = refl
  length-fills_of (env ∷ envs) slots = ap suc (length-fills_of envs slots)

  -- The snapshots of the turns, by what the classes of monitors make of their arrays in each.
  unfoldable pub snapshots : Bool → List ℤ → List (Monitor → J.Value → J.Value) → List Bytes
  snapshots win32 types [] = []
  snapshots win32 types (env ∷ envs) = snapshot_of J win32 env types ∷ snapshots win32 types envs

  pub snapshots-fills_of :
      (win32 : Bool) (types : List ℤ) (envs : List (Monitor → J.Value → J.Value))
      → map (snapshot J) (fills_of envs (map (monitor_of win32) types)) ≡ snapshots win32 types envs
  unfolding snapshots fills_of snapshot_of
  snapshots-fills_of win32 types [] = refl
  snapshots-fills_of win32 types (env ∷ envs) =
      ap (◌∷◌ (snapshot_of J win32 env types)) (snapshots-fills_of win32 types envs)

  pub length-snapshots :
      (win32 : Bool) (types : List ℤ) (envs : List (Monitor → J.Value → J.Value))
      → length (snapshots win32 types envs) ≡ length envs
  unfolding snapshots
  length-snapshots win32 types [] = refl
  length-snapshots win32 types (env ∷ envs) = ap suc (length-snapshots win32 types envs)

  -- A client connects, ten turns at most are made, and it asks as often.
  pub visit : ℕ → List ℕ → Bytes → List (Monitor → J.Value → J.Value) → List (Happens J)
  visit fd memory input envs =
      connects (pos fd) memory ∷ (map ticks envs ++ replicate (length envs) (sends fd input))

  connect-some :
      (host : Host) (fd : ℕ) (memory : List ℕ) (s : Server)
      → LogFits host.logger
      → length (host.peer 0) ≤ 100
      → handle {J = J} host (accepts (pos fd) memory) s
        ≡ some (record s { clients = new_client fd memory ∷ s.clients })
  unfolding handle on_accept new_client
  connect-some host fd memory s logs near =
      let front = codes "Accepted connection from addr:" in
      let (w, line) =
        log-fits host.logger 0 host.logger.log_flag (front ++ host.peer 0) logs
          (omega (arith, near, length-append front (host.peer 0))) in
      rw (on_accept, line) refl

  pub run-visit :
      (p : Program) (fd : ℕ) (memory : List ℕ) (input : Bytes)
      (envs : List (Monitor → J.Value → J.Value)) (q : List Bytes)
      → p.server ≡ new_server
      → p.has_timer ≡ true
      → LogFits p.host.logger
      → length (p.host.peer 0) ≤ 100
      → length envs ≤ 10
      → map (snapshot J) (fills_of envs p.slots) ≡ q
      → AllSendable q
      → length q ≡ length envs
      → run J p (visit fd memory input envs)
        ≡ serve {J = J}
            (later_by (length (fills_of envs p.slots)) (later p.host))
            (replicate (length q) (comes fd input))
            (queued (record new_server { clients = new_client fd memory ∷ [] }) q)
  unfolding run visit events new_server new_protocol later
  run-visit p fd memory input envs q srv t logs near few snaps ok len =
      let s0 : Server = record new_server { clients = new_client fd memory ∷ [] } in
      let bound = length-fills_of envs p.slots in
      let last : List (Event J) = replicate (length q) (comes fd input) in
      let asked : List (Happens J) = replicate (length envs) (sends fd input) in
      let ticked : List (Happens J) = map ticks envs ++ asked in
      let evs : events J p ticked ≡ turns (fills_of envs p.slots) ++ last =
        events-ticks p envs asked t
        ∙ ap (◌++◌ (turns (fills_of envs p.slots))) (
            events-sends p (length envs) fd input
            ∙ ap (λ n. replicate n (comes fd input)) (sym len)) in
      ap (λ s. serve p.host (accepts (pos fd) memory ∷ events J p ticked) s) srv
      ∙ serve-some {J = J} p.host (accepts (pos fd) memory) (events J p ticked) new_server s0
          (connect-some p.host fd memory new_server logs near)
      ∙ ap (λ es. serve (later p.host) es s0) evs
      ∙ serve-turns (later p.host) (fills_of envs p.slots) last s0
          (past-LogFits 2 p.host.logger logs) (subst AllSendable (sym snaps) ok)
          (omega (arith, few, bound))
      ∙ ap
          (λ r. serve (later_by (length (fills_of envs p.slots)) (later p.host)) last (queued s0 r))
          snaps

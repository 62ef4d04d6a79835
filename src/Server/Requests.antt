-- ===== src/Server/Requests.antt =====
-- What one request does: the reply, the refusal, and the requests that overrun a buffer.
use sysmonitor.Base.{
  ℕ, ◌+◌, ◌≤◌, ◌<◌, ◌≡◌, inl, inr, refl, ap, ◌∙◌, Bool, true, false, List, [], ◌∷◌, Option, none,
  some, arith, length, Bool-cases,
}
use sysmonitor.Base.Text.{Bytes, text, contains}
use sysmonitor.Protocol.{Protocol, check_error}
use sysmonitor.Protocol.Read.{asks}
use sysmonitor.Log.Fits.{LogFits}
use sysmonitor.Server.{Client, Host, buffered_on_read, answer, buflen}
use sysmonitor.Server.Packet.{unpack, unpack-packet_head, buflen-room}
use sysmonitor.Server.Deliver.{
  holding, passes, length-holding, length-check_error, answer-next, answer-empty, answer-refused,
}
use sysmonitor.Server.Filled.{filled, text-filled, length-filled, buffered_on_read-filled}

-- What a request leaves of the queue, and what is sent.
pub data Took : List Bytes → List Bytes → Option Bytes → Type 0 where
  kept : (q : List Bytes) → Took q q none
  given :
      (first : Bytes) (q : List Bytes) (out : Bytes)
      → unpack out ≡ some first
      → Took (first ∷ q) q (some out)
  swallowed : (first : Bytes) (q : List Bytes) → Took (first ∷ q) q none

-- The oldest snapshot and the header are longer than `send_buf`.
abbrev pub Oversized : List Bytes → Type 0
Oversized q =
    (first : Bytes) × (rest : List Bytes) × (q ≡ first ∷ rest) × (buflen < length first + 7)

-- A client whose buffer is the one that `on_accept` gave it.
abbrev pub IsReady : Client → Type 0
IsReady c = (c.has_proto ≡ true) × (length c.buffer ≡ buflen)

unfoldable pub Served : Host → Bytes → Client → Protocol → Type 0
Served host input c p =
    (c' : Client) × (p' : Protocol) × (out : Option Bytes) × (buffered_on_read host input c p
      ≡ some (c', p', out))
    × IsReady c'
    × (c'.fd ≡ c.fd)
    × Took p.list_buf p'.list_buf out

passes-Took :
    (s : Bytes) (c : Client) (q : List Bytes) → length s + 7 ≤ buflen → Took (s ∷ q) q (passes s c)
unfolding passes buflen
passes-Took s c q h = elim (Bool-cases (contains (text (holding s c).buffer) check_error)) [
  | inl e ↦ rw e (swallowed s q)
  | inr e ↦ rw e (given s q _ (unpack-packet_head s (omega (arith, h))))
]

abbrev pub FrontFits : List Bytes → Type 0
FrontFits [] = Unit {0}
FrontFits (first ∷ rest) = length first + 7 ≤ buflen

Replied : Host → Client → Protocol → Type 0
Replied host c p =
    (c' : Client) × (p' : Protocol) × (out : Option Bytes) × (answer host c p ≡ some (c', p', out))
    × IsReady c'
    × (c'.fd ≡ c.fd)
    × Took p.list_buf p'.list_buf out

module _ (c : Client) (ready : IsReady c) where
  pub holding-IsReady : (s : Bytes) → length s + 7 ≤ buflen → IsReady (holding s c)
  unfolding holding
  holding-IsReady s h = (ready.0, length-holding s c (omega (arith, ready.1, h)) ∙ ready.1)

module _ (host : Host) (logs : LogFits host.logger) (c : Client) (ready : IsReady c) where
  answer-kept : (p : Protocol) → asks (text c.buffer) ≡ false → Replied host c p
  unfolding Replied holding
  answer-kept p a = (
    holding check_error c,
    p,
    none,
    answer-refused host logs c ready.1 p a,
    holding-IsReady c ready check_error (omega (arith, length-check_error, buflen-room)),
    refl,
    kept p.list_buf,
  )

  answer-took :
      (checked : Bool) (q : List Bytes)
      → asks (text c.buffer) ≡ true
      → FrontFits q
      → Replied host c (record { checked = checked; list_buf = q })
  unfolding Replied holding
  answer-took checked [] a h =
      let (checked', e) = answer-empty host logs c ready.1 checked a in
      (
        holding [] c,
        record { checked = checked'; list_buf = [] },
        none,
        e,
        holding-IsReady c ready [] (omega (arith, buflen-room)),
        refl,
        kept [],
      )
  answer-took checked (first ∷ rest) a h =
      let (checked', e) = answer-next host logs c ready.1 checked first rest a h in
      (
        holding first c,
        record { checked = checked'; list_buf = rest },
        passes first c,
        e,
        holding-IsReady c ready first h,
        refl,
        passes-Took first c rest h,
      )

  answer-Replied : (p : Protocol) → FrontFits p.list_buf → Replied host c p
  answer-Replied p h = elim (Bool-cases (asks (text c.buffer))) [
    | inl a ↦ answer-took p.checked p.list_buf a h
    | inr a ↦ answer-kept p a
  ]

module _ (c : Client) (ready : IsReady c) where
  pub filled-IsReady : (input : Bytes) → length input < buflen → IsReady (filled input c)
  unfolding filled
  filled-IsReady input h = (ready.0, length-filled c ready.1 input h)

module _ (host : Host) (logs : LogFits host.logger) (c : Client) (ready : IsReady c) where
  Replied-Served :
      (x : ℕ) (input : Bytes) (p : Protocol)
      → length (x ∷ input) < buflen
      → Replied host (filled (x ∷ input) c) p
      → Served host (x ∷ input) c p
  unfolding Replied Served filled
  Replied-Served x input p h (c', p', out, e, r, same, took) =
      (c', p', out, buffered_on_read-filled c ready.1 host x input p ready.0 h ∙ e, r, same, took)

  pub buffered_on_read-Served :
      (input : Bytes) (p : Protocol)
      → length input < buflen
      → FrontFits p.list_buf
      → Served host input c p
  unfolding Served buffered_on_read
  buffered_on_read-Served [] p h f = (c, p, none, refl, ready, refl, kept p.list_buf)
  buffered_on_read-Served (x ∷ input) p h f =
      Replied-Served x input p h
        (answer-Replied host logs (filled (x ∷ input) c) (filled-IsReady c ready (x ∷ input) h) p f)

  pub buffered_on_read-refused :
      (input : Bytes) (p : Protocol)
      → length input < buflen
      → asks (text input) ≡ false
      → (c' : Client) × (buffered_on_read host input c p ≡ some (c', p, none)) × IsReady c'
  unfolding buffered_on_read filled holding
  buffered_on_read-refused [] p h a = (c, refl, ready)
  buffered_on_read-refused (x ∷ input) p h a =
      let c' = filled (x ∷ input) c in
      let a' : asks (text c'.buffer) ≡ false = ap asks (text-filled (x ∷ input) c) ∙ a in
      let r' = filled-IsReady c ready (x ∷ input) h in
      (
        holding check_error c',
        buffered_on_read-filled c ready.1 host x input p ready.0 h
            ∙ answer-refused host logs c' r'.1 p a',
        holding-IsReady c' r' check_error (omega (arith, length-check_error, buflen-room)),
      )

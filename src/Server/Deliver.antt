-- ===== src/Server/Deliver.antt =====
-- One reply, from the client's buffer to the packet.
use sysmonitor.Base.{
  ℕ, ◌+◌, ◌≤◌, ◌<◌, ◌≡◌, refl, sym, ap, ◌∙◌, Bool, true, false, not, ◌&&◌, List, [], ◌∷◌, ◌++◌,
  Option, none, some, arith, if◌then◌else◌, ltb, length, drop, length-append, append_assoc,
  Bool-cases, inl, inr,
}
use sysmonitor.Base.Int.{pos}
use sysmonitor.Log.{Logger, log}
use sysmonitor.Log.Fits.{LogFits, log-fits}
use sysmonitor.Base.Text.{Bytes, codes, text, length-text, strstr, contains}
use sysmonitor.Port.{write}
use sysmonitor.Port.Write.{write-fits, write-over, length-written}
use sysmonitor.Protocol.{Protocol, Reply, check_error, read}
use sysmonitor.Protocol.Read.{asks, read-next, read-empty, read-refused}
use sysmonitor.Server.{Client, Host, packet, packet_head, deliver, answer, buflen}
use sysmonitor.Server.Packet.{packet-fits, packet-empty, packet-over, buflen-room}

-- The client's buffer, a text and its NUL in front of what it held.
unfoldable pub holding : Bytes → Client → Client
holding s c = record c { buffer = s ++ 0 ∷ drop (length (s ++ 0 ∷ [])) c.buffer }

-- Is the text sent?
unfoldable pub passes : Bytes → Client → Option Bytes
passes s c =
    if not (contains (text (holding s c).buffer) check_error)
    then some (packet_head (length s + 1) ++ (s ++ 0 ∷ []))
    else none

put-text :
    (s : Bytes) (c : Client)
    → length s < length c.buffer
    → write c.buffer (s ++ 0 ∷ []) ≡ some (holding s c).buffer
unfolding holding
put-text s c h =
    let size = length-append s (0 ∷ []) in
    write-fits c.buffer (s ++ 0 ∷ []) (omega (arith, size))
    ∙ ap some (append_assoc s (0 ∷ []) (drop (length (s ++ 0 ∷ [])) c.buffer))

pub length-holding :
    (s : Bytes) (c : Client)
    → length s < length c.buffer
    → length (holding s c).buffer ≡ length c.buffer
unfolding holding
length-holding s c h =
    let size = length-append s (0 ∷ []) in
    ap length (sym (append_assoc s (0 ∷ []) (drop (length (s ++ 0 ∷ [])) c.buffer)))
    ∙ length-written c.buffer (s ++ 0 ∷ []) (omega (arith, size))

pub length-check_error : length check_error ≡ 12
unfolding check_error
length-check_error = refl

passes-check_error : (c : Client) → passes check_error c ≡ none
unfolding passes holding check_error strstr text
passes-check_error c = refl

-- A line that holds the text of a client's buffer is logged, whatever is in front of it.
buffer-logged :
    (l : Logger) (i : ℕ) (front : Bytes) (b : List ℕ)
    → LogFits l
    → length front ≤ 100
    → length b ≡ buflen
    → (w : Option (Bytes × Bytes)) × (log l i (pos 1) (front ++ text b) ≡ some w)
unfolding buflen
buffer-logged l i front b fits short full =
    log-fits l i (pos 1) (front ++ text b) fits
      (omega (arith, short, full, length-text b, length-append front (text b)))

module _ (host : Host) (logs : LogFits host.logger) (c : Client)
    (full : length c.buffer ≡ buflen) where
  deliver-written :
      (s : Bytes) (count : ℕ) (resets : Bool) (out : Bytes)
      → length s < buflen
      → packet count (holding s c).buffer ≡ some out
      → deliver host.logger (record { count = count; buf = s; resets = resets }) c
        ≡ some (
          holding s c,
          if ltb 0 count && not (contains (text (holding s c).buffer) check_error)
              then some out
              else none,
        )
  unfolding deliver holding
  deliver-written s count resets out h e =
      let (w, line) =
        buffer-logged host.logger 1 (codes "read data---") (holding s c).buffer logs (omega arith)
          (length-holding s c (omega (arith, h, full)) ∙ full) in
      rw (put-text s c (omega (arith, h, full)), deliver, line, e) refl

  pub deliver-fits :
      (s : Bytes) (resets : Bool)
      → length s + 7 ≤ buflen
      → deliver host.logger (record { count = length s + 1; buf = s; resets = resets }) c
        ≡ some (holding s c, passes s c)
  unfolding passes holding
  deliver-fits s resets h =
      let sent : ltb 0 (length s + 1) ≡ true = ground arith in
      let packed = packet-fits s (drop (length (s ++ 0 ∷ [])) c.buffer) h in
      deliver-written s (length s + 1) resets _ (omega (arith, h)) packed ∙ rw sent refl

  pub deliver-over :
      (s : Bytes) (resets : Bool)
      → buflen < length s + 7
      → deliver host.logger (record { count = length s + 1; buf = s; resets = resets }) c ≡ none
  unfolding deliver holding
  deliver-over s resets h = elim (Bool-cases (ltb (length s) buflen)) [
    | inl t ↦
        let room : length s < length c.buffer = ground (arith, t, full) in
        let (w, line) =
          buffer-logged host.logger 1 (codes "read data---") (holding s c).buffer logs (omega arith)
            (length-holding s c room ∙ full) in
        let over = packet-over s (drop (length (s ++ 0 ∷ [])) c.buffer) h in
        rw (put-text s c room, deliver, line, over) refl
    | inr t ↦
        let long : length c.buffer < length (s ++ 0 ∷ []) =
          ground (arith, t, full, length-append s (0 ∷ [])) in
        rw (write-over c.buffer (s ++ 0 ∷ []) long, deliver) refl
  ]

  pub deliver-empty :
      (resets : Bool)
      → deliver host.logger (record { count = 0; buf = []; resets = resets }) c
        ≡ some (holding [] c, none)
  deliver-empty resets =
      deliver-written [] 0 resets _ (omega (arith, buflen-room))
        (packet-empty (holding [] c).buffer)

  answer-some :
      (p p' : Protocol) (r : Reply) (d : Client × Option Bytes)
      → read host.has_ndb (text c.buffer) p ≡ (r, p')
      → deliver host.logger r c ≡ some d
      → answer host c p ≡ some (d.0, p', d.1)
  unfolding answer
  answer-some p p' r d e h =
      let e0 : (read host.has_ndb (text c.buffer) p).0 ≡ r = ap (λ t. t.0) e in
      let e1 : (read host.has_ndb (text c.buffer) p).1 ≡ p' = ap (λ t. t.1) e in
      let (w, line) =
        buffer-logged host.logger 0 (codes "read data before---") c.buffer logs (omega arith)
          full in
      rw (answer, line, e0, h, e1) refl

  pub answer-next :
      (checked : Bool) (first : Bytes) (rest : List Bytes)
      → asks (text c.buffer) ≡ true
      → length first + 7 ≤ buflen
      → (checked' : Bool) × (answer host c (record { checked = checked; list_buf = first ∷ rest })
          ≡ some (holding first c, record { checked = checked'; list_buf = rest }, passes first c))
  unfolding answer
  answer-next checked first rest a h =
      let (resets, checked', e) = read-next host.has_ndb (text c.buffer) first checked rest a in
      (checked', answer-some _ _ _ _ e (deliver-fits first resets h))

  pub answer-over :
      (checked : Bool) (first : Bytes) (rest : List Bytes)
      → asks (text c.buffer) ≡ true
      → buflen < length first + 7
      → answer host c (record { checked = checked; list_buf = first ∷ rest }) ≡ none
  unfolding answer
  answer-over checked first rest a h =
      let (resets, checked', e) = read-next host.has_ndb (text c.buffer) first checked rest a in
      let e0 = ap (λ t. t.0) e in
      let (w, line) =
        buffer-logged host.logger 0 (codes "read data before---") c.buffer logs (omega arith)
          full in
      rw (answer, line, e0, deliver-over first resets h) refl

  pub answer-empty :
      (checked : Bool)
      → asks (text c.buffer) ≡ true
      → (checked' : Bool) × (answer host c (record { checked = checked; list_buf = [] })
          ≡ some (holding [] c, record { checked = checked'; list_buf = [] }, none))
  unfolding answer
  answer-empty checked a =
      let (resets, checked', e) = read-empty host.has_ndb (text c.buffer) checked a in
      (checked', answer-some _ _ _ _ e (deliver-empty resets))

  pub answer-refused :
      (p : Protocol)
      → asks (text c.buffer) ≡ false
      → answer host c p ≡ some (holding check_error c, p, none)
  unfolding answer
  answer-refused p a =
      let e = read-refused host.has_ndb (text c.buffer) p a in
      let size : length check_error ≡ 12 = length-check_error in
      let fits : length check_error + 7 ≤ buflen = omega (arith, size, buflen-room) in
      answer-some _ _ _ _ e (
        deliver-fits check_error false fits
        ∙ ap some (ap (λ o. (holding check_error c, o)) (passes-check_error c)))

-- ===== src/Server/Packet.antt =====
-- The packets that are sent, and their decoding.
use sysmonitor.Base.{
  ℕ, ◌+◌, ◌*◌, ◌-◌, ◌≤◌, ◌<◌, ◌≡◌, refl, sym, ap, ◌∙◌, true, ◌&&◌, List, [], ◌∷◌, ◌++◌, Option,
  none, some, arith, if◌then◌else◌, ◌==◌, length, take, drop, replicate, length-append,
  length-replicate, take-append_at, append_assoc, append-nil,
}
use sysmonitor.Base.Text.{Bytes}
use sysmonitor.Port.{write}
use sysmonitor.Port.Write.{write-fits, write-over}
use sysmonitor.Server.{little_endian, packet_head, packet, buflen}

-- The number that bytes stand for, the least first.
unfoldable pub from_little_endian : Bytes → ℕ
from_little_endian [] = 0
from_little_endian (x ∷ s) = x + 256 * from_little_endian s

-- The packet_fields of a packet: the version, and the body.
packet_fields : Bytes → Option (ℕ × ℕ × Bytes)
packet_fields (a ∷ b ∷ c ∷ d ∷ e ∷ f ∷ body) =
    some (from_little_endian (a ∷ b ∷ []), from_little_endian (c ∷ d ∷ e ∷ f ∷ []), body)
packet_fields _ = none

-- A packet of version 1 whose length is that of its body; the text in the body, its NUL left out.
unfoldable pub unpack : Bytes → Option Bytes
unfolding packet_fields
unpack s = elim (packet_fields s) [
  | none ↦ none
  | some (version, size, body) ↦
      if version == 1 && size == length body then some (take (size - 1) body) else none
]

from_little_endian-4 : (n : ℕ) → n < 4294967296 → from_little_endian (little_endian 4 n) ≡ n
unfolding from_little_endian little_endian
from_little_endian-4 n h = omega arith

length-packet_head : (n : ℕ) → length (packet_head n) ≡ 6
unfolding packet_head little_endian
length-packet_head n = refl

pub unpack-packet_head :
    (first : Bytes)
    → length first < 4294967295
    → unpack (packet_head (length first + 1) ++ (first ++ 0 ∷ [])) ≡ some first
unfolding unpack packet_head from_little_endian little_endian
unpack-packet_head first h =
    let size : from_little_endian (little_endian 4 (length first + 1)) ≡ length first + 1 =
      from_little_endian-4 (length first + 1) (omega arith) in
    let all : length (first ++ 0 ∷ []) ≡ length first + 1 =
      omega (arith, length-append first (0 ∷ [])) in
    let cut : take (length first + 1 - 1) (first ++ 0 ∷ []) ≡ first =
      take-append_at first (0 ∷ []) (length first + 1 - 1) (omega arith) in
    let same : (length first + 1 == length first + 1) ≡ true = ground arith in
    rw (size, all) (rw (same, cut) refl)

sent_whole : ℕ → Option (List ℕ) → Option Bytes
sent_whole n none = none
sent_whole n (some send_buf) = some (take n send_buf)

written-sent :
    (junk s : Bytes) → length s ≤ length junk → sent_whole (length s) (write junk s) ≡ some s
unfolding sent_whole
written-sent junk s h =
    rw (write-fits junk s h, take-append_at s (drop (length s) junk) (length s) refl) refl

take-reply :
    (first : Bytes) (rest : List ℕ) → take (length first + 1) (first ++ 0 ∷ rest) ≡ first ++ 0 ∷ []
take-reply first rest =
    let all : length (first ++ 0 ∷ []) ≡ length first + 1 =
      omega (arith, length-append first (0 ∷ [])) in
    ap (take (length first + 1)) (sym (append_assoc first (0 ∷ []) rest))
    ∙ take-append_at (first ++ 0 ∷ []) rest (length first + 1) all

packet-sent :
    (count : ℕ) (buffer : List ℕ)
    → packet count buffer
      ≡ sent_whole (count + 6) (write (replicate buflen 0) (packet_head count ++ take count buffer))
unfolding packet sent_whole
packet-sent count buffer = go (write (replicate buflen 0) (packet_head count ++ take count buffer))
  where
    go :
        (o : Option (List ℕ))
        → elim o [ none ↦ none | some send_buf ↦ some (take (count + 6) send_buf) ]
          ≡ sent_whole (count + 6) o
    go none = refl
    go (some b) = refl

pub length-body :
    (first : Bytes)
    → length (packet_head (length first + 1) ++ (first ++ 0 ∷ [])) ≡ length first + 1 + 6
length-body first = omega (
  arith,
  length-packet_head (length first + 1),
  length-append first (0 ∷ []),
  length-append (packet_head (length first + 1)) (first ++ 0 ∷ []),
)

-- The reply, in a buffer of any contents.
pub packet-fits :
    (first : Bytes) (rest : List ℕ)
    → length first + 7 ≤ buflen
    → packet (length first + 1) (first ++ 0 ∷ rest)
      ≡ some (packet_head (length first + 1) ++ (first ++ 0 ∷ []))
packet-fits first rest h =
    let body = packet_head (length first + 1) ++ (first ++ 0 ∷ []) in
    let size = length-body first in
    let room : length body ≤ length (replicate {A = ℕ} buflen 0) =
      omega (arith, h, size, length-replicate {A = ℕ} buflen 0) in
    packet-sent (length first + 1) (first ++ 0 ∷ rest)
    ∙ rw (take-reply first rest, sym size) (written-sent (replicate buflen 0) body room)

pub buflen-room : 24 ≤ buflen
unfolding buflen
buflen-room = omega arith

-- With no reply, an empty packet is made.
pub packet-empty : (buffer : List ℕ) → packet 0 buffer ≡ some (packet_head 0)
packet-empty buffer =
    let room : length (packet_head 0) ≤ length (replicate {A = ℕ} buflen 0) =
      omega (arith, length-packet_head 0, buflen-room, length-replicate {A = ℕ} buflen 0) in
    let sent = written-sent (replicate buflen 0) (packet_head 0) room in
    packet-sent 0 buffer ∙ rw (append-nil (packet_head 0), sym (length-packet_head 0)) sent

-- A reply that does not fit.
pub packet-over :
    (first : Bytes) (rest : List ℕ)
    → buflen < length first + 7
    → packet (length first + 1) (first ++ 0 ∷ rest) ≡ none
unfolding sent_whole
packet-over first rest h =
    let body = packet_head (length first + 1) ++ (first ++ 0 ∷ []) in
    let size = length-body first in
    let over : length (replicate {A = ℕ} buflen 0) < length body =
      omega (arith, h, size, length-replicate {A = ℕ} buflen 0) in
    packet-sent (length first + 1) (first ++ 0 ∷ rest)
    ∙ rw (take-reply first rest, write-over (replicate buflen 0) body over) refl

-- ===== src/Server.antt =====
-- SysMonitor/sys_monitor.cpp: the callbacks of the event loop and the thread that monitors. The
-- one protocol object is shared by all clients. `none` is a write outside a buffer, those of
-- `WriteLog` among them.
pub mod Packet
pub mod Deliver
pub mod Filled
pub mod Requests
pub mod Clients
pub mod Delivery
pub mod Order
pub mod Tests
use sysmonitor.Base.{
  ℕ, zero, suc, ◌+◌, ◌/◌, ◌%◌, Bool, true, false, not, ◌&&◌, List, [], ◌∷◌, ◌++◌, Option, none,
  some, ltb, ◌==◌, if◌then◌else◌, length, take, replicate,
}
use sysmonitor.Base.Int.{ℤ, pos, negsuc}
use sysmonitor.Base.Text.{Bytes, codes, text, contains}
use sysmonitor.Log.{Logger, log, past}
use sysmonitor.Port
use sysmonitor.Port.{put_nul}
use sysmonitor.Protocol
use sysmonitor.Protocol.{Protocol, Reply, read, check_error, new_protocol, snapshot}
use sysmonitor.Protocol.Writer.{Json}

-- `BUFLEN`
unfoldable pub buflen : ℕ
buflen = 4096

-- `proto_manage` is a pointer to the shared object, or NULL.
pub record Client : Type 0 where
  pub fd : ℕ
  pub has_proto : Bool
  pub buffer : List ℕ

-- What the callbacks find: the log, `m_thread_writelog` of the object 6, and the addresses and ports
-- of those who connect, in the order of the events.
pub record Host : Type 0 where
  pub logger : Logger
  pub has_ndb : Bool
  pub peer : ℕ → Bytes

-- Each event is followed by those to come, and logs twice at most.
unfoldable pub later : Host → Host
later h = record h { logger = past 2 h.logger; peer = λ i. h.peer (1 + i) }

-- A number in so many bytes, the least first.
unfoldable pub little_endian : ℕ → ℕ → Bytes
little_endian zero n = []
little_endian (suc k) n = n % 256 ∷ little_endian k (n / 256)

-- The packed PacketHead: a short and an int.
unfoldable pub packet_head : ℕ → Bytes
packet_head packet_len = little_endian 2 1 ++ little_endian 4 packet_len

-- The header and `count` bytes of the client's buffer, in `send_buf`; the bytes to be sent.
unfoldable pub packet : ℕ → List ℕ → Option Bytes
packet count buffer =
    elim (Port.write (replicate buflen 0) (packet_head count ++ take count buffer)) [
      | none ↦ none
      | some send_buf ↦ some (take (count + 6) send_buf)
    ]

-- What is left of `buffered_on_read` once `read` has replied: it copies its reply and a NUL into
-- the buffer that it was given, which is logged.
unfoldable pub deliver : Logger → Reply → Client → Option (Client × Option Bytes)
deliver l r c = elim (Port.write c.buffer (r.buf ++ 0 ∷ [])) [
  | none ↦ none
  | some buffer ↦ elim (log l 1 (pos 1) (codes "read data---" ++ text buffer)) [
    | none ↦ none
    | some line ↦ elim (packet r.count buffer) [
      | none ↦ none
      | some out ↦ some (
        record c { buffer = buffer },
        if ltb 0 r.count && not (contains (text buffer) check_error) then some out else none,
      )
    ]
  ]
]

-- The block under `if (client->proto_manage)`, after `buffer[buffer_len] = '\0'`.
unfoldable pub answer : Host → Client → Protocol → Option (Client × Protocol × Option Bytes)
answer h c p = elim (log h.logger 0 (pos 1) (codes "read data before---" ++ text c.buffer)) [
  | none ↦ none
  | some line ↦
      let (r, p') = read h.has_ndb (text c.buffer) p in
      elim (deliver h.logger r c) [ none ↦ none | some (c', out) ↦ some (c', p', out) ]
]

-- `buffered_on_read`, on the bytes that have come in: the client, the object, and what is sent.
unfoldable pub buffered_on_read :
    Host → Bytes → Client → Protocol → Option (Client × Protocol × Option Bytes)
buffered_on_read h [] c p = some (c, p, none)
buffered_on_read h (x ∷ input) c p =
    let filled = Port.write c.buffer (x ∷ input) in
    if c.has_proto
    then elim (put_nul (length (x ∷ input)) filled) [
      | none ↦ none
      | some buffer ↦ answer h (record c { buffer = buffer }) p
    ]
    else elim filled [ none ↦ none | some buffer ↦ some (record c { buffer = buffer }, p, none) ]

pub record Server : Type 0 where
  pub proto_manage : Protocol
  pub clients : List Client
  pub sent : List Bytes

-- What `main` sets up.
unfoldable pub new_server : Server
new_server = record { proto_manage = new_protocol; clients = []; sent = [] }

-- `new char[BUFLEN]`, whatever bytes the memory holds.
unfoldable pub new_client : ℕ → List ℕ → Client
new_client fd memory = record {
  fd = fd;
  has_proto = true;
  buffer = take buflen (memory ++ replicate buflen 0);
}

-- `on_accept`, given the result of `accept`.
unfoldable pub on_accept : Host → ℤ → List ℕ → Server → Option Server
on_accept h (negsuc e) memory s = some s
on_accept h (pos fd) memory s =
    elim (log h.logger 0 h.logger.log_flag (codes "Accepted connection from addr:" ++ h.peer 0)) [
      | none ↦ none
      | some line ↦ some (record s { clients = new_client fd memory ∷ s.clients })
    ]

unfoldable pub without : ℕ → List Client → List Client
without fd [] = []
without fd (c ∷ cs) = let rest = without fd cs in if c.fd == fd then rest else c ∷ rest

-- The text that is logged for EVBUFFER_EOF, and for an error.
unfoldable pub farewell : Bool → Bytes
farewell eof =
    if eof then codes "Client disconnected." else codes "Client socket error, disconnecting."

-- `buffered_on_error`: the client is freed.
unfoldable pub buffered_on_error : Host → ℕ → Bool → Server → Option Server
unfolding farewell
buffered_on_error h fd eof s = elim (log h.logger 0 h.logger.log_flag (farewell eof)) [
  | none ↦ none
  | some line ↦ some (record s { clients = without fd s.clients })
]

-- The event loop calls `buffered_on_read` with the client of the connection.
unfoldable pub find_client : ℕ → List Client → Option Client
find_client fd [] = none
find_client fd (c ∷ cs) = let rest = find_client fd cs in if c.fd == fd then some c else rest

unfoldable pub put_client : Client → List Client → List Client
put_client c' [] = []
put_client c' (c ∷ cs) = let rest = put_client c' cs in if c.fd == c'.fd then c' ∷ cs else c ∷ rest

unfoldable pub on_data : Host → ℕ → Bytes → Server → Option Server
on_data h fd input s = elim (find_client fd s.clients) [
  | none ↦ some s
  | some c ↦ elim (buffered_on_read h input c s.proto_manage) [
    | none ↦ none
    | some (c', p', out) ↦ some (record {
      proto_manage = p';
      clients = put_client c' s.clients;
      sent = elim out [ none ↦ s.sent | some b ↦ s.sent ++ b ∷ [] ];
    })
  ]
]

-- The callbacks of the event loop, and one turn of the loop of `on_timer`.
pub data Event (J : Json) : Type 0 where
  accepts : ℤ → List ℕ → Event J
  comes : ℕ → Bytes → Event J
  fails : ℕ → Bool → Event J
  turn : List (Option (J.Value → J.Value)) → Event J

-- A turn logs what `CProtocolManage::write` has put in the queue.
unfoldable pub handle : {J : Json} → Host → Event J → Server → Option Server
handle h (accepts fd memory) s = on_accept h fd memory s
handle h (comes fd input) s = on_data h fd input s
handle h (fails fd eof) s = buffered_on_error h fd eof s
handle {J} h (turn monitors) s =
    elim (log h.logger 0 h.logger.log_flag (codes "write:" ++ snapshot J monitors)) [
      | none ↦ none
      | some line ↦ some (record s { proto_manage = (Protocol.write J monitors s.proto_manage).1 })
    ]

unfoldable pub serve : {J : Json} → Host → List (Event J) → Server → Option Server
serve h [] s = some s
serve h (e ∷ es) s = elim (handle h e s) [ none ↦ none | some s' ↦ serve (later h) es s' ]

-- `bsleep` of `on_timer`: a turn is followed by a second's sleep, unless a monitor waits itself.
unfoldable pub bsleep : List ℤ → Bool
bsleep [] = true
bsleep (pos t ∷ ts) =
    let rest = bsleep ts in if t == 1 then false else if t == 3 then false else rest
bsleep (negsuc t ∷ ts) = bsleep ts

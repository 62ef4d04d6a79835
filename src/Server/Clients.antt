-- ===== src/Server/Clients.antt =====
-- The list of connected clients.
use sysmonitor.Base.{
  ℕ, ◌≡◌, refl, sym, ap, ◌∙◌, true, false, List, [], ◌∷◌, ◌++◌, Option, none, some, arith,
  append-nil, ◌==◌, Bool-cases, inl, inr, if_true, if_false, replicate, length-append, length-take,
  length-replicate,
}
use sysmonitor.Base.Text.{Bytes}
use sysmonitor.Protocol.{Protocol}
use sysmonitor.Protocol.Writer.{Json}
use sysmonitor.Server.{
  Client, Host, later, Server, find_client, put_client, without, new_client, on_data, Event, handle,
  serve, buffered_on_read, buflen,
}
use sysmonitor.Server.Requests.{IsReady}

abbrev pub AllReady : List Client → Type 0
AllReady [] = Unit {0}
AllReady (c ∷ cs) = IsReady c × AllReady cs

pub find_client-IsReady :
    (fd : ℕ) (cs : List Client) (c : Client) → AllReady cs → find_client fd cs ≡ some c → IsReady c
unfolding find_client
find_client-IsReady fd [] c r e = cc
find_client-IsReady fd (d ∷ cs) c r e = ground (arith, find_client-IsReady fd cs c r.1)

pub put_client-AllReady :
    (c : Client) (cs : List Client) → IsReady c → AllReady cs → AllReady (put_client c cs)
unfolding put_client
put_client-AllReady c [] h r = tt
put_client-AllReady c (d ∷ cs) h r = ground (arith, put_client-AllReady c cs h r.1)

pub without-AllReady : (fd : ℕ) (cs : List Client) → AllReady cs → AllReady (without fd cs)
unfolding without
without-AllReady fd [] r = tt
without-AllReady fd (d ∷ cs) r = ground (arith, without-AllReady fd cs r.1)

pub new_client-IsReady : (fd : ℕ) (memory : List ℕ) → IsReady (new_client fd memory)
unfolding new_client
new_client-IsReady fd memory = (
  refl,
  omega (
    arith,
    length-take buflen (memory ++ replicate buflen 0),
    length-append memory (replicate buflen 0),
    length-replicate {A = ℕ} buflen 0,
  ),
)

pub find_client-fd :
    (fd : ℕ) (cs : List Client) (c : Client) → find_client fd cs ≡ some c → c.fd ≡ fd
unfolding find_client
find_client-fd fd [] c e = cc
find_client-fd fd (d ∷ cs) c e = elim (Bool-cases (d.fd == fd)) [
  | inl t ↦
      let same : some d ≡ some c = sym (if_true _ _ t) ∙ e in
      let here : d.fd ≡ fd = ground (arith, t) in
      let it : d ≡ c = cc in sym (ap (λ x. x.fd) it) ∙ here
  | inr t ↦ find_client-fd fd cs c (sym (if_false _ _ t) ∙ e)
]

pub find_client-put :
    (fd : ℕ) (cs : List Client) (c c' : Client)
    → find_client fd cs ≡ some c
    → c'.fd ≡ fd
    → find_client fd (put_client c' cs) ≡ some c'
unfolding find_client put_client
find_client-put fd [] c c' e h = cc
find_client-put fd (d ∷ cs) c c' e h = elim (Bool-cases (d.fd == fd)) [
  | inl t ↦
      let t' : (d.fd == c'.fd) ≡ true = ground (arith, t, h) in
      let k : (c'.fd == fd) ≡ true = ground (arith, h) in
      ap (find_client fd) (if_true (c' ∷ cs) _ t') ∙ if_true _ _ k
  | inr t ↦
      let t' : (d.fd == c'.fd) ≡ false = ground (arith, t, h) in
      ap (find_client fd) (if_false _ (d ∷ put_client c' cs) t')
      ∙ if_false _ _ t
      ∙ find_client-put fd cs c c' (sym (if_false _ _ t) ∙ e) h
]

-- What is added to the packets that were sent.
unfoldable pub packets : Option Bytes → List Bytes
packets none = []
packets (some b) = b ∷ []

pub on_data-some :
    (host : Host) (fd : ℕ) (input : Bytes) (s : Server) (c c' : Client) (p' : Protocol)
    (out : Option Bytes)
    → find_client fd s.clients ≡ some c
    → buffered_on_read host input c s.proto_manage ≡ some (c', p', out)
    → on_data host fd input s
      ≡ some (record {
        proto_manage = p';
        clients = put_client c' s.clients;
        sent = s.sent ++ packets out;
      })
unfolding on_data packets
on_data-some host fd input s c c' p' none e h = rw (on_data, e, h, append-nil s.sent) refl
on_data-some host fd input s c c' p' (some b) e h = rw (on_data, e, h) refl

pub serve-some :
    {J : Json} (host : Host) (e : Event J) (es : List (Event J)) (s s' : Server)
    → handle host e s ≡ some s'
    → serve host (e ∷ es) s ≡ serve (later host) es s'
unfolding serve
serve-some host e es s s' h = rw (serve, h) refl

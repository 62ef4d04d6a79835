-- ===== src/Server/Filled.antt =====
-- The bytes that have come in, in the client's buffer.
use sysmonitor.Base.{
  ℕ, suc, ◌≤◌, ◌<◌, ◌≡◌, refl, ◌∙◌, true, false, ◌∷◌, ◌++◌, none, arith, if_true, length, drop,
  length-append, length-drop, Option-cases, inl, inr,
}
use sysmonitor.Log.Fits.{log-over}
use sysmonitor.Base.Text.{Bytes, codes, text, text-nul}
use sysmonitor.Port.{write, put_nul}
use sysmonitor.Port.Write.{put_nul-fits, put_nul-over}
use sysmonitor.Protocol.{Protocol}
use sysmonitor.Server.{Client, Host, answer, buffered_on_read, buflen}

-- The bytes that came in, and a NUL, in front of what the client's buffer held.
unfoldable pub filled : Bytes → Client → Client
filled input c = record c {
  buffer = input ++ 0 ∷ drop (suc (length input)) (input ++ drop (length input) c.buffer);
}

pub text-filled : (input : Bytes) (c : Client) → text (filled input c).buffer ≡ text input
unfolding filled
text-filled input c = text-nul input _

module _ (c : Client) (full : length c.buffer ≡ buflen) where
  pub length-filled :
      (input : Bytes) → length input < buflen → length (filled input c).buffer ≡ buflen
  unfolding filled
  length-filled input h = omega (
    arith,
    full,
    length-append input (0 ∷ drop (suc (length input)) (input ++ drop (length input) c.buffer)),
    length-drop (suc (length input)) (input ++ drop (length input) c.buffer),
    length-append input (drop (length input) c.buffer),
    length-drop (length input) c.buffer,
  )

  pub buffered_on_read-filled :
      (host : Host) (x : ℕ) (input : Bytes) (p : Protocol)
      → c.has_proto ≡ true
      → length (x ∷ input) < buflen
      → buffered_on_read host (x ∷ input) c p ≡ answer host (filled (x ∷ input) c) p
  unfolding buffered_on_read filled
  buffered_on_read-filled host x input p t h =
      let put = put_nul-fits c.buffer (x ∷ input) (omega (arith, full, h)) in
      if_true _ _ t ∙ rw put refl

  pub buffered_on_read-over :
      (host : Host) (x : ℕ) (input : Bytes) (p : Protocol)
      → c.has_proto ≡ true
      → buflen ≤ length (x ∷ input)
      → buffered_on_read host (x ∷ input) c p ≡ none
  unfolding buffered_on_read
  buffered_on_read-over host x input p t h =
      let put = put_nul-over c.buffer (x ∷ input) (omega (arith, full, h)) in
      if_true _ _ t ∙ rw put refl

-- Without WIN32 a request, whatever its bytes, writes past the log's buffer for a path.
pub buffered_on_read-unlogged :
    (host : Host) (x : ℕ) (input : Bytes) (c : Client) (p : Protocol)
    → host.logger.win32 ≡ false
    → c.has_proto ≡ true
    → buffered_on_read host (x ∷ input) c p ≡ none
unfolding buffered_on_read answer
buffered_on_read-unlogged host x input c p w t =
    let filled = write c.buffer (x ∷ input) in
    if_true _ _ t ∙ elim (Option-cases (put_nul (length (x ∷ input)) filled)) [
      | inl e ↦ rw e refl
      | inr (b, e) ↦
          let line = log-over host.logger 0 0 (codes "read data before---" ++ text b) w in
          rw (e, answer, line) refl
    ]

-- ===== src/Protocol/Writer.antt =====
-- The JSON library that `CProtocolManage` calls (jsoncpp), as a parameter.
use sysmonitor.Base.{◌≡◌, [], ◌∷◌, ◌++◌}
use sysmonitor.Base.Text.{Bytes, Lacks}

-- `Value()`, the value that `parse("[]")` gives, `append`, and `FastWriter::write`.
pub record Json : Type 1 where
  pub Value : Type 0
  pub null : Value
  pub empty_array : Value
  pub append : Value → Value → Value
  pub write : Value → Bytes

-- `FastWriter` puts a document on one line, and a newline behind it.
unfoldable pub FastWriterLaw : Json → Type 0
FastWriterLaw J = (v : J.Value) → (s : Bytes) × (J.write v ≡ s ++ 10 ∷ []) × Lacks 10 s

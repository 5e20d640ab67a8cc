-- ===== src/Decoders/Runtime.antt =====
-- What the decoders take from Node: `Buffer.from(text, "base64")`, which gives a buffer of bytes for
-- every text, and `buffer.toString("utf8")`.
use via_solana_gateway_v.Prelude.{Text}
use via_solana_gateway_v.Buffer.{Bytes, IsBytes}

pub record Runtime : Type 0 where
  pub from_base64 : Text → Bytes
  pub to_utf8 : Bytes → Text
  pub from_base64-IsBytes : (text : Text) → IsBytes (from_base64 text)

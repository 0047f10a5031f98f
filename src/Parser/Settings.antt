-- ===== src/Parser/Settings.antt =====
-- `parse_sever_settings_message` of components/lightsnapcast/snapcast_protocol_parser.c.
pub mod Laws
use snapclient.Base.{
  ℕ, zero, suc, ◌+◌, ◌-◌, ◌%◌, ◌^◌, ◌==◌, List, Option, none, some, Bool, ltb, if◌then◌else◌,
  length, set,
}
use snapclient.Message.{BaseMessage}
use snapclient.Message.Settings.{ServerSettings, Json, server_settings_message_deserialize}
use snapclient.Parser.{Parse, parsed, halted, fault, ◌>>=◌, ◌>>◌, pure, read_uint32_le, read_data}
use snapclient.Parser.Codec.{c_string}

module _ {W J : Type 0} (get_byte : W → Option ℕ × W) (malloc : ℕ → Option (List ℕ))
    (json : Json J) where
  -- What is done with the result of `server_settings_message_deserialize`.
  abbrev pub accept : ℕ × ServerSettings → Parse W ServerSettings
  accept (zero, settings) = pure settings
  accept (suc code, settings) = halted

  -- `serverSettingsString[typedMsgLen] = 0`, and the text is read.
  unfoldable pub read_text : ServerSettings → ℕ → List ℕ → Parse W ServerSettings
  unfolding c_string server_settings_message_deserialize
  read_text old len block =
      if ltb len (length block)
      then accept (server_settings_message_deserialize json old (c_string (set block len 0)))
      else fault

  -- `tmpSize` and `typedMsgLen + 1` are computed in 32 bits; `old` is what the message held before.
  unfoldable pub parse_sever_settings_message :
      ServerSettings → BaseMessage → Parse W ServerSettings
  unfolding read_text
  parse_sever_settings_message old base = do
    len ← read_uint32_le get_byte
    elim (malloc ((len + 1) % 2 ^ 32)) [
      | none ↦ halted
      | some block ↦ do
        filled ← read_data get_byte block ((base.size + 2 ^ 32 - 4) % 2 ^ 32)
        read_text old len filled
    ]

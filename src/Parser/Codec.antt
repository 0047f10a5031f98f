-- ===== src/Parser/Codec.antt =====
-- `parse_codec_header_message` of components/lightsnapcast/snapcast_protocol_parser.c: the name of the
-- codec and its payload. What the function assigns through its pointers is a record, which it keeps
-- where it asks for a new connection.
pub mod Laws
pub mod Safety
use snapclient.Base.{
  ℕ, zero, suc, ◌+◌, ◌%◌, ◌^◌, List, [], ◌∷◌, Option, none, some, Bool, true, false, ltb, ◌==◌,
  ◌&&◌, if◌then◌else◌, set, replicate,
}
use snapclient.Parser.{
  Outcome, Parse, parsed, restart, halted, ◌>>=◌, ◌>>◌, lift, assign, read_uint32_le, read_data,
}

-- `codec_type_t` of player.h.
pub data Codec : Type 0 where
  no_codec pcm flac ogg opus : Codec

pub record CodecHeader : Type 0 where
  pub received : Bool
  pub codec : Codec
  pub payload : Option (List ℕ)
  pub payload_len : ℕ

-- `strcmp (a, b) == 0`: the bytes up to the terminating zero are the same.
unfoldable pub c_string : List ℕ → List ℕ
c_string [] = []
c_string (b ∷ bs) = let rest = c_string bs in if b == 0 then [] else b ∷ rest

unfoldable pub same_bytes : List ℕ → List ℕ → Bool
same_bytes [] [] = true
same_bytes [] (b ∷ bs) = false
same_bytes (a ∷ as') [] = false
same_bytes (a ∷ as') (b ∷ bs) = a == b && same_bytes as' bs

abbrev pub opus_name : List ℕ
opus_name = b'o' ∷ b'p' ∷ b'u' ∷ b's' ∷ []

abbrev pub flac_name : List ℕ
flac_name = b'f' ∷ b'l' ∷ b'a' ∷ b'c' ∷ []

abbrev pub pcm_name : List ℕ
pcm_name = b'p' ∷ b'c' ∷ b'm' ∷ []

unfoldable pub codec_named : List ℕ → Codec
unfolding same_bytes
codec_named name =
    if same_bytes name opus_name
    then opus
    else if same_bytes name flac_name
    then flac
    else if same_bytes name pcm_name
    then pcm
    else no_codec

abbrev pub is_supported : Codec → Bool
is_supported no_codec = false
is_supported ogg = false
is_supported pcm = true
is_supported flac = true
is_supported opus = true

-- `char codecString[8]`; no byte of it is read before it is written.
abbrev pub codec_string : List ℕ
codec_string = replicate 8 0

module _ {W : Type 0} (get_byte : W → Option ℕ × W) (malloc : ℕ → Option (List ℕ)) where
  -- Seven bytes are read for the message in the log.
  unfoldable pub refuse_long_name : Parse (CodecHeader × W) (Unit {0})
  refuse_long_name = do _ ← lift (read_data get_byte codec_string 7); restart

  unfoldable pub read_payload : Parse (CodecHeader × W) (Unit {0})
  read_payload = do
    len ← lift (read_uint32_le get_byte)
    assign (λ h. record h { payload_len = len })
    elim (malloc len) [
      | none ↦ halted
      | some block ↦ do
        assign (λ h. record h { payload = some block })
        filled ← lift (read_data get_byte block len)
        assign (λ h. record h { payload = some filled; received = true })
    ]

  unfoldable pub read_codec_name : ℕ → Parse (CodecHeader × W) (Unit {0})
  unfolding read_payload c_string codec_named
  read_codec_name len = do
    name ← lift (read_data get_byte codec_string len)
    let codec = codec_named (c_string (set name len 0))
    assign (λ h. record h { codec = codec })
    if is_supported codec then read_payload else restart

  -- `codecStringLen + 1` is computed in 32 bits.
  unfoldable pub parse_codec_header_message : Parse (CodecHeader × W) (Unit {0})
  unfolding refuse_long_name read_codec_name
  parse_codec_header_message = do
    assign (λ h. record h { received = false })
    len ← lift (read_uint32_le get_byte)
    if ltb 8 ((len + 1) % 2 ^ 32) then refuse_long_name else read_codec_name len

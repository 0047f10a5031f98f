-- ===== src/Parser/Codec/Laws.antt =====
-- The codec header is taken over whole or not at all, and when its parse writes out of bounds.
use snapclient.Base.{
  ℕ, ◌+◌, ◌%◌, ◌^◌, ◌≤◌, ◌<◌, ◌≡◌, refl, ap, ◌∙◌, List, [], ◌++◌, arith, Option, some, true, false,
  length, drop_all, ltb-false,
}
use mathlib.Core.List.{append-nil}
use snapclient.Base.Bytes.{le_bytes, join_four-le_bytes}
use snapclient.Parser.{parsed, read_uint32_le}
use snapclient.Parser.Source.{Feeds, Consumes-uint32}
use snapclient.Parser.Data.{Feeds-append, read_data-fills}
use snapclient.Parser.Codec.{
  Codec, no_codec, pcm, flac, ogg, opus, CodecHeader, opus_name, flac_name, pcm_name, codec_named,
  c_string, is_supported, codec_string, read_payload, read_codec_name, parse_codec_header_message,
}

-- The names on the wire.
abbrev pub codec_name : Codec → List ℕ
codec_name no_codec = []
codec_name ogg = []
codec_name pcm = pcm_name
codec_name flac = flac_name
codec_name opus = opus_name

abbrev pub codec_header_bytes : List ℕ → List ℕ → List ℕ
codec_header_bytes name payload =
    le_bytes 4 (length name) ++ (name ++ (le_bytes 4 (length payload) ++ payload))

module _ {W : Type 0} (get_byte : W → Option ℕ × W) (malloc : ℕ → Option (List ℕ)) where
  pub read_uint32-Feeds :
      (n : ℕ) (w w' : W)
      → n < 2 ^ 32
      → Feeds get_byte w (le_bytes 4 n) w'
      → read_uint32_le get_byte w ≡ parsed n w'
  read_uint32-Feeds n w w' lt h =
      (Consumes-uint32 get_byte).whole w w' (le_bytes 4 n) h refl
      ∙ ap (λ (x : ℕ). parsed x w') (join_four-le_bytes n lt)

  read_payload-fills :
      (h : CodecHeader) (payload block : List ℕ) (w w' : W)
      → length payload < 2 ^ 32
      → malloc (length payload) ≡ some block
      → length block ≡ length payload
      → Feeds get_byte w (le_bytes 4 (length payload) ++ payload) w'
      → read_payload get_byte malloc (h, w)
        ≡ parsed tt
            (record h { payload = some payload; payload_len = length payload; received = true }, w')
  unfolding read_payload
  read_payload-fills h payload block w w' lt m l f =
      let (v, f0, f1) = Feeds-append get_byte (le_bytes 4 (length payload)) w w' payload f in
      rw (
        read_uint32-Feeds (length payload) w v lt f0,
        m,
        read_data-fills get_byte (length payload) block payload v w' f1 refl (omega arith),
        drop_all block (length payload) (omega arith),
        append-nil,
      )

  read_codec_name-fills :
      (c : Codec) (h : CodecHeader) (more : List ℕ) (w w' : W)
      → is_supported c ≡ true
      → Feeds get_byte w (codec_name c) w'
      → read_codec_name get_byte malloc (length (codec_name c)) (h, w)
        ≡ read_payload get_byte malloc (record h { codec = c }, w')
  unfolding read_codec_name
  read_codec_name-fills no_codec h more w w' s f = cc
  read_codec_name-fills ogg h more w w' s f = cc
  read_codec_name-fills pcm h more w w' s f =
      unfold c_string codec_named in
      rw (read_data-fills get_byte 3 codec_string pcm_name w w' f refl (omega arith))
  read_codec_name-fills flac h more w w' s f =
      unfold c_string codec_named in
      rw (read_data-fills get_byte 4 codec_string flac_name w w' f refl (omega arith))
  read_codec_name-fills opus h more w w' s f =
      unfold c_string codec_named in
      rw (read_data-fills get_byte 4 codec_string opus_name w w' f refl (omega arith))

  -- The header of a codec that is supported is taken over whole, wherever the allocator has a block
  -- for its payload.
  pub parse_codec_header_message_lem :
      (c : Codec) (h : CodecHeader) (payload block : List ℕ) (w w' : W)
      → is_supported c ≡ true
      → length payload < 2 ^ 32
      → malloc (length payload) ≡ some block
      → length block ≡ length payload
      → Feeds get_byte w (codec_header_bytes (codec_name c) payload) w'
      → parse_codec_header_message get_byte malloc (h, w)
        ≡ parsed tt (
          record {
            received = true;
            codec = c;
            payload = some payload;
            payload_len = length payload;
          },
          w',
        )
  unfolding parse_codec_header_message
  parse_codec_header_message_lem c h payload block w w' s lt m l f =
      let (v, f0, f1) = Feeds-append get_byte (le_bytes 4 (length (codec_name c))) w w' _ f in
      let (u, f2, f3) = Feeds-append get_byte (codec_name c) v w' _ f1 in
      rw (
        read_uint32-Feeds (length (codec_name c)) w v (omega (arith, name-short c)) f0,
        ltb-false 8 ((length (codec_name c) + 1) % 2 ^ 32) (omega (arith, name-short c)),
        read_codec_name-fills c (record h { received = false }) payload v u s f2,
        read_payload-fills (record h { received = false; codec = c }) payload block u w' lt m l f3,
      )
    where
      name-short : (d : Codec) → length (codec_name d) ≤ 4
      name-short no_codec = omega arith
      name-short ogg = omega arith
      name-short pcm = omega arith
      name-short flac = omega arith
      name-short opus = omega arith

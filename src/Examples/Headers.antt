-- ===== src/Examples/Headers.antt =====
-- The parser of the messages' headers, components/lightsnapcast/snapcast_protocol_parser.c, on
-- concrete sources.
use snapclient.Base.{ℕ, List, [], ◌∷◌, ◌≡◌, refl, replicate, some, none, Option, true, arith}
use snapclient.Message.{TimeMessage, base_message_size, base_message_serialize}
use snapclient.Parser.{parsed}
use snapclient.Parser.Codec.{CodecHeader, no_codec, flac, parse_codec_header_message}
use snapclient.Parser.Codec.Laws.{codec_name, codec_header_bytes, parse_codec_header_message_lem}
use snapclient.Examples.{next_of, next_of-Feeds}
use snapclient.Examples.Messages.{two_five, time_request, blank}

abbrev written : List ℕ
written = (base_message_serialize time_request blank base_message_size).1

abbrev late : TimeMessage
late = record { latency = two_five }

abbrev no_header : CodecHeader
no_header = record { received = true; codec = no_codec; payload = none; payload_len = 0 }

abbrev two_zeros : ℕ → Option (List ℕ)
two_zeros n = some (replicate n 0)

abbrev flac_header : List ℕ
flac_header = codec_header_bytes (codec_name flac) (5 ∷ 6 ∷ [])

parse_codec_header_message_lem_example :
    parse_codec_header_message next_of two_zeros (no_header, flac_header)
    ≡ parsed tt
        (record { received = true; codec = flac; payload = some (5 ∷ 6 ∷ []); payload_len = 2 }, [])
parse_codec_header_message_lem_example =
    parse_codec_header_message_lem next_of two_zeros flac no_header (5 ∷ 6 ∷ []) (0 ∷ 0 ∷ [])
      flac_header [] refl (omega arith) refl refl (next_of-Feeds flac_header)

-- ===== src/Client/Handlers/Process.antt =====
-- `process_data` of main/main.c: one message of the server, from the bytes of the connection to what the client
-- does with it. A new connection is asked for by `restart`, where the source returns -1.
use snapclient.Base.{ℕ, ◌-◌, ◌*◌, ◌/◌, ◌==◌, List, Option, none, Bool, false, not, if◌then◌else◌}
use snapclient.Rtos.{Mailbox, Queue}
use snapclient.Message.{BaseMessage, WireChunkMessage}
use snapclient.Message.Settings.{ServerSettings, Json}
use snapclient.Parser.{
  Outcome, Parse, parsed, restart, halted, fault, waiting, ◌>>=◌, ◌>>◌, lift, assign,
  parse_base_message, parse_time_message, parser_skip_typed_message,
}
use snapclient.Parser.Codec.{CodecHeader, parse_codec_header_message}
use snapclient.Parser.Chunk.{ChunkState, parse_wire_chunk_message}
use snapclient.Parser.Settings.{parse_sever_settings_message}
use snapclient.Player.Memory.{PcmChunk}
use snapclient.Player.Chunks.{Drivers}
use snapclient.Client.Dac.{DacData}
use snapclient.Client.TimeSync.{Latencies, time_sync_msg_received}
use snapclient.Client.Flac.{block_of}
use snapclient.Client.Handlers.Chunks.{handle_chunk_message}
use snapclient.Client.Handlers.{
  Client, Decoders, codec_header_received, server_settings_msg_received,
}

-- What the messages are taken from and given to: the bytes, the memory for texts, for compressed chunks and for
-- chunks of audio, cJSON, the queues, the drivers, whether the buffer of latencies is full, the rounds of the loop that
-- decodes a chunk, and the decoders.
pub record Services (W J D L Q M : Type 0) : Type 0 where
  pub get_byte : W → Option ℕ × W
  pub malloc : ℕ → Option (List ℕ)
  pub blocks : List (Option (List ℕ))
  pub allocate : ℕ → Option PcmChunk
  pub json : Json J
  pub dac_queue : Mailbox DacData D
  pub news : Mailbox ℕ M
  pub queue : Queue PcmChunk Q
  pub drivers : Drivers M
  pub full : Bool
  pub fuel : ℕ
  pub latencies : Latencies L
  pub decoders : Decoders D L Q M

-- `base_message_rx.received` is set from the clock.
abbrev pub received_at : ℕ → BaseMessage → BaseMessage
received_at now base = record base {
  received = record { sec = now / 1000000; usec = now - now / 1000000 * 1000000 };
}

abbrev pub no_wire_chunk : WireChunkMessage
no_wire_chunk = record { timestamp = record { sec = 0; usec = 0 }; size = 0; payload = none }

-- What a message of settings has before it is parsed, which nothing reads.
abbrev pub no_settings : ServerSettings
no_settings = record { buffer_ms = 0; latency = 0; volume = 0; muted = false }

module _ {W J D L Q M : Type 0} (services : Services W J D L Q M) where
  -- A handler of a client, beside the source of bytes.
  abbrev pub beside :
      W → Outcome (Client D L Q M) (Unit {0}) → Outcome (Client D L Q M × W) (Unit {0})
  beside w (parsed u c) = parsed u (c, w)
  beside w (restart c) = restart (c, w)
  beside w (halted c) = halted (c, w)
  beside w (fault c) = fault (c, w)
  beside w (waiting c) = waiting (c, w)

  abbrev pub set_now : ℕ → Client D L Q M → Client D L Q M
  set_now now c = record c { sync = record c.sync { sync = record c.sync.sync { now = now } } }

  -- `pcmData` and `decoderChunk` after the parse of a chunk.
  abbrev pub with_chunk : Client D L Q M → ChunkState → Client D L Q M
  with_chunk c s = record c {
    pcm_data = s.pcm_data;
    flac = record c.flac { decoder_chunk = s.decoder };
  }

  abbrev pub after_chunk :
      Client D L Q M → Outcome (ChunkState × W) (Unit {0}) → Outcome (Client D L Q M × W) (Unit {0})
  after_chunk c (parsed u (s, w)) = beside w (
      handle_chunk_message services.dac_queue services.news services.queue services.drivers
        services.decoders services.allocate services.full services.fuel c.header.codec s.wire_chunk
        (with_chunk c s))
  after_chunk c (restart (s, w)) = restart (with_chunk c s, w)
  after_chunk c (halted (s, w)) = halted (with_chunk c s, w)
  after_chunk c (fault (s, w)) = fault (with_chunk c s, w)
  after_chunk c (waiting (s, w)) = waiting (with_chunk c s, w)

  -- A chunk is skipped if no codec header has come yet.
  unfoldable pub on_wire_chunk : BaseMessage → Parse (Client D L Q M × W) (Unit {0})
  on_wire_chunk base (c, w) =
      if not c.header.received
      then lift (parser_skip_typed_message services.get_byte base) (c, w)
      else after_chunk c (
          parse_wire_chunk_message services.get_byte services.allocate services.blocks base
            c.header.codec
            (
              record {
                pcm_data = c.pcm_data;
                wire_chunk = no_wire_chunk;
                decoder = c.flac.decoder_chunk;
              },
              w,
            ))

  -- The payload is freed in all cases.
  abbrev pub with_header : Client D L Q M → CodecHeader → Client D L Q M
  with_header c h = record c { header = record h { payload = none; payload_len = 0 } }

  abbrev pub after_header :
      Client D L Q M
      → Outcome (CodecHeader × W) (Unit {0})
      → Outcome (Client D L Q M × W) (Unit {0})
  after_header c (parsed u (h, w)) = beside w (
      codec_header_received services.dac_queue services.news services.decoders (block_of h.payload)
        h.codec (with_header c h))
  after_header c (restart (h, w)) = restart (with_header c h, w)
  after_header c (halted (h, w)) = halted (with_header c h, w)
  after_header c (fault (h, w)) = fault (with_header c h, w)
  after_header c (waiting (h, w)) = waiting (with_header c h, w)

  unfoldable pub on_codec_header : Parse (Client D L Q M × W) (Unit {0})
  on_codec_header (c, w) = after_header c (
      parse_codec_header_message services.get_byte services.malloc
        (record c.header { payload = none; payload_len = 0 }, w))

  unfoldable pub on_server_settings : BaseMessage → Parse (Client D L Q M × W) (Unit {0})
  on_server_settings base = do
    message ← lift (
        parse_sever_settings_message services.get_byte services.malloc services.json no_settings
          base)
    assign (server_settings_msg_received services.dac_queue services.news message)

  unfoldable pub on_time : BaseMessage → Parse (Client D L Q M × W) (Unit {0})
  on_time base = do
    message ← lift (parse_time_message services.get_byte base)
    assign (λ c. record c {
      sync = time_sync_msg_received services.latencies base message c.header.received c.sync;
    })

  -- By the type of the message.
  abbrev pub dispatch : BaseMessage → Parse (Client D L Q M × W) (Unit {0})
  dispatch base =
      if base.type == 2
      then on_wire_chunk base
      else if base.type == 1
      then on_codec_header
      else if base.type == 3
      then on_server_settings base
      else if base.type == 4
      then on_time base
      else lift (parser_skip_typed_message services.get_byte base)

  unfoldable pub process_data : ℕ → Parse (Client D L Q M × W) (Unit {0})
  unfolding on_wire_chunk on_codec_header on_server_settings on_time
  process_data now = do
    base ← lift (parse_base_message services.get_byte)
    assign (set_now now)
    dispatch (received_at now base)

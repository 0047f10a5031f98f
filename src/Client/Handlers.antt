-- ===== src/Client/Handlers.antt =====
-- main/main.c: what the client does with the messages of the server, in `process_data`. The build is the one
-- without the signal processing and without the volume in software.
pub mod Chunks
pub mod Process
pub mod Laws
pub mod Messages
pub mod Audio
use snapclient.Base.{
  ℕ, zero, suc, ◌+◌, ◌-◌, ◌*◌, ◌/◌, ◌%◌, ◌^◌, ◌≤◌, List, [], ◌∷◌, ◌++◌, Option, none, some, Bool,
  true, false, ltb, leb, ◌==◌, same, not, if◌then◌else◌, length, take, drop, get_or,
}
use snapclient.Base.Bytes.{join_two, join_four}
use snapclient.Rtos.{Mailbox, Queue}
use snapclient.Message.{Tv, BaseMessage, TimeMessage, WireChunkMessage}
use snapclient.Message.Settings.{ServerSettings}
use snapclient.Parser.{Outcome, parsed, restart, halted, fault, waiting, then_outcome}
use snapclient.Parser.Codec.{Codec, no_codec, pcm, flac, ogg, opus, CodecHeader}
use snapclient.Parser.Chunk.{DecoderData}
use snapclient.Player.Memory.{PcmChunk}
use snapclient.Player.Settings.{SnapcastSetting, player_send_snapcast_setting}
use snapclient.Player.Chunks.{PlayerState, Drivers, insert_pcm_chunk}
use snapclient.Client.Dac.{DacData, DacState, audio_set_mute, audio_set_volume}
use snapclient.Client.Flac.{FlacState}
use snapclient.Client.TimeSync.{SyncState}

-- The state of the client's task and of what it calls; `scSet` is `flac.setting`. `D`, `L`, `Q` and `M` are the
-- queue of the DAC, the buffer of latencies, the queue of chunks and the queue of the settings.
pub record Client (D L Q M : Type 0) : Type 0 where
  pub header : CodecHeader
  pub flac : FlacState
  pub flac_open : Bool
  pub opus_open : Bool
  pub pcm_data : Option PcmChunk
  pub dac : DacState D
  pub sync : SyncState L
  pub player : PlayerState Q M

-- `memcpy` of a field out of the payload; `none` is a read behind its end.
unfoldable pub field_two : List ℕ → ℕ → Option ℕ
field_two payload at =
    if leb (at + 2) (length payload)
    then some (join_two (get_or payload at 0) (get_or payload (at + 1) 0))
    else none

unfoldable pub field_four : List ℕ → ℕ → Option ℕ
field_four payload at =
    if leb (at + 4) (length payload)
    then some (
        join_four (get_or payload at 0) (get_or payload (at + 1) 0) (get_or payload (at + 2) 0)
          (get_or payload (at + 3) 0))
    else none

-- libFLAC and libopus: whether a decoder can be made for a rate and channels, the callbacks that libFLAC makes up
-- to the end of the metadata and for a frame, and its `FLAC__stream_decoder_get_blocksize`. `opus_chunk` decodes a
-- chunk and gives it to the player.
pub record Decoders (D L Q M : Type 0) : Type 0 where
  pub opus_create : ℕ → ℕ → Bool
  pub flac_create : Bool
  pub flac_metadata : FlacState → FlacState
  pub flac_single : FlacState → FlacState
  pub flac_blocksize : ℕ
  pub opus_chunk : WireChunkMessage → Client D L Q M → Outcome (Client D L Q M) (Unit {0})

module _ {D : Type 0} (dac_queue : Mailbox DacData D) where
  abbrev pub mute_if_changed : ServerSettings → SnapcastSetting → DacState D → DacState D
  mute_if_changed message setting d =
      if not (same setting.muted message.muted) then audio_set_mute dac_queue message.muted d else d

  abbrev pub volume_if_changed : ServerSettings → SnapcastSetting → DacState D → DacState D
  volume_if_changed message setting d =
      if not (setting.volume == message.volume)
      then audio_set_volume dac_queue message.volume d
      else d

-- `ch` is a uint8_t, and what does not fit is cut off.
abbrev pub with_format : Codec → ℕ → ℕ → ℕ → SnapcastSetting → SnapcastSetting
with_format codec rate bits channels setting = record setting {
  codec = codec;
  bits = bits;
  ch = channels % 256;
  sr = rate;
}

abbrev pub stamped : Tv → Option PcmChunk → Option PcmChunk
stamped t none = none
stamped t (some chunk) = some (record chunk { timestamp = t })

module _ {Q M : Type 0} where
  abbrev pub insert_if_there :
      Queue PcmChunk Q → Drivers M → Bool → Option PcmChunk → PlayerState Q M → PlayerState Q M
  insert_if_there queue drivers full none s = s
  insert_if_there queue drivers full (some chunk) s =
      (insert_pcm_chunk queue drivers full chunk s).1

module _ {D L Q M : Type 0} (dac_queue : Mailbox DacData D) (news : Mailbox ℕ M) where
  -- `player_send_snapcast_setting (scSet)`, which never fails.
  abbrev pub send_setting : SnapcastSetting → Client D L Q M → Client D L Q M
  send_setting setting c = record c {
    flac = record c.flac { setting = setting };
    player = record c.player {
      settings = player_send_snapcast_setting news setting c.player.settings;
    };
  }

  unfoldable pub server_settings_msg_received : ServerSettings → Client D L Q M → Client D L Q M
  server_settings_msg_received message c =
      let setting = c.flac.setting in
      send_setting
        (record setting {
          c_dac_lat_ms = message.latency;
          buf_ms = message.buffer_ms;
          muted = message.muted;
          volume = message.volume;
        })
        (record c {
          dac =
              volume_if_changed dac_queue message setting
                (mute_if_changed dac_queue message setting c.dac);
        })

  abbrev pub close_decoders : Client D L Q M → Client D L Q M
  close_decoders c = record c { flac_open = false; opus_open = false }

  -- The fields of the header: the rate, the bits and the channels.
  abbrev pub format_of :
      Option ℕ
      → Option ℕ
      → Option ℕ
      → (ℕ → ℕ → ℕ → Outcome (Client D L Q M) (Unit {0}))
      → Client D L Q M
      → Outcome (Client D L Q M) (Unit {0})
  format_of (some rate) (some bits) (some channels) give c = give rate bits channels
  format_of rate bits channels give c = fault c

  unfoldable pub codec_header_received :
      Decoders D L Q M → List ℕ → Codec → Client D L Q M → Outcome (Client D L Q M) (Unit {0})
  codec_header_received decoders payload codec c =
      let c' = close_decoders c in
      let give = λ (rate bits channels : ℕ).
        send_setting (with_format codec rate bits channels c.flac.setting) c' in
      elim codec [
        | opus ↦
            format_of (field_four payload 4) (field_two payload 8) (field_two payload 10)
              (λ rate bits channels.
                if decoders.opus_create rate channels
                then parsed tt (record (give rate bits channels) { opus_open = true })
                else halted c')
              c'
        | pcm ↦
            format_of (field_four payload 24) (field_two payload 34) (field_two payload 22)
              (λ rate bits channels. parsed tt (give rate bits channels)) c'
        | flac ↦
            if not decoders.flac_create
            then halted c'
            else let f = decoders.flac_metadata (record c.flac {
              decoder_chunk = record c.flac.decoder_chunk {
                bytes = length payload;
                in_data = some payload;
                out_data = none;
                type = 1;
              };
            }) in
              parsed tt (send_setting f.setting (record c' { flac = f; flac_open = true }))
        | no_codec ↦ halted c'
        | ogg ↦ halted c'
      ]

  -- The case PCM of `handle_chunk_message`; a chunk that could not be allocated is null. The length of a frame
  -- is a divisor.
  unfoldable pub handle_pcm_chunk :
      Queue PcmChunk Q
      → Drivers M
      → Bool
      → WireChunkMessage
      → Client D L Q M
      → Outcome (Client D L Q M) (Unit {0})
  handle_pcm_chunk queue drivers full wire_chunk c =
      let setting = c.flac.setting in
      let frame = setting.ch * (setting.bits / 8) % 2 ^ 32 in
      if frame == 0
      then fault c
      else let c' = send_setting (record setting { chk_in_frames = wire_chunk.size / frame }) c in
        parsed tt (record c' {
          player =
              insert_if_there queue drivers full (stamped wire_chunk.timestamp c.pcm_data)
                c'.player;
          pcm_data = none;
          flac = record c'.flac { decoder_chunk = record c'.flac.decoder_chunk { in_data = none } };
        })

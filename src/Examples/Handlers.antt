-- ===== src/Examples/Handlers.antt =====
-- The messages of a server to a client that plays PCM audio.
use snapclient.Base.{
  ℕ, ◌==◌, ◌≡◌, refl, arith, List, [], ◌++◌, Option, none, some, Bool, true, false, same, replicate,
  if◌then◌else◌,
}
use snapclient.Message.{BaseMessage}
use snapclient.Message.Wire.{IsBaseMessage, base_message_bytes}
use snapclient.Message.Settings.{ServerSettings}
use snapclient.Parser.{parsed, fault}
use snapclient.Parser.Codec.{pcm}
use snapclient.Parser.Chunk.Pcm.{holding, swap_samples}
use snapclient.Parser.Chunk.Laws.{chunk_head}
use snapclient.Player.Memory.{PcmChunk, empty_chunk}
use snapclient.Client.Dac.{DacData}
use snapclient.Client.Handlers.{Client, Decoders, server_settings_msg_received}
use snapclient.Client.Handlers.Process.{Services, process_data, set_now}
use snapclient.Client.Handlers.Laws.{server_settings_msg_received_lem}
use snapclient.Client.Handlers.Messages.{early_chunk, process_data-skips}
use snapclient.Client.Handlers.Audio.{Plays, process_data-pcm}
use snapclient.Examples.{next_of, next_of-Feeds}
use snapclient.Examples.Messages.{two_five}
use snapclient.Examples.Chunks.{answers, eight, eight-Bytes, head, one_chunk, zeros}
use snapclient.Examples.Tasks.{counter, one_place, quick, started, tiny_json}
use snapclient.Examples.Player.{one_note, playing, two_places, working}
use snapclient.Examples.Flac.{no_chunk, stream_of}

abbrev Listener : Type 0
Listener = Client (Option DacData) ℕ (List PcmChunk) (Option ℕ)

abbrev no_codecs : Decoders (Option DacData) ℕ (List PcmChunk) (Option ℕ)
no_codecs = record {
  opus_create = λ rate channels. false;
  flac_create = false;
  flac_metadata = λ f. f;
  flac_single = λ f. f;
  flac_blocksize = 1152;
  opus_chunk = λ wire_chunk c. fault c;
}

abbrev services : Services (List ℕ) ℕ (Option DacData) ℕ (List PcmChunk) (Option ℕ)
services = record {
  get_byte = next_of;
  malloc = λ n. some (replicate n 0);
  blocks = answers;
  allocate = one_chunk;
  json = tiny_json;
  dac_queue = one_place;
  news = one_note;
  queue = two_places;
  drivers = working;
  full = true;
  fuel = 8;
  latencies = counter;
  decoders = no_codecs;
}

abbrev listener : Bool → Listener
listener received = record {
  header = record { received = received; codec = pcm; payload = none; payload_len = 0 };
  flac = record (stream_of 16) { decoder_chunk = no_chunk };
  flac_open = false;
  opus_open = false;
  pcm_data = none;
  dac = started;
  sync = quick;
  player = playing;
}

abbrev loud : ServerSettings
loud = record { buffer_ms = 1000; latency = 20; volume = 70; muted = false }

server_settings_msg_received_lem_example :
    let c = listener true in
    let t = server_settings_msg_received one_place one_note loud c in
    let setting = c.flac.setting in
    (t.player.settings.current
      ≡ record setting { c_dac_lat_ms = 20; buf_ms = 1000; muted = false; volume = 70 })
    × (t.flac.setting ≡ t.player.settings.current)
    × (t.dac.requested.mute ≡ (if same setting.muted false then c.dac.requested.mute else false))
    × (t.dac.requested.volume ≡ (if setting.volume == 70 then c.dac.requested.volume else 70))
server_settings_msg_received_lem_example =
    server_settings_msg_received_lem one_place one_note loud (listener true)

head-IsBaseMessage : IsBaseMessage head
head-IsBaseMessage = record {
  type = omega arith;
  id = omega arith;
  refers_to = omega arith;
  sent = (omega arith, omega arith);
  received = (omega arith, omega arith);
  size = omega arith;
}

process_data-skips_example :
    process_data services 900 (listener false, base_message_bytes head ++ replicate 20 7)
    ≡ parsed tt (set_now services 900 (listener false), [])
process_data-skips_example =
    process_data-skips services 900 (listener false) head (replicate 20 7)
      (base_message_bytes head ++ replicate 20 7) [] head-IsBaseMessage (early_chunk refl refl) refl
      (next_of-Feeds (base_message_bytes head ++ replicate 20 7))

abbrev time_head : BaseMessage
time_head = record head { type = 4; size = 8 }

process_data-pcm_example :
    (c' : Listener) × (process_data services 900
        (listener true, base_message_bytes head ++ (chunk_head two_five 8 ++ eight))
      ≡ parsed tt (c', []))
    × Plays services
        (set_now services 900 (listener true))
        (record (holding empty_chunk 8 (swap_samples eight)) { timestamp = two_five })
        2
        c'
process_data-pcm_example =
    process_data-pcm services 900 2 1 [] (listener true) head two_five eight zeros (replicate 8 0)
      empty_chunk (base_message_bytes head ++ (chunk_head two_five 8 ++ eight)) [] refl
      head-IsBaseMessage refl refl refl refl refl refl (λ e. absurd (omega (arith, e)))
      (omega arith) (omega arith) refl refl refl eight-Bytes
      (next_of-Feeds (base_message_bytes head ++ (chunk_head two_five 8 ++ eight)))

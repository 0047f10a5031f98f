-- ===== src/Client/Handlers/Audio.antt =====
-- A chunk of PCM audio in main/main.c, from the bytes of the connection to the player's queue.
use snapclient.Base.{
  All, ℕ, ◌+◌, ◌*◌, ◌/◌, ◌%◌, ◌^◌, ◌<◌, ◌==◌, ◌≡◌, ◌≢◌, refl, ap, ◌∙◌, arith, List, ◌∷◌, ◌++◌,
  Option, none, some, true, false, replicate, not, if◌then◌else◌, length,
}
use snapclient.Base.Bytes.{IsByte}
use snapclient.Message.{Tv, BaseMessage, WireChunkMessage}
use snapclient.Message.Wire.{IsBaseMessage, base_message_bytes}
use snapclient.Parser.{parsed, lift, parser_skip_typed_message}
use snapclient.Parser.Source.{Feeds}
use snapclient.Parser.Data.{Feeds-append}
use snapclient.Parser.Codec.{pcm}
use snapclient.Parser.Chunk.{ChunkState, parse_wire_chunk_message}
use snapclient.Parser.Chunk.Pcm.{holding, swap_samples, word_bytes}
use snapclient.Parser.Chunk.Laws.{chunk_head, parse_wire_chunk_message-pcm}
use snapclient.Player.Memory.{PcmChunk}
use snapclient.Player.Settings.{player_send_snapcast_setting}
use snapclient.Player.Chunks.{insert_pcm_chunk}
use snapclient.Client.Handlers.{Client, handle_pcm_chunk}
use snapclient.Client.Handlers.Chunks.{handle_chunk_message}
use snapclient.Client.Handlers.Process.{
  Services, process_data, received_at, set_now, on_wire_chunk, after_chunk, with_chunk,
  no_wire_chunk, beside,
}
use snapclient.Client.Handlers.Messages.{process_data-dispatches}

module _ {W J D L Q M : Type 0} (services : Services W J D L Q M) where
  -- What the client is after a chunk: the length of the chunk is in the settings, and the player has the chunk.
  pub record Plays (c : Client D L Q M) (chunk : PcmChunk) (frames : ℕ) (c' : Client D L Q M)
      : Type 0 where
    pub setting : c'.flac.setting ≡ record c.flac.setting { chk_in_frames = frames }
    pub player :
        c'.player
        ≡ (insert_pcm_chunk services.queue services.drivers services.full chunk (record c.player {
          settings =
              player_send_snapcast_setting services.news
                (record c.flac.setting { chk_in_frames = frames })
                c.player.settings;
        })).1
    pub no_chunk : c'.pcm_data ≡ none
    pub no_block : c'.flac.decoder_chunk.in_data ≡ none

  handle_pcm_chunk-Plays :
      (wire_chunk : WireChunkMessage) (chunk : PcmChunk) (c : Client D L Q M)
      → (c.flac.setting.ch * (c.flac.setting.bits / 8) % 2 ^ 32) ≢ 0
      → c.pcm_data ≡ some chunk
      → (c' : Client D L Q M) × (handle_pcm_chunk services.dac_queue services.news services.queue
            services.drivers services.full wire_chunk c
          ≡ parsed tt c')
        × Plays c
            (record chunk { timestamp = wire_chunk.timestamp })
            (wire_chunk.size / (c.flac.setting.ch * (c.flac.setting.bits / 8) % 2 ^ 32))
            c'
  unfolding handle_pcm_chunk
  handle_pcm_chunk-Plays wire_chunk chunk c some_frame e =
      let frame : (c.flac.setting.ch * (c.flac.setting.bits / 8) % 2 ^ 32 == 0) ≡ false =
        ground (arith, some_frame) in
      rw (frame, e)
        (_, refl, record { setting = refl; player = refl; no_chunk = refl; no_block = refl })

  on_wire_chunk-parses :
      (base : BaseMessage) (c : Client D L Q M) (w w' : W) (s : ChunkState) (chunk : PcmChunk)
      → c.header.received ≡ true
      → c.header.codec ≡ pcm
      → parse_wire_chunk_message services.get_byte services.allocate services.blocks base pcm (
        record {
          pcm_data = c.pcm_data;
          wire_chunk = no_wire_chunk;
          decoder = c.flac.decoder_chunk;
        },
        w,
      )
        ≡ parsed tt (s, w')
      → s.pcm_data ≡ some chunk
      → (c.flac.setting.ch * (c.flac.setting.bits / 8) % 2 ^ 32) ≢ 0
      → (c' : Client D L Q M) × (on_wire_chunk services base (c, w) ≡ parsed tt (c', w'))
        × Plays c
            (record chunk { timestamp = s.wire_chunk.timestamp })
            (s.wire_chunk.size / (c.flac.setting.ch * (c.flac.setting.bits / 8) % 2 ^ 32))
            c'
  unfolding on_wire_chunk handle_chunk_message
  on_wire_chunk-parses base c w w' s chunk got codec parse e some_frame =
      let (c', handled, plays) =
        handle_pcm_chunk-Plays s.wire_chunk chunk (with_chunk services c s) some_frame e in
      let here : ChunkState × W = (
        record {
          pcm_data = c.pcm_data;
          wire_chunk = no_wire_chunk;
          decoder = c.flac.decoder_chunk;
        },
        w,
      ) in
      let skip = lift (parser_skip_typed_message services.get_byte base) (c, w) in
      let step1 =
        ap
          (λ b.
            if not b
            then skip
            else after_chunk services c (
                parse_wire_chunk_message services.get_byte services.allocate services.blocks base
                  c.header.codec here))
          got in
      let step2 =
        ap
          (λ k. after_chunk services c (
            parse_wire_chunk_message services.get_byte services.allocate services.blocks base k
              here))
          codec in
      let step3 = ap (after_chunk services c) parse in
      let step4 =
        ap
          (λ k. beside services w' (
            handle_chunk_message services.dac_queue services.news services.queue services.drivers
              services.decoders services.allocate services.full services.fuel k s.wire_chunk
              (with_chunk services c s)))
          codec in
      let step5 = ap (beside services w') handled in
      (
        c',
        step1 ∙ step2 ∙ step3 ∙ step4 ∙ step5,
        record {
          setting = plays.setting;
          player = plays.player;
          no_chunk = plays.no_chunk;
          no_block = plays.no_block;
        },
      )

  -- A chunk of PCM samples, as many whole words as its header says, goes from the bytes of the connection to the
  -- player: with the samples in the driver's order, with the time stamp of the server, and with its number of
  -- frames in the settings. This needs memory for it, which may come after any number of tries, a codec header of PCM
  -- that came before, settings by which a frame has a byte at least, and that no part of an earlier chunk or of a
  -- block for a decoder is left over, as a lost connection can leave it.
  pub process_data-pcm :
      (now k fails : ℕ) (more : List (Option (List ℕ))) (c : Client D L Q M) (m : BaseMessage)
      (t : Tv) (payload block space : List ℕ) (fresh : PcmChunk) (w w' : W)
      → services.blocks ≡ replicate fails none ++ some block ∷ more
      → IsBaseMessage m
      → m.type ≡ 2
      → m.size ≡ 12 + length payload
      → c.header.received ≡ true
      → c.header.codec ≡ pcm
      → c.pcm_data ≡ none
      → c.flac.decoder_chunk.in_data ≡ none
      → (c.flac.setting.ch * (c.flac.setting.bits / 8) % 2 ^ 32) ≢ 0
      → t.sec < 2 ^ 32
      → t.usec < 2 ^ 32
      → length payload ≡ word_bytes k
      → services.allocate (length payload) ≡ some (holding fresh (length payload) space)
      → length space ≡ length payload
      → All IsByte payload
      → Feeds services.get_byte w
          (base_message_bytes m ++ (chunk_head t (length payload) ++ payload))
          w'
      → (c' : Client D L Q M) × (process_data services now (c, w) ≡ parsed tt (c', w'))
        × Plays
            (set_now services now c)
            (record (holding fresh (length payload) (swap_samples payload)) { timestamp = t })
            (length payload / (c.flac.setting.ch * (c.flac.setting.bits / 8) % 2 ^ 32))
            c'
  process_data-pcm now k fails more c m t payload block space fresh w w' memory v e size got codec
        no_chunk no_block some_frame h0 h1 words alloc room bytes h =
      let (w1, head, rest) =
        Feeds-append services.get_byte (base_message_bytes m) w w'
          (chunk_head t (length payload) ++ payload) h in
      let base = received_at now m in
      let before : ChunkState = record {
        pcm_data = c.pcm_data;
        wire_chunk = no_wire_chunk;
        decoder = c.flac.decoder_chunk;
      } in
      let parse =
        ap
          (λ b.
            parse_wire_chunk_message services.get_byte services.allocate b base pcm (before, w1))
          memory
        ∙ parse_wire_chunk_message-pcm services.get_byte services.allocate k fails more base before
            t payload block space fresh w1 w' no_chunk no_block h0 h1 words size v.size alloc room
            bytes rest in
      let (c', played, plays) =
        on_wire_chunk-parses base (set_now services now c) w1 w' _ _ got codec parse refl
          some_frame in
      let is_chunk : (m.type == 2) ≡ true = ground (arith, e) in
      (c', process_data-dispatches services now c m w w1 v head ∙ rw is_chunk played, plays)

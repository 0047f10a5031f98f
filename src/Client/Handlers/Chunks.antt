-- ===== src/Client/Handlers/Chunks.antt =====
-- `handle_chunk_message` of main/main.c: a chunk of audio is decoded and given to the player.
use snapclient.Base.{
  ℕ, zero, suc, ◌+◌, ◌-◌, ◌*◌, ◌/◌, ◌%◌, ◌^◌, List, Option, none, some, Bool, true, ltb, leb, ◌==◌,
  ◌&&◌, not, if◌then◌else◌, length, set, get_or,
}
use snapclient.Rtos.{Mailbox, Queue}
use snapclient.Message.{Tv, WireChunkMessage}
use snapclient.Parser.{Outcome, parsed, halted, fault, waiting}
use snapclient.Parser.Codec.{Codec, pcm, flac, opus}
use snapclient.Parser.Chunk.{DecoderData, first_payload, with_first_payload}
use snapclient.Player.Memory.{PcmChunk}
use snapclient.Player.Settings.{SnapcastSetting}
use snapclient.Player.Chunks.{Drivers}
use snapclient.Client.Dac.{DacData}
use snapclient.Client.Flac.{FlacState, block_of}
use snapclient.Client.Handlers.{Client, Decoders, handle_pcm_chunk, insert_if_there, send_setting}

-- `while (decoderChunk.bytes > 0)`, on fuel; a frame that cannot be decoded is tried again.
unfoldable pub decode_all : (FlacState → FlacState) → ℕ → FlacState → Option FlacState
decode_all single zero f = none
decode_all single (suc fuel) f =
    let rest = decode_all single fuel (single f) in
    if f.decoder_chunk.bytes == 0 then some f else rest

-- Frames that were decoded from what came before the chunk begin earlier. The times have 64 bits.
unfoldable pub repaired : ℕ → ℕ → Tv → Tv
repaired cached sr t =
    if not (ltb 0 cached && not (sr == 0))
    then t
    else let diff_us = 1000000 * cached / sr in
      let timestamp = (1000000 * t.sec + t.usec + (2 ^ 64 - diff_us % 2 ^ 64)) % 2 ^ 64 in
      record { sec = timestamp / 1000000 % 2 ^ 32; usec = timestamp % 1000000 }

-- A word of four bytes from one block to the other, `none` where one of them ends before.
abbrev pub copy_word : List ℕ → List ℕ → ℕ → List ℕ
copy_word from block at =
    set
      (set (set (set block at (get_or from at 0)) (at + 1) (get_or from (at + 1) 0)) (at + 2)
        (get_or from (at + 2) 0))
      (at + 3) (get_or from (at + 3) 0)

unfoldable pub copy_frames : ℕ → ℕ → List ℕ → List ℕ → Option (List ℕ)
copy_frames zero at from block = some block
copy_frames (suc n) at from block =
    let rest = copy_frames n (at + 4) from (copy_word from block at) in
    if leb (at + 4) (length from) && leb (at + 4) (length block) then rest else none

abbrev pub with_copy : PcmChunk → Option (List ℕ) → Option PcmChunk
with_copy chunk none = none
with_copy chunk (some block) =
    some (record chunk { fragments = with_first_payload block chunk.fragments })

-- The decoded frames in the chunk, if it has memory for them.
unfoldable pub fill_frames : SnapcastSetting → DecoderData → PcmChunk → Option PcmChunk
unfolding copy_frames
fill_frames setting decoded chunk = elim (first_payload chunk.fragments) [
  | none ↦ some chunk
  | some block ↦
      let frame = setting.ch * (setting.bits / 8) in
      if frame == 0
      then none
      else with_copy chunk (copy_frames (decoded.bytes / frame) 0 (block_of decoded.out_data) block)
]

module _ {D L Q M : Type 0} (dac_queue : Mailbox DacData D) (news : Mailbox ℕ M)
    (queue : Queue PcmChunk Q) (drivers : Drivers M) (decoders : Decoders D L Q M)
    (allocate : ℕ → Option PcmChunk) (full : Bool) where
  -- What was decoded is freed, and the player is told of the settings.
  abbrev pub flac_done : FlacState → Client D L Q M → Outcome (Client D L Q M) (Unit {0})
  flac_done f c = parsed tt (
      send_setting dac_queue news f.setting (record c {
        flac = record f { pcm_chunk = record f.pcm_chunk { out_data = none; bytes = 0 } };
      }))

  abbrev pub flac_insert :
      FlacState → Tv → Client D L Q M → Option PcmChunk → Outcome (Client D L Q M) (Unit {0})
  flac_insert f t c none = fault c
  flac_insert f t c (some chunk) = flac_done f (record c {
    player = insert_if_there queue drivers full (some (record chunk { timestamp = t })) c.player;
  })

  -- Without a chunk for them the frames are lost.
  abbrev pub flac_allocated :
      FlacState → Tv → Client D L Q M → Option PcmChunk → Outcome (Client D L Q M) (Unit {0})
  flac_allocated f t c none = flac_done f c
  flac_allocated f t c (some chunk) = flac_insert f t c (fill_frames f.setting f.pcm_chunk chunk)

  abbrev pub flac_decoded :
      WireChunkMessage → Client D L Q M → Option FlacState → Outcome (Client D L Q M) (Unit {0})
  flac_decoded wire_chunk c none = waiting c
  flac_decoded wire_chunk c (some f) =
      flac_allocated
        (record f { setting = record f.setting { chk_in_frames = decoders.flac_blocksize } })
        (repaired f.cached_blocks f.setting.sr wire_chunk.timestamp) c (allocate f.pcm_chunk.bytes)

  unfoldable pub handle_flac_chunk :
      ℕ → WireChunkMessage → Client D L Q M → Outcome (Client D L Q M) (Unit {0})
  unfolding decode_all repaired fill_frames
  handle_flac_chunk fuel wire_chunk c =
      flac_decoded wire_chunk c (
        decode_all decoders.flac_single fuel
          (record c.flac { is_cached = true; cached_blocks = 0 }))

  unfoldable pub handle_chunk_message :
      ℕ → Codec → WireChunkMessage → Client D L Q M → Outcome (Client D L Q M) (Unit {0})
  unfolding handle_flac_chunk
  handle_chunk_message fuel opus wire_chunk c = decoders.opus_chunk wire_chunk c
  handle_chunk_message fuel flac wire_chunk c = handle_flac_chunk fuel wire_chunk c
  handle_chunk_message fuel pcm wire_chunk c =
      handle_pcm_chunk dac_queue news queue drivers full wire_chunk c
  handle_chunk_message fuel codec wire_chunk c = halted c

-- ===== src/Client/Flac.antt =====
-- main/main.c: what the FLAC decoder calls, to read a chunk and to write its samples. The decoder is
-- libFLAC, which is not in the repository.
pub mod Input
pub mod Output
use snapclient.Base.{
  ℕ, zero, suc, ◌+◌, ◌-◌, ◌*◌, ◌/◌, ◌%◌, ◌^◌, List, [], ◌∷◌, ◌++◌, Option, none, some, Bool, true,
  false, leb, ◌==◌, ◌||◌, not, if◌then◌else◌, set, length, take, drop, get_or,
}
use snapclient.Parser.Chunk.{DecoderData}
use snapclient.Player.Settings.{SnapcastSetting}

-- `decoderChunk`, `pcmChunk`, `isCachedChunk`, `cachedBlocks`, and the settings that the callbacks get.
pub record FlacState : Type 0 where
  pub decoder_chunk : DecoderData
  pub pcm_chunk : DecoderData
  pub is_cached : Bool
  pub cached_blocks : ℕ
  pub setting : SnapcastSetting

-- `FLAC__STREAM_DECODER_READ_STATUS_CONTINUE` and `_END_OF_STREAM`.
pub data ReadStatus : Type 0 where
  read_continue end_of_stream : ReadStatus

-- `*bytes` and the bytes that are put into the buffer, none if `*bytes` is left as it is; and the state.
pub record ReadResult : Type 0 where
  pub status : ReadStatus
  pub bytes : ℕ
  pub copied : List ℕ
  pub after : FlacState

-- `FLAC__STREAM_DECODER_WRITE_STATUS_CONTINUE` and `_ABORT`; `overflow` is a write outside of the memory that
-- was allocated, and `no_memory` the loop that still asks for it.
pub data WriteResult (H : Type 0) : Type 0 where
  write_continue : FlacState → H → WriteResult H
  abort : FlacState → WriteResult H
  overflow : WriteResult H
  no_memory : H → WriteResult H

-- The header of a frame.
pub record FrameHeader : Type 0 where
  pub blocksize : ℕ
  pub channels : ℕ
  pub bits_per_sample : ℕ

-- `FLAC__StreamMetadata_StreamInfo`
pub record StreamInfo : Type 0 where
  pub sample_rate : ℕ
  pub channels : ℕ
  pub bits_per_sample : ℕ

-- The rest of the chunk, as `realloc` moves it.
abbrev pub keep_rest : (List ℕ → Option (List ℕ)) → ℕ → List ℕ → DecoderData → DecoderData
keep_rest shrink asked block d = record d {
  in_data = shrink (drop asked block);
  bytes = d.bytes - asked;
}

-- `realloc` to less memory is the parameter `shrink`.
unfoldable pub read_callback : (List ℕ → Option (List ℕ)) → ℕ → FlacState → ReadResult
read_callback shrink asked s = elim s.decoder_chunk.in_data [
  | none ↦ record { status = end_of_stream; bytes = asked; copied = []; after = s }
  | some block ↦
      let d = s.decoder_chunk in
      if d.bytes == 0
      then record { status = end_of_stream; bytes = asked; copied = []; after = s }
      else if leb d.bytes asked
      then record {
        status = read_continue;
        bytes = d.bytes;
        copied = take d.bytes block;
        after = record s {
          is_cached = false;
          decoder_chunk = record d { in_data = none; bytes = 0 };
        };
      }
      else record {
        status = read_continue;
        bytes = asked;
        copied = take asked block;
        after = record s { is_cached = false; decoder_chunk = keep_rest shrink asked block d };
      }
]

-- A frame's samples are bit patterns of 32 bits. `(uint8_t)(x >> 8)` is the second byte.
abbrev pub store_frame : List ℕ → ℕ → ℕ → ℕ → List ℕ
store_frame block i left right =
    set (set (set (set block i (left % 256)) (i + 1) (left / 2 ^ 8 % 256)) (i + 2) (right % 256))
      (i + 3) (right / 2 ^ 8 % 256)

-- The loop over the frames, with those left; `none` is a write out of bounds.
unfoldable pub store_frames : ℕ → ℕ → List ℕ → List ℕ → List ℕ → ℕ → Option (List ℕ)
store_frames zero i left right block start = some block
store_frames (suc n) i left right block start =
    let at = start + 4 * i in
    let rest =
      store_frames n (i + 1) left right (store_frame block at (get_or left i 0) (get_or right i 0))
        start in
    if leb (at + 4) (length block) then rest else none

abbrev pub block_of : Option (List ℕ) → List ℕ
block_of none = []
block_of (some block) = block

module _ {H : Type 0} (realloc : ℕ → List ℕ → H → Option (List ℕ) × H) where
  -- `do ... while (!pcmData)`, on fuel.
  unfoldable pub grow : ℕ → ℕ → List ℕ → H → Option (List ℕ) × H
  grow zero bytes old h = (none, h)
  grow (suc fuel) bytes old h =
      let (block, h') = realloc bytes old h in
      let again = grow fuel bytes old h' in elim block [ some b ↦ (some b, h') | none ↦ again ]

  -- The frames are stored behind those that `pcmChunk` has.
  abbrev pub written :
      ℕ → FrameHeader → DecoderData → Option (List ℕ) → FlacState → H → WriteResult H
  written bytes header chunk none s h = overflow
  written bytes header chunk (some block) s h =
      write_continue
        (record s {
          pcm_chunk = record chunk { out_data = some block; bytes = chunk.bytes + bytes };
          setting = record s.setting { chk_in_frames = header.blocksize };
        })
        h

  abbrev pub store_grown :
      ℕ → FrameHeader → List ℕ → List ℕ → FlacState → Option (List ℕ) × H → WriteResult H
  store_grown bytes header left right s (none, h) = no_memory h
  store_grown bytes header left right s (some block, h) =
      written bytes header s.pcm_chunk
        (store_frames header.blocksize 0 left right block s.pcm_chunk.bytes) s h

  abbrev pub count_cached : FrameHeader → FlacState → FlacState
  count_cached header s =
      if s.is_cached then record s { cached_blocks = s.cached_blocks + header.blocksize } else s

  abbrev pub write_channels :
      ℕ → FrameHeader → Option (List ℕ) → Option (List ℕ) → FlacState → H → WriteResult H
  write_channels fuel header none right s h = abort s
  write_channels fuel header (some left) none s h = abort s
  write_channels fuel header (some left) (some right) s h =
      let bytes = header.blocksize * header.channels * header.bits_per_sample / 8 in
      store_grown bytes header left right s
        (grow fuel (s.pcm_chunk.bytes + bytes) (block_of s.pcm_chunk.out_data) h)

  unfoldable pub write_callback :
      ℕ → FrameHeader → Option (List ℕ) → Option (List ℕ) → FlacState → H → WriteResult H
  unfolding store_frames grow
  write_callback fuel header left right s h =
      let s' = count_cached header s in
      if not (header.channels == s.setting.ch) || not (header.bits_per_sample == s.setting.bits)
      then abort s'
      else write_channels fuel header left right s' h

-- The metadata block `none` is of another type than `FLAC__METADATA_TYPE_STREAMINFO`.
unfoldable pub metadata_callback : Option StreamInfo → FlacState → FlacState
metadata_callback none s = s
metadata_callback (some info) s = record s {
  setting = record s.setting {
    sr = info.sample_rate;
    ch = info.channels;
    bits = info.bits_per_sample;
  };
}

-- ===== src/Parser/Chunk.antt =====
-- `parse_wire_chunk_message` of components/lightsnapcast/snapcast_protocol_parser.c: the chunks of
-- audio. A compressed chunk is stored for the decoder as it comes, and the samples of a PCM chunk are
-- put in place while they are read. `char` has no sign on the target.
pub mod Samples
pub mod Pcm
pub mod Laws
pub mod Leftover
use snapclient.Base.{
  ℕ, zero, suc, ◌+◌, ◌-◌, ◌*◌, ◌/◌, ◌%◌, ◌^◌, List, [], ◌∷◌, Option, none, some, Bool, true, false,
  leb, ◌==◌, if◌then◌else◌, set, length, bit_or,
}
use snapclient.Message.{Tv, BaseMessage, WireChunkMessage}
use snapclient.Player.Memory.{PcmChunk, Fragment}
use snapclient.Parser.{
  Outcome, Parse, parsed, restart, halted, fault, waiting, ◌>>=◌, ◌>>◌, pure, lift, assign,
  read_byte, read_uint32_le, read_timestamp, read_data,
}
use snapclient.Parser.Codec.{Codec, no_codec, pcm, flac, ogg, opus}

-- `decoderData_t`; a pointer is the block that it points to.
pub record DecoderData : Type 0 where
  pub type : ℕ
  pub in_data : Option (List ℕ)
  pub timestamp : Tv
  pub out_data : Option (List ℕ)
  pub bytes : ℕ

-- What the function reaches through its pointers.
pub record ChunkState : Type 0 where
  pub pcm_data : Option PcmChunk
  pub wire_chunk : WireChunkMessage
  pub decoder : DecoderData

-- `SNAPCAST_MESSAGE_WIRE_CHUNK`
abbrev pub message_wire_chunk : ℕ
message_wire_chunk = 2

-- `((*pcmData)->fragment->payload)`, where all of these are there, and the chunk with another block in
-- its place.
abbrev pub first_payload : List Fragment → Option (List ℕ)
first_payload [] = none
first_payload (f ∷ fs) = f.payload

abbrev pub chunk_payload : Option PcmChunk → Option (List ℕ)
chunk_payload none = none
chunk_payload (some c) = first_payload c.fragments

abbrev pub with_first_payload : List ℕ → List Fragment → List Fragment
with_first_payload block [] = []
with_first_payload block (f ∷ fs) = record f { payload = some block } ∷ fs

abbrev pub with_payload : List ℕ → Option PcmChunk → Option PcmChunk
with_payload block none = none
with_payload block (some c) = some (record c { fragments = with_first_payload block c.fragments })

-- The loop's variables: `tmpData`, `payloadDataShift` (from 3 to 0; -1 is put back to 3 at once),
-- `payloadOffset`, and the chunk.
pub record PcmLoop : Type 0 where
  pub tmp_data : ℕ
  pub shift : ℕ
  pub offset : ℕ
  pub chunk : Option PcmChunk

-- Exchange the two samples of a word, each with its bytes exchanged.
unfoldable pub swap_word : ℕ → ℕ
swap_word tmp =
    let a = bit_or 0 (tmp / 2 ^ 24 % 256 * 2 ^ 16) in
    let b = bit_or a (tmp / 2 ^ 16 % 256 * 2 ^ 24) in
    let c = bit_or b (tmp / 2 ^ 8 % 256 * 2 ^ 0) in bit_or c (tmp % 256 * 2 ^ 8)

-- A word, stored little-endian.
abbrev pub store_word : List ℕ → ℕ → ℕ → List ℕ
store_word block i v =
    set (set (set (set block i (v % 256)) (i + 1) (v / 2 ^ 8 % 256)) (i + 2) (v / 2 ^ 16 % 256))
      (i + 3) (v / 2 ^ 24 % 256)

-- The word is complete: it is stored if there is a payload, and `none` is a store out of bounds.
unfoldable pub flush_word : PcmLoop → Option PcmLoop
unfolding swap_word
flush_word l = elim (chunk_payload l.chunk) [
  | none ↦ some (record l { tmp_data = 0; shift = 3 })
  | some block ↦
      if leb (l.offset + 4) (length block)
      then some (record {
        tmp_data = 0;
        shift = 3;
        offset = l.offset + 4;
        chunk = with_payload (store_word block l.offset (swap_word l.tmp_data)) l.chunk;
      })
      else none
]

unfoldable pub take_byte : ℕ → PcmLoop → Option PcmLoop
unfolding flush_word
take_byte v l =
    let l' = record l { tmp_data = bit_or l.tmp_data (v % 256 * 2 ^ (8 * l.shift)) } in
    if l.shift == 0 then flush_word l' else some (record l' { shift = l.shift - 1 })

module _ {W : Type 0} (get_byte : W → Option ℕ × W) where
  -- `while (_tmp--)`, with the rounds left. An early return keeps what is in the chunk.
  unfoldable pub pcm_loop : ℕ → Parse (PcmLoop × W) (Unit {0})
  pcm_loop zero = pure tt
  pcm_loop (suc rounds) = do
    v ← lift (read_byte get_byte)
    λ (l, w).
        let rest = λ (l' : PcmLoop). pcm_loop rounds (l', w) in
        elim (take_byte v l) [ none ↦ fault (l, w) | some l' ↦ rest l' ]

-- The answers of the `malloc` calls in the loop that waits for memory: `none` is another millisecond.
-- With no answer left the task still waits.
unfoldable pub first_block : List (Option (List ℕ)) → Option (List ℕ)
first_block [] = none
first_block (none ∷ answers) = first_block answers
first_block (some block ∷ answers) = some block

-- The variables of `process_data` around the loop, with the loop's.
abbrev pub keep_chunk :
    {W : Type 0}
    → ChunkState
    → Outcome (PcmLoop × W) (Unit {0})
    → Outcome (ChunkState × W) (Unit {0})
keep_chunk s (parsed a (l, w)) = parsed a (record s { pcm_data = l.chunk }, w)
keep_chunk s (restart (l, w)) = restart (record s { pcm_data = l.chunk }, w)
keep_chunk s (halted (l, w)) = halted (record s { pcm_data = l.chunk }, w)
keep_chunk s (fault (l, w)) = fault (record s { pcm_data = l.chunk }, w)
keep_chunk s (waiting (l, w)) = waiting (record s { pcm_data = l.chunk }, w)

-- `tmpData`, `payloadDataShift` and `payloadOffset` are 0 at first; only a new chunk sets the shift.
abbrev pub start_loop : Option PcmChunk → Option PcmChunk → PcmLoop
start_loop none fresh = record { tmp_data = 0; shift = 3; offset = 0; chunk = fresh }
start_loop (some old) fresh = record { tmp_data = 0; shift = 0; offset = 0; chunk = some old }

module _ {W : Type 0} (get_byte : W → Option ℕ × W) (allocate : ℕ → Option PcmChunk) where
  unfoldable pub parse_pcm : ℕ → Parse (ChunkState × W) (Unit {0})
  unfolding pcm_loop
  parse_pcm size (s, w) =
      keep_chunk s (pcm_loop get_byte size (start_loop s.pcm_data (allocate s.wire_chunk.size), w))

  unfoldable pub parse_compressed : ℕ → List ℕ → Parse (ChunkState × W) (Unit {0})
  parse_compressed size block = do
    filled ← lift (read_data get_byte block size)
    assign (λ s. record s {
      decoder = record s.decoder {
        type = message_wire_chunk;
        in_data = some filled;
        out_data = none;
      };
    })

  -- By codec, with the block that `inData` points to.
  unfoldable pub parse_payload : Codec → ℕ → List ℕ → Parse (ChunkState × W) (Unit {0})
  unfolding parse_pcm parse_compressed
  parse_payload opus size block = parse_compressed size block
  parse_payload flac size block = parse_compressed size block
  parse_payload pcm size block = parse_pcm size
  parse_payload no_codec size block = halted
  parse_payload ogg size block = halted

  -- `while (!decoderChunk->inData)`: a block that is there already is kept.
  abbrev pub in_data_block : List (Option (List ℕ)) → Option (List ℕ) → Option (List ℕ)
  in_data_block answers none = first_block answers
  in_data_block answers (some block) = some block

  unfoldable pub wait_for_block : List (Option (List ℕ)) → Parse (ChunkState × W) (List ℕ)
  unfolding first_block
  wait_for_block answers (s, w) = elim (in_data_block answers s.decoder.in_data) [
    | none ↦ waiting (s, w)
    | some block ↦
        parsed block (record s { decoder = record s.decoder { in_data = some block } }, w)
  ]

  -- `tmp_size` is computed in a `size_t`.
  unfoldable pub parse_wire_chunk_message :
      List (Option (List ℕ)) → BaseMessage → Codec → Parse (ChunkState × W) (Unit {0})
  unfolding parse_payload wait_for_block
  parse_wire_chunk_message answers base codec = do
    timestamp ← lift (read_timestamp get_byte)
    assign (λ s. record s { wire_chunk = record s.wire_chunk { timestamp = timestamp } })
    size ← lift (read_uint32_le get_byte)
    assign (λ s. record s {
      wire_chunk = record s.wire_chunk { size = size };
      decoder = record s.decoder { bytes = size };
    })
    block ← wait_for_block answers
    parse_payload codec ((base.size + 2 ^ 32 - 12) % 2 ^ 32) block

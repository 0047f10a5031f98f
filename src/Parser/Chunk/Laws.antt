-- ===== src/Parser/Chunk/Laws.antt =====
-- What `parse_wire_chunk_message` of components/lightsnapcast/snapcast_protocol_parser.c leaves of a
-- chunk, by codec, and of a PCM chunk that follows one it could not finish.
use snapclient.Base.{
  ℕ, zero, suc, ◌+◌, ◌-◌, ◌%◌, ◌^◌, ◌<◌, ◌≡◌, refl, ◌∙◌, List, [], ◌∷◌, ◌++◌, arith, Option, none,
  some, length, drop_all, replicate, ◌⊎◌, inl, inr, All,
}
use mathlib.Core.List.{append-nil}
use snapclient.Base.Bytes.{IsByte, le_bytes, join_four-le_bytes}
use snapclient.Message.{Tv, BaseMessage}
use snapclient.Parser.{parsed, read_timestamp}
use snapclient.Parser.Source.{Feeds, Consumes-timestamp}
use snapclient.Parser.Data.{Feeds-append, read_data-fills}
use snapclient.Parser.Codec.{Codec, pcm, flac, opus}
use snapclient.Parser.Codec.Laws.{read_uint32-Feeds}
use snapclient.Parser.Chunk.{
  ChunkState, message_wire_chunk, first_block, parse_pcm, parse_compressed, parse_payload,
  wait_for_block, parse_wire_chunk_message, pcm_loop,
}
use snapclient.Parser.Chunk.Pcm.{swap_samples, word_bytes, holding, pcm_loop-words}
use snapclient.Message.Wire.{tv_bytes}
use snapclient.Player.Memory.{PcmChunk}

first_block-waits :
    (fails : ℕ) (block : List ℕ) (more : List (Option (List ℕ)))
    → first_block (replicate fails none ++ some block ∷ more) ≡ some block
unfolding first_block
first_block-waits zero block more = refl
first_block-waits (suc n) block more = first_block-waits n block more

-- The header of the chunk, `n` for the size that it states.
abbrev pub chunk_head : Tv → ℕ → List ℕ
chunk_head t n = tv_bytes t ++ le_bytes 4 n

-- What is known behind the head of a chunk and the wait for memory.
abbrev with_head : ChunkState → Tv → ℕ → List ℕ → ChunkState
with_head s t n block = record {
  pcm_data = s.pcm_data;
  wire_chunk = record s.wire_chunk { timestamp = t; size = n };
  decoder = record s.decoder { bytes = n; in_data = some block };
}

module _ {W : Type 0} (get_byte : W → Option ℕ × W) (allocate : ℕ → Option PcmChunk) where
  read_timestamp-Feeds :
      (t : Tv) (w w' : W)
      → t.sec < 2 ^ 32
      → t.usec < 2 ^ 32
      → Feeds get_byte w (tv_bytes t) w'
      → read_timestamp get_byte w ≡ parsed t w'
  read_timestamp-Feeds t w w' h0 h1 f = rw (
    (Consumes-timestamp get_byte).whole w w' (tv_bytes t) f refl,
    join_four-le_bytes t.sec h0,
    join_four-le_bytes t.usec h1,
  )

  wait_for_block-waits :
      (fails : ℕ) (more : List (Option (List ℕ))) (s : ChunkState) (block : List ℕ) (w : W)
      → s.decoder.in_data ≡ none
      → wait_for_block get_byte allocate (replicate fails none ++ some block ∷ more) (s, w)
        ≡ parsed block (record s { decoder = record s.decoder { in_data = some block } }, w)
  unfolding wait_for_block
  wait_for_block-waits fails more s block w e =
      rw (wait_for_block, e, first_block-waits fails block more)

  parse_head :
      (fails : ℕ) (more : List (Option (List ℕ))) (base : BaseMessage) (codec : Codec)
      (s : ChunkState) (t : Tv) (n : ℕ) (block : List ℕ) (w w' : W)
      → s.decoder.in_data ≡ none
      → t.sec < 2 ^ 32
      → t.usec < 2 ^ 32
      → n < 2 ^ 32
      → Feeds get_byte w (chunk_head t n) w'
      → parse_wire_chunk_message get_byte allocate
          (replicate fails none ++ some block ∷ more)
          base
          codec
          (s, w)
        ≡ parse_payload get_byte allocate codec
            ((base.size + 2 ^ 32 - 12) % 2 ^ 32)
            block
            (with_head s t n block, w')
  unfolding parse_wire_chunk_message
  parse_head fails more base codec s t n block w w' e h0 h1 h2 f =
      let (v, f0, f1) = Feeds-append get_byte (tv_bytes t) w w' (le_bytes 4 n) f in
      rw (
        read_timestamp-Feeds t w v h0 h1 f0,
        read_uint32-Feeds get_byte (λ _. none) n v w' h2 f1,
        wait_for_block-waits fails more
            (record s {
              wire_chunk = record s.wire_chunk { timestamp = t; size = n };
              decoder = record s.decoder { bytes = n };
            })
            block w' e,
      )

  parse_compressed-fills :
      (s : ChunkState) (payload block : List ℕ) (w w' : W)
      → length block ≡ length payload
      → Feeds get_byte w payload w'
      → parse_compressed get_byte allocate (length payload) block (s, w)
        ≡ parsed tt (
          record s {
            decoder = record s.decoder {
              type = message_wire_chunk;
              in_data = some payload;
              out_data = none;
            };
          },
          w',
        )
  unfolding parse_compressed
  parse_compressed-fills s payload block w w' l f = rw (
    read_data-fills get_byte (length payload) block payload w w' f refl (omega arith),
    drop_all block (length payload) (omega arith),
    append-nil,
  )

  -- A chunk of a compressed stream is stored whole for the decoder, after any number of failed
  -- attempts to get memory, if its header and the message's agree on its size.
  pub parse_wire_chunk_message-compressed :
      (fails : ℕ) (more : List (Option (List ℕ))) (base : BaseMessage) (codec : Codec)
      (s : ChunkState) (t : Tv) (payload block : List ℕ) (w w' : W)
      → (codec ≡ flac) ⊎ (codec ≡ opus)
      → s.decoder.in_data ≡ none
      → t.sec < 2 ^ 32
      → t.usec < 2 ^ 32
      → base.size ≡ 12 + length payload
      → base.size < 2 ^ 32
      → length block ≡ length payload
      → Feeds get_byte w (chunk_head t (length payload) ++ payload) w'
      → parse_wire_chunk_message get_byte allocate
          (replicate fails none ++ some block ∷ more)
          base
          codec
          (s, w)
        ≡ parsed tt (
          record {
            pcm_data = s.pcm_data;
            wire_chunk = record s.wire_chunk { timestamp = t; size = length payload };
            decoder = record s.decoder {
              type = message_wire_chunk;
              in_data = some payload;
              out_data = none;
              bytes = length payload;
            };
          },
          w',
        )
  parse_wire_chunk_message-compressed fails more base codec s t payload block w w' c e h0 h1 size lt
        l f =
      let (v, f0, f1) = Feeds-append get_byte (chunk_head t (length payload)) w w' payload f in
      let n : (base.size + 2 ^ 32 - 12) % 2 ^ 32 ≡ length payload = omega arith in
      let stored =
        parse_compressed-fills (with_head s t (length payload) block) payload block v w' l f1 in
      parse_head fails more base codec s t (length payload) block w v e h0 h1 (omega arith) f0
      ∙ rw n (elim c [
        | inl d ↦ unfold parse_payload in rw d stored
        | inr d ↦ unfold parse_payload in rw d stored
      ])

  -- The samples of a PCM chunk whose size is a number of words are put, in the driver's order, into
  -- the block that the chunk got for them.
  pub parse_wire_chunk_message-pcm :
      (k fails : ℕ) (more : List (Option (List ℕ))) (base : BaseMessage) (s : ChunkState) (t : Tv)
      (payload block space : List ℕ) (c : PcmChunk) (w w' : W)
      → s.pcm_data ≡ none
      → s.decoder.in_data ≡ none
      → t.sec < 2 ^ 32
      → t.usec < 2 ^ 32
      → length payload ≡ word_bytes k
      → base.size ≡ 12 + length payload
      → base.size < 2 ^ 32
      → allocate (length payload) ≡ some (holding c (length payload) space)
      → length space ≡ length payload
      → All IsByte payload
      → Feeds get_byte w (chunk_head t (length payload) ++ payload) w'
      → parse_wire_chunk_message get_byte allocate
          (replicate fails none ++ some block ∷ more)
          base
          pcm
          (s, w)
        ≡ parsed tt (
          record {
            pcm_data = some (holding c (length payload) (swap_samples payload));
            wire_chunk = record s.wire_chunk { timestamp = t; size = length payload };
            decoder = record s.decoder { bytes = length payload; in_data = some block };
          },
          w',
        )
  parse_wire_chunk_message-pcm k fails more base s t payload block space c w w' e0 e1 h0 h1 words
        size lt a l bytes f =
      let (v, f0, f1) = Feeds-append get_byte (chunk_head t (length payload)) w w' payload f in
      let n : (base.size + 2 ^ 32 - 12) % 2 ^ 32 ≡ word_bytes k = omega arith in
      parse_head fails more base pcm s t (length payload) block w v e1 h0 h1 (omega arith) f0
      ∙ rw n (
          unfold parse_payload parse_pcm in
          rw
            (
              e0,
              a,
              pcm_loop-words get_byte k 0 (length payload) c [] space payload v w' f1 bytes words
                  (omega arith),
              drop_all space (word_bytes k) (omega arith),
              append-nil,
              pcm_loop,
            )
            refl)

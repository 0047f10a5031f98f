-- ===== src/Examples/Chunks.antt =====
-- The chunks of audio of components/lightsnapcast/snapcast_protocol_parser.c on concrete sources.
use snapclient.Base.{ℕ, List, [], ◌∷◌, ◌++◌, ◌≡◌, refl, replicate, some, none, Option, arith}
use snapclient.Base.{All}
use snapclient.Base.Bytes.{IsByte}
use snapclient.Message.{BaseMessage}
use snapclient.Player.Memory.{PcmChunk, empty_chunk}
use snapclient.Parser.{parsed}
use snapclient.Parser.Codec.{pcm}
use snapclient.Parser.Chunk.{ChunkState, parse_wire_chunk_message}
use snapclient.Parser.Chunk.Pcm.{holding, swap_samples}
use snapclient.Parser.Chunk.Laws.{chunk_head, parse_wire_chunk_message-pcm}
use snapclient.Examples.{next_of, next_of-Feeds}
use snapclient.Examples.Messages.{two_five}

abbrev pub eight : List ℕ
eight = 1 ∷ 2 ∷ 3 ∷ 4 ∷ 5 ∷ 6 ∷ 7 ∷ 8 ∷ []

abbrev pub zeros : List ℕ
zeros = replicate 8 0

abbrev pub head : BaseMessage
head = record { type = 2; id = 1; refers_to = 0; sent = two_five; received = two_five; size = 20 }

abbrev stream : List ℕ
stream = chunk_head two_five 8 ++ eight

abbrev idle : ChunkState
idle = record {
  pcm_data = none;
  wire_chunk = record { timestamp = two_five; size = 0; payload = none };
  decoder = record { type = 0; in_data = none; timestamp = two_five; out_data = none; bytes = 0 };
}

abbrev pub one_chunk : ℕ → Option PcmChunk
one_chunk n = some (holding empty_chunk n (replicate n 0))

-- The second attempt to get memory succeeds.
abbrev pub answers : List (Option (List ℕ))
answers = none ∷ some zeros ∷ []

pub eight-Bytes : All IsByte eight
eight-Bytes = (
  omega arith,
  (
    omega arith,
    (omega arith, (omega arith, (omega arith, (omega arith, (omega arith, (omega arith, tt)))))),
  ),
)

parse_wire_chunk_message-pcm_example :
    parse_wire_chunk_message next_of one_chunk answers head pcm (idle, stream)
    ≡ parsed tt (
      record {
        pcm_data = some (holding empty_chunk 8 (3 ∷ 4 ∷ 1 ∷ 2 ∷ 7 ∷ 8 ∷ 5 ∷ 6 ∷ []));
        wire_chunk = record { timestamp = two_five; size = 8; payload = none };
        decoder = record {
          type = 0;
          in_data = some zeros;
          timestamp = two_five;
          out_data = none;
          bytes = 8;
        };
      },
      [],
    )
unfolding swap_samples
parse_wire_chunk_message-pcm_example =
    parse_wire_chunk_message-pcm next_of one_chunk 2 1 [] head idle two_five eight zeros zeros
      empty_chunk stream [] refl refl (omega arith) (omega arith) refl refl (omega arith) refl refl
      eight-Bytes (next_of-Feeds stream)

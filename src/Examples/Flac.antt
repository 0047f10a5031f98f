-- ===== src/Examples/Flac.antt =====
-- The callbacks of the FLAC decoder on concrete chunks.
use snapclient.Base.{
  ℕ, ◌==◌, if◌then◌else◌, ◌≡◌, refl, arith, List, [], ◌∷◌, Option, none, some, true, take, drop,
  replicate,
}
use snapclient.Player.Settings.{zero_setting}
use snapclient.Parser.Codec.{flac}
use snapclient.Parser.Chunk.{DecoderData}
use snapclient.Client.Flac.{FlacState, FrameHeader, count_cached, grow, write_callback, written}
use snapclient.Client.Flac.Input.{IsLeft, part, read_all, read_all_lem, sum}
use snapclient.Client.Flac.Output.{interleave, write_callback_lem}

abbrev pub no_chunk : DecoderData
no_chunk = record {
  type = 0;
  in_data = none;
  timestamp = record { sec = 0; usec = 0 };
  out_data = none;
  bytes = 0;
}

abbrev five_bytes : List ℕ
five_bytes = 1 ∷ 2 ∷ 3 ∷ 4 ∷ 5 ∷ []

abbrev pub stream_of : ℕ → FlacState
stream_of bits = record {
  decoder_chunk = record no_chunk { in_data = some five_bytes; bytes = 5 };
  pcm_chunk = no_chunk;
  is_cached = true;
  cached_blocks = 0;
  setting = record zero_setting { codec = flac; ch = 2; bits = bits; sr = 48000 };
}

read_all_lem_example :
    ((read_all (λ xs. some xs) (2 ∷ 2 ∷ 2 ∷ []) (stream_of 16)).0
      ≡ take (sum (2 ∷ 2 ∷ 2 ∷ [])) five_bytes)
    × IsLeft
        (read_all (λ xs. some xs) (2 ∷ 2 ∷ 2 ∷ []) (stream_of 16)).1.decoder_chunk
        (drop (sum (2 ∷ 2 ∷ 2 ∷ [])) five_bytes)
read_all_lem_example =
    read_all_lem (λ xs. some xs) (2 ∷ 2 ∷ 2 ∷ []) (stream_of 16) five_bytes (λ xs. refl)
      (part five_bytes refl refl (omega arith))

-- Memory for a frame is found at the second try.
abbrev second_try : ℕ → List ℕ → ℕ → Option (List ℕ) × ℕ
second_try n old h = if h == 0 then (none, 1) else (some (replicate n 0), 2)

abbrev frames_of : ℕ → ℕ → FrameHeader
frames_of n bits = record { blocksize = n; channels = 2; bits_per_sample = bits }

write_callback_lem_example :
    write_callback second_try 2
      (frames_of 2 16)
      (some (258 ∷ 1 ∷ []))
      (some (772 ∷ 3 ∷ []))
      (stream_of 16)
      0
    ≡ written second_try 8
        (frames_of 2 16)
        no_chunk
        (some (interleave (258 ∷ 1 ∷ []) (772 ∷ 3 ∷ [])))
        (count_cached second_try (frames_of 2 16) (stream_of 16))
        2
unfolding grow
write_callback_lem_example =
    write_callback_lem second_try 2 (frames_of 2 16) (258 ∷ 1 ∷ []) (772 ∷ 3 ∷ []) []
      (replicate 8 0) (stream_of 16) 0 2 (refl, refl, refl, refl) refl refl refl refl refl refl

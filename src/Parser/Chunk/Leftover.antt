-- ===== src/Parser/Chunk/Leftover.antt =====
-- A PCM chunk that follows one whose parse was broken off: `parse_wire_chunk_message` of
-- components/lightsnapcast/snapcast_protocol_parser.c goes on with the old chunk, from a byte counter
-- of its own that it has not set.
use snapclient.Base.{
  ℕ, zero, suc, ◌+◌, ◌*◌, ◌/◌, ◌%◌, ◌^◌, ◌≡◌, refl, ap, List, [], ◌∷◌, ◌++◌, arith, Option, some,
  length, All, bit_or, drop_all,
}
use mathlib.Core.List.{append-nil}
use snapclient.Base.Bits.{zero-bit_or}
use snapclient.Base.Bytes.{IsByte}
use snapclient.Parser.{parsed}
use snapclient.Parser.Source.{Feeds}
use snapclient.Parser.Data.{Feeds-append}
use snapclient.Parser.Chunk.{
  ChunkState, parse_pcm, pcm_loop, start_loop, take_byte, flush_word, swap_word,
}
use snapclient.Parser.Chunk.Samples.{swap_word_sum}
use snapclient.Parser.Chunk.Pcm.{
  swap_samples, word_bytes, and_words, holding, at_word, pcm_loop-words, pcm_loop_step,
  take_byte-first, take_byte_second, take_byte_third,
}
use snapclient.Player.Memory.{PcmChunk}

-- The first byte alone makes a word.
take_byte-leftover :
    (b m : ℕ) (c : PcmChunk) (x0 x1 x2 x3 : ℕ) (rest : List ℕ) (fresh : Option PcmChunk)
    → IsByte b
    → take_byte b (start_loop (some (holding c m (x0 ∷ x1 ∷ x2 ∷ x3 ∷ rest))) fresh)
      ≡ some (at_word 4 (holding c m (0 ∷ b ∷ 0 ∷ 0 ∷ rest)))
unfolding take_byte flush_word
take_byte-leftover b m c x0 x1 x2 x3 rest fresh h =
    let v = swap_word (bit_or 0 (b % 256 * 1)) in
    let z = zero-bit_or (b % 256 * 1) in
    let sum = swap_word_sum (bit_or 0 (b % 256 * 1)) in
    let e0 : v % 256 ≡ 0 = omega (arith, z, sum) in
    let e1 : v / 2 ^ 8 % 256 ≡ b = omega (arith, z, sum) in
    let e2 : v / 2 ^ 16 % 256 ≡ 0 = omega (arith, z, sum) in
    let e3 : v / 2 ^ 24 % 256 ≡ 0 = omega (arith, z, sum) in rw (e0, e1, e2, e3) (ground arith)

module _ {W : Type 0} (get_byte : W → Option ℕ × W) (allocate : ℕ → Option PcmChunk) where
  -- The samples of a chunk whose predecessor was broken off are stored one byte off: the first byte
  -- makes a word of its own, and the last three bytes are lost.
  pub parse_pcm-leftover :
      (k m b y0 y1 y2 : ℕ) (s : ChunkState) (c : PcmChunk) (space bs : List ℕ) (w w' : W)
      → s.pcm_data ≡ some (holding c m space)
      → length space ≡ word_bytes (suc k)
      → length bs ≡ word_bytes k
      → IsByte b
      → All IsByte bs
      → Feeds get_byte w (b ∷ (bs ++ y0 ∷ y1 ∷ y2 ∷ [])) w'
      → parse_pcm get_byte allocate (word_bytes (suc k)) (s, w)
        ≡ parsed tt
            (record s { pcm_data = some (holding c m (0 ∷ b ∷ 0 ∷ 0 ∷ swap_samples bs)) }, w')
  parse_pcm-leftover k m b y0 y1 y2 s c [] bs w w' e l lb h a f = absurd (omega arith)
  parse_pcm-leftover k m b y0 y1 y2 s c (x0 ∷ []) bs w w' e l lb h a f = absurd (omega arith)
  parse_pcm-leftover k m b y0 y1 y2 s c (x0 ∷ x1 ∷ []) bs w w' e l lb h a f = absurd (omega arith)
  parse_pcm-leftover k m b y0 y1 y2 s c (x0 ∷ x1 ∷ x2 ∷ []) bs w w' e l lb h a f =
      absurd (omega arith)
  parse_pcm-leftover k m b y0 y1 y2 s c (x0 ∷ x1 ∷ x2 ∷ x3 ∷ rest) bs w w' e l lb h a (f0, f) =
      let (v, f1, (g0, (g1, (g2, g)))) =
        Feeds-append get_byte bs (get_byte w).1 w' (y0 ∷ y1 ∷ y2 ∷ []) f in
      let fresh = allocate s.wire_chunk.size in
      let v1 = (get_byte v).1 in
      let v2 = (get_byte v1).1 in
      let old = holding c m (x0 ∷ x1 ∷ x2 ∷ x3 ∷ rest) in
      let c' = holding c m (0 ∷ b ∷ 0 ∷ 0 ∷ swap_samples bs) in
      let t0 = bit_or 0 (y0 % 256 * 2 ^ 24) in
      let t1 = bit_or t0 (y1 % 256 * 2 ^ 16) in
      let off = 4 + word_bytes k in
      let size : word_bytes (suc k) ≡ suc (and_words k 3) = three k in
      rw (size, e)
        (unfold parse_pcm in
          rw
            (
              pcm_loop_step get_byte (and_words k 3) b _ _ w f0
                  (take_byte-leftover b m c x0 x1 x2 x3 rest fresh h),
              pcm_loop-words get_byte k 3 m c (0 ∷ b ∷ 0 ∷ 0 ∷ []) rest bs (get_byte w).1 v f1 a lb
                  (omega arith),
              drop_all rest (word_bytes k) (omega arith),
              append-nil,
              pcm_loop_step get_byte 2 y0 _ _ v g0 (take_byte-first y0 off c'),
              pcm_loop_step get_byte 1 y1 _ _ v1 g1 (take_byte_second y1 t0 off c'),
              pcm_loop_step get_byte 0 y2 _ _ v2 g2 (take_byte_third y2 t1 off c'),
              pcm_loop,
              g,
            )
            refl)
    where
      three : (j : ℕ) → word_bytes (suc j) ≡ suc (and_words j 3)
      three zero = refl
      three (suc j) = ap (λ (n : ℕ). suc (suc (suc (suc n)))) (three j)

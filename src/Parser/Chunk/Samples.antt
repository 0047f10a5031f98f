-- ===== src/Parser/Chunk/Samples.antt =====
-- The exchange of the samples of a PCM chunk, in components/lightsnapcast/snapcast_protocol_parser.c.
use snapclient.Base.{ℕ, ◌+◌, ◌*◌, ◌/◌, ◌%◌, ◌^◌, ◌<◌, ◌≡◌, ap, ◌∙◌, arith, bit_or}
use snapclient.Base.Bits.{zero-bit_or, bit_or-zero, bit_or-shifted, bit_or_high, bit_or_split}
use snapclient.Parser.Chunk.{swap_word}

-- `tmpData` after the four bytes of a word.
abbrev pub gathered : ℕ → ℕ → ℕ → ℕ → ℕ
gathered b0 b1 b2 b3 =
    bit_or (bit_or (bit_or (bit_or 0 (b0 % 256 * 2 ^ 24)) (b1 % 256 * 2 ^ 16)) (b2 % 256 * 2 ^ 8))
      (b3 % 256 * 2 ^ 0)

pub gathered_sum :
    (b0 b1 b2 b3 : ℕ)
    → gathered b0 b1 b2 b3 ≡ b0 % 256 * 2 ^ 24 + b1 % 256 * 2 ^ 16 + b2 % 256 * 2 ^ 8 + b3 % 256
gathered_sum b0 b1 b2 b3 =
    let x0 = b0 % 256 in
    let x1 = b1 % 256 in
    let x2 = b2 % 256 in
    let x3 = b3 % 256 in
    let a0 = zero-bit_or (x0 * 2 ^ 24) in
    let a1 : bit_or (x0 * 2 ^ 24) (x1 * 2 ^ 16) ≡ (x0 * 256 + x1) * 2 ^ 16 =
      omega (arith, bit_or_high 24 x0 (x1 * 2 ^ 16)) in
    let a2 : bit_or ((x0 * 256 + x1) * 2 ^ 16) (x2 * 2 ^ 8) ≡ ((x0 * 256 + x1) * 256 + x2) * 2 ^ 8 =
      omega (arith, bit_or_high 16 (x0 * 256 + x1) (x2 * 2 ^ 8)) in
    let a3 : bit_or (((x0 * 256 + x1) * 256 + x2) * 2 ^ 8) (x3 * 2 ^ 0)
        ≡ ((x0 * 256 + x1) * 256 + x2) * 2 ^ 8 + x3 * 2 ^ 0 =
      bit_or_high 8 ((x0 * 256 + x1) * 256 + x2) (x3 * 2 ^ 0) (omega arith) in
    rw (a0, a1, a2, a3) (omega arith)

-- The swapped word, by the bytes of the word.
pub swap_word_sum :
    (t : ℕ)
    → swap_word t
      ≡ t / 2 ^ 8 % 256 + t % 256 * 2 ^ 8 + t / 2 ^ 24 % 256 * 2 ^ 16 + t / 2 ^ 16 % 256 * 2 ^ 24
unfolding swap_word
swap_word_sum t =
    let h = t / 2 ^ 24 % 256 in
    let m = t / 2 ^ 16 % 256 in
    let n = t / 2 ^ 8 % 256 in
    let l = t % 256 in
    let s0 = zero-bit_or (h * 2 ^ 16) in
    let s1 : bit_or (h * 2 ^ 16) (m * 2 ^ 24) ≡ (h + m * 256) * 2 ^ 16 =
      omega (arith, bit_or-shifted 24 (h * 2 ^ 16) m (omega arith)) in
    let s2 : bit_or ((h + m * 256) * 2 ^ 16) (n * 2 ^ 0) ≡ (h + m * 256) * 2 ^ 8 * 2 ^ 8 + n =
      omega (arith, bit_or_high 16 (h + m * 256) (n * 2 ^ 0)) in
    let e : l * 2 ^ 8 ≡ l * 2 ^ 8 + 0 = omega arith in
    let s3 = bit_or_split 8 ((h + m * 256) * 2 ^ 8) n l 0 (omega arith) (omega arith) in
    let s4 = bit_or_high 8 (h + m * 256) l (omega arith) in
    let s5 = bit_or-zero n in
    rw (s0, s1, s2) (ap (bit_or ((h + m * 256) * 2 ^ 8 * 2 ^ 8 + n)) e ∙ s3 ∙ omega (arith, s4, s5))

-- The bytes of the word that is stored for `b0`, `b1`, `b2`, `b3`.
pub swap_word_bytes :
    (b0 b1 b2 b3 : ℕ)
    → b0 < 256
    → b1 < 256
    → b2 < 256
    → b3 < 256
    → let v = swap_word (gathered b0 b1 b2 b3) in
      (v % 256 ≡ b2) × (v / 2 ^ 8 % 256 ≡ b3) × (v / 2 ^ 16 % 256 ≡ b0) × (v / 2 ^ 24 % 256 ≡ b1)
swap_word_bytes b0 b1 b2 b3 h0 h1 h2 h3 =
    omega (arith, swap_word_sum (gathered b0 b1 b2 b3), gathered_sum b0 b1 b2 b3)

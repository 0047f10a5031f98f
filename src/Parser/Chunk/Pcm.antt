-- ===== src/Parser/Chunk/Pcm.antt =====
-- The loop over the bytes of a PCM chunk, in components/lightsnapcast/snapcast_protocol_parser.c.
use snapclient.Base.{
  ℕ, zero, suc, ◌+◌, ◌*◌, ◌/◌, ◌%◌, ◌^◌, ◌≤◌, ◌≡◌, refl, sym, ap, ◌∙◌, List, [], ◌∷◌, ◌++◌, arith,
  bit_or, Option, some, length, set, set-append, All, length-append, leb, true, drop,
}
use mathlib.Core.List.{append_assoc}
use native.Mathlib.Nat.{add-zero}
use snapclient.Base.Bytes.{IsByte}
use snapclient.Parser.Source.{Feeds}
use snapclient.Parser.Data.{read_byte-some}
use snapclient.Parser.Chunk.{swap_word, PcmLoop, take_byte, flush_word, pcm_loop, store_word}
use snapclient.Parser.Chunk.Samples.{gathered, swap_word_bytes}
use snapclient.Player.Memory.{PcmChunk, fragment_of}

-- The order in which the player's driver takes the samples: of each four bytes the last two first.
unfoldable pub swap_samples : List ℕ → List ℕ
swap_samples (b0 ∷ b1 ∷ b2 ∷ b3 ∷ bs) = b2 ∷ b3 ∷ b0 ∷ b1 ∷ swap_samples bs
swap_samples _ = []

-- The number of bytes of `k` words, and of as many with `more` bytes behind them.
abbrev pub and_words : ℕ → ℕ → ℕ
and_words zero more = more
and_words (suc k) more = suc (suc (suc (suc (and_words k more))))

abbrev pub word_bytes : ℕ → ℕ
word_bytes k = and_words k 0

-- A chunk with the block, and the loop's variables at the begin of a word.
abbrev pub holding : PcmChunk → ℕ → List ℕ → PcmChunk
holding c n block = record c { fragments = fragment_of n (some block) }

abbrev pub at_word : ℕ → PcmChunk → PcmLoop
at_word offset c = record { tmp_data = 0; shift = 3; offset = offset; chunk = some c }

abbrev pub in_word : ℕ → ℕ → ℕ → PcmChunk → PcmLoop
in_word tmp shift offset c = record {
  tmp_data = tmp;
  shift = shift;
  offset = offset;
  chunk = some c;
}

store_word-append :
    (pre rest : List ℕ) (x0 x1 x2 x3 v : ℕ)
    → store_word (pre ++ x0 ∷ x1 ∷ x2 ∷ x3 ∷ rest) (length pre) v
      ≡ pre ++ (v % 256) ∷ (v / 2 ^ 8 % 256) ∷ (v / 2 ^ 16 % 256) ∷ (v / 2 ^ 24 % 256) ∷ rest
store_word-append pre rest x0 x1 x2 x3 v =
    let z : length pre ≡ length pre + 0 = omega arith in
    ap
      (λ (i : ℕ).
        set
          (set
            (set (set (pre ++ x0 ∷ x1 ∷ x2 ∷ x3 ∷ rest) i (v % 256)) (length pre + 1)
              (v / 2 ^ 8 % 256))
            (length pre + 2) (v / 2 ^ 16 % 256))
          (length pre + 3) (v / 2 ^ 24 % 256))
      z
    ∙ rw (
      set-append pre (x0 ∷ x1 ∷ x2 ∷ x3 ∷ rest) 0 (v % 256),
      set-append pre ((v % 256) ∷ x1 ∷ x2 ∷ x3 ∷ rest) 1 (v / 2 ^ 8 % 256),
      set-append pre ((v % 256) ∷ (v / 2 ^ 8 % 256) ∷ x2 ∷ x3 ∷ rest) 2 (v / 2 ^ 16 % 256),
      set-append pre ((v % 256) ∷ (v / 2 ^ 8 % 256) ∷ (v / 2 ^ 16 % 256) ∷ x3 ∷ rest) 3
          (v / 2 ^ 24 % 256),
    )

-- The fourth byte of a word stores it, with its samples exchanged.
take_byte-last :
    (c : PcmChunk) (n : ℕ) (pre rest : List ℕ) (x0 x1 x2 x3 b0 b1 b2 b3 : ℕ)
    → IsByte b0
    → IsByte b1
    → IsByte b2
    → IsByte b3
    → take_byte b3 (
        in_word
          (bit_or (bit_or (bit_or 0 (b0 % 256 * 2 ^ 24)) (b1 % 256 * 2 ^ 16)) (b2 % 256 * 2 ^ 8))
          0
          (length pre)
          (holding c n (pre ++ x0 ∷ x1 ∷ x2 ∷ x3 ∷ rest)))
      ≡ some (at_word (length pre + 4) (holding c n (pre ++ b2 ∷ b3 ∷ b0 ∷ b1 ∷ rest)))
unfolding take_byte flush_word
take_byte-last c n pre rest x0 x1 x2 x3 b0 b1 b2 b3 h0 h1 h2 h3 =
    let v = swap_word (gathered b0 b1 b2 b3) in
    let (e0, e1, e2, e3) = swap_word_bytes b0 b1 b2 b3 h0 h1 h2 h3 in
    let room : leb (length pre + 4) (length (pre ++ x0 ∷ x1 ∷ x2 ∷ x3 ∷ rest)) ≡ true =
      ground (arith, length-append pre (x0 ∷ x1 ∷ x2 ∷ x3 ∷ rest)) in
    rw (room, store_word-append pre rest x0 x1 x2 x3 v, e0, e1, e2, e3)

pub take_byte-first :
    (b offset : ℕ) (c : PcmChunk)
    → take_byte b (at_word offset c) ≡ some (in_word (bit_or 0 (b % 256 * 2 ^ 24)) 2 offset c)
unfolding take_byte
take_byte-first b offset c = refl

pub take_byte_second :
    (b tmp offset : ℕ) (c : PcmChunk)
    → take_byte b (in_word tmp 2 offset c)
      ≡ some (in_word (bit_or tmp (b % 256 * 2 ^ 16)) 1 offset c)
unfolding take_byte
take_byte_second b tmp offset c = refl

pub take_byte_third :
    (b tmp offset : ℕ) (c : PcmChunk)
    → take_byte b (in_word tmp 1 offset c)
      ≡ some (in_word (bit_or tmp (b % 256 * 2 ^ 8)) 0 offset c)
unfolding take_byte
take_byte_third b tmp offset c = refl

module _ {W : Type 0} (get_byte : W → Option ℕ × W) where
  pub pcm_loop_step :
      (rounds b : ℕ) (l l' : PcmLoop) (w : W)
      → (get_byte w).0 ≡ some b
      → take_byte b l ≡ some l'
      → pcm_loop get_byte (suc rounds) (l, w) ≡ pcm_loop get_byte rounds (l', (get_byte w).1)
  unfolding pcm_loop
  pcm_loop_step rounds b l l' w e t = ground (arith, read_byte-some get_byte w b e)

  -- `k` whole words are stored behind what is there, with their samples exchanged.
  pub pcm_loop-words :
      (k more n : ℕ) (c : PcmChunk) (pre rest bs : List ℕ) (w w' : W)
      → Feeds get_byte w bs w'
      → All IsByte bs
      → length bs ≡ word_bytes k
      → word_bytes k ≤ length rest
      → pcm_loop get_byte (and_words k more) (at_word (length pre) (holding c n (pre ++ rest)), w)
        ≡ pcm_loop get_byte more (
          at_word
              (length pre + word_bytes k)
              (holding c n (pre ++ (swap_samples bs ++ drop (word_bytes k) rest))),
          w',
        )
  pcm_loop-words zero more n c pre rest [] w w' f a l m = unfold swap_samples in rw (f, add-zero)
  pcm_loop-words zero more n c pre rest (b ∷ bs) w w' f a l m = absurd (omega arith)
  pcm_loop-words (suc k) more n c pre [] bs w w' f a l m = absurd (omega arith)
  pcm_loop-words (suc k) more n c pre (x0 ∷ []) bs w w' f a l m = absurd (omega arith)
  pcm_loop-words (suc k) more n c pre (x0 ∷ x1 ∷ []) bs w w' f a l m = absurd (omega arith)
  pcm_loop-words (suc k) more n c pre (x0 ∷ x1 ∷ x2 ∷ []) bs w w' f a l m = absurd (omega arith)
  pcm_loop-words (suc k) more n c pre (x0 ∷ x1 ∷ x2 ∷ x3 ∷ rest) [] w w' f a l m =
      absurd (omega arith)
  pcm_loop-words (suc k) more n c pre (x0 ∷ x1 ∷ x2 ∷ x3 ∷ rest) (b0 ∷ []) w w' f a l m =
      absurd (omega arith)
  pcm_loop-words (suc k) more n c pre (x0 ∷ x1 ∷ x2 ∷ x3 ∷ rest) (b0 ∷ b1 ∷ []) w w' f a l m =
      absurd (omega arith)
  pcm_loop-words (suc k) more n c pre (x0 ∷ x1 ∷ x2 ∷ x3 ∷ rest) (b0 ∷ b1 ∷ b2 ∷ []) w w' f a l m =
      absurd (omega arith)
  pcm_loop-words (suc k) more n c pre (x0 ∷ x1 ∷ x2 ∷ x3 ∷ rest) (b0 ∷ b1 ∷ b2 ∷ b3 ∷ bs) w w'
        (f0, (f1, (f2, (f3, f)))) (h0, (h1, (h2, (h3, a)))) l m =
      let c0 = holding c n (pre ++ x0 ∷ x1 ∷ x2 ∷ x3 ∷ rest) in
      let off = length pre in
      let w1 = (get_byte w).1 in
      let w2 = (get_byte w1).1 in
      let w3 = (get_byte w2).1 in
      let next = pre ++ b2 ∷ b3 ∷ b0 ∷ b1 ∷ [] in
      let size : length next ≡ off + 4 =
        omega (arith, length-append pre (b2 ∷ b3 ∷ b0 ∷ b1 ∷ [])) in
      let end : off + 4 + word_bytes k ≡ off + word_bytes (suc k) = omega arith in
      let back : pre ++ b2 ∷ b3 ∷ b0 ∷ b1 ∷ rest ≡ next ++ rest =
        sym (append_assoc pre (b2 ∷ b3 ∷ b0 ∷ b1 ∷ []) rest) in
      pcm_loop_step (suc (suc (suc (and_words k more)))) b0 _ _ w f0 (take_byte-first b0 off c0)
      ∙ pcm_loop_step (suc (suc (and_words k more))) b1 _ _ w1 f1 (take_byte_second b1 _ off c0)
      ∙ pcm_loop_step (suc (and_words k more)) b2 _ _ w2 f2 (take_byte_third b2 _ off c0)
      ∙ pcm_loop_step (and_words k more) b3 _ _ w3 f3
          (take_byte-last c n pre rest x0 x1 x2 x3 b0 b1 b2 b3 h0 h1 h2 h3)
      ∙ rw (back, ← size)
          (pcm_loop-words k more n c next rest bs (get_byte w3).1 w' f a (omega arith) (omega arith)
            ∙ rw (size, end, append_assoc) (unfold swap_samples in refl))

-- ===== src/Player/Dma/Bounds.antt =====
-- How components/lightsnapcast/player.c divides a chunk into the buffers of the DMA.
use snapclient.Base.{
  ℕ, zero, suc, ◌*◌, ◌/◌, ◌%◌, ◌≤◌, ◌<◌, ◌^◌, ◌≡◌, refl, sym, ap, ◌∙◌, arith, leb, ◌==◌, ◌||◌,
  if◌then◌else◌, lt→ltb, Bool-cases, ◌⊎◌, inl, inr, true, false,
}
use native.Mathlib.Nat.{pow-suc, mul_assoc}
use snapclient.Player.Dma.{DmaBuffers, buffers, cannot, cut, dma_buffers}

-- The buffers hold the chunk exactly, in two or more equal parts that are shorter than the longest buffer, and in no
-- more of them than that takes; or the chunk cannot be cut so, since the part at which the halving ends is odd.
pub data Divided (frames : ℕ) : DmaBuffers → Type 0 where
  fits :
      (k len : ℕ)
      → 2 ^ suc k * len ≡ frames
      → len < 1023
      → (k ≡ 0) ⊎ (1023 ≤ len * 2)
      → Divided frames (buffers (2 ^ suc k) len)
  stays_odd :
      (k len : ℕ)
      → 2 ^ k * len ≡ frames
      → len % 2 ≡ 1
      → (k ≡ 0) ⊎ (1023 ≤ len)
      → Divided frames cannot

two_pow_pos : (k : ℕ) → 0 < 2 ^ k
two_pow_pos zero = omega arith
two_pow_pos (suc k) = omega (arith, pow-suc 2 k, two_pow_pos k)

halves : (k len : ℕ) → len % 2 ≡ 0 → 2 ^ suc k * (len / 2) ≡ 2 ^ k * len
halves k len e =
    let twice : len ≡ 2 * (len / 2) = omega (arith, e) in
    rw (pow-suc 2 k) (mul_assoc (2 ^ k) 2 (len / 2) ∙ ap (λ (n : ℕ). 2 ^ k * n) (sym twice))

not_one : (k : ℕ) → leb (2 ^ suc k) 1 ≡ false
not_one k = ground (arith, pow-suc 2 k, two_pow_pos k)

first_round : (len : ℕ) → (leb 1023 len || true) ≡ true
first_round len = ground arith

-- One round in which the parts are too long, or the only one; `next` is the next round.
round-Divided :
    (frames k len : ℕ) (next : ℕ → ℕ → DmaBuffers)
    → 2 ^ k * len ≡ frames
    → (k ≡ 0) ⊎ (1023 ≤ len)
    → (len % 2 ≡ 0 → Divided frames (next (2 ^ suc k) (len / 2)))
    → Divided frames (if len % 2 == 0 then next (2 ^ k * 2) (len / 2) else cannot)
round-Divided frames k len next whole long go = elim (Bool-cases (len % 2 == 0)) [
  | inl e ↦ rw (e, sym (pow-suc 2 k)) (go (ground arith))
  | inr o ↦ rw o (stays_odd k len whole (ground arith) long)
]

-- The part at hand is one of `2 ^ k`, and the part before it was too long, or the chunk.
cut-Divided :
    (fuel frames k len : ℕ)
    → len < fuel
    → 0 < len
    → 2 ^ k * len ≡ frames
    → (k ≤ 1) ⊎ (1023 ≤ len * 2)
    → Divided frames (cut fuel (2 ^ k) len)
unfolding cut
cut-Divided zero frames k len enough some whole before = absurd (omega (arith, enough))
cut-Divided (suc fuel) frames zero len enough some whole before = rw (first_round len) (
    round-Divided frames zero len (λ c l. cut fuel c l) whole (inl refl)
      (λ even.
        cut-Divided fuel frames 1 (len / 2) (omega (arith, even)) (omega (arith, even))
          (halves zero len even ∙ whole) (inl (omega arith))))
cut-Divided (suc fuel) frames (suc k) len enough some whole before =
    elim (Bool-cases (leb 1023 len)) [
      | inl long ↦ rw long (
          round-Divided frames (suc k) len (λ c l. cut fuel c l) whole (inr (ground arith))
            (λ even.
              cut-Divided fuel frames (suc (suc k)) (len / 2) (omega (arith, even))
                (omega (arith, even)) (halves (suc k) len even ∙ whole) (inr (ground arith))))
      | inr short ↦
          rw (short, not_one k)
            (fits k len whole (ground arith)
              (elim before [ inl e ↦ inl (omega (arith, e)) | inr e ↦ inr e ]))
    ]

not_empty : (n : ℕ) → (suc n == 0) ≡ false
not_empty n = ground arith

-- The cutting ends within as many rounds as the chunk has frames, if these are fewer than 2^31: either the buffers hold just
-- the chunk, in equal parts that are shorter than 1023 frames, at least two and no more than that takes, or the
-- driver cannot be set up, and then the halving met an odd part that was the whole chunk or too long. For a chunk
-- of unknown size that is so of 1152 frames.
pub dma_buffers-Divided :
    (fuel chk_in_frames : ℕ)
    → 1152 < fuel
    → chk_in_frames < fuel
    → chk_in_frames < 2 ^ 31
    → Divided (if chk_in_frames == 0 then 1152 else chk_in_frames) (dma_buffers fuel chk_in_frames)
unfolding dma_buffers
dma_buffers-Divided fuel zero some enough small =
    cut-Divided fuel 1152 zero 1152 some (omega arith) refl (inl (omega arith))
dma_buffers-Divided fuel (suc n) some enough small =
    rw (not_empty n, lt→ltb (suc n) (2 ^ 31) small)
      (cut-Divided fuel (suc n) zero (suc n) enough (omega arith) (omega arith) (inl (omega arith)))

-- ===== src/Player/Steer/First.antt =====
-- The first error of the time that components/lightsnapcast/player.c measures when the sound has begun.
use snapclient.Base.{ℕ, ◌+◌, ◌*◌, ◌/◌, ◌≡◌, ap, ◌∙◌}
use native.Mathlib.Nat.{mul_comm}
use snapclient.Base.Int.{ℤ, pos, ◌+ℤ◌, ◌-ℤ◌, int_laws, pos_part, neg_part}
use snapclient.Player.Sync.{buf_us, dac_latency_us}
use snapclient.Player.Playback.{Line, advance, frames_to_bytes}
use snapclient.Player.Steer.{Playing, error_us, start_line, buffer_time, div_ℤ, times_million}

difference : (a b : ℕ) → pos (a + b) -ℤ pos a ≡ pos b
difference a b = omega int_laws

error_sum :
    (began played start buffer diff buf latency late : ℤ)
    → began +ℤ diff +ℤ latency ≡ start +ℤ buf +ℤ late
    → began +ℤ played -ℤ (start -ℤ buffer +ℤ played -ℤ diff +ℤ buf -ℤ buffer -ℤ latency)
      ≡ late +ℤ buffer +ℤ buffer
error_sum began played start buffer diff buf latency late e =
    omega (int_laws, ap (λ (z : ℤ). pos_part z) e, ap (λ (z : ℤ). neg_part z) e)

module _ {Q M I F : Type 0} where
  -- The task behind the first write of the sound, of `n` bytes.
  abbrev pub first_write : ℕ → Line I → Playing Q M I F → Playing Q M I F
  first_write n l s = record s {
    line = advance s.task.own n (start_line s.task.own s.dma_frames l);
    dac_time = buffer_time s.task.own s.dma_frames;
  }

  -- The first chunk bears the time `start`, and the sound begins `late` microseconds behind the time at which it is to
  -- be heard. Then the error that is measured behind the first write is not `late`, but larger by twice the time that
  -- the DMA buffers hold: `chunkStart` is set back by this time, although the bytes written there were the first ones.
  pub error_us-first :
      (n : ℕ) (diff late : ℤ) (l : Line I) (s : Playing Q M I F)
      → s.playback_start +ℤ diff +ℤ dac_latency_us s.task.own
        ≡ l.chunk_start +ℤ buf_us s.task.own +ℤ late
      → error_us diff (first_write n l s)
        ≡ late +ℤ buffer_time s.task.own s.dma_frames +ℤ buffer_time s.task.own s.dma_frames
  unfolding error_us start_line advance
  error_us-first n diff late l s begun =
      let setting = s.task.own in
      let frames = n / frames_to_bytes setting in
      let chunk_time = pos (1000000 * frames / setting.sr) in
      let buffer = buffer_time setting s.dma_frames in
      let played =
        ap (λ (d : ℤ). div_ℤ (times_million d) setting.sr) (difference s.dma_frames frames)
        ∙ ap (λ (m : ℕ). pos (m / setting.sr)) (mul_comm frames 1000000) in
      ap
        (λ (t : ℤ).
          s.playback_start
          +ℤ t
          -ℤ (l.chunk_start
              -ℤ buffer
              +ℤ chunk_time
              -ℤ diff
              +ℤ buf_us setting
              -ℤ buffer
              -ℤ dac_latency_us setting))
        played
      ∙ error_sum s.playback_start chunk_time l.chunk_start buffer diff (buf_us setting)
          (dac_latency_us setting) late begun

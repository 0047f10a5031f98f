-- ===== src/Player/Silence/Ends.antt =====
-- When the silence of components/lightsnapcast/player.c ends.
use snapclient.Base.{
  ℕ, zero, suc, ◌+◌, ◌-◌, ◌*◌, ◌/◌, ◌%◌, ◌^◌, ◌<◌, ◌≡◌, ◌≢◌, refl, ap, ◌∙◌, arith, List, ◌++◌, Bool,
  true, false, ◌==◌, replicate,
}
use mathlib.Core.List.{append_assoc}
use snapclient.Player.Settings.{SnapcastSetting}
use snapclient.Player.Playback.{I2s, IsI2s, Line, Played, played, writing}
use snapclient.Player.Silence.{four_zeros, silence_on, write_silence}

module _ {I : Type 0} (i2s : I2s I) (sent : I → List ℕ) (room : I → ℕ) (runs : I → Bool)
    (setting : SnapcastSetting) where
  abbrev width : ℕ
  width = setting.ch * (setting.bits / 8)

  abbrev go_on : ℕ → ℕ → Line I → Played I
  go_on fuel z l = write_silence i2s fuel setting z l

  first_write :
      (fuel size : ℕ) (l : Line I) (i : I)
      → i2s.write four_zeros l.channel ≡ (true, 4, i)
      → write_silence i2s (suc fuel) setting size l
        ≡ silence_on i2s (go_on fuel) setting size l (true, 4, i)
  unfolding write_silence
  first_write fuel size l i e = ap (λ r. silence_on i2s (go_on fuel) setting size l r) e

  -- Silence of `4 * suc n` bytes ends behind as many rounds, and that many zeros are written.
  pub write_silence-ends :
      (n fuel : ℕ) (l : Line I)
      → IsI2s i2s sent room runs
      → runs l.channel ≡ true
      → n < fuel
      → 4 * suc n < 2 ^ 32
      → (i : I) × (write_silence i2s fuel setting (4 * suc n) l
          ≡ played (record l {
            channel = i;
            samples_written = l.samples_written + suc n * (4 / (setting.ch * (setting.bits / 8)));
          }))
        × (sent i ≡ sent l.channel ++ replicate (4 * suc n) 0)
        × (runs i ≡ true)
  unfolding write_silence
  write_silence-ends n zero l law r enough fits = absurd (omega (arith, enough))
  write_silence-ends zero (suc fuel) l law r enough fits =
      let (i, e, s, r') = law.written four_zeros l.channel r in
      let one : 4 / width ≡ 1 * (4 / width) = omega arith in
      (
        i,
        first_write fuel 4 l i e
            ∙ ap
                (λ (k : ℕ).
                  played (record l { channel = i; samples_written = l.samples_written + k }))
                one,
        s,
        r',
      )
  write_silence-ends (suc n) (suc fuel) l law r enough fits =
      let (i, e, s, r') = law.written four_zeros l.channel r in
      let l1 = record l { channel = i; samples_written = l.samples_written + 4 / width } in
      let (i2, e2, s2, r2) =
        write_silence-ends n fuel l1 law r' (omega (arith, enough)) (omega (arith, fits)) in
      let left : (4 * suc (suc n) + 2 ^ 32 - 4) % 2 ^ 32 ≡ 4 * suc n = omega (arith, fits) in
      let some_left : (4 * suc n == 0) ≡ false = ground arith in
      let k : suc (suc (suc (suc (4 * suc n)))) ≡ 4 * suc (suc n) = omega arith in
      let w : l.samples_written + 4 / width + suc n * (4 / width)
          ≡ l.samples_written + suc (suc n) * (4 / width) =
        grind arith in
      (
        i2,
        first_write fuel (4 * suc (suc n)) l i e
            ∙ rw (left, some_left) e2
            ∙ ap (λ (m : ℕ). played (record l { channel = i2; samples_written = m })) w,
        s2
            ∙ ap (λ (xs : List ℕ). xs ++ replicate (4 * suc n) 0) s
            ∙ append_assoc (sent l.channel) four_zeros (replicate (4 * suc n) 0)
            ∙ ap (λ (m : ℕ). sent l.channel ++ replicate m 0) k,
        r2,
      )

  -- Silence of another number of bytes never ends: a byte count that is not a multiple of four stays so, also when
  -- it wraps.
  pub write_silence-never :
      (fuel size : ℕ) (l : Line I)
      → IsI2s i2s sent room runs
      → runs l.channel ≡ true
      → size % 4 ≢ 0
      → size < 2 ^ 32
      → write_silence i2s fuel setting size l ≡ writing
  unfolding write_silence
  write_silence-never zero size l law r odd fits = refl
  write_silence-never (suc fuel) size l law r odd fits =
      let (i, e, s, r') = law.written four_zeros l.channel r in
      let l1 = record l { channel = i; samples_written = l.samples_written + 4 / width } in
      let size' = (size + 2 ^ 32 - 4) % 2 ^ 32 in
      let some_left : (size' == 0) ≡ false = ground arith in
      first_write fuel size l i e
      ∙ rw some_left (
          write_silence-never fuel size' l1 law r' (λ z. odd (omega (arith, z, fits)))
            (omega arith))

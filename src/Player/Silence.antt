-- ===== src/Player/Silence.antt =====
-- The loop of `player_task` in components/lightsnapcast/player.c that writes silence for a chunk without memory, and
-- the choice between it and the loop that writes a payload.
pub mod Ends
use snapclient.Base.{
  ℕ, zero, suc, ◌+◌, ◌-◌, ◌*◌, ◌/◌, ◌%◌, ◌^◌, List, [], ◌∷◌, Option, none, some, Bool, true, false,
  ◌==◌, ◌||◌, if◌then◌else◌,
}
use snapclient.Player.Memory.{PcmChunk}
use snapclient.Player.Settings.{SnapcastSetting}
use snapclient.Player.Playback.{
  I2s, Line, Played, played, faulted, writing, Place, start_of, frames_to_bytes, write_chunk,
}

abbrev pub four_zeros : List ℕ
four_zeros = 0 ∷ 0 ∷ 0 ∷ 0 ∷ []

module _ {I : Type 0} (i2s : I2s I) where
  -- `size_t` has 32 bits, so that `size -= written` wraps.
  abbrev pub silence_on :
      (ℕ → Line I → Played I) → SnapcastSetting → ℕ → Line I → Bool × ℕ × I → Played I
  silence_on go setting size l (good, n, i) =
      let l' = record l {
        channel = i;
        samples_written = l.samples_written + n / (setting.ch * (setting.bits / 8));
      } in
      let size' = (size + 2 ^ 32 - n) % 2 ^ 32 in
      let more = go size' l' in if size' == 0 then played l' else more

  unfoldable pub write_silence : ℕ → SnapcastSetting → ℕ → Line I → Played I
  write_silence zero setting size l = writing
  write_silence (suc fuel) setting size l =
      silence_on (λ z l'. write_silence fuel setting z l') setting size l
        (i2s.write four_zeros l.channel)

  -- What the task does with a chunk while the sound plays. The preload may have left a part of it, or `size` is 0.
  -- The divisors are `framesToBytes` and the sample rate, or the bytes of a frame.
  abbrev pub play_from : ℕ → SnapcastSetting → Place → Line I → Played I
  play_from fuel setting place l = elim place.payload [
    | none ↦
        if setting.ch * (setting.bits / 8) == 0
        then faulted
        else write_silence fuel setting place.size l
    | some bytes ↦
        if frames_to_bytes setting == 0 || setting.sr == 0
        then faulted
        else write_chunk i2s fuel setting bytes place.at place.size place.later l
  ]

  unfoldable pub play_chunk : ℕ → SnapcastSetting → Place → PcmChunk → Line I → Played I
  unfolding write_silence write_chunk
  play_chunk fuel setting place chunk l =
      play_from fuel setting (if place.size == 0 then start_of chunk.fragments else place) l

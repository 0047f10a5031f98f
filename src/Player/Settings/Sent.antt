-- ===== src/Player/Settings/Sent.antt =====
-- A call of `player_send_snapcast_setting` in components/lightsnapcast/player.c.
use snapclient.Base.{
  ℕ, ◌==◌, ◌&&◌, ◌||◌, ◌≡◌, refl, inl, inr, same, same-true, Bool, true, false, Bool-cases, arith,
}
use snapclient.Rtos.{Mailbox}
use snapclient.Parser.Codec.{Codec, no_codec, pcm, flac, ogg, opus}
use snapclient.Player.Settings.{
  SnapcastSetting, SettingsState, codec_number, agree, can_start, player_send_snapcast_setting,
}

codec_number-injective : (a b : Codec) → codec_number a ≡ codec_number b → a ≡ b
codec_number-injective no_codec no_codec e = refl
codec_number-injective pcm pcm e = refl
codec_number-injective flac flac e = refl
codec_number-injective ogg ogg e = refl
codec_number-injective opus opus e = refl
codec_number-injective a b e = absurd (omega arith)

and-true : (a b : Bool) → (a && b) ≡ true → (a ≡ true) × (b ≡ true)
and-true true b e = (refl, e)
and-true false b e = absurd (cc)

-- Settings that agree are the same.
pub agree-true : (a b : SnapcastSetting) → agree a b ≡ true → a ≡ b
agree-true a b e =
    let r8 = a.c_dac_lat_ms == b.c_dac_lat_ms in
    let r7 = a.volume == b.volume && r8 in
    let r6 = a.sr == b.sr && r7 in
    let r5 = same a.muted b.muted && r6 in
    let r4 = codec_number a.codec == codec_number b.codec && r5 in
    let r3 = a.chk_in_frames == b.chk_in_frames && r4 in
    let r2 = a.ch == b.ch && r3 in
    let r1 = a.buf_ms == b.buf_ms && r2 in
    let (bits, e1) = and-true (a.bits == b.bits) r1 e in
    let (buf, e2) = and-true (a.buf_ms == b.buf_ms) r2 e1 in
    let (ch, e3) = and-true (a.ch == b.ch) r3 e2 in
    let (frames, e4) = and-true (a.chk_in_frames == b.chk_in_frames) r4 e3 in
    let (codec, e5) = and-true (codec_number a.codec == codec_number b.codec) r5 e4 in
    let (muted, e6) = and-true (same a.muted b.muted) r6 e5 in
    let (sr, e7) = and-true (a.sr == b.sr) r7 e6 in
    let (volume, latency) = and-true (a.volume == b.volume) r8 e7 in
    let k0 : a.bits ≡ b.bits = ground (arith, bits) in
    let k1 : a.buf_ms ≡ b.buf_ms = ground (arith, buf) in
    let k2 : a.ch ≡ b.ch = ground (arith, ch) in
    let k3 : a.chk_in_frames ≡ b.chk_in_frames = ground (arith, frames) in
    let k4 = codec_number-injective a.codec b.codec (ground (arith, codec)) in
    let k5 = same-true a.muted b.muted muted in
    let k6 : a.sr ≡ b.sr = ground (arith, sr) in
    let k7 : a.volume ≡ b.volume = ground (arith, volume) in
    let k8 : a.c_dac_lat_ms ≡ b.c_dac_lat_ms = ground (arith, latency) in cc

module _ {Q : Type 0} (mailbox : Mailbox ℕ Q) where
  -- What was sent is what the settings are afterwards, in every field and whether or not it was a change; it
  -- is enough to start the player once it was complete.
  pub player_send_snapcast_setting_lem :
      (setting : SnapcastSetting) (s : SettingsState Q)
      → let s' = player_send_snapcast_setting mailbox setting s in
        (s'.current ≡ setting)
        × (s'.got_settings ≡ (s.got_settings || can_start setting))
        × (s'.has_task ≡ s.has_task)
  unfolding player_send_snapcast_setting
  player_send_snapcast_setting_lem setting s = elim (Bool-cases (agree s.current setting)) [
    | inl agrees ↦ rw agrees (agree-true s.current setting agrees, refl, refl)
    | inr differ ↦ elim (Bool-cases s.has_task) [
      | inl task ↦ rw (differ, task) (refl, refl, refl)
      | inr idle ↦ rw (differ, idle) (refl, refl, refl)
    ]
  ]

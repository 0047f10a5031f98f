-- ===== src/Client/Handlers/Laws.antt =====
-- The handlers of main/main.c for the codec header and for the server's settings.
use snapclient.Base.{
  ℕ, ◌+◌, ◌<◌, ◌==◌, ◌≡◌, refl, ap, sym, ◌∙◌, inl, inr, arith, List, ◌++◌, Option, none, some,
  false, Bool-cases, leb, same, same-true, if◌then◌else◌, length,
}
use snapclient.Base.Bytes.{le_bytes}
use snapclient.Rtos.{Mailbox}
use snapclient.Parser.{Outcome, fault}
use snapclient.Parser.Codec.{pcm}
use snapclient.Message.Settings.{ServerSettings}
use snapclient.Player.Settings.{SnapcastSetting}
use snapclient.Player.Settings.Sent.{player_send_snapcast_setting_lem}
use snapclient.Client.Dac.{DacData, DacState, audio_set_mute, audio_set_volume}
use snapclient.Client.Handlers.{
  Client, Decoders, field_two, field_four, mute_if_changed, volume_if_changed, close_decoders,
  format_of, codec_header_received, server_settings_msg_received,
}

field_two-none : (payload : List ℕ) (at : ℕ) → length payload < at + 2 → field_two payload at ≡ none
unfolding field_two
field_two-none payload at h =
    let k : leb (at + 2) (length payload) ≡ false = ground (arith, h) in rw k refl

module _ {D L Q M : Type 0} (dac_queue : Mailbox DacData D) (news : Mailbox ℕ M) where
  format_of-no_bits :
      (rate channels : Option ℕ) (give : ℕ → ℕ → ℕ → Outcome (Client D L Q M) (Unit {0}))
      (c : Client D L Q M)
      → format_of dac_queue news rate none channels give c ≡ fault c
  format_of-no_bits none channels give c = refl
  format_of-no_bits (some rate) channels give c = refl

-- The header of a WAV file: the channels at byte 22, the rate at 24 and the bits of a sample at 34.
abbrev pub wav_header : List ℕ → ℕ → ℕ → List ℕ → ℕ → List ℕ → List ℕ
wav_header before channels rate between bits after =
    before ++ (le_bytes 2 channels ++ (le_bytes 4 rate ++ (between ++ (le_bytes 2 bits ++ after))))

module _ {D L Q M : Type 0} (dac_queue : Mailbox DacData D) (news : Mailbox ℕ M) where
  -- A PCM header of less than 36 bytes is read behind its end.
  pub codec_header_received-short :
      (decoders : Decoders D L Q M) (payload : List ℕ) (c : Client D L Q M)
      → length payload < 36
      → codec_header_received dac_queue news decoders payload pcm c
        ≡ fault (close_decoders dac_queue news c)
  unfolding codec_header_received
  codec_header_received-short decoders payload c h =
      let k : field_two payload 34 ≡ none = field_two-none payload 34 (omega (arith, h)) in
      rw k (
        format_of-no_bits dac_queue news (field_four payload 24) (field_two payload 22) _
          (close_decoders dac_queue news c))

module _ {D : Type 0} (dac_queue : Mailbox DacData D) where
  mute_if_changed_lem :
      (message : ServerSettings) (setting : SnapcastSetting) (d : DacState D)
      → let d' = mute_if_changed dac_queue message setting d in
        (d'.requested.mute
          ≡ (if same setting.muted message.muted then d.requested.mute else message.muted))
        × (d'.requested.volume ≡ d.requested.volume)
  unfolding audio_set_mute
  mute_if_changed_lem message setting d = elim (Bool-cases (same setting.muted message.muted)) [
    | inl unchanged ↦ rw unchanged (refl, refl)
    | inr changed ↦ elim (Bool-cases (same message.muted d.requested.mute)) [
      | inl requested ↦
          rw (changed, requested) (sym (same-true message.muted d.requested.mute requested), refl)
      | inr other ↦ rw (changed, other) (refl, refl)
    ]
  ]

  volume_if_changed_lem :
      (message : ServerSettings) (setting : SnapcastSetting) (d : DacState D)
      → let d' = volume_if_changed dac_queue message setting d in
        (d'.requested.volume
          ≡ (if setting.volume == message.volume then d.requested.volume else message.volume))
        × (d'.requested.mute ≡ d.requested.mute)
  unfolding audio_set_volume
  volume_if_changed_lem message setting d = elim (Bool-cases (setting.volume == message.volume)) [
    | inl unchanged ↦ rw unchanged (refl, refl)
    | inr changed ↦ elim (Bool-cases (message.volume == d.requested.volume)) [
      | inl requested ↦ rw (changed, requested) (sym (ground (arith, requested)), refl)
      | inr other ↦ rw (changed, other) (refl, refl)
    ]
  ]

module _ {D L Q M : Type 0} (dac_queue : Mailbox DacData D) (news : Mailbox ℕ M) where
  -- The player is told of the server's buffer, latency, mute and volume. The DAC is asked for the mute and the
  -- volume if they differ from those of the client's settings; otherwise its request stays what it was.
  pub server_settings_msg_received_lem :
      (message : ServerSettings) (c : Client D L Q M)
      → let t = server_settings_msg_received dac_queue news message c in
        let setting = c.flac.setting in
        (t.player.settings.current ≡ record setting {
          c_dac_lat_ms = message.latency;
          buf_ms = message.buffer_ms;
          muted = message.muted;
          volume = message.volume;
        })
        × (t.flac.setting ≡ t.player.settings.current)
        × (t.dac.requested.mute
            ≡ (if same setting.muted message.muted then c.dac.requested.mute else message.muted))
        × (t.dac.requested.volume
            ≡ (if setting.volume == message.volume then c.dac.requested.volume else message.volume))
  unfolding server_settings_msg_received
  server_settings_msg_received_lem message c =
      let setting = c.flac.setting in
      let d = mute_if_changed dac_queue message setting c.dac in
      let (volume, keeps_mute) = volume_if_changed_lem dac_queue message setting d in
      let (mute, keeps_volume) = mute_if_changed_lem dac_queue message setting c.dac in
      let setting' : SnapcastSetting = record setting {
        c_dac_lat_ms = message.latency;
        buf_ms = message.buffer_ms;
        muted = message.muted;
        volume = message.volume;
      } in
      let (current, got, task) = player_send_snapcast_setting_lem news setting' c.player.settings in
      (
        current,
        sym current,
        keeps_mute ∙ mute,
        volume
            ∙ ap (λ v. if setting.volume == message.volume then v else message.volume) keeps_volume,
      )

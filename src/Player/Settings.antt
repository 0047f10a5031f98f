-- ===== src/Player/Settings.antt =====
-- The settings of components/lightsnapcast/player.c, which the client's task sets and the player's task
-- takes over. Each access to them holds a mutex.
pub mod Sent
pub mod Informed
pub mod Taken
use snapclient.Base.{
  ℕ, ◌^◌, ◌==◌, ◌&&◌, ◌||◌, not, same, Bool, true, false, Option, none, some, List, [], ◌∷◌, ltb,
  if◌then◌else◌,
}
use snapclient.Rtos.{Mailbox}
use snapclient.Parser.Codec.{Codec, no_codec, pcm, flac, ogg, opus}

-- `snapcastSetting_t`, without `pcmBuf` and `pcmBufSize`, which nothing reads. An int32_t is its bit
-- pattern.
pub record SnapcastSetting : Type 0 where
  pub buf_ms : ℕ
  pub chk_in_frames : ℕ
  pub c_dac_lat_ms : ℕ
  pub codec : Codec
  pub sr : ℕ
  pub ch : ℕ
  pub bits : ℕ
  pub muted : Bool
  pub volume : ℕ

-- The numbers of `codec_type_t`.
abbrev pub codec_number : Codec → ℕ
codec_number no_codec = 0
codec_number pcm = 1
codec_number flac = 2
codec_number ogg = 3
codec_number opus = 4

abbrev pub zero_setting : SnapcastSetting
zero_setting = record {
  buf_ms = 0;
  chk_in_frames = 0;
  c_dac_lat_ms = 0;
  codec = no_codec;
  sr = 0;
  ch = 0;
  bits = 0;
  muted = false;
  volume = 0;
}

-- Whether two settings agree in every field.
abbrev pub agree : SnapcastSetting → SnapcastSetting → Bool
agree a b =
    a.bits == b.bits
    && (a.buf_ms == b.buf_ms
        && (a.ch == b.ch
            && (a.chk_in_frames == b.chk_in_frames
                && (codec_number a.codec == codec_number b.codec
                    && (same a.muted b.muted
                        && (a.sr == b.sr
                            && (a.volume == b.volume && a.c_dac_lat_ms == b.c_dac_lat_ms)))))))

-- `currentSnapcastSetting`, `gotSettings`, whether `playerTaskHandle` is set, and
-- `snapcastSettingQueueHandle`.
pub record SettingsState (Q : Type 0) : Type 0 where
  pub current : SnapcastSetting
  pub got_settings : Bool
  pub has_task : Bool
  pub changed : Option Q

-- `sr > 0` of an int32_t.
abbrev pub is_rate : ℕ → Bool
is_rate sr = ltb 0 sr && ltb sr (2 ^ 31)

-- A setting that the player can start with, and one that its task takes over.
abbrev pub can_start : SnapcastSetting → Bool
can_start s =
    ltb 0 s.bits && (ltb 0 s.buf_ms && (ltb 0 s.ch && (ltb 0 s.chk_in_frames && is_rate s.sr)))

abbrev pub can_take : SnapcastSetting → Bool
can_take s = ltb 0 s.buf_ms && (ltb 0 s.chk_in_frames && is_rate s.sr)

-- What the client's task has to do to send a setting, after it has read the current one and compared it.
pub data Access : Type 0 where
  set : SnapcastSetting → Access
  notify : Access

abbrev pub send_accesses : SnapcastSetting → SnapcastSetting → List Access
send_accesses current setting = if agree current setting then [] else set setting ∷ notify ∷ []

module _ {Q : Type 0} (mailbox : Mailbox ℕ Q) where
  -- `xQueueOverwrite`, if there is a task and a queue to tell.
  abbrev pub notify_task : SettingsState Q → SettingsState Q
  notify_task s =
      if s.has_task
      then record s {
        changed = elim s.changed [ none ↦ none | some q ↦ some (mailbox.overwrite 1 q) ];
      }
      else s

  abbrev pub player_set_snapcast_settings : SnapcastSetting → SettingsState Q → SettingsState Q
  player_set_snapcast_settings setting s = record s { current = setting }

  abbrev pub player_get_snapcast_settings : SettingsState Q → SnapcastSetting
  player_get_snapcast_settings s = s.current

  -- A mutex is held, or the queue is used, for one of these accesses; other tasks may run between two of them.
  abbrev pub access : Access → SettingsState Q → SettingsState Q
  access (set setting) s = player_set_snapcast_settings setting s
  access notify s = notify_task s

  abbrev pub access_all : List Access → SettingsState Q → SettingsState Q
  access_all [] s = s
  access_all (a ∷ rest) s = access_all rest (access a s)

  -- The call of the client's task when no other task runs meanwhile. The result is always `pdPASS`.
  unfoldable pub player_send_snapcast_setting : SnapcastSetting → SettingsState Q → SettingsState Q
  player_send_snapcast_setting setting s =
      let s' = access_all (send_accesses (player_get_snapcast_settings s) setting) s in
      record s' { got_settings = s'.got_settings || can_start setting }

  unfoldable pub receive_changed : SettingsState Q → Option (ℕ × Q)
  receive_changed s = elim s.changed [ none ↦ none | some q ↦ mailbox.receive q ]

  -- What `player_task` does first in each round: a notification is taken from the queue, and then the settings are
  -- settings_copied, with other tasks between, to its own if they are complete.
  abbrev pub news_received : SettingsState Q → Option (ℕ × Q) → Bool × SettingsState Q
  news_received s none = (false, s)
  news_received s (some (n, q)) = (true, record s { changed = some q })

  abbrev pub settings_copied : SnapcastSetting → SettingsState Q → SnapcastSetting
  settings_copied own s =
      let setting = player_get_snapcast_settings s in if can_take setting then setting else own

  abbrev pub take_over :
      SnapcastSetting → Bool × SettingsState Q → SnapcastSetting × SettingsState Q
  take_over own (false, s) = (own, s)
  take_over own (true, s) = (settings_copied own s, s)

  -- The start of the round when no other task runs meanwhile.
  unfoldable pub take_settings :
      SnapcastSetting → SettingsState Q → SnapcastSetting × SettingsState Q
  unfolding receive_changed
  take_settings own s = take_over own (news_received s (receive_changed s))

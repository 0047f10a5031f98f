-- ===== src/Player/Takeover.antt =====
-- What `player_task` of components/lightsnapcast/player.c does when it has got other settings: the driver is set
-- up for another format, and the queue of chunks is made anew for another buffer. The times in microseconds that
-- it computes from the settings are not stored here a second time.
pub mod Renewed
pub mod Kept
use snapclient.Base.{
  ℕ, zero, suc, List, [], ◌∷◌, Option, none, some, Bool, true, false, ltb, ◌==◌, ◌&&◌, ◌||◌, not,
  if◌then◌else◌,
}
use snapclient.Rtos.{Queue}
use snapclient.Player.Memory.{PcmChunk}
use snapclient.Player.Settings.{SnapcastSetting}
use snapclient.Player.Chunks.{PlayerState, Drivers, destroy_pcm_queue, entries}

-- The task's variables `scSet`, `queueCreatedWithChkInFrames` and `initialSync`, whether the channel is enabled,
-- and the calls of `audio_set_mute`, the last one first.
pub record Task : Type 0 where
  pub own : SnapcastSetting
  pub created_with : ℕ
  pub initial_sync : Bool
  pub i2s_enabled : Bool
  pub mutes : List Bool

-- The task goes on, or it returns since the driver could not be set up; `draining` is a loop that still runs.
pub data Round (Q M : Type 0) : Type 0 where
  goes_on : Task → PlayerState Q M → Round Q M
  ended : Task → PlayerState Q M → Round Q M
  draining : Round Q M

abbrev pub new_format : SnapcastSetting → SnapcastSetting → Bool
new_format own setting =
    not (own.sr == setting.sr) || (not (own.bits == setting.bits) || not (own.ch == setting.ch))

abbrev pub new_buffer : SnapcastSetting → SnapcastSetting → ℕ → Bool
new_buffer own setting created_with =
    not (own.buf_ms == setting.buf_ms) || ltb setting.chk_in_frames created_with

-- The channel is enabled, muted and disabled before the driver is set up.
abbrev pub silenced : Task → Task
silenced t = record t { i2s_enabled = false; mutes = true ∷ t.mutes }

-- At the end the mute is passed on, unless the sound begins anew.
abbrev pub settled : SnapcastSetting → Task → Task
settled setting t =
    if new_format t.own setting || not (t.own.buf_ms == setting.buf_ms)
    then record t { own = setting }
    else record t { own = setting; mutes = setting.muted ∷ t.mutes }

module _ {Q M : Type 0} (queue : Queue PcmChunk Q) where
  abbrev pub renew : Drivers M → SnapcastSetting → Option Q → Task → PlayerState Q M → Round Q M
  renew drivers setting none t s =
      goes_on (settled setting (record t { created_with = setting.chk_in_frames }))
        (record s { queue = queue.create (entries queue drivers setting) })
  renew drivers setting (some q) t s = goes_on (settled setting t) s

  abbrev pub renew_after :
      Drivers M → SnapcastSetting → Task → Option (ℕ × PlayerState Q M) → Round Q M
  renew_after drivers setting t none = draining
  renew_after drivers setting t (some (code, s)) = renew drivers setting s.queue t s

  unfoldable pub renew_queue : Drivers M → ℕ → SnapcastSetting → Task → PlayerState Q M → Round Q M
  renew_queue drivers fuel setting t s =
      if new_buffer t.own setting t.created_with
      then renew_after drivers setting t (destroy_pcm_queue queue fuel s)
      else renew drivers setting s.queue t s

  -- The settings are complete.
  unfoldable pub adopt_settings :
      Drivers M → ℕ → SnapcastSetting → Task → PlayerState Q M → Round Q M
  unfolding renew_queue
  adopt_settings drivers fuel setting t s =
      if new_format t.own setting
      then if drivers.setup_i2s setting
        then renew_queue drivers fuel setting (record (silenced t) { initial_sync = false }) s
        else ended (silenced t) s
      else renew_queue drivers fuel setting t s

-- The player behind a round of the task.
abbrev pub player_after : {Q M : Type 0} → PlayerState Q M → Round Q M → PlayerState Q M
player_after s (goes_on t s') = s'
player_after s (ended t s') = s'
player_after s draining = s

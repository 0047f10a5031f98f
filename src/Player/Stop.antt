-- ===== src/Player/Stop.antt =====
-- How the player stops, in components/lightsnapcast/player.c: the end of `player_task` for want of chunks, and
-- `deinit_player`. The handles of its semaphores are not kept.
pub mod Restarts
use snapclient.Base.{ℕ, Option, none, some, true, false}
use snapclient.Rtos.{Queue}
use snapclient.Player.Memory.{PcmChunk}
use snapclient.Player.Chunks.{PlayerState, destroy_pcm_queue}
use snapclient.Player.Channel.{Channel, my_i2s_channel_disable, delete_channel, end_channel}
use snapclient.Player.Timer.{Timer, tg0_timer_deinit}

-- The player with its I2S channel and its timer.
pub record Devices (Q M : Type 0) : Type 0 where
  pub player : PlayerState Q M
  pub channel : Channel
  pub timer : Timer

module _ {Q M : Type 0} where
  -- The player with no task, and without the queue for the settings.
  abbrev pub without_task : PlayerState Q M → PlayerState Q M
  without_task s = record s { settings = record s.settings { has_task = false } }

  abbrev pub without_changed : PlayerState Q M → PlayerState Q M
  without_changed s = record s { settings = record s.settings { changed = none } }

  -- Behind `destroy_pcm_queue`.
  abbrev pub ended : Devices Q M → Option (ℕ × PlayerState Q M) → Option (Devices Q M)
  ended d none = none
  ended d (some (code, s)) = some (record d {
    player = without_task (record s { started = false });
    timer = tg0_timer_deinit d.timer;
  })

  abbrev pub deinited : Devices Q M → Option (ℕ × PlayerState Q M) → Option (ℕ × Devices Q M)
  deinited d none = none
  deinited d (some (code, s)) =
      some (code, record d { player = s; timer = tg0_timer_deinit d.timer })

module _ {Q M : Type 0} (queue : Queue PcmChunk Q) where
  -- From the receive that found no chunk to the end of the task; `none` is a loop that still runs.
  unfoldable pub end_task : ℕ → Devices Q M → Option (Devices Q M)
  end_task fuel d =
      ended (record d { channel = end_channel d.channel })
        (destroy_pcm_queue queue fuel (without_changed d.player))

  -- `during` is what the player's task does while this waits for at most ten seconds. Then the task is deleted.
  unfoldable pub deinit_player :
      ℕ → (Devices Q M → Devices Q M) → Devices Q M → Option (ℕ × Devices Q M)
  deinit_player fuel during d =
      let d' = during (record d { channel = my_i2s_channel_disable d.channel }) in
      deinited (record d' { channel = delete_channel d'.channel })
        (destroy_pcm_queue queue fuel (without_task d'.player))
